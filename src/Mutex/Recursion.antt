-- ===== src/Mutex/Recursion.antt =====
-- mutex.cpp: `tryLock` and `unlock` by the owner and by others, and locks within locks.
use threadx_cpp.Prelude.{
  ℕ, zero, suc, ◌+◌, ◌<◌, ◌≡◌, ◌≢◌, ◌⊎◌, inl, inr, refl, sym, ap, subst, ◌∙◌, true, List, [], ◌∷◌,
  replicate, M, ◌>>=◌, bind-eq, pure, returns, arith,
}
use threadx_cpp.Common.{
  Platform, IsSupported, Error, success, not_available, not_owned, call, to_error_of,
  to_error_of_zero,
}
use threadx_cpp.Ticks.Deadline.{ticks_of_special_waits}
use threadx_cpp.Mutex.{Mutex, try_lock, unlock}
use threadx_cpp.Mutex.Native.{MutexApi, MutexLaws, NativeMutex}

-- The mutex is in the hands of the thread with the number t, n times.
pub record IsHeld (t n : ℕ) (v : NativeMutex) : Type 0 where
  pub idle : v.is_idle ≡ true
  pub locked : v.locks ≡ n
  pub by_thread : (n ≡ 0) ⊎ (v.owner ≡ t)

recount : {t n m : ℕ} {v : NativeMutex} → n ≡ m → IsHeld t n v → IsHeld t m v
recount {t} {n} {m} {v} e h = subst (λ l. IsHeld t l v) e h

module _ {K : Type 0} (p : Platform) (api : MutexApi K) where
  -- n calls, one after the other.
  unfoldable pub try_lock_many : Mutex → ℕ → M K (List Error)
  try_lock_many self zero = pure []
  try_lock_many self (suc n) = do e ← try_lock p api self; es ← try_lock_many self n; pure (e ∷ es)

  unfoldable pub unlock_many : Mutex → ℕ → M K (List Error)
  unlock_many self zero = pure []
  unlock_many self (suc n) = do e ← unlock p api self; es ← unlock_many self n; pure (e ∷ es)

module _ {K : Type 0} (p : Platform) (supported : IsSupported p) (api : MutexApi K)
    (laws : MutexLaws api) where
  open laws use {view, thread, get_done, get_refused, put_done, put_refused}

  pub try_lock-get :
      (self : Mutex) (k : K) → try_lock p api self k ≡ call (api.get self.address 0) k
  unfolding try_lock
  try_lock-get self k =
      ap (λ w. call (api.get self.address w) k) (ticks_of_special_waits p supported).0

  -- A mutex is got once more by the thread that holds it n times, or by any thread if n is 0.
  try_lock_lem :
      (self : Mutex) (n : ℕ) (k : K)
      → IsHeld (thread k) n (view k self.address)
      → (k' : K) × (try_lock p api self k ≡ returns (success, k'))
        × IsHeld (thread k') (suc n) (view k' self.address)
  try_lock_lem self n k h =
      let k' = (api.get self.address 0 k).1 in
      let free_or_own =
        elim h.by_thread
          as (λ _. ((view k self.address).locks ≡ 0) ⊎ ((view k self.address).owner ≡ thread k)) [
            | inl none_left ↦ inl (h.locked ∙ none_left)
            | inr own ↦ inr own
          ] in
      let (code, after, same) = get_done self.address 0 k h.idle free_or_own in
      (
        k',
        try_lock-get self k ∙ ap (λ e. returns (e, k')) (to_error_of_zero _ code),
        record {
          idle = ap (λ (v : NativeMutex). v.is_idle) after;
          locked = omega (arith, ap (λ (v : NativeMutex). v.locks) after, h.locked);
          by_thread = inr (ap (λ (v : NativeMutex). v.owner) after ∙ sym same);
        },
      )

  unlock_lem :
      (self : Mutex) (n : ℕ) (k : K)
      → IsHeld (thread k) (suc n) (view k self.address)
      → (k' : K) × (unlock p api self k ≡ returns (success, k'))
        × IsHeld (thread k') n (view k' self.address)
  unfolding unlock
  unlock_lem self n k h =
      let k' = (api.put self.address k).1 in
      let own = elim h.by_thread as (λ _. (view k self.address).owner ≡ thread k) [
        | inl none_left ↦ absurd (omega arith)
        | inr own ↦ own
      ] in
      let (code, after, same) = put_done self.address k h.idle (omega (arith, h.locked)) own in
      (
        k',
        ap (λ e. returns (e, k')) (to_error_of_zero _ code),
        record {
          idle = ap (λ (v : NativeMutex). v.is_idle) after ∙ h.idle;
          locked = omega (arith, ap (λ (v : NativeMutex). v.locks) after, h.locked);
          by_thread = inr (ap (λ (v : NativeMutex). v.owner) after ∙ own ∙ sym same);
        },
      )

  try_lock_many_lem :
      (self : Mutex) (n m : ℕ) (k : K)
      → IsHeld (thread k) m (view k self.address)
      → (k' : K) × (try_lock_many p api self n k ≡ returns (replicate n success, k'))
        × IsHeld (thread k') (n + m) (view k' self.address)
  unfolding try_lock_many
  try_lock_many_lem self zero m k h = (k, refl, recount (omega arith) h)
  try_lock_many_lem self (suc n) m k h =
      let (k1, first, h1) = try_lock_lem self m k h in
      let (k', others, h') = try_lock_many_lem self n (suc m) k1 h1 in
      (
        k',
        bind-eq (try_lock p api self) _ k first ∙ bind-eq (try_lock_many p api self n) _ k1 others,
        recount (omega arith) h',
      )

  unlock_many_lem :
      (self : Mutex) (n m : ℕ) (k : K)
      → IsHeld (thread k) (n + m) (view k self.address)
      → (k' : K) × (unlock_many p api self n k ≡ returns (replicate n success, k'))
        × IsHeld (thread k') m (view k' self.address)
  unfolding unlock_many
  unlock_many_lem self zero m k h = (k, refl, recount (omega arith) h)
  unlock_many_lem self (suc n) m k h =
      let (k1, first, h1) = unlock_lem self (n + m) k (recount (omega arith) h) in
      let (k', others, h') = unlock_many_lem self n m k1 h1 in
      (
        k',
        bind-eq (unlock p api self) _ k first ∙ bind-eq (unlock_many p api self n) _ k1 others,
        h',
      )

  -- A mutex is recursive: a thread that holds an idle mutex m times, or finds it free for m = 0, can
  -- lock it n times more without waiting, and unlock it n times; every call succeeds, between the
  -- two it holds it m + n times, and after them m times again.
  pub try_lock_many-unlock_many :
      (self : Mutex) (n m : ℕ) (k : K)
      → IsHeld (thread k) m (view k self.address)
      → (k1 : K) × (k2 : K) × (try_lock_many p api self n k ≡ returns (replicate n success, k1))
        × IsHeld (thread k1) (n + m) (view k1 self.address)
        × (unlock_many p api self n k1 ≡ returns (replicate n success, k2))
        × IsHeld (thread k2) m (view k2 self.address)
  try_lock_many-unlock_many self n m k h =
      let (k1, locked, between) = try_lock_many_lem self n m k h in
      let (k2, unlocked, last) = unlock_many_lem self n m k1 between in
      (k1, k2, locked, between, unlocked, last)

  -- While another thread holds an idle mutex, `tryLock` returns TX_NOT_AVAILABLE without waiting and
  -- `unlock` returns TX_NOT_OWNED; neither changes the mutex.
  pub refused_to_others :
      (self : Mutex) (k : K)
      → (view k self.address).is_idle ≡ true
      → 0 < (view k self.address).locks
      → (view k self.address).owner ≢ thread k
      → (k1 : K) × (k2 : K) × (try_lock p api self k ≡ returns (not_available, k1))
        × (view k1 self.address ≡ view k self.address)
        × (unlock p api self k ≡ returns (not_owned, k2))
        × (view k2 self.address ≡ view k self.address)
  unfolding unlock
  refused_to_others self k idle held other =
      let (get_code, after_get, _) = get_refused self.address k idle held other in
      let (put_code, after_put, _) = put_refused self.address k idle (inr other) in
      let k1 = (api.get self.address 0 k).1 in
      let k2 = (api.put self.address k).1 in
      (
        k1,
        k2,
        try_lock-get self k ∙ ap (λ e. returns (e, k1)) (to_error_of _ not_available tt get_code),
        after_get,
        ap (λ e. returns (e, k2)) (to_error_of _ not_owned tt put_code),
        after_put,
      )
