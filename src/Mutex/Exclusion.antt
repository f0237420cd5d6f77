-- ===== src/Mutex/Exclusion.antt =====
-- mutex.cpp: several threads that call `tryLock` and `unlock`, one call after the other, and what
-- they can tell from the results.
use threadx_cpp.Prelude.{
  ℕ, ◌+◌, ◌-◌, ◌≤◌, ◌<◌, ◌≡◌, ◌≢◌, ◌⊎◌, inl, inr, refl, ap, ◌∙◌, subst, true, List, [], ◌∷◌, M,
  ◌>>=◌, bind-eq, pure, returns, arith, ◌==◌, ℕ_discrete, if◌then◌else◌,
}
use threadx_cpp.Common.{
  Platform, IsSupported, Error, success, not_available, not_owned, is_success, to_underlying,
  to_error_of, to_error_of_zero,
}
use threadx_cpp.Mutex.{Mutex, try_lock, unlock}
use threadx_cpp.Mutex.Native.{MutexApi, MutexLaws, NativeMutex}
use threadx_cpp.Mutex.Recursion.{try_lock-get}

-- A call by the thread with a number.
pub data Call : Type 0 where
  locks_by unlocks_by : ℕ → Call

-- How often the thread i was told that it has locked the mutex, and that it has unlocked it.
abbrev pub gain : ℕ → Call → Error → ℕ
gain i (locks_by j) e = if j == i then (if is_success e then 1 else 0) else 0
gain i (unlocks_by j) e = 0

abbrev pub loss : ℕ → Call → Error → ℕ
loss i (locks_by j) e = 0
loss i (unlocks_by j) e = if j == i then (if is_success e then 1 else 0) else 0

abbrev pub gained : ℕ → List Call → List Error → ℕ
gained i (c ∷ cs) (e ∷ es) = gain i c e + gained i cs es
gained i _ _ = 0

abbrev pub lost : ℕ → List Call → List Error → ℕ
lost i (c ∷ cs) (e ∷ es) = loss i c e + lost i cs es
lost i _ _ = 0

-- How often the thread i holds the mutex.
abbrev pub share : ℕ → NativeMutex → ℕ
share i v = if v.owner == i then v.locks else 0

share_got :
    (i j : ℕ) (v : NativeMutex)
    → (v.locks ≡ 0) ⊎ (v.owner ≡ i)
    → share j (record { is_idle = true; owner = i; locks = v.locks + 1 })
      ≡ share j v + (if i == j then 1 else 0)
share_got i j v h = ground (arith, h)

share_put :
    (i j : ℕ) (v : NativeMutex)
    → 0 < v.locks
    → v.owner ≡ i
    → share j (record v { locks = v.locks - 1 }) + (if i == j then 1 else 0) ≡ share j v
share_put i j v pos own = ground (arith, pos, own)

share_of_free : (i : ℕ) (v : NativeMutex) → v.locks ≡ 0 → share i v ≡ 0
share_of_free i v free = ground (arith, free)

share_pos_one : (i j : ℕ) (v : NativeMutex) → 0 < share i v → 0 < share j v → i ≡ j
share_pos_one i j v h h' = ground arith

one_or_none : (i j : ℕ) → ◌≡◌ {A = ℕ} (if i == j then 0 else 0) 0
one_or_none i j = ground arith

-- The scheduler lets a thread run, which does not touch the mutex.
pub record SwitchLaws {K : Type 0} {api : MutexApi K} (laws : MutexLaws api) (switch : ℕ → K → K)
    : Type 0 where
  pub running : (i : ℕ) (k : K) → laws.thread (switch i k) ≡ i
  pub untouched : (i a : ℕ) (k : K) → laws.view (switch i k) a ≡ laws.view k a

module _ {K : Type 0} (p : Platform) (api : MutexApi K) (switch : ℕ → K → K) where
  unfoldable pub step : Mutex → Call → M K Error
  step self (locks_by i) k = try_lock p api self (switch i k)
  step self (unlocks_by i) k = unlock p api self (switch i k)

  unfoldable pub run : Mutex → List Call → M K (List Error)
  run self [] = pure []
  run self (c ∷ cs) = do e ← step self c; es ← run self cs; pure (e ∷ es)

module _ {K : Type 0} (p : Platform) (supported : IsSupported p) (api : MutexApi K)
    (laws : MutexLaws api) (switch : ℕ → K → K) (switches : SwitchLaws laws switch) where
  open laws use {view, thread, get_done, get_refused, put_done, put_refused}
  open switches use {running, untouched}

  -- What a call does to a mutex and to the shares of the threads in it.
  abbrev Shares : Mutex → NativeMutex → Call → M K Error → K → Type 0
  Shares self v c m k =
      (e : Error) × (k' : K) × (m k ≡ returns (e, k'))
      × ((view k' self.address).is_idle ≡ true)
      × ((j : ℕ) → share j (view k' self.address) + loss j c e ≡ share j v + gain j c e)

  got_lem :
      (self : Mutex) (i : ℕ) (k : K)
      → (view k self.address).is_idle ≡ true
      → thread k ≡ i
      → ((view k self.address).locks ≡ 0) ⊎ ((view k self.address).owner ≡ thread k)
      → Shares self (view k self.address) (locks_by i) (try_lock p api self) k
  unfolding is_success to_underlying
  got_lem self i k idle runs mine =
      let a = self.address in
      let (code, after, _) = get_done a 0 k idle mine in
      (
        success,
        (api.get a 0 k).1,
        try_lock-get p supported api laws self k
            ∙ ap (λ e. returns (e, (api.get a 0 k).1)) (to_error_of_zero _ code),
        ap (λ (u : NativeMutex). u.is_idle) after,
        λ j. omega (
          arith,
          ap (share j) after,
          share_got (thread k) j (view k a) mine,
          ap {A = ℕ} {B = ℕ} (λ t. if t == j then 1 else 0) runs,
        ),
      )

  try_lock_lem :
      (self : Mutex) (i : ℕ) (k : K)
      → (view k self.address).is_idle ≡ true
      → thread k ≡ i
      → Shares self (view k self.address) (locks_by i) (try_lock p api self) k
  unfolding is_success to_underlying
  try_lock_lem self i k idle runs =
      let a = self.address in
      elim (ℕ_discrete (view k a).locks 0) [
        | yes none_left ↦ got_lem self i k idle runs (inl none_left)
        | no locked ↦ elim (ℕ_discrete (view k a).owner (thread k)) [
          | yes own ↦ got_lem self i k idle runs (inr own)
          | no other ↦
              let (code, after, _) = get_refused a k idle (omega arith) other in
              (
                not_available,
                (api.get a 0 k).1,
                try_lock-get p supported api laws self k
                    ∙ ap (λ e. returns (e, (api.get a 0 k).1))
                        (to_error_of _ not_available tt code),
                ap (λ (u : NativeMutex). u.is_idle) after ∙ idle,
                λ j. omega (arith, ap (share j) after, one_or_none i j),
              )
        ]
      ]

  not_put_lem :
      (self : Mutex) (i : ℕ) (k : K)
      → (view k self.address).is_idle ≡ true
      → ((view k self.address).locks ≡ 0) ⊎ ((view k self.address).owner ≢ thread k)
      → Shares self (view k self.address) (unlocks_by i) (unlock p api self) k
  unfolding unlock is_success to_underlying
  not_put_lem self i k idle other =
      let a = self.address in
      let (code, after, _) = put_refused a k idle other in
      (
        not_owned,
        (api.put a k).1,
        ap (λ e. returns (e, (api.put a k).1)) (to_error_of _ not_owned tt code),
        ap (λ (u : NativeMutex). u.is_idle) after ∙ idle,
        λ j. omega (arith, ap (share j) after, one_or_none i j),
      )

  unlock_lem :
      (self : Mutex) (i : ℕ) (k : K)
      → (view k self.address).is_idle ≡ true
      → thread k ≡ i
      → Shares self (view k self.address) (unlocks_by i) (unlock p api self) k
  unfolding unlock is_success to_underlying
  unlock_lem self i k idle runs =
      let a = self.address in
      elim (ℕ_discrete (view k a).locks 0) [
        | yes none_left ↦ not_put_lem self i k idle (inl none_left)
        | no locked ↦ elim (ℕ_discrete (view k a).owner (thread k)) [
          | no other ↦ not_put_lem self i k idle (inr other)
          | yes own ↦
              let (code, after, _) = put_done a k idle (omega arith) own in
              (
                success,
                (api.put a k).1,
                ap (λ e. returns (e, (api.put a k).1)) (to_error_of_zero _ code),
                ap (λ (u : NativeMutex). u.is_idle) after ∙ idle,
                λ j. omega (
                  arith,
                  ap (share j) after,
                  share_put (thread k) j (view k a) (omega arith) own,
                  ap {A = ℕ} {B = ℕ} (λ t. if t == j then 1 else 0) runs,
                ),
              )
        ]
      ]

  step_lem :
      (self : Mutex) (c : Call) (k : K)
      → (view k self.address).is_idle ≡ true
      → Shares self (view k self.address) c (step p api switch self c) k
  unfolding step
  step_lem self (locks_by i) k idle =
      let same = untouched i self.address k in
      subst (λ v. Shares self v (locks_by i) (step p api switch self (locks_by i)) k) same
        (try_lock_lem self i (switch i k) (ap (λ (v : NativeMutex). v.is_idle) same ∙ idle)
          (running i k))
  step_lem self (unlocks_by i) k idle =
      let same = untouched i self.address k in
      subst (λ v. Shares self v (unlocks_by i) (step p api switch self (unlocks_by i)) k) same
        (unlock_lem self i (switch i k) (ap (λ (v : NativeMutex). v.is_idle) same ∙ idle)
          (running i k))

  run_lem :
      (self : Mutex) (cs : List Call) (k : K)
      → (view k self.address).is_idle ≡ true
      → (es : List Error) × (k' : K) × (run p api switch self cs k ≡ returns (es, k'))
        × ((j : ℕ)
            → share j (view k' self.address) + lost j cs es
              ≡ share j (view k self.address) + gained j cs es)
  unfolding run
  run_lem self [] k idle = ([], k, refl, λ j. refl)
  run_lem self (c ∷ cs) k idle =
      let (e, k1, first, idle1, shares) = step_lem self c k idle in
      let (es, k', others, rest) = run_lem self cs k1 idle1 in
      (
        e ∷ es,
        k',
        bind-eq (step p api switch self c) _ k first
            ∙ bind-eq (run p api switch self cs) _ k1 others,
        λ j. omega (arith, shares j, rest j),
      )

  -- In any sequence of `tryLock` and `unlock` by any threads, from an idle mutex that nobody holds,
  -- every call returns, no thread is told more often that it has unlocked the mutex than that it has
  -- locked it, and no two threads have been told more often that they have locked it than that they
  -- have unlocked it.
  pub tells_of_one_holder :
      (self : Mutex) (cs : List Call) (k : K)
      → (view k self.address).is_idle ≡ true
      → (view k self.address).locks ≡ 0
      → (es : List Error) × (k' : K) × (run p api switch self cs k ≡ returns (es, k'))
        × ((i : ℕ) → lost i cs es ≤ gained i cs es)
        × ((i j : ℕ) → lost i cs es < gained i cs es → lost j cs es < gained j cs es → i ≡ j)
  tells_of_one_holder self cs k idle free =
      let (es, k', done, shares) = run_lem self cs k idle in
      let v = view k self.address in
      let none_yet = (λ (i : ℕ). share_of_free i v free) in
      (
        es,
        k',
        done,
        λ i. omega (arith, shares i, none_yet i),
        λ i j i_holds j_holds.
            share_pos_one i j (view k' self.address) (omega (arith, shares i, none_yet i))
              (omega (arith, shares j, none_yet j)),
      )
