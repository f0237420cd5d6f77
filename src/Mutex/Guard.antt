-- ===== src/Mutex/Guard.antt =====
-- mutex.hpp, `LockGuard`: whether the section under a guard has the mutex.
use threadx_cpp.Prelude.{
  ℕ, ◌-◌, ◌<◌, ◌≡◌, ◌≢◌, ◌⊎◌, sym, ap, subst, ◌∙◌, M, ◌>>=◌, ◌>>◌, bind-eq, pure, returns, true,
}
use threadx_cpp.Common.{
  Platform, Error, success, to_error, to_underlying, to_error_of_zero, to_underlying-to_error,
}
use threadx_cpp.Ticks.{wait_forever, ticks}
use threadx_cpp.Mutex.{Mutex, lock, try_lock_for, unlock, construct_guard, destruct_guard, guarded}
use threadx_cpp.Mutex.Native.{MutexApi, MutexLaws, NativeMutex}

-- The thread with the number t holds the mutex, or does not.
abbrev pub Holds : ℕ → NativeMutex → Type 0
Holds t v = (0 < v.locks) × (v.owner ≡ t)

abbrev pub HoldsNot : ℕ → NativeMutex → Type 0
HoldsNot t v = (v.locks ≡ 0) ⊎ (v.owner ≢ t)

module _ {K : Type 0} (p : Platform) (api : MutexApi K) (laws : MutexLaws api) where
  open laws use {view, thread, get_success, get_failed, put_done, put_refused}

  -- What `lock` returns is what the service returns.
  lock_lem :
      (self : Mutex) (k k1 : K) (error : Error)
      → lock p api self k ≡ returns (error, k1)
      → let service = api.get self.address (ticks p (wait_forever p)) k in
        (to_error service.0 ≡ error) × (service.1 ≡ k1)
  unfolding lock try_lock_for
  lock_lem self k k1 error e = (cc, cc)

  -- A thread that does not hold a mutex runs a section under a LockGuard, and `lock` returns the
  -- error in it: whatever the error is, the section runs, and its result is that of the whole. If it
  -- is success the thread holds the mutex when the section begins, and if it still does at the end,
  -- with the mutex idle, the guard unlocks it once. Otherwise the thread does not hold the mutex when
  -- the section begins, and if the section ends in such a state, with the mutex idle, the guard does
  -- not change it.
  pub guarded_cases :
      {A : Type 0} (self : Mutex) (section : M K A) (a : A) (error : Error) (k k1 k2 : K)
      → HoldsNot (thread k) (view k self.address)
      → lock p api self k ≡ returns (error, k1)
      → section k1 ≡ returns (a, k2)
      → (k3 : K) × (guarded p api self section k ≡ returns (a, k3))
        × (error ≡ success
            → Holds (thread k1) (view k1 self.address)
              × ((view k2 self.address).is_idle ≡ true
                  → Holds (thread k2) (view k2 self.address)
                  → view k3 self.address
                    ≡ record (view k2 self.address) { locks = (view k2 self.address).locks - 1 }))
        × (error ≢ success
            → HoldsNot (thread k1) (view k1 self.address)
              × ((view k2 self.address).is_idle ≡ true
                  → HoldsNot (thread k2) (view k2 self.address)
                  → view k3 self.address ≡ view k2 self.address))
  unfolding guarded construct_guard destruct_guard unlock to_underlying
  guarded_cases self section a error k k1 k2 before locked ran =
      let m = self.address in
      let w = ticks p (wait_forever p) in
      let code = (api.get m w k).0 in
      let (told, same) = lock_lem self k k1 error locked in
      (
        (api.put m k2).1,
        bind-eq (lock p api self)
              (λ _. pure tt >> (section >>= λ b. destruct_guard p api self >> pure b)) k locked
            ∙ bind-eq section (λ b. destruct_guard p api self >> pure b) k1 ran,
        λ good.
            let done : code ≡ 0 =
              sym (to_underlying-to_error code) ∙ ap to_underlying (told ∙ good) in
            let (locks, owner, _) = get_success m w k done in
            (
              subst (λ u. Holds (thread u) (view u m)) same (locks, owner),
              λ idle still. (put_done m k2 idle still.0 still.1).1,
            ),
        λ bad.
            let failed = get_failed m w k before (λ z. bad (sym told ∙ to_error_of_zero code z)) in
            (
              subst (λ u. HoldsNot (thread u) (view u m)) same failed.0,
              λ idle still. (put_refused m k2 idle still).1,
            ),
      )
