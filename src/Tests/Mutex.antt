-- ===== src/Tests/Mutex.antt =====
-- mutex.hpp and mutex.cpp: a kernel with one mutex and a running thread, in which a wait for the
-- mutex of another thread is aborted.
use threadx_cpp.Prelude.{
  ℕ, ◌+◌, ◌-◌, ◌<◌, ◌≤◌, ◌≡◌, ◌≢◌, inr, refl, true, List, [], ◌∷◌, ◌||◌, M, returns, arith, ◌==◌,
  if◌then◌else◌,
}
use threadx_cpp.Common.{Error, success, wait_aborted, to_error, to_underlying}
use threadx_cpp.Ticks.{ticks, ceil, conversion}
use threadx_cpp.Ticks.Reduce.{reduce, gcd}
use threadx_cpp.Mutex.{Mutex, lock, try_lock_for, guarded}
use threadx_cpp.Mutex.Exclusion.{
  Call, locks_by, unlocks_by, gained, lost, SwitchLaws, run, tells_of_one_holder,
}
use threadx_cpp.Mutex.Guard.{Holds, HoldsNot, guarded_cases}
use threadx_cpp.Mutex.Native.{MutexApi, MutexLaws, NativeMutex}
use threadx_cpp.Mutex.Recursion.{IsHeld, try_lock_many, unlock_many, try_lock_many-unlock_many}
use threadx_cpp.Tests.Platforms.{target, target-IsSupported}

record Kernel : Type 0 where
  mutex : NativeMutex
  thread : ℕ

abbrev api : MutexApi Kernel
api = record {
  create = λ a n i k. (0, k);
  delete = λ a k. (0, k);
  get = λ a w k.
      if k.mutex.locks == 0 || k.mutex.owner == k.thread
      then (
        0,
        record k { mutex = record { is_idle = true; owner = k.thread; locks = k.mutex.locks + 1 } },
      )
      else (if w == 0 then 29 else 26, k);
  put = λ a k.
      if k.mutex.locks == 0
      then (30, k)
      else if k.mutex.owner == k.thread
      then (0, record k { mutex = record k.mutex { locks = k.mutex.locks - 1 } })
      else (30, k);
  prioritize = λ a k. (0, k);
  name = λ a k. "";
  owner = λ a k. k.mutex.owner;
}

laws : MutexLaws api
unfolding to_underlying
laws = record {
  view = λ k a. k.mutex;
  thread = λ k. k.thread;
  get_done = λ a w k idle own. ground arith;
  get_refused = λ a k idle held other. ground arith;
  get_success = λ a w k done. ground arith;
  get_failed = λ a w k other failed. ground (arith, other);
  put_done = λ a k idle held own. ground arith;
  put_refused = λ a k idle other. ground arith;
}

abbrev held_by : ℕ → ℕ → Kernel
held_by owner n = record { mutex = record { is_idle = true; owner = owner; locks = n }; thread = 1 }

abbrev held_once : NativeMutex
held_once = record { is_idle = true; owner = 1; locks = 1 }

held_once-IsHeld : IsHeld 1 1 held_once
held_once-IsHeld = record { idle = refl; locked = refl; by_thread = inr refl }

abbrev mutex : Mutex
mutex = record { address = 0xb000 }

try_lock_many-unlock_many_example :
    (k1 : Kernel) × (k2 : Kernel) × (try_lock_many target api mutex 2 (held_by 1 1)
      ≡ returns (success ∷ success ∷ [], k1))
    × IsHeld k1.thread 3 k1.mutex
    × (unlock_many target api mutex 2 k1 ≡ returns (success ∷ success ∷ [], k2))
    × IsHeld k2.thread 1 k2.mutex
unfolding laws
try_lock_many-unlock_many_example =
    try_lock_many-unlock_many target target-IsSupported api laws mutex 2 1 (held_by 1 1)
      held_once-IsHeld

-- The threads 1 and 2 by turns.
abbrev calls : List Call
calls = locks_by 1 ∷ locks_by 2 ∷ unlocks_by 2 ∷ unlocks_by 1 ∷ locks_by 2 ∷ []

abbrev switch : ℕ → Kernel → Kernel
switch i k = record k { thread = i }

switches : SwitchLaws laws switch
unfolding laws
switches = record { running = λ i k. refl; untouched = λ i a k. refl }

tells_of_one_holder_example :
    (es : List Error) × (k' : Kernel) × (run target api switch mutex calls (held_by 0 0)
      ≡ returns (es, k'))
    × ((i : ℕ) → lost i calls es ≤ gained i calls es)
    × ((i j : ℕ)
        → lost i calls es < gained i calls es
        → lost j calls es < gained j calls es
        → i ≡ j)
unfolding laws
tells_of_one_holder_example =
    tells_of_one_holder target target-IsSupported api laws switch switches mutex calls (held_by 0 0)
      refl refl

-- The section gives the owner that it finds.
abbrev section : M Kernel ℕ
section k = returns (k.mutex.owner, k)

guarded_cases_example :
    (k3 : Kernel) × (guarded target api mutex section (held_by 2 1) ≡ returns (2, k3))
    × (wait_aborted ≡ success
        → Holds 1 (held_by 2 1).mutex
          × (true ≡ true
              → Holds 1 (held_by 2 1).mutex
              → k3.mutex ≡ record (held_by 2 1).mutex { locks = 0 }))
    × (wait_aborted ≢ success
        → HoldsNot 1 (held_by 2 1).mutex
          × (true ≡ true → HoldsNot 1 (held_by 2 1).mutex → k3.mutex ≡ (held_by 2 1).mutex))
unfolding laws lock try_lock_for to_error ticks ceil conversion reduce gcd
guarded_cases_example =
    guarded_cases target api laws mutex section 2 wait_aborted (held_by 2 1) (held_by 2 1)
      (held_by 2 1) (inr (λ e. omega arith)) refl refl
