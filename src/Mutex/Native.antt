-- ===== src/Mutex/Native.antt =====
-- The mutexes of ThreadX that mutex.hpp and mutex.cpp call: parameters of the model. `MutexLaws`
-- states what the ThreadX manual says of a mutex for which no thread is suspended.
use threadx_cpp.Prelude.{ℕ, ◌+◌, ◌-◌, ◌<◌, ◌≡◌, ◌≢◌, ◌⊎◌, String, Bool, true}
use threadx_cpp.Common.{not_available, not_owned, to_underlying}

-- The services, over the state K of the kernel. A mutex is named by the address of its control
-- block; `name` and `owner` read fields of that block.
pub record MutexApi (K : Type 0) : Type 0 where
  pub create : ℕ → String → ℕ → K → ℕ × K
  pub delete : ℕ → K → ℕ × K
  pub get : ℕ → ℕ → K → ℕ × K
  pub put : ℕ → K → ℕ × K
  pub prioritize : ℕ → K → ℕ × K
  pub name : ℕ → K → String
  pub owner : ℕ → K → ℕ

-- What ThreadX keeps of a mutex: how often its owner has locked it, and that thread, which counts
-- while the first is not 0. A mutex is idle when it is created and no thread is suspended for it.
pub record NativeMutex : Type 0 where
  pub is_idle : Bool
  pub owner : ℕ
  pub locks : ℕ

-- A thread gets an idle mutex that is free or its own, once more; without waiting it is refused
-- with TX_NOT_AVAILABLE if another thread has it. The owner puts it once; any other thread is
-- refused with TX_NOT_OWNED. None of this changes which thread runs. However long a thread waits for a
-- mutex that it does not hold, it holds it afterwards if it is told so, and not if it is given an
-- error.
pub record MutexLaws {K : Type 0} (api : MutexApi K) : Type 0 where
  pub view : K → ℕ → NativeMutex
  pub thread : K → ℕ
  pub get_done :
      (a w : ℕ) (k : K)
      → (view k a).is_idle ≡ true
      → ((view k a).locks ≡ 0) ⊎ ((view k a).owner ≡ thread k)
      → ((api.get a w k).0 ≡ 0)
        × (view (api.get a w k).1 a
            ≡ record { is_idle = true; owner = thread k; locks = (view k a).locks + 1 })
        × (thread (api.get a w k).1 ≡ thread k)
  pub get_refused :
      (a : ℕ) (k : K)
      → (view k a).is_idle ≡ true
      → 0 < (view k a).locks
      → (view k a).owner ≢ thread k
      → ((api.get a 0 k).0 ≡ to_underlying not_available)
        × (view (api.get a 0 k).1 a ≡ view k a)
        × (thread (api.get a 0 k).1 ≡ thread k)
  pub get_success :
      (a w : ℕ) (k : K)
      → (api.get a w k).0 ≡ 0
      → let k' = (api.get a w k).1 in
        (0 < (view k' a).locks) × ((view k' a).owner ≡ thread k') × (thread k' ≡ thread k)
  pub get_failed :
      (a w : ℕ) (k : K)
      → ((view k a).locks ≡ 0) ⊎ ((view k a).owner ≢ thread k)
      → (api.get a w k).0 ≢ 0
      → let k' = (api.get a w k).1 in
        (((view k' a).locks ≡ 0) ⊎ ((view k' a).owner ≢ thread k')) × (thread k' ≡ thread k)
  pub put_done :
      (a : ℕ) (k : K)
      → (view k a).is_idle ≡ true
      → 0 < (view k a).locks
      → (view k a).owner ≡ thread k
      → ((api.put a k).0 ≡ 0)
        × (view (api.put a k).1 a ≡ record (view k a) { locks = (view k a).locks - 1 })
        × (thread (api.put a k).1 ≡ thread k)
  pub put_refused :
      (a : ℕ) (k : K)
      → (view k a).is_idle ≡ true
      → ((view k a).locks ≡ 0) ⊎ ((view k a).owner ≢ thread k)
      → ((api.put a k).0 ≡ to_underlying not_owned)
        × (view (api.put a k).1 a ≡ view k a)
        × (thread (api.put a k).1 ≡ thread k)
