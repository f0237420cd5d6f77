-- ===== src/Semaphore/Native.antt =====
-- The counting semaphores of ThreadX that semaphore.hpp and semaphore.cpp call: parameters of the
-- model. `SemaphoreLaws` states what the ThreadX manual says of them.
use threadx_cpp.Prelude.{ℕ, ◌+◌, ◌-◌, ◌≤◌, ◌<◌, ◌≡◌, String, Bool, true, ◌==◌, if◌then◌else◌}
use threadx_cpp.Common.{ceiling_exceeded, no_instance, to_underlying}

-- The services, over the state K of the kernel. A semaphore is named by the address of its control
-- block; `count` and `name` read fields of that block.
pub record SemaphoreApi (K : Type 0) : Type 0 where
  pub create : ℕ → String → ℕ → K → ℕ × K
  pub put_notify : ℕ → K → ℕ × K
  pub ceiling_put : ℕ → ℕ → K → ℕ × K
  pub take : ℕ → ℕ → K → ℕ × K
  pub prioritize : ℕ → K → ℕ × K
  pub delete : ℕ → K → ℕ × K
  pub count : ℕ → K → ℕ
  pub name : ℕ → K → String

-- What ThreadX keeps of a semaphore: its count, and how many threads are suspended for an instance.
pub record NativeSemaphore : Type 0 where
  pub is_created : Bool
  pub count : ℕ
  pub waiting : ℕ

-- An instance that is put goes to a suspended thread if there is one, and is counted otherwise.
abbrev pub put_one : NativeSemaphore → NativeSemaphore
put_one v =
    if v.waiting == 0
    then record v { count = v.count + 1 }
    else record v { waiting = v.waiting - 1 }

-- For a created semaphore: a put at the ceiling returns TX_CEILING_EXCEEDED and puts nothing, and
-- one below it puts an instance; an instance that is there is taken at once, and without waiting
-- there is otherwise TX_NO_INSTANCE. Creation with success gives the initial count, and the
-- registration of a notification changes no count; the deletion succeeds.
pub record SemaphoreLaws {K : Type 0} (api : SemaphoreApi K) : Type 0 where
  pub view : K → ℕ → NativeSemaphore
  pub count_lem : (a : ℕ) (k : K) → api.count a k ≡ (view k a).count
  pub create_done :
      (a : ℕ) (n : String) (c : ℕ) (k : K)
      → (api.create a n c k).0 ≡ 0
      → view (api.create a n c k).1 a ≡ record { is_created = true; count = c; waiting = 0 }
  pub put_notify_lem : (a : ℕ) (k : K) → view (api.put_notify a k).1 a ≡ view k a
  pub put_refused :
      (a c : ℕ) (k : K)
      → (view k a).is_created ≡ true
      → 0 < c
      → c ≤ (view k a).count
      → ((api.ceiling_put a c k).0 ≡ to_underlying ceiling_exceeded)
        × (view (api.ceiling_put a c k).1 a ≡ view k a)
  pub put_done :
      (a c : ℕ) (k : K)
      → (view k a).is_created ≡ true
      → (view k a).count < c
      → ((api.ceiling_put a c k).0 ≡ 0) × (view (api.ceiling_put a c k).1 a ≡ put_one (view k a))
  pub take_done :
      (a w : ℕ) (k : K)
      → (view k a).is_created ≡ true
      → 0 < (view k a).count
      → ((api.take a w k).0 ≡ 0)
        × (view (api.take a w k).1 a ≡ record (view k a) { count = (view k a).count - 1 })
  pub take_refused :
      (a : ℕ) (k : K)
      → (view k a).is_created ≡ true
      → (view k a).count ≡ 0
      → ((api.take a 0 k).0 ≡ to_underlying no_instance) × (view (api.take a 0 k).1 a ≡ view k a)
  pub delete_done : (a : ℕ) (k : K) → (view k a).is_created ≡ true → (api.delete a k).0 ≡ 0
