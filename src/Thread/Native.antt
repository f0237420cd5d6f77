-- ===== src/Thread/Native.antt =====
-- The thread services of ThreadX that thread.hpp and thread.cpp call: parameters of the model.
-- `LifeLaws` states what the ThreadX manual says of the creation and the deletion of threads whose
-- stacks are blocks of one block pool.
use threadx_cpp.Prelude.{
  ℕ, suc, ◌-◌, ◌≤◌, ◌<◌, ◌≡◌, ◌≢◌, String, Bool, true, false, Option, none, some, update,
}
use threadx_cpp.Pool.Native.{PoolApi}

-- The fields of the stack in the control block of a thread.
pub record NativeStack : Type 0 where
  pub stack_size : ℕ
  pub stack_ptr : ℕ
  pub stack_end : ℕ
  pub stack_highest_ptr : ℕ

-- The services, over the state K of the kernel. A thread is named by the address of its control
-- block; `running` is the one that calls. `create` takes the name, the memory and the size of the
-- stack, the priority, the preemption threshold, the time slice and the start type.
pub record ThreadApi (K : Type 0) : Type 0 where
  pub create : ℕ → String → ℕ → ℕ → ℕ → ℕ → ℕ → ℕ → K → ℕ × K
  pub entry_exit_notify : ℕ → K → ℕ × K
  pub stack_error_notify : Bool → K → ℕ × K
  pub terminate : ℕ → K → ℕ × K
  pub delete : ℕ → K → ℕ × K
  pub resume : ℕ → K → ℕ × K
  pub suspend : ℕ → K → ℕ × K
  pub reset : ℕ → K → ℕ × K
  pub wait_abort : ℕ → K → ℕ × K
  pub preemption_change : ℕ → ℕ → K → ℕ × K
  pub priority_change : ℕ → ℕ → K → ℕ × K
  pub time_slice_change : ℕ → ℕ → K → ℕ × K
  pub sleep : ℕ → K → ℕ × K
  pub relinquish : K → K
  pub running : K → ℕ
  pub state : ℕ → K → ℕ
  pub stack : ℕ → K → NativeStack
  pub preempt_threshold : ℕ → K → ℕ
  pub user_priority : ℕ → K → ℕ
  pub new_time_slice : ℕ → K → ℕ
  pub name : ℕ → K → String

-- A thread that exists: where its stack stands, and whether it is completed or terminated.
pub record NativeThread : Type 0 where
  pub stack_start : ℕ
  pub is_finished : Bool

-- The free blocks of the pool, the blocks that are given out, and the threads that exist.
pub record View : Type 0 where
  pub free : ℕ
  pub given : ℕ → Bool
  pub thread : ℕ → Option NativeThread

-- No thread that exists has its stack in the block.
abbrev pub IsUnused : (ℕ → Option NativeThread) → ℕ → Type 0
IsUnused thread b = (a : ℕ) (t : NativeThread) → thread a ≡ some t → t.stack_start ≢ b

-- A pool with blocks of the size `size`, with the smallest stack and the number of priorities that
-- ThreadX is configured with, while no other thread runs. A block must be released only where no
-- stack is in it, and a thread deleted only when it is completed or terminated.
pub record LifeLaws {K : Type 0} (pool size : ℕ) (pools : PoolApi K) (api : ThreadApi K)
    : Type 0 where
  pub view : K → View
  pub minimum_stack : ℕ
  pub max_priorities : ℕ
  pub block_size_lem : (k : K) → pools.block_size pool k ≡ size
  pub allocate_done :
      (w : ℕ) (k : K)
      → 0 < (view k).free
      → let (code, b, k') = pools.block_allocate pool w k in
        (code ≡ 0)
        × ((view k).given b ≡ false)
        × (view k'
            ≡ record (view k) { free = (view k).free - 1; given = update (view k).given b true })
  pub allocate_refused : (k : K) → (view k).free ≡ 0 → (pools.block_allocate pool 0 k).0 ≡ 16
  pub release_done :
      (b : ℕ) (k : K)
      → (view k).given b ≡ true
      → IsUnused (view k).thread b
      → let (code, k') = pools.block_release b k in
        (code ≡ 0)
        × (view k'
            ≡ record (view k) { free = suc (view k).free; given = update (view k).given b false })
  pub create_done :
      (a : ℕ) (n : String) (b s priority threshold slice start : ℕ) (k : K)
      → (view k).thread a ≡ none
      → (view k).given b ≡ true
      → IsUnused (view k).thread b
      → minimum_stack ≤ s
      → priority < max_priorities
      → threshold ≤ priority
      → start < 2
      → let (code, k') = api.create a n b s priority threshold slice start k in
        (code ≡ 0)
        × (view k' ≡ record (view k) {
          thread =
              update (view k).thread a (some (record { stack_start = b; is_finished = false }));
        })
  pub create_bad_priority :
      (a : ℕ) (n : String) (b s priority threshold slice start : ℕ) (k : K)
      → (view k).thread a ≡ none
      → minimum_stack ≤ s
      → max_priorities ≤ priority
      → (api.create a n b s priority threshold slice start k).0 ≡ 15
  pub create_bad_threshold :
      (a : ℕ) (n : String) (b s priority threshold slice start : ℕ) (k : K)
      → (view k).thread a ≡ none
      → minimum_stack ≤ s
      → priority < max_priorities
      → priority < threshold
      → (api.create a n b s priority threshold slice start k).0 ≡ 24
  pub entry_exit_notify_done :
      (a : ℕ) (t : NativeThread) (k : K)
      → (view k).thread a ≡ some t
      → ((api.entry_exit_notify a k).0 ≡ 0) × (view (api.entry_exit_notify a k).1 ≡ view k)
  pub terminate_done :
      (a : ℕ) (t : NativeThread) (k : K)
      → (view k).thread a ≡ some t
      → let (code, k') = api.terminate a k in
        (code ≡ 0)
        × (view k' ≡ record (view k) {
          thread = update (view k).thread a (some (record t { is_finished = true }));
        })
  pub delete_done :
      (a : ℕ) (t : NativeThread) (k : K)
      → (view k).thread a ≡ some t
      → t.is_finished ≡ true
      → let (code, k') = api.delete a k in
        (code ≡ 0) × (view k' ≡ record (view k) { thread = update (view k).thread a none })
