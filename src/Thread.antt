-- ===== src/Thread.antt =====
-- thread.hpp and thread.cpp: the class Thread, and the functions of ThisThread. `join` and the
-- notifications are in Join.
pub mod Native
pub mod ThisThread
pub mod Stack
pub mod Join
pub mod Protocol
pub mod JoinSafety
pub mod JoinInv
pub mod JoinStep
pub mod JoinOne
pub mod JoinTwo
pub mod JoinFinished
pub mod Exit
pub mod Publish
pub mod PublishStep
pub mod ExitRun
pub mod Life
use threadx_cpp.Prelude.{
  ℕ, ◌+◌, ◌-◌, ◌*◌, ◌/◌, ◌%◌, ◌^◌, Bool, false, not, ◌&&◌, Option, none, some, String, M, ◌>>=◌,
  ◌>>◌, pure, assert, returns, aborts, ◌==◌, if◌then◌else◌,
}
use threadx_cpp.Common.{Platform, Error, not_done, call, to_error, is_success}
use threadx_cpp.Ticks.{Duration, Clock, time_left, no_wait, ticks}
use threadx_cpp.Pool.{
  BytePool, BlockPool, Allocation, allocate_bytes, allocate_block, block_size, release_bytes,
  release_block,
}
use threadx_cpp.Pool.Native.{PoolApi}
use threadx_cpp.Kernel.{in_thread}
use threadx_cpp.Kernel.Native.{KernelApi}
use Native.{ThreadApi, NativeStack}

pub data ThreadStartType : Type 0 where
  dont_start auto_start : ThreadStartType

abbrev pub default_priority : ℕ
default_priority = 16

abbrev pub no_time_slice : ℕ
no_time_slice = 0

abbrev pub start_code : ThreadStartType → ℕ
start_code dont_start = 0
start_code auto_start = 1

pub data ThreadState : Type 0 where
  ready completed terminated suspended sleep queue_susp semaphore_susp eveny_flag : ThreadState
  block_memory byte_memory io_driver file tcp_ip mutex_susp priority_change : ThreadState

abbrev pub state_code : ThreadState → ℕ
state_code ready = 0
state_code completed = 1
state_code terminated = 2
state_code suspended = 3
state_code sleep = 4
state_code queue_susp = 5
state_code semaphore_susp = 6
state_code eveny_flag = 7
state_code block_memory = 8
state_code byte_memory = 9
state_code io_driver = 10
state_code file = 11
state_code tcp_ip = 12
state_code mutex_susp = 13
state_code priority_change = 14

pub data ThreadNotifyCondition : Type 0 where
  entry exit : ThreadNotifyCondition

-- `std::function<void(Thread &, const ThreadNotifyCondition)>`: empty, or what a call does to the
-- kernel.
abbrev pub NotifyCallback : Type 0 → Type 0
NotifyCallback K = Option (ℕ → ThreadNotifyCondition → K → K)

-- The object; `exit_signal` is the address of the semaphore of a thread that joins.
pub record Thread (K : Type 0) : Type 0 where
  pub address : ℕ
  pub stack_alloc : Allocation
  pub entry_exit_notify_callback : NotifyCallback K
  pub exit_signal : Option ℕ

module _ {K : Type 0} {Posture : Type 0} (p : Platform) (kernel : KernelApi K Posture)
    (pools : PoolApi K) (api : ThreadApi K) where
  unfoldable pub init : Thread K → String → ℕ → ℕ → ℕ → ℕ → ThreadStartType → M K (Unit {0})
  init self name stack_size priority threshold time_slice start = do
    error ← call (
        api.create self.address name self.stack_alloc.memory_ptr stack_size priority threshold
          time_slice (start_code start))
    assert (is_success error)
    noted ← call (api.entry_exit_notify self.address)
    assert (is_success noted)

  abbrev pub new_thread : ℕ → Allocation → NotifyCallback K → Thread K
  new_thread address alloc callback = record {
    address = address;
    stack_alloc = alloc;
    entry_exit_notify_callback = callback;
    exit_signal = none;
  }

  -- The constructors, with the address at which the object stands. The allocations do not wait.
  unfoldable pub construct_in_byte_pool :
      ℕ → String → BytePool → ℕ → NotifyCallback K → ℕ → ℕ → ℕ → ThreadStartType → M K (Thread K)
  construct_in_byte_pool address name pool stack_size callback priority threshold time_slice start =
      do
        alloc ← allocate_bytes p pools pool stack_size (no_wait p)
        let self : Thread K = new_thread address alloc callback
        init self name stack_size priority threshold time_slice start
        pure self

  unfoldable pub construct_in_block_pool :
      ℕ → String → BlockPool → NotifyCallback K → ℕ → ℕ → ℕ → ThreadStartType → M K (Thread K)
  construct_in_block_pool address name pool callback priority threshold time_slice start = do
    alloc ← allocate_block p pools pool (no_wait p)
    stack_size ← λ k. returns (block_size p pools pool k, k)
    let self : Thread K = new_thread address alloc callback
    init self name stack_size priority threshold time_slice start
    pure self

  -- The call that leaves the threshold, the time slice and the start type to their defaults.
  unfoldable pub construct_with_priority :
      ℕ → String → BlockPool → NotifyCallback K → ℕ → M K (Thread K)
  unfolding construct_in_block_pool
  construct_with_priority address name pool callback priority =
      construct_in_block_pool address name pool callback priority default_priority no_time_slice
        auto_start

  -- The body of the destructor.
  unfoldable pub destruct : Thread K → M K (Unit {0})
  destruct self = do
    error ← call (api.terminate self.address)
    assert (is_success error)
    deleted ← call (api.delete self.address)
    assert (is_success deleted)

  -- The destruction of the object: the body, and that of the member with the memory.
  unfoldable pub destruct_in_byte_pool : Thread K → M K (Unit {0})
  unfolding destruct
  destruct_in_byte_pool self = destruct self >> release_bytes p pools self.stack_alloc

  unfoldable pub destruct_in_block_pool : Thread K → M K (Unit {0})
  unfolding destruct
  destruct_in_block_pool self = destruct self >> release_block p pools self.stack_alloc

  unfoldable resume : Thread K → M K Error
  resume self = call (api.resume self.address)

  unfoldable suspend : Thread K → M K Error
  suspend self = call (api.suspend self.address)

  unfoldable reset : Thread K → M K Error
  reset self = call (api.reset self.address)

  unfoldable restart : Thread K → M K Error
  restart self = do
    error ← call (api.reset self.address)
    if not (is_success error) then pure error else call (api.resume self.address)

  unfoldable terminate : Thread K → M K Error
  terminate self = call (api.terminate self.address)

  unfoldable abort_wait : Thread K → M K Error
  abort_wait self = call (api.wait_abort self.address)

  unfoldable set_preemption : Thread K → ℕ → M K Error
  set_preemption self preempt = call (api.preemption_change self.address preempt)

  unfoldable set_priority : Thread K → ℕ → M K Error
  set_priority self priority = call (api.priority_change self.address priority)

  unfoldable set_time_slice : Thread K → ℕ → M K Error
  set_time_slice self time_slice = call (api.time_slice_change self.address time_slice)

  unfoldable id : Thread K → ℕ
  id self = self.address

  unfoldable pub joinable : Thread K → K → Bool
  joinable self k =
      let state = api.state self.address k in
      not (self.address == api.running k)
      && not (state == state_code completed)
      && not (state == state_code terminated)

  -- `registerStackErrorNotifyCallback`, for a callback that is set or not: with the error, whether it
  -- replaces the static callback.
  unfoldable register_stack_error_notify : Bool → M K (Error × Bool)
  register_stack_error_notify is_callback_set k =
      if in_thread kernel k
      then returns ((not_done, false), k)
      else (let (code, k') = api.stack_error_notify is_callback_set k in
          returns ((to_error code, is_success (to_error code)), k'))

  -- The static callbacks: `stackErrorNotifyCallback` calls the member, which throws where it is
  -- empty, and `entryFunction` the virtual function of the application.
  unfoldable notify_stack_error : Option (ℕ → K → K) → Thread K → M K (Unit {0})
  notify_stack_error (some f) self k = returns (tt, f self.address k)
  notify_stack_error none self k = aborts

  unfoldable entry_function : (Thread K → M K (Unit {0})) → Thread K → M K (Unit {0})
  entry_function application self = application self

  -- The getters that read the control block.
  unfoldable preemption : Thread K → K → ℕ
  preemption self = api.preempt_threshold self.address

  unfoldable priority : Thread K → K → ℕ
  priority self = api.user_priority self.address

  unfoldable time_slice : Thread K → K → ℕ
  time_slice self = api.new_time_slice self.address

  unfoldable name : Thread K → K → String
  name self = api.name self.address

  unfoldable state : Thread K → K → ℕ
  state self = api.state self.address
