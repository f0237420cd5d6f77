-- ===== src/Tests/Join.antt =====
-- thread.hpp: the threads 1 and 2 that join a thread; a kernel with the semaphore of a thread that
-- joins; and a kernel that is its posture.
use threadx_cpp.Prelude.{
  update, ℕ, ℕ_discrete, ◌≡◌, ◌⊎◌, inl, refl, true, false, Bool, if◌then◌else◌, none, some, returns,
  arith,
}
use threadx_cpp.Kernel.{CriticalSection}
use threadx_cpp.Pool.Native.{PoolApi}
use threadx_cpp.Semaphore.Native.{SemaphoreApi}
use threadx_cpp.Thread.Native.{ThreadApi}
use threadx_cpp.Thread.PublishStep.{publish-Step, Section}
use threadx_cpp.Thread.ExitRun.{exit-Reach}
use threadx_cpp.Tests.Kernel
use threadx_cpp.Tests.Kernel.{free}
use threadx_cpp.Semaphore.{CountingSemaphore}
use threadx_cpp.Semaphore.Native.{NativeSemaphore}
use threadx_cpp.Thread.{Thread, exit, joinable}
use threadx_cpp.Thread.Join.{join, publish, notify_entry_exit, wait_for_exit}
use threadx_cpp.Thread.Protocol
use threadx_cpp.Thread.Protocol.{
  constructed, checking, waiting, returned, System, Step, go, call, enter, refuse, finish, Reach,
  start, next, initial,
}
use threadx_cpp.Thread.JoinInv.{only}
use threadx_cpp.Thread.JoinFinished.{join_unjoinable}
use threadx_cpp.Kernel.Native.{KernelApi}
use threadx_cpp.Thread.JoinSafety.{join-returns_after_exit}
use threadx_cpp.Thread.JoinOne.{join-returns, Inevitable}
use threadx_cpp.Thread.JoinTwo.{anyone, two_joins_lose_one}
use threadx_cpp.Tests.Semaphore.{api, laws}
use threadx_cpp.Tests.Platforms.{target}

-- No call is the joined thread's own.
abbrev others : ℕ → Bool
others i = false

-- The thread 1 calls, the thread that it joins finishes, and `join` finds it so.
abbrev called : System
called = record (go (initial others true true) 1 constructed) { count = update (λ k. 0) 1 0 }

abbrev called_and_finished : System
called_and_finished = record called { finished = true }

abbrev found_finished : System
found_finished =
    let inside : System = record (go called_and_finished 1 checking) { holder = some 1 } in
    record (go inside 1 returned) { holder = none }

late : Reach (only 1) false (initial others true true) called_and_finished
unfolding ℕ_discrete
late = next (next start (call 1 refl refl refl (λ e. refl) refl)) (finish refl (λ e. refl) refl)

found : Reach (only 1) false (initial others true true) found_finished
unfolding ℕ_discrete
found = next (next late (enter 1 refl (λ e. refl) refl)) (refuse 1 refl (inl refl) refl)

join-returns_after_exit_example : (found_finished.finished ≡ true) ⊎ (found_finished.aborted ≡ true)
unfolding ℕ_discrete
join-returns_after_exit_example =
    join-returns_after_exit others (only 1) true true false found_finished 1 found refl refl

join-returns_example : Inevitable (only 1) false (λ t. t.place 1 ≡ returned) called_and_finished
unfolding ℕ_discrete
join-returns_example =
    join-returns others 1 false called_and_finished refl late refl
      (λ (e : constructed ≡ Protocol.outside). cc)

two_joins_lose_one_example :
    (r : System) × (s : System) × Reach anyone false (initial others true true) r
    × (r.place 1 ≡ constructed)
    × (r.place 2 ≡ constructed)
    × (r.exit_signal ≡ none)
    × (r.finished ≡ false)
    × Reach anyone false r s
    × (s.finished ≡ true)
    × (s.place 2 ≡ returned)
    × ((t : System) → Reach anyone false s t → t.place 1 ≡ waiting)
two_joins_lose_one_example = two_joins_lose_one others true 1 2 refl refl (λ e. omega (arith, e))

-- A thread that is to be joined, with the empty semaphore at the address 0x2000.
abbrev joined : Thread NativeSemaphore
joined = record {
  address = 0x3000;
  stack_alloc = record { memory_ptr = 4096 };
  entry_exit_notify_callback = none;
  exit_signal = some 0x2000;
}

abbrev signal : CountingSemaphore NativeSemaphore
signal = record { address = 0x2000; ceiling = 1; release_notify_callback = none }

abbrev outside : CriticalSection NativeSemaphore ℕ
outside = record {
  locked = false;
  interrupt_save = 0;
  kernel = record { is_created = true; count = 0; waiting = 0 };
}

-- A kernel that is only its posture, with services that change nothing, where the thread 7 calls.
abbrev pools : {K : Type 0} → PoolApi K
pools = record {
  byte_create = λ a n s k. (0, k);
  byte_delete = λ a k. (0, k);
  byte_prioritize = λ a k. (0, k);
  byte_allocate = λ a m w k. (0, 0x4000, k);
  byte_release = λ a k. (0, k);
  byte_name = λ a k. "";
  block_create = λ a n b s k. (0, k);
  block_delete = λ a k. (0, k);
  block_prioritize = λ a k. (0, k);
  block_allocate = λ a w k. (0, 0x4000, k);
  block_release = λ a k. (0, k);
  block_size = λ a k. 512;
  block_name = λ a k. "";
}

abbrev sems : SemaphoreApi Bool
sems = record {
  create = λ a n c k. (0, k);
  put_notify = λ a k. (0, k);
  ceiling_put = λ a c k. (0, k);
  take = λ a w k. (0, k);
  prioritize = λ a k. (0, k);
  delete = λ a k. (0, k);
  count = λ a k. 0;
  name = λ a k. "";
}

abbrev threads : {K : Type 0} → ThreadApi K
threads = record {
  create = λ a n m s p t l b k. (0, k);
  entry_exit_notify = λ a k. (0, k);
  stack_error_notify = λ b k. (0, k);
  terminate = λ a k. (0, k);
  delete = λ a k. (0, k);
  resume = λ a k. (0, k);
  suspend = λ a k. (0, k);
  reset = λ a k. (0, k);
  wait_abort = λ a k. (0, k);
  preemption_change = λ a n k. (0, k);
  priority_change = λ a n k. (0, k);
  time_slice_change = λ a n k. (0, k);
  sleep = λ n k. (0, k);
  relinquish = λ k. k;
  running = λ k. 7;
  state = λ a k. 0;
  stack = λ a k. record { stack_size = 0; stack_ptr = 0; stack_end = 0; stack_highest_ptr = 0 };
  preempt_threshold = λ a k. 0;
  user_priority = λ a k. 0;
  new_time_slice = λ a k. 0;
  name = λ a k. "";
}

abbrev worker : Thread Bool
worker = record {
  address = 0x3000;
  stack_alloc = record { memory_ptr = 4096 };
  entry_exit_notify_callback = none;
  exit_signal = none;
}

abbrev local_signal : CountingSemaphore Bool
local_signal = record { address = 0x2000; ceiling = 1; release_notify_callback = none }

-- The thread at the semaphore's address stands in the critical section.
abbrev deciding : System
deciding = record (go (initial others true true) 0x2000 checking) { holder = some 0x2000 }

publish-Step_example :
    (waits : Bool) × (self' : Thread Bool) × (c' : CriticalSection Bool Bool) × (t : System)
    × (publish target Kernel.api pools sems threads worker local_signal free
        ≡ returns ((waits, self'), c'))
    × Section target Kernel.api Kernel.laws pools sems threads anyone false deciding 0x2000 waits t
    × (t.exit_signal ≡ self'.exit_signal)
    × (t.place 0x2000 ≡ (if waits then waiting else returned))
    × (c'.locked ≡ false)
    × (c'.kernel ≡ false)
unfolding Kernel.laws ℕ_discrete
publish-Step_example =
    publish-Step target Kernel.api Kernel.laws pools sems threads anyone false worker local_signal
      free deciding refl refl refl refl refl

-- The thread has finished, and a thread waits at the semaphore.
abbrev finished_with_signal : System
finished_with_signal = record (initial others true true) {
  finished = true;
  exit_signal = some 0x2000;
}

abbrev waiting_with_signal : System
waiting_with_signal = record (go finished_with_signal 0x2000 waiting) { finished = true }

exit-Reach_example :
    (k1 k2 : NativeSemaphore) × (self' : Thread NativeSemaphore) × (t : System) × (notify_entry_exit
        target api joined exit outside.kernel
      ≡ returns (tt, k1))
    × (wait_for_exit target api joined signal (record outside { kernel = k1 })
        ≡ returns (self', record outside { kernel = k2 }))
    × Reach anyone false waiting_with_signal t
    × (t.place 0x2000 ≡ returned)
    × (self'.exit_signal ≡ none)
    × (t.exit_signal ≡ none)
unfolding laws ℕ_discrete
exit-Reach_example =
    exit-Reach target api laws anyone false joined signal outside waiting_with_signal refl refl refl
      refl refl refl (λ e. refl) ((λ f e k. cc), (refl, refl), refl)

-- A thread with the number 7 that joins itself, on a kernel with one semaphore and no interrupts.
abbrev port : KernelApi NativeSemaphore ℕ
port = record {
  disable = λ k. (0, k);
  restore = λ q k. k;
  enter = λ k. k;
  identify = λ k. none;
  system_state = λ k. 0;
  initialize_is_finished = 0;
  initialize_in_progress = 1;
}

abbrev itself : Thread NativeSemaphore
itself = record joined { address = 7; exit_signal = none }

join_unjoinable_example :
    (s' : CriticalSection NativeSemaphore ℕ) × (join target port pools api threads itself 0x2000
        outside
      ≡ returns (itself, s'))
    × (s'.locked ≡ false)
unfolding laws joinable
join_unjoinable_example =
    join_unjoinable target port pools api laws threads itself 0x2000 outside refl refl refl refl
      refl
