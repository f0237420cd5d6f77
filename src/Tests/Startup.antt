-- ===== src/Tests/Startup.antt =====
-- memoryPool.hpp, thread.hpp, queue.hpp: a kernel with one byte pool, and a program of two threads
-- and a queue.
use threadx_cpp.Prelude.{
  ℕ, ◌+◌, ◌-◌, refl, Bool, true, false, none, List, [], ◌∷◌, arith, leb, le→leb, update, ◌==◌,
  if◌then◌else◌,
}
use threadx_cpp.Kernel.Native.{KernelApi}
use threadx_cpp.Pool.{BytePool}
use threadx_cpp.Pool.Native.{PoolApi, BytePoolLaws, split_off}
use threadx_cpp.Queue.Native.{QueueApi}
use threadx_cpp.Thread.{auto_start}
use threadx_cpp.Thread.Native.{ThreadApi}
use threadx_cpp.Startup.{Object, thread, queue}
use threadx_cpp.Startup.Native.{StartupLaws}

-- The room in the pool, the control blocks in use, and the last allocation.
pub record Kernel : Type 0 where
  room : ℕ
  created : ℕ → Bool
  last : ℕ
  last_size : ℕ

abbrev pub pools : PoolApi Kernel
pools = record {
  byte_create = λ a n s k. (0, record k { room = s - 8 });
  byte_delete = λ a k. (0, k);
  byte_prioritize = λ a k. (0, k);
  byte_allocate = λ a m w k.
      if leb (m + 8) k.room
      then (
        0,
        k.room,
        record k { room = split_off 20 (k.room - (m + 8)); last = k.room; last_size = m },
      )
      else (16, 0, k);
  byte_release = λ a k. (0, k);
  byte_name = λ a k. "";
  block_create = λ a n b s k. (0, k);
  block_delete = λ a k. (0, k);
  block_prioritize = λ a k. (0, k);
  block_allocate = λ a w k. (16, 0, k);
  block_release = λ b k. (0, k);
  block_size = λ a k. 0;
  block_name = λ a k. "";
}

-- A control block that comes into use, if it is not yet.
abbrev use_block : ℕ → ℕ → Kernel → ℕ × Kernel
use_block error a k =
    if k.created a then (error, k) else (0, record k { created = update k.created a true })

abbrev threads : ThreadApi Kernel
threads = record {
  create = λ a n b s priority threshold slice start k. use_block 14 a k;
  entry_exit_notify = λ a k. (0, k);
  stack_error_notify = λ b k. (0, k);
  terminate = λ a k. (0, k);
  delete = λ a k. (0, k);
  resume = λ a k. (0, k);
  suspend = λ a k. (0, k);
  reset = λ a k. (0, k);
  wait_abort = λ a k. (0, k);
  preemption_change = λ a n k. (0, k);
  priority_change = λ a n k. (0, k);
  time_slice_change = λ a n k. (0, k);
  sleep = λ n k. (0, k);
  relinquish = λ k. k;
  running = λ k. 0;
  state = λ a k. 0;
  stack = λ a k. record { stack_size = 0; stack_ptr = 0; stack_end = 0; stack_highest_ptr = 0 };
  preempt_threshold = λ a k. 0;
  user_priority = λ a k. 0;
  new_time_slice = λ a k. 0;
  name = λ a k. "";
}

abbrev queues : QueueApi Kernel ℕ
queues = record {
  create = λ a n words b s k. use_block 9 a k;
  send_notify = λ a k. (0, k);
  delete = λ a k. (0, k);
  receive = λ a w b k. (10, b, k);
  send = λ a m w k. (11, k);
  front_send = λ a m w k. (11, k);
  prioritize = λ a k. (0, k);
  flush = λ a k. (0, k);
  name = λ a k. "";
}

unfoldable pub bytes : BytePoolLaws 4 pools
bytes = record {
  room = λ k a. k.room;
  block_min = 20;
  create_done = λ a n s k aligned h. refl;
  allocate_done = λ a m w k whole pos fits. rw (le→leb (m + 8) k.room fits) (refl, refl);
  allocate_refused = λ a m k full done. ground arith;
}

laws : StartupLaws 4 4 0x1000 pools threads queues
unfolding bytes
laws = record {
  bytes = bytes;
  created = λ k. k.created;
  spare = λ k b. if b == k.last then k.last_size else 0;
  minimum_stack = 128;
  max_priorities = 32;
  allocate_created = λ m w k. ground arith;
  allocate_spare = λ m w k done. ground arith;
  thread_create_done = λ a n b s priority threshold slice start k unused given large low within st.
      rw unused (refl, refl, refl);
  entry_exit_notify_done = λ a k used. (refl, refl, refl);
  queue_create_done =
      λ a n words b s k unused given some_words few one. rw unused (refl, refl, refl);
  send_notify_done = λ a k used. (refl, refl, refl);
}

abbrev port : KernelApi Kernel ℕ
port = record {
  disable = λ k. (0, k);
  restore = λ q k. k;
  enter = λ k. k;
  identify = λ k. none;
  system_state = λ k. 0;
  initialize_is_finished = 0;
  initialize_in_progress = 1;
}

abbrev worker : ℕ → ℕ → Object Kernel
worker a stack_size =
    thread
      (record {
        at = a;
        named = "worker";
        callback = none;
        priority = 16;
        threshold = 16;
        slice = 0;
        start = auto_start;
      })
      stack_size

-- Ten messages of two words.
abbrev mailbox : Object Kernel
mailbox = queue (record { at = 300; named = "mailbox"; messages = 10; callback = none })

abbrev program : List (Object Kernel)
program = worker 100 1024 ∷ worker 200 512 ∷ mailbox ∷ []

abbrev pool : BytePool
pool = record { address = 0x1000; size = 2000 }

abbrev pub before : Kernel
before = record { room = 0; created = λ a. false; last = 0; last_size = 0 }

abbrev pub with_room : ℕ → Kernel
with_room r = record before { room = r }

abbrev after : Kernel
after = record before { room = 1992 }
