-- ===== src/Tests/Queue.antt =====
-- queue.hpp: a kernel with one queue, of messages of eight bytes, and memory at address 0x9000.
use threadx_cpp.Prelude.{
  ℕ, ◌*◌, ◌/◌, ◌≡◌, refl, none, true, List, [], ◌∷◌, ◌++◌, length, returns, arith, ltb, lt→ltb,
  ge→ltb, if◌then◌else◌,
}
use threadx_cpp.Common.{to_underlying, to_error, is_success, queue_full, queue_empty, success}
use threadx_cpp.Pool.{BytePool, allocate_bytes}
use threadx_cpp.Pool.Native.{PoolApi}
use threadx_cpp.Queue.{Queue, construct_in_byte_pool, init, register}
use threadx_cpp.Queue.Native.{QueueApi, QueueLaws, NativeQueue}
use threadx_cpp.Queue.Fifo.{sends, sends_front, receives, sent, received, run, run-spec_run}
use threadx_cpp.Queue.Construct.{construct_in_byte_pool-capacity}
use threadx_cpp.Tests.Platforms.{target, target-IsSupported}

abbrev State : Type 0
State = NativeQueue ℕ

abbrev pools : PoolApi State
pools = record {
  byte_create = λ a n s k. (0, k);
  byte_delete = λ a k. (0, k);
  byte_prioritize = λ a k. (0, k);
  byte_allocate = λ a m w k. (0, 0x9000, k);
  byte_release = λ a k. (0, k);
  byte_name = λ a k. "";
  block_create = λ a n b s k. (0, k);
  block_delete = λ a k. (0, k);
  block_prioritize = λ a k. (0, k);
  block_allocate = λ a w k. (0, 0x9000, k);
  block_release = λ a k. (0, k);
  block_size = λ a k. 64;
  block_name = λ a k. "";
}

take_front : List ℕ → ℕ → State → ℕ × ℕ × State
take_front [] buffer k = (10, buffer, k)
take_front (m ∷ ms) buffer k = (0, m, record k { messages = ms })

abbrev api : QueueApi State ℕ
api = record {
  create =
      λ a n words m s k. (0, record { is_idle = true; capacity = s / (words * 4); messages = [] });
  send_notify = λ a k. (0, k);
  delete = λ a k. (0, k);
  receive = λ a w buffer k. take_front k.messages buffer k;
  send = λ a m w k.
      if ltb (length k.messages) k.capacity
      then (0, record k { messages = k.messages ++ (m ∷ []) })
      else (11, k);
  front_send = λ a m w k.
      if ltb (length k.messages) k.capacity
      then (0, record k { messages = m ∷ k.messages })
      else (11, k);
  prioritize = λ a k. (0, k);
  flush = λ a k. (0, record k { messages = [] });
  name = λ a k. "";
}

laws : QueueLaws 4 api
unfolding to_underlying take_front
laws = record {
  view = λ k a. k;
  create_done = λ a n words m s k h. refl;
  send_notify_lem = λ a k. refl;
  send_done = λ a m w k idle below. ground (arith, lt→ltb _ _ below);
  send_refused = λ a m k idle full. ground (arith, ge→ltb _ _ full);
  front_send_done = λ a m w k idle below. ground (arith, lt→ltb _ _ below);
  front_send_refused = λ a m k idle full. ground (arith, ge→ltb _ _ full);
  receive_done = λ a w buffer m ms k idle e. rw e (refl, refl, refl);
  receive_refused = λ a buffer k idle e. rw e (refl, refl, refl);
}

-- Room for two messages, and none there.
abbrev empty : State
empty = record { is_idle = true; capacity = 2; messages = [] }

abbrev queue : Queue State
queue = record {
  address = 0x8000;
  queue_alloc = record { memory_ptr = 0x9000 };
  send_notify_callback = none;
}

-- Two messages are sent to the back, one more finds no room, and they are received in order.
run-spec_run_example :
    (k' : State) × (run target pools api 8 queue
        (sends 7 ∷ sends 8 ∷ sends_front 9 ∷ receives 0 ∷ receives 0 ∷ receives 0 ∷ [])
        empty
      ≡ returns (
        sent success
            ∷ sent success
            ∷ sent queue_full
            ∷ received (success, 7)
            ∷ received (success, 8)
            ∷ received (queue_empty, 0)
            ∷ [],
        k',
      ))
    × (k' ≡ empty)
unfolding laws
run-spec_run_example =
    run-spec_run target target-IsSupported pools api 8 laws queue
      (sends 7 ∷ sends 8 ∷ sends_front 9 ∷ receives 0 ∷ receives 0 ∷ receives 0 ∷ []) empty refl

abbrev pool : BytePool
pool = record { address = 0x1000; size = 1024 }

construct_in_byte_pool-capacity_example :
    empty ≡ record { is_idle = true; capacity = 2 * 4 / 4; messages = [] }
unfolding laws construct_in_byte_pool allocate_bytes init register is_success to_error to_underlying
construct_in_byte_pool-capacity_example =
    construct_in_byte_pool-capacity target pools api 8 laws 0x8000 "q" pool 2 none empty queue empty
      refl (omega arith) (omega arith) (omega arith) refl
