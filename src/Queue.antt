-- ===== src/Queue.antt =====
-- queue.hpp: the class Queue<Msg, Pool>. The object does not change after its construction; the
-- kernel, with the pool of the queue's memory, is the state.
pub mod Native
pub mod Fifo
pub mod Construct
use threadx_cpp.Prelude.{
  ℕ, ◌*◌, ◌/◌, ◌%◌, ◌^◌, ◌≡◌, Option, none, some, String, M, ◌>>=◌, ◌>>◌, pure, assert, returns,
  aborts, ◌==◌,
}
use threadx_cpp.Common.{Platform, ulong_mod, Error, call, to_error, is_success}
use threadx_cpp.Ticks.{Duration, Clock, time_left, no_wait, wait_forever, ticks}
use threadx_cpp.Pool.{
  BytePool, BlockPool, Allocation, allocate_bytes, allocate_block, release_bytes, release_block,
  block_size,
}
use threadx_cpp.Pool.Native.{PoolApi}
use Native.{QueueApi}

-- `std::function<void(Queue &)>`: empty, or what a call does to the kernel.
abbrev pub NotifyCallback : Type 0 → Type 0
NotifyCallback K = Option (ℕ → K → K)

pub record Queue (K : Type 0) : Type 0 where
  pub address : ℕ
  pub queue_alloc : Allocation
  pub send_notify_callback : NotifyCallback K

-- The static_assert of `init`: `wordSize` is itself a size_t.
pub record IsMessageSize (p : Platform) (message_size : ℕ) : Type 0 where
  pub whole_words : message_size % p.size_t_size ≡ 0

-- `sizeof(Msg) / sizeof(wordSize)`, in Uint.
unfoldable pub message_words : Platform → ℕ → ℕ
message_words p message_size = message_size / p.size_t_size % 2 ^ 32

-- `queueSizeInNumOfMessages * sizeof(Msg)`, in Ulong.
unfoldable pub queue_bytes : Platform → ℕ → ℕ → ℕ
queue_bytes p message_size messages = (messages * message_size) % ulong_mod p

module _ {K Msg : Type 0} (p : Platform) (pools : PoolApi K) (api : QueueApi K Msg)
    (message_size : ℕ) where
  unfoldable pub register : ℕ → NotifyCallback K → M K (Unit {0})
  register address none = pure tt
  register address (some _) = do error ← call (api.send_notify address); assert (is_success error)

  unfoldable pub init : Queue K → String → ℕ → M K (Unit {0})
  unfolding register message_words
  init self name size = do
    error ← call (
        api.create self.address name (message_words p message_size) self.queue_alloc.memory_ptr
          size)
    assert (is_success error)
    register self.address self.send_notify_callback

  -- The constructors, with the address at which the object stands. The allocations do not wait.
  unfoldable pub construct_in_byte_pool :
      ℕ → String → BytePool → ℕ → NotifyCallback K → M K (Queue K)
  unfolding init queue_bytes
  construct_in_byte_pool address name pool messages callback = do
    alloc ← allocate_bytes p pools pool (queue_bytes p message_size messages) (no_wait p)
    let self : Queue K = record {
      address = address;
      queue_alloc = alloc;
      send_notify_callback = callback;
    }
    init self name (queue_bytes p message_size messages)
    pure self

  unfoldable pub construct_in_block_pool : ℕ → String → BlockPool → NotifyCallback K → M K (Queue K)
  unfolding init
  construct_in_block_pool address name pool callback = do
    alloc ← allocate_block p pools pool (no_wait p)
    size ← λ k. returns (block_size p pools pool k, k)
    assert (size % message_size == 0)
    let self : Queue K = record {
      address = address;
      queue_alloc = alloc;
      send_notify_callback = callback;
    }
    init self name size
    pure self

  -- The destructor, and then that of the member `m_queueAlloc`, in each kind of pool.
  unfoldable delete_queue : Queue K → M K (Unit {0})
  delete_queue self = do error ← call (api.delete self.address); assert (is_success error)

  unfoldable destruct_in_byte_pool : Queue K → M K (Unit {0})
  unfolding delete_queue
  destruct_in_byte_pool self = do delete_queue self; release_bytes p pools self.queue_alloc

  unfoldable destruct_in_block_pool : Queue K → M K (Unit {0})
  unfolding delete_queue
  destruct_in_block_pool self = do delete_queue self; release_block p pools self.queue_alloc

  -- The content of the local `message`, which is not initialised, is an argument.
  unfoldable pub try_receive_for : Queue K → Msg → Duration → M K (Error × Msg)
  try_receive_for self message duration k =
      let (code, received, k') = api.receive self.address (ticks p duration) message k in
      returns ((to_error code, received), k')

  unfoldable receive : Queue K → Msg → M K (Error × Msg)
  receive self message = try_receive_for self message (wait_forever p)

  unfoldable pub try_receive : Queue K → Msg → M K (Error × Msg)
  unfolding try_receive_for
  try_receive self message = try_receive_for self message (no_wait p)

  unfoldable try_receive_until : Queue K → Msg → Clock → ℕ → ℕ → M K (Error × Msg)
  try_receive_until self message clock time now =
      try_receive_for self message (time_left clock time now)

  unfoldable pub try_send_for : Queue K → Msg → Duration → M K Error
  try_send_for self message duration = call (api.send self.address message (ticks p duration))

  unfoldable send : Queue K → Msg → M K Error
  send self message = try_send_for self message (wait_forever p)

  unfoldable pub try_send : Queue K → Msg → M K Error
  unfolding try_send_for
  try_send self message = try_send_for self message (no_wait p)

  unfoldable try_send_until : Queue K → Msg → Clock → ℕ → ℕ → M K Error
  try_send_until self message clock time now = try_send_for self message (time_left clock time now)

  unfoldable pub try_send_front_for : Queue K → Msg → Duration → M K Error
  try_send_front_for self message duration =
      call (api.front_send self.address message (ticks p duration))

  unfoldable send_front : Queue K → Msg → M K Error
  send_front self message = try_send_front_for self message (wait_forever p)

  unfoldable pub try_send_front : Queue K → Msg → M K Error
  unfolding try_send_front_for
  try_send_front self message = try_send_front_for self message (no_wait p)

  unfoldable try_send_front_until : Queue K → Msg → Clock → ℕ → ℕ → M K Error
  try_send_front_until self message clock time now =
      try_send_front_for self message (time_left clock time now)

  unfoldable prioritise : Queue K → M K Error
  prioritise self = call (api.prioritize self.address)

  unfoldable flush : Queue K → M K Error
  flush self = call (api.flush self.address)

  unfoldable name : Queue K → K → String
  name self = api.name self.address

-- `sendNotifyCallback`: the kernel calls it after a send. It is registered only where the callback
-- is set; an empty std::function throws.
unfoldable notify_send : {K : Type 0} → Queue K → M K (Unit {0})
notify_send self k = elim self.send_notify_callback [
  | some f ↦ returns (tt, f self.address k)
  | none ↦ aborts
]
