-- ===== src/Startup.antt =====
-- memoryPool.hpp, thread.hpp, queue.hpp together: a program that starts with a byte pool, and
-- constructs its threads and queues in it one after the other.
pub mod Native
pub mod Calls
pub mod Start
use threadx_cpp.Prelude.{
  ℕ, ◌*◌, ◌%◌, ◌≤◌, ◌<◌, ◌≡◌, Bool, true, false, List, [], ◌∷◌, String, M, ◌>>=◌, ◌>>◌, pure,
  update,
}
use threadx_cpp.Common.{Platform}
use threadx_cpp.Kernel.Native.{KernelApi}
use threadx_cpp.Pool.{BytePool}
use threadx_cpp.Pool.Native.{PoolApi}
use threadx_cpp.Queue.{message_words, queue_bytes}
use threadx_cpp.Queue
use threadx_cpp.Queue.Native.{QueueApi}
use threadx_cpp.Thread.Life.{Request}
use threadx_cpp.Thread
use threadx_cpp.Thread.Native.{ThreadApi}

pub record QueueRequest (K : Type 0) : Type 0 where
  pub at : ℕ
  pub named : String
  pub messages : ℕ
  pub callback : Queue.NotifyCallback K

-- An object of the program: a thread with the size of its stack, or a queue.
pub data Object (K : Type 0) : Type 0 where
  thread : Request K → ℕ → Object K
  queue : QueueRequest K → Object K

abbrev pub address : {K : Type 0} → Object K → ℕ
address (thread r s) = r.at
address (queue r) = r.at

-- What its constructor asks of the pool.
abbrev pub memory_size : {K : Type 0} → Platform → ℕ → Object K → ℕ
memory_size p size (thread r s) = s
memory_size p size (queue r) = queue_bytes p size r.messages

-- What ThreadX asks of its constructor: whole pointers of memory; for a thread a stack that is large
-- enough, and a priority and a threshold of ThreadX; for a queue 1 to 16 words in a message, and
-- room for one.
abbrev pub IsAccepted : {K : Type 0} → Platform → ℕ → ℕ → ℕ → Object K → Type 0
IsAccepted p size minimum_stack max_priorities (thread r s) =
    (s % p.pointer_size ≡ 0)
    × (minimum_stack ≤ s)
    × (r.priority < max_priorities)
    × (r.threshold ≤ r.priority)
IsAccepted p size minimum_stack max_priorities (queue r) =
    (queue_bytes p size r.messages % p.pointer_size ≡ 0)
    × (0 < message_words p size)
    × (message_words p size ≤ 16)
    × (message_words p size * p.word_size ≤ queue_bytes p size r.messages)

abbrev pub AreAccepted : {K : Type 0} → Platform → ℕ → ℕ → ℕ → List (Object K) → Type 0
AreAccepted p size minimum_stack max_priorities [] = Unit {0}
AreAccepted p size minimum_stack max_priorities (o ∷ os) =
    IsAccepted p size minimum_stack max_priorities o
    × AreAccepted p size minimum_stack max_priorities os

-- No control block is in use at any of the addresses, and no address stands twice among them.
abbrev pub AreNew : (ℕ → Bool) → List ℕ → Type 0
AreNew created [] = Unit {0}
AreNew created (a ∷ rest) = (created a ≡ false) × AreNew (update created a true) rest

abbrev pub marked : (ℕ → Bool) → List ℕ → ℕ → Bool
marked created [] = created
marked created (a ∷ rest) = marked (update created a true) rest

module _ {K Posture Msg : Type 0} (p : Platform) (kernel : KernelApi K Posture) (pools : PoolApi K)
    (threads : ThreadApi K) (queues : QueueApi K Msg) (size : ℕ) (pool : BytePool) where
  unfoldable pub construct : Object K → M K (Unit {0})
  unfolding Thread.construct_in_byte_pool Queue.construct_in_byte_pool
  construct (thread r s) = do
    _ ←
        Thread.construct_in_byte_pool p kernel pools threads r.at r.named pool s r.callback
          r.priority r.threshold r.slice r.start
    pure tt
  construct (queue r) = do
    _ ← Queue.construct_in_byte_pool p pools queues size r.at r.named pool r.messages r.callback
    pure tt

  unfoldable pub construct_all : List (Object K) → M K (Unit {0})
  construct_all [] = pure tt
  construct_all (o ∷ os) = construct o >> construct_all os
