-- ===== src/Startup/Native.antt =====
-- What the start of a program asks of ThreadX: the laws of a byte pool while threads and queues are
-- created in its memory, as the ThreadX manual states them.
use threadx_cpp.Prelude.{ℕ, ◌*◌, ◌≤◌, ◌<◌, ◌≡◌, String, Bool, true, false, update}
use threadx_cpp.Pool.Native.{PoolApi, BytePoolLaws}
use threadx_cpp.Queue.Native.{QueueApi}
use threadx_cpp.Thread.Native.{ThreadApi}

-- The pool at the address `pool`, before the scheduler has started or while no other thread runs.
-- `created` says of an address whether a control block there is in use, and `spare` how many bytes
-- from an address on are allocated and not yet a stack or the memory of a queue.
pub record StartupLaws {K Msg : Type 0} (word_size pointer_size pool : ℕ) (pools : PoolApi K)
    (threads : ThreadApi K) (queues : QueueApi K Msg) : Type 0 where
  pub bytes : BytePoolLaws pointer_size pools
  pub created : K → ℕ → Bool
  pub spare : K → ℕ → ℕ
  pub minimum_stack : ℕ
  pub max_priorities : ℕ
  pub allocate_created : (m w : ℕ) (k : K) → created (pools.byte_allocate pool m w k).2 ≡ created k
  pub allocate_spare :
      (m w : ℕ) (k : K)
      → let (code, b, k') = pools.byte_allocate pool m w k in code ≡ 0 → m ≤ spare k' b
  pub thread_create_done :
      (a : ℕ) (n : String) (b s priority threshold slice start : ℕ) (k : K)
      → created k a ≡ false
      → s ≤ spare k b
      → minimum_stack ≤ s
      → priority < max_priorities
      → threshold ≤ priority
      → start < 2
      → let (code, k') = threads.create a n b s priority threshold slice start k in
        (code ≡ 0)
        × (created k' ≡ update (created k) a true)
        × (bytes.room k' pool ≡ bytes.room k pool)
  pub entry_exit_notify_done :
      (a : ℕ) (k : K)
      → created k a ≡ true
      → let (code, k') = threads.entry_exit_notify a k in
        (code ≡ 0) × (created k' ≡ created k) × (bytes.room k' pool ≡ bytes.room k pool)
  pub queue_create_done :
      (a : ℕ) (n : String) (words b s : ℕ) (k : K)
      → created k a ≡ false
      → s ≤ spare k b
      → 0 < words
      → words ≤ 16
      → words * word_size ≤ s
      → let (code, k') = queues.create a n words b s k in
        (code ≡ 0)
        × (created k' ≡ update (created k) a true)
        × (bytes.room k' pool ≡ bytes.room k pool)
  pub send_notify_done :
      (a : ℕ) (k : K)
      → created k a ≡ true
      → let (code, k') = queues.send_notify a k in
        (code ≡ 0) × (created k' ≡ created k) × (bytes.room k' pool ≡ bytes.room k pool)
