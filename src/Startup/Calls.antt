-- ===== src/Startup/Calls.antt =====
-- memoryPool.hpp, thread.hpp, queue.hpp: what each call of a constructor leaves of the pool.
use threadx_cpp.Prelude.{
  ℕ, ◌+◌, ◌-◌, ◌*◌, ◌%◌, ◌≤◌, ◌<◌, ◌≡◌, refl, ap, ◌∙◌, Bool, true, false, M, ◌>>=◌, ◌>>◌, bind-eq,
  pure, returns, update, update_self, arith, none, some,
}
use threadx_cpp.Common.{Platform, is_success_of_zero}
use threadx_cpp.Kernel.Native.{KernelApi}
use threadx_cpp.Pool.{BytePool, Allocation, allocate_bytes}
use threadx_cpp.Pool.Native.{PoolApi, split_off}
use threadx_cpp.Ticks.{no_wait, ticks}
use threadx_cpp.Queue.{Queue, message_words, queue_bytes, register}
use threadx_cpp.Queue
use threadx_cpp.Queue.Native.{QueueApi}
use threadx_cpp.Thread.{start_code, new_thread}
use threadx_cpp.Thread
use threadx_cpp.Thread.Life.{Request}
use threadx_cpp.Thread.Life.Construct.{start_code_bound}
use threadx_cpp.Thread.Native.{ThreadApi}
use threadx_cpp.Startup.{QueueRequest, thread, queue, IsAccepted}
use threadx_cpp.Startup.Native.{StartupLaws}

module _ {K Posture Msg : Type 0} (p : Platform) (kernel : KernelApi K Posture) (pools : PoolApi K)
    (threads : ThreadApi K) (queues : QueueApi K Msg) (size : ℕ) (pool : BytePool)
    (laws : StartupLaws p.word_size p.pointer_size pool.address pools threads queues) where
  open laws use {
    bytes, created, spare, minimum_stack, max_priorities, allocate_created, allocate_spare,
    thread_create_done, entry_exit_notify_done, queue_create_done, send_notify_done,
  }

  abbrev pub room : K → ℕ
  room k = bytes.room k pool.address

  -- A call that returns, and leaves so much room in the pool, and control blocks in use.
  abbrev pub Leaves : {A : Type 0} → M K A → K → ℕ → (ℕ → Bool) → Type 0
  Leaves {A} m k left after =
      (a : A) × (k' : K) × (m k ≡ returns (a, k')) × (room k' ≡ left) × (created k' ≡ after)

  allocate_lem :
      (m : ℕ) (k : K)
      → m % p.pointer_size ≡ 0
      → 0 < m
      → m + 2 * p.pointer_size ≤ room k
      → (a : Allocation) × (k' : K) × (allocate_bytes p pools pool m (no_wait p) k
          ≡ returns (a, k'))
        × (room k' ≡ split_off bytes.block_min (room k - (m + 2 * p.pointer_size)))
        × (created k' ≡ created k)
        × (m ≤ spare k' a.memory_ptr)
  unfolding allocate_bytes
  allocate_lem m k whole pos fits =
      let w = ticks p (no_wait p) in
      let (code, left) = bytes.allocate_done pool.address m w k whole pos fits in
      let service = pools.byte_allocate pool.address m w k in
      (
        record { memory_ptr = service.1 },
        service.2,
        rw (is_success_of_zero service.0 code) refl,
        left,
        allocate_created m w k,
        allocate_spare m w k code,
      )

  pub thread_init_lem :
      (r : Request K) (s : ℕ) (alloc : Allocation) (k : K)
      → created k r.at ≡ false
      → s ≤ spare k alloc.memory_ptr
      → IsAccepted p size minimum_stack max_priorities (thread r s)
      → Leaves
          (Thread.init p kernel pools threads
            (new_thread p kernel pools threads r.at alloc r.callback)
            r.named
            s
            r.priority
            r.threshold
            r.slice
            r.start)
          k
          (room k)
          (update (created k) r.at true)
  unfolding Thread.init
  thread_init_lem r s alloc k unused given (_, large, low, within) =
      let service =
        threads.create r.at r.named alloc.memory_ptr s r.priority r.threshold r.slice
          (start_code r.start) k in
      let (code, marks, kept) =
        thread_create_done r.at r.named alloc.memory_ptr s r.priority r.threshold r.slice
          (start_code r.start) k unused given large low within (start_code_bound r.start) in
      let (noted, same, still) =
        entry_exit_notify_done r.at service.1
          (ap (λ f. f r.at) marks ∙ update_self (created k) r.at true) in
      (
        tt,
        (threads.entry_exit_notify r.at service.1).1,
        rw (is_success_of_zero _ code) (rw (is_success_of_zero _ noted) refl),
        omega (arith, kept, still),
        same ∙ marks,
      )

  register_lem :
      (a : ℕ) (callback : Queue.NotifyCallback K) (k : K)
      → created k a ≡ true
      → Leaves (register p pools queues size a callback) k (room k) (created k)
  unfolding register
  register_lem a none k used = (tt, k, refl, omega arith, refl)
  register_lem a (some f) k used =
      let (code, same, kept) = send_notify_done a k used in
      (
        tt,
        (queues.send_notify a k).1,
        rw (is_success_of_zero _ code) refl,
        omega (arith, kept),
        same,
      )

  pub queue_init_lem :
      (r : QueueRequest K) (alloc : Allocation) (k : K)
      → created k r.at ≡ false
      → queue_bytes p size r.messages ≤ spare k alloc.memory_ptr
      → IsAccepted p size minimum_stack max_priorities (queue r)
      → Leaves
          (Queue.init p pools queues size
            (record { address = r.at; queue_alloc = alloc; send_notify_callback = r.callback })
            r.named
            (queue_bytes p size r.messages))
          k
          (room k)
          (update (created k) r.at true)
  unfolding Queue.init
  queue_init_lem r alloc k unused given (_, some_words, words, one) =
      let total = queue_bytes p size r.messages in
      let service = queues.create r.at r.named (message_words p size) alloc.memory_ptr total k in
      let (code, marks, kept) =
        queue_create_done r.at r.named (message_words p size) alloc.memory_ptr total k unused given
          some_words words one in
      let (_, k', done, still, same) =
        register_lem r.at r.callback service.1
          (ap (λ f. f r.at) marks ∙ update_self (created k) r.at true) in
      (tt, k', rw (is_success_of_zero _ code) done, omega (arith, kept, still), same ∙ marks)

  -- A constructor that allocates its memory and goes on with `init`.
  pub in_pool_lem :
      {O : Type 0} (m a : ℕ) (make : Allocation → O) (init : Allocation → M K (Unit {0})) (k : K)
      → created k a ≡ false
      → m % p.pointer_size ≡ 0
      → 0 < m
      → m + 2 * p.pointer_size ≤ room k
      → ((alloc : Allocation) (k1 : K)
          → created k1 a ≡ false
          → m ≤ spare k1 alloc.memory_ptr
          → Leaves (init alloc) k1 (room k1) (update (created k1) a true))
      → Leaves
          (allocate_bytes p pools pool m (no_wait p)
            >>= (λ alloc. init alloc >> pure (make alloc))
            >>= (λ _. pure tt))
          k
          (split_off bytes.block_min (room k - (m + 2 * p.pointer_size)))
          (update (created k) a true)
  in_pool_lem m a make init k unused whole pos fits goes_on =
      let (alloc, k1, taken, left, same, given) = allocate_lem m k whole pos fits in
      let (_, k', made, kept, marks) = goes_on alloc k1 (ap (λ f. f a) same ∙ unused) given in
      let allocate = allocate_bytes p pools pool m (no_wait p) in
      let rest = λ (b : Allocation). init b >> pure {S = K} (make b) in
      (
        tt,
        k',
        bind-eq (allocate >>= rest) (λ _. pure tt) k
            (bind-eq allocate rest k taken ∙ bind-eq (init alloc) (λ _. pure (make alloc)) k1 made),
        omega (arith, left, kept),
        marks ∙ ap (λ f. update f a true) same,
      )
