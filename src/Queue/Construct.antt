-- ===== src/Queue/Construct.antt =====
-- queue.hpp: the constructor of a queue in a byte pool, and the room that the queue has.
use threadx_cpp.Prelude.{
  ℕ, ◌*◌, ◌/◌, ◌%◌, ◌^◌, ◌<◌, ◌≡◌, sym, ap, ◌∙◌, none, some, [], String, returns, bind-returns,
  arith, true,
}
use native.Mathlib.Nat.{mod-eq_of_lt, mul-div-mul_left, div-add-mod', mul_assoc, mul_comm}
use threadx_cpp.Common.{Platform, ulong_mod, is_success-to_error}
use threadx_cpp.Pool.{BytePool, allocate_bytes}
use threadx_cpp.Pool.Native.{PoolApi}
use threadx_cpp.Ticks.{no_wait}
use threadx_cpp.Queue.{
  Queue, NotifyCallback, message_words, queue_bytes, register, init, construct_in_byte_pool,
}
use threadx_cpp.Queue.Native.{QueueApi, QueueLaws}

-- The room for n messages that are w words of s bytes long, counted in words of u bytes.
room_in_words : (n w s u size : ℕ) → size ≡ w * s → 0 < w → n * size / (w * u) ≡ n * s / u
room_in_words n w s u size whole pos =
    let reordered : n * size ≡ w * (n * s) =
      ap (λ t. n * t) whole
      ∙ sym (mul_assoc n w s)
      ∙ ap (λ t. t * s) (mul_comm n w)
      ∙ mul_assoc w n s in
    rw reordered (mul-div-mul_left (n * s) u pos)

module _ {K Msg : Type 0} (p : Platform) (pools : PoolApi K) (api : QueueApi K Msg) (size : ℕ)
    (laws : QueueLaws p.word_size api) where
  open laws use {view, create_done, send_notify_lem}

  register-view :
      (a : ℕ) (callback : NotifyCallback K) (k k' : K)
      → register p pools api size a callback k ≡ returns (tt, k')
      → view k' a ≡ view k a
  unfolding register
  register-view a none k k' e = ground arith
  register-view a (some f) k k' e = ground (arith, send_notify_lem a k)

  init-view :
      (self : Queue K) (name : String) (bytes : ℕ) (k k' : K)
      → init p pools api size self name bytes k ≡ returns (tt, k')
      → view k' self.address ≡ record {
        is_idle = true;
        capacity = bytes / (message_words p size * p.word_size);
        messages = [];
      }
  unfolding init
  init-view self name bytes k k' e =
      let a = self.address in
      let service = api.create a name (message_words p size) self.queue_alloc.memory_ptr bytes k in
      ground (
        arith,
        is_success-to_error service.0,
        create_done a name (message_words p size) self.queue_alloc.memory_ptr bytes k,
        register-view a self.send_notify_callback service.1 k',
      )

  queue_bytes-room :
      (n : ℕ)
      → size % p.size_t_size ≡ 0
      → 0 < size / p.size_t_size
      → size / p.size_t_size < 2 ^ 32
      → n * size < ulong_mod p
      → queue_bytes p size n / (message_words p size * p.word_size)
        ≡ n * p.size_t_size / p.word_size
  unfolding queue_bytes message_words
  queue_bytes-room n whole pos fits total =
      let words : size ≡ size / p.size_t_size * p.size_t_size =
        omega (arith, div-add-mod' size p.size_t_size) in
      rw (mod-eq_of_lt total, mod-eq_of_lt fits)
        (room_in_words n (size / p.size_t_size) p.size_t_size p.word_size size words pos)

  -- The constructor of a queue in a byte pool, if it returns, leaves the queue empty. For a message
  -- size of whole sizes of size_t and a total that fits Ulong, its room is the number of messages
  -- asked for, times the size of size_t over that of Ulong: it is that number exactly where size_t
  -- is as large as Ulong.
  pub construct_in_byte_pool-capacity :
      (address : ℕ) (name : String) (pool : BytePool) (messages : ℕ) (callback : NotifyCallback K)
      (k : K) (self : Queue K) (k' : K)
      → size % p.size_t_size ≡ 0
      → 0 < size / p.size_t_size
      → size / p.size_t_size < 2 ^ 32
      → messages * size < ulong_mod p
      → construct_in_byte_pool p pools api size address name pool messages callback k
        ≡ returns (self, k')
      → view k' address ≡ record {
        is_idle = true;
        capacity = messages * p.size_t_size / p.word_size;
        messages = [];
      }
  unfolding construct_in_byte_pool
  construct_in_byte_pool-capacity address name pool messages callback k self k' whole pos fits total
        e =
      let bytes = queue_bytes p size messages in
      let (alloc, k1, allocated, rest) =
        bind-returns (allocate_bytes p pools pool bytes (no_wait p)) _ k e in
      let made_of : Queue K = record {
        address = address;
        queue_alloc = alloc;
        send_notify_callback = callback;
      } in
      let (u, k2, made, end) = bind-returns (init p pools api size made_of name bytes) _ k1 rest in
      let same : k' ≡ k2 = ground arith in
      rw same (
        init-view made_of name bytes k1 k2 made
        ∙ ap (λ n. record { is_idle = true; capacity = n; messages = [] })
            (queue_bytes-room messages whole pos fits total))
