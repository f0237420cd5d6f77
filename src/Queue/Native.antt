-- ===== src/Queue/Native.antt =====
-- The message queues of ThreadX that queue.hpp calls: parameters of the model. `QueueLaws` states
-- what the ThreadX manual says of a queue on which no thread is suspended.
use threadx_cpp.Prelude.{
  ℕ, ◌*◌, ◌/◌, ◌≤◌, ◌<◌, ◌≡◌, String, List, [], ◌∷◌, ◌++◌, length, Bool, true,
}
use threadx_cpp.Common.{queue_empty, queue_full, to_underlying}

-- The services, over the state K of the kernel. A queue is named by the address of its control
-- block. A receive is given the content of the buffer for the message, and gives its code, the
-- content after it, and the new state.
pub record QueueApi (K : Type 0) (Msg : Type 0) : Type 0 where
  pub create : ℕ → String → ℕ → ℕ → ℕ → K → ℕ × K
  pub send_notify : ℕ → K → ℕ × K
  pub delete : ℕ → K → ℕ × K
  pub receive : ℕ → ℕ → Msg → K → ℕ × Msg × K
  pub send : ℕ → Msg → ℕ → K → ℕ × K
  pub front_send : ℕ → Msg → ℕ → K → ℕ × K
  pub prioritize : ℕ → K → ℕ × K
  pub flush : ℕ → K → ℕ × K
  pub name : ℕ → K → String

-- What ThreadX keeps of a queue: the messages from the front, and how many it has room for. It is
-- idle when it is created and no thread is suspended on it.
pub record NativeQueue (Msg : Type 0) : Type 0 where
  pub is_idle : Bool
  pub capacity : ℕ
  pub messages : List Msg

-- A created queue is empty and has room for as many messages, of a size in words, as its memory
-- holds. On an idle queue a message is sent to the back or to the front if there is room, and is
-- refused with TX_QUEUE_FULL without waiting if there is none; the front message is received if
-- there is one, and otherwise TX_QUEUE_EMPTY is returned without waiting.
pub record QueueLaws {K Msg : Type 0} (word_size : ℕ) (api : QueueApi K Msg) : Type 0 where
  pub view : K → ℕ → NativeQueue Msg
  pub create_done :
      (a : ℕ) (n : String) (words memory size : ℕ) (k : K)
      → (api.create a n words memory size k).0 ≡ 0
      → view (api.create a n words memory size k).1 a
        ≡ record { is_idle = true; capacity = size / (words * word_size); messages = [] }
  pub send_notify_lem : (a : ℕ) (k : K) → view (api.send_notify a k).1 a ≡ view k a
  pub send_done :
      (a : ℕ) (m : Msg) (w : ℕ) (k : K)
      → (view k a).is_idle ≡ true
      → length (view k a).messages < (view k a).capacity
      → ((api.send a m w k).0 ≡ 0)
        × (view (api.send a m w k).1 a
            ≡ record (view k a) { messages = (view k a).messages ++ (m ∷ []) })
  pub send_refused :
      (a : ℕ) (m : Msg) (k : K)
      → (view k a).is_idle ≡ true
      → (view k a).capacity ≤ length (view k a).messages
      → ((api.send a m 0 k).0 ≡ to_underlying queue_full) × (view (api.send a m 0 k).1 a ≡ view k a)
  pub front_send_done :
      (a : ℕ) (m : Msg) (w : ℕ) (k : K)
      → (view k a).is_idle ≡ true
      → length (view k a).messages < (view k a).capacity
      → ((api.front_send a m w k).0 ≡ 0)
        × (view (api.front_send a m w k).1 a
            ≡ record (view k a) { messages = m ∷ (view k a).messages })
  pub front_send_refused :
      (a : ℕ) (m : Msg) (k : K)
      → (view k a).is_idle ≡ true
      → (view k a).capacity ≤ length (view k a).messages
      → ((api.front_send a m 0 k).0 ≡ to_underlying queue_full)
        × (view (api.front_send a m 0 k).1 a ≡ view k a)
  pub receive_done :
      (a w : ℕ) (buffer m : Msg) (ms : List Msg) (k : K)
      → (view k a).is_idle ≡ true
      → (view k a).messages ≡ m ∷ ms
      → ((api.receive a w buffer k).0 ≡ 0)
        × ((api.receive a w buffer k).1 ≡ m)
        × (view (api.receive a w buffer k).2 a ≡ record (view k a) { messages = ms })
  pub receive_refused :
      (a : ℕ) (buffer : Msg) (k : K)
      → (view k a).is_idle ≡ true
      → (view k a).messages ≡ []
      → ((api.receive a 0 buffer k).0 ≡ to_underlying queue_empty)
        × ((api.receive a 0 buffer k).1 ≡ buffer)
        × (view (api.receive a 0 buffer k).2 a ≡ view k a)
