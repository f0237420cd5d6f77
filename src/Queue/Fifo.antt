-- ===== src/Queue/Fifo.antt =====
-- queue.hpp: the calls that do not wait, against a bounded list of messages.
use threadx_cpp.Prelude.{
  ℕ, ◌≤◌, ◌<◌, ◌≡◌, refl, ap, ◌∙◌, List, [], ◌∷◌, ◌++◌, length, M, ◌>>=◌, bind-eq, pure, returns,
  arith, true, ltb, dec_lt, if◌then◌else◌,
}
use threadx_cpp.Common.{
  Platform, IsSupported, Error, success, queue_empty, queue_full, to_error, to_underlying,
  to_error_of, to_error_of_zero,
}
use threadx_cpp.Ticks.Deadline.{ticks_of_special_waits}
use threadx_cpp.Pool.Native.{PoolApi}
use threadx_cpp.Queue.{Queue, try_send, try_send_front, try_receive}
use threadx_cpp.Queue.Native.{QueueApi, QueueLaws, NativeQueue}

-- A call that does not wait; a receive with the content of its buffer.
pub data Call (Msg : Type 0) : Type 0 where
  sends sends_front receives : Msg → Call Msg

pub data Result (Msg : Type 0) : Type 0 where
  sent : Error → Result Msg
  received : Error × Msg → Result Msg

-- The bounded list: what a call reports, and the messages after it.
abbrev pub spec_receive {ℓ} : {Msg : Type ℓ} → Msg → List Msg → (Error × Msg) × List Msg
spec_receive buffer [] = ((queue_empty, buffer), [])
spec_receive buffer (m ∷ ms) = ((success, m), ms)

-- A message that is sent, to whichever end, if there is room.
abbrev pub spec_send : {Msg : Type 0} → ℕ → List Msg → List Msg → Result Msg × List Msg
spec_send capacity ms with_message =
    if ltb (length ms) capacity then (sent success, with_message) else (sent queue_full, ms)

abbrev pub spec_step : {Msg : Type 0} → ℕ → Call Msg → List Msg → Result Msg × List Msg
spec_step capacity (sends m) ms = spec_send capacity ms (ms ++ (m ∷ []))
spec_step capacity (sends_front m) ms = spec_send capacity ms (m ∷ ms)
spec_step capacity (receives buffer) ms =
    (received (spec_receive buffer ms).0, (spec_receive buffer ms).1)

abbrev pub spec_run : {Msg : Type 0} → ℕ → List (Call Msg) → List Msg → List (Result Msg) × List Msg
spec_run capacity [] ms = ([], ms)
spec_run capacity (c ∷ cs) ms =
    let (r, after) = spec_step capacity c ms in
    let (rs, last) = spec_run capacity cs after in (r ∷ rs, last)

module _ {K Msg : Type 0} (p : Platform) (pools : PoolApi K) (api : QueueApi K Msg) (size : ℕ) where
  unfoldable pub step : Queue K → Call Msg → M K (Result Msg)
  step self (sends m) = do e ← try_send p pools api size self m; pure (sent e)
  step self (sends_front m) = do e ← try_send_front p pools api size self m; pure (sent e)
  step self (receives buffer) = do r ← try_receive p pools api size self buffer; pure (received r)

  unfoldable pub run : Queue K → List (Call Msg) → M K (List (Result Msg))
  run self [] = pure []
  run self (c ∷ cs) = do r ← step self c; rs ← run self cs; pure (r ∷ rs)

module _ {K Msg : Type 0} (p : Platform) (supported : IsSupported p) (pools : PoolApi K)
    (api : QueueApi K Msg) (size : ℕ) (laws : QueueLaws p.word_size api) where
  open laws use {
    view, send_done, send_refused, front_send_done, front_send_refused, receive_done,
    receive_refused,
  }

  -- What a service of sending is, whichever end it sends to.
  send_lem :
      (a : ℕ) (service : K → ℕ × K) (k : K) (with_message : List Msg)
      → (length (view k a).messages < (view k a).capacity
          → ((service k).0 ≡ 0)
            × (view (service k).1 a ≡ record (view k a) { messages = with_message }))
      → ((view k a).capacity ≤ length (view k a).messages
          → ((service k).0 ≡ to_underlying queue_full) × (view (service k).1 a ≡ view k a))
      → let (r, after) = spec_send (view k a).capacity (view k a).messages with_message in
        (sent (to_error (service k).0) ≡ r)
        × (view (service k).1 a ≡ record (view k a) { messages = after })
  send_lem a service k with_message done refused =
      elim (dec_lt (length (view k a).messages) (view k a).capacity) [
        | yes below ↦
            let (code, after) = done below in
            let reads = to_error_of_zero _ code in (ground (arith, reads), ground (arith, after))
        | no full ↦
            let (code, after) = refused (omega arith) in
            let reads = to_error_of _ queue_full tt code in
            (ground (arith, reads), ground (arith, after))
      ]

  receive_lem :
      (a : ℕ) (buffer : Msg) (k : K) (ms : List Msg)
      → (view k a).is_idle ≡ true
      → (view k a).messages ≡ ms
      → let service = api.receive a 0 buffer k in
        ((to_error service.0, service.1) ≡ (spec_receive buffer ms).0)
        × (view service.2 a ≡ record (view k a) { messages = (spec_receive buffer ms).1 })
  receive_lem a buffer k [] idle e =
      let (code, kept, after) = receive_refused a buffer k idle e in
      (
        rw (to_error_of _ queue_empty tt code, kept) refl,
        after ∙ ap (λ ms. record (view k a) { messages = ms }) e,
      )
  receive_lem a buffer k (m ∷ ms) idle e =
      let (code, front, after) = receive_done a 0 buffer m ms k idle e in
      (rw (to_error_of_zero _ code, front) refl, after)

  step_lem :
      (self : Queue K) (c : Call Msg) (k : K)
      → (view k self.address).is_idle ≡ true
      → let v = view k self.address in
        let (r, after) = spec_step v.capacity c v.messages in
        (k' : K) × (step p pools api size self c k ≡ returns (r, k'))
        × (view k' self.address ≡ record v { messages = after })
  unfolding step try_send try_send_front try_receive
  step_lem self (sends m) k idle =
      let a = self.address in
      let (reports, after) =
        send_lem a (api.send a m 0) k ((view k a).messages ++ (m ∷ [])) (send_done a m 0 k idle)
          (send_refused a m k idle) in
      (
        (api.send a m 0 k).1,
        rw (ticks_of_special_waits p supported).0
            (ap (λ r. returns (r, (api.send a m 0 k).1)) reports),
        after,
      )
  step_lem self (sends_front m) k idle =
      let a = self.address in
      let (reports, after) =
        send_lem a (api.front_send a m 0) k (m ∷ (view k a).messages) (front_send_done a m 0 k idle)
          (front_send_refused a m k idle) in
      (
        (api.front_send a m 0 k).1,
        rw (ticks_of_special_waits p supported).0
            (ap (λ r. returns (r, (api.front_send a m 0 k).1)) reports),
        after,
      )
  step_lem self (receives buffer) k idle =
      let a = self.address in
      let (reports, after) = receive_lem a buffer k (view k a).messages idle refl in
      (
        (api.receive a 0 buffer k).2,
        rw (ticks_of_special_waits p supported).0
            (ap (λ r. returns (received r, (api.receive a 0 buffer k).2)) reports),
        after,
      )

  -- In any sequence of trySend, trySendFront and tryReceive the queue is the bounded list of its
  -- messages: every call returns, each reports what it does on that list, and the queue ends with
  -- the messages of the list.
  pub run-spec_run :
      (self : Queue K) (cs : List (Call Msg)) (k : K)
      → (view k self.address).is_idle ≡ true
      → let v = view k self.address in
        let (rs, after) = spec_run v.capacity cs v.messages in
        (k' : K) × (run p pools api size self cs k ≡ returns (rs, k'))
        × (view k' self.address ≡ record v { messages = after })
  unfolding run
  run-spec_run self [] k idle = (k, refl, refl)
  run-spec_run self (c ∷ cs) k idle =
      let (k1, first, after) = step_lem self c k idle in
      let (k', others, last) =
        run-spec_run self cs k1 (ap (λ (u : NativeQueue Msg). u.is_idle) after ∙ idle) in
      (
        k',
        bind-eq (step p pools api size self c) _ k first
            ∙ bind-eq (run p pools api size self cs) _ k1 others
            ∙ ap
                (λ (u : NativeQueue Msg). returns (
                  (spec_step (view k self.address).capacity c (view k self.address).messages).0
                      ∷ (spec_run u.capacity cs u.messages).0,
                  k',
                ))
                after,
        last
            ∙ ap
                (λ (u : NativeQueue Msg). record u {
                  messages = (spec_run u.capacity cs u.messages).1;
                })
                after,
      )
