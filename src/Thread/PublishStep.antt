-- ===== src/Thread/PublishStep.antt =====
-- thread.hpp: the critical section of `join` against the steps of Protocol.
use threadx_cpp.Prelude.{
  ℕ, ◌≡◌, inl, inr, refl, ap, ◌∙◌, Bool, true, false, not, ◌||◌, none, some, returns, arith, ◌==◌,
  if◌then◌else◌,
}
use threadx_cpp.Common.{Platform}
use threadx_cpp.Kernel.{CriticalSection}
use threadx_cpp.Kernel.Native.{KernelApi, PortLaws}
use threadx_cpp.Pool.Native.{PoolApi}
use threadx_cpp.Semaphore.{CountingSemaphore}
use threadx_cpp.Semaphore.Native.{SemaphoreApi}
use threadx_cpp.Thread.{Thread, joinable, state_code, completed, terminated}
use threadx_cpp.Thread.Join.{publish}
use threadx_cpp.Thread.Native.{ThreadApi}
use threadx_cpp.Thread.Publish.{publish_masked}
use threadx_cpp.Thread.Protocol.{
  checking, decided, pass, waiting, returned, System, go, resumed, released, Step, refuse, notify,
  acquire, clear, Reach, start, next,
}
use threadx_cpp.Thread.Protocol

-- The state of a thread that has finished.
abbrev pub is_finished : ℕ → Bool
is_finished state = state == state_code completed || state == state_code terminated

module _ {K : Type 0} {Posture : Type 0} (p : Platform) (kernel : KernelApi K Posture)
    (laws : PortLaws kernel) (pools : PoolApi K) (sems : SemaphoreApi K) (api : ThreadApi K)
    (callers : ℕ → Bool) (may_abort : Bool) where
  joinable_lem :
      (self : Thread K) (k : K)
      → joinable p kernel pools api self k
        ≡ not (is_finished (api.state self.address k) || self.address == api.running k)
  unfolding joinable
  joinable_lem self k = ground arith

  -- The state after the critical section, by whether the thread is refused in it.
  abbrev after_section : System → ℕ → Bool → System
  after_section s i true = record (go s i returned) { holder = none }
  after_section s i false = record (go (go s i decided) i waiting) {
    holder = none;
    exit_signal = some i;
  }

  -- What the thread i does in the critical section: it is refused, or it passes and publishes.
  abbrev pub Section : System → ℕ → Bool → System → Type 0
  Section s i true t =
      (u : System) × Step callers may_abort s u × (u.place i ≡ decided) × Step callers may_abort u t
  Section s i false t = Step callers may_abort s t

  section_lem :
      (s : System) (i : ℕ) (f o : Bool)
      → s.place i ≡ checking
      → s.finished ≡ f
      → s.own i ≡ o
      → Section s i (not (f || o)) (after_section s i (f || o))
  section_lem s i true o at_place fin mine = refuse i at_place (inl fin) refl
  section_lem s i false true at_place fin mine = refuse i at_place (inr mine) refl
  section_lem s i false false at_place fin mine = (
    go s i decided,
    pass i at_place fin mine refl,
    ground arith,
    Protocol.publish i (ground arith) refl,
  )

  abbrev published : Thread K → ℕ → Bool → Thread K
  published self i waits = if waits then record self { exit_signal = some i } else self

  after_section-signal :
      (self : Thread K) (s : System) (i : ℕ) (b : Bool)
      → s.exit_signal ≡ self.exit_signal
      → (after_section s i b).exit_signal ≡ (published self i (not b)).exit_signal
  after_section-signal self s i true signal = signal
  after_section-signal self s i false signal = refl

  after_section-place :
      (s : System) (i : ℕ) (b : Bool)
      → (after_section s i b).place i ≡ (if not b then waiting else returned)
  after_section-place s i true = ground arith
  after_section-place s i false = ground arith

  -- The critical section of `join` is a step of the thread that stands in it, in which it is
  -- refused, or two, in which it passes and publishes its signal, if the state of Protocol has the
  -- joined thread finished where the kernel has, and the call one of its own where the kernel has it
  -- running, both with interrupts masked. The code goes on to wait exactly if the steps do, with the
  -- same signal, and leaves the critical section and the interrupts as they were.
  pub publish-Step :
      (self : Thread K) (exit_signal : CountingSemaphore K) (c : CriticalSection K Posture)
      (s : System)
      → c.locked ≡ false
      → s.own exit_signal.address ≡ (self.address == api.running (kernel.disable c.kernel).1)
      → s.place exit_signal.address ≡ checking
      → s.exit_signal ≡ self.exit_signal
      → s.finished ≡ is_finished (api.state self.address (kernel.disable c.kernel).1)
      → (waits : Bool) × (self' : Thread K) × (c' : CriticalSection K Posture) × (t : System)
        × (publish p kernel pools sems api self exit_signal c ≡ returns ((waits, self'), c'))
        × Section s exit_signal.address waits t
        × (t.exit_signal ≡ self'.exit_signal)
        × (t.place exit_signal.address ≡ (if waits then waiting else returned))
        × (c'.locked ≡ false)
        × (laws.posture c'.kernel ≡ laws.posture c.kernel)
  publish-Step self exit_signal c s outside mine at_place signal fin =
      let i = exit_signal.address in
      let k = (kernel.disable c.kernel).1 in
      let refused = s.finished || s.own i in
      let (c', _, run, unlocked, same) =
        publish_masked p kernel laws pools sems api self exit_signal c outside in
      let found : joinable p kernel pools api self k ≡ not refused =
        rw (fin, mine) (joinable_lem self k) in
      (
        not refused,
        published self i (not refused),
        c',
        after_section s i refused,
        run ∙ ap (λ b. returns ((b, published self i b), c')) found,
        section_lem s i s.finished (s.own i) at_place refl refl,
        after_section-signal self s i refused signal,
        after_section-place s i refused,
        unlocked,
        same,
      )
