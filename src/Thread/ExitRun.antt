-- ===== src/Thread/ExitRun.antt =====
-- thread.hpp: the exit notification, and the wait after it, against the steps of Protocol.
use threadx_cpp.Prelude.{
  update, ℕ, ◌≡◌, refl, sym, ap, subst, bind-eq, ◌∙◌, Bool, true, false, Option, none, some,
  returns, arith,
}
use threadx_cpp.Common.{Platform}
use threadx_cpp.Kernel.{CriticalSection}
use threadx_cpp.Semaphore.{CountingSemaphore}
use threadx_cpp.Semaphore.Native.{SemaphoreApi, SemaphoreLaws, NativeSemaphore, put_one}
use threadx_cpp.Thread.{NotifyCallback, Thread, exit}
use threadx_cpp.Thread.Join.{call_application, release_joiner, notify_entry_exit, wait_for_exit}
use threadx_cpp.Thread.Exit.{IsQuiet, IsEmpty, notify-put_one, notify-wait_for_exit}
use threadx_cpp.Thread.Protocol.{
  waiting, returned, System, go, IsFree, resumed, released, Step, notify, acquire, clear, Reach,
  start, next,
}

Reach-next :
    {callers : ℕ → Bool} {may_abort : Bool} {s t u : System}
    → Step callers may_abort s t
    → Reach callers may_abort t u
    → Reach callers may_abort s u
Reach-next st start = next start st
Reach-next st (next r last) = next (Reach-next st r) last

module _ {K : Type 0} (p : Platform) (sems : SemaphoreApi K) (laws : SemaphoreLaws sems)
    (callers : ℕ → Bool) (may_abort : Bool) where
  open laws use {view}

  -- The semaphore that a signal points to is empty, nobody is suspended on it yet, and the
  -- application's callback leaves it alone.
  abbrev pub IsIdleSignal : Thread K → Option ℕ → K → Type 0
  IsIdleSignal self none k = Unit {0}
  IsIdleSignal self (some i) k =
      IsQuiet p sems laws self i × IsEmpty (view k i) × ((view k i).waiting ≡ 0)

  call_application-returns :
      (self : Thread K) (k : K) (c : NotifyCallback K)
      → self.entry_exit_notify_callback ≡ c
      → (k' : K) × (call_application self exit k ≡ returns (tt, k'))
  unfolding call_application
  call_application-returns self k none at_c = (k, rw at_c refl)
  call_application-returns self k (some f) at_c = (f self.address exit k, rw at_c refl)

  notify_none :
      (self : Thread K) (k : K)
      → self.exit_signal ≡ none
      → (k' : K) × (notify_entry_exit p sems self exit k ≡ returns (tt, k'))
  unfolding notify_entry_exit release_joiner
  notify_none self k unset =
      let (k', called) = call_application-returns self k self.entry_exit_notify_callback refl in
      (
        k',
        bind-eq (call_application self exit) (λ _. release_joiner p sems self.exit_signal) k called
            ∙ ap (λ o. release_joiner p sems o k') unset,
      )

  notified-Step :
      (self : Thread K) (k : K) (s : System) (signal : Option ℕ)
      → self.exit_signal ≡ signal
      → IsIdleSignal self signal k
      → (k' : K) × (notify_entry_exit p sems self exit k ≡ returns (tt, k'))
        × ((i : ℕ) → signal ≡ some i → (view k' i).count ≡ (released s signal).count i)
  notified-Step self k s none at_signal idle =
      let (k', run) = notify_none self k at_signal in (k', run, λ i e. cc)
  notified-Step self k s (some i) at_signal (quiet, empty, nobody) =
      let (k', run, after) = notify-put_one p sems laws self i k at_signal quiet empty in
      let one : (put_one (view k i)).count ≡ 1 = ground (arith, nobody, empty.1) in
      (
        k',
        run,
        λ j e.
            let same : i ≡ j = cc in
            subst (λ x. (view k' x).count ≡ update s.count i 1 x) same
              (ap (λ (v : NativeSemaphore). v.count) after ∙ one ∙ ground arith),
      )

  -- The notification of exit is the step of Protocol in which the finished thread notifies, where it
  -- is registered and no thread is in an exclusive critical section: it returns, and the semaphore that the signal points to,
  -- if one does, has the instances that the step gives it. That semaphore is empty before, with
  -- nobody suspended on it, and the application's callback leaves it alone.
  pub notify-Step :
      (self : Thread K) (k : K) (s : System)
      → s.exit_signal ≡ self.exit_signal
      → s.finished ≡ true
      → s.notified ≡ false
      → s.registered ≡ true
      → IsFree s
      → IsIdleSignal self s.exit_signal k
      → (k' : K) × (t : System) × (notify_entry_exit p sems self exit k ≡ returns (tt, k'))
        × Step callers may_abort s t
        × (t.notified ≡ true)
        × ((i : ℕ) → s.exit_signal ≡ some i → (view k' i).count ≡ t.count i)
  notify-Step self k s signal fin unnoted registered free idle =
      let (k', run, counts) = notified-Step self k s s.exit_signal (sym signal) idle in
      (
        k',
        record (released s s.exit_signal) { notified = true },
        run,
        notify fin unnoted registered free refl,
        refl,
        counts,
      )

  -- The semaphore's holder goes on, and clears the signal.
  wait-Reach :
      (s : System) (i : ℕ)
      → s.place i ≡ waiting
      → s.count i ≡ 1
      → IsFree s
      → (t : System) × Reach callers may_abort s t × (t.exit_signal ≡ none) × (t.place i ≡ returned)
  wait-Reach s i at_place one free =
      let s1 : System = record (go s i resumed) { count = update s.count i 0 } in
      let s2 : System = record (go s1 i returned) { exit_signal = none } in
      (
        s2,
        next (next start (acquire i at_place one free refl)) (clear i (ground arith) free refl),
        refl,
        ground arith,
      )

  -- A thread that finishes after the signal was set, with its notification registered, while the
  -- thread that set it is about to wait: the notification of exit returns, the wait returns then, and the two are a run of Protocol in
  -- which the thread that joins gets from its wait to its return; the signal is cleared in both.
  -- The semaphore is empty before, with nobody suspended on it, and the application's callback
  -- leaves it alone.
  pub exit-Reach :
      {Posture : Type 0} (self : Thread K) (sem : CountingSemaphore K)
      (c : CriticalSection K Posture) (s : System)
      → self.exit_signal ≡ some sem.address
      → s.exit_signal ≡ some sem.address
      → s.place sem.address ≡ waiting
      → s.finished ≡ true
      → s.notified ≡ false
      → s.registered ≡ true
      → IsFree s
      → IsIdleSignal self (some sem.address) c.kernel
      → (k1 k2 : K) × (self' : Thread K) × (t : System) × (notify_entry_exit p sems self exit
            c.kernel
          ≡ returns (tt, k1))
        × (wait_for_exit p sems self sem (record c { kernel = k1 })
            ≡ returns (self', record c { kernel = k2 }))
        × Reach callers may_abort s t
        × (t.place sem.address ≡ returned)
        × (self'.exit_signal ≡ none)
        × (t.exit_signal ≡ none)
  exit-Reach self sem c s mine signal at_place fin unnoted registered free (quiet, empty, nobody) =
      let a = sem.address in
      let (k1, k2, noted, waited) =
        notify-wait_for_exit p sems laws self sem c mine quiet empty nobody in
      let s1 : System = record (released s (some a)) { notified = true } in
      let first : Step callers may_abort s s1 =
        notify fin unnoted registered free
          (ap (λ o. record (released s o) { notified = true }) (sym signal)) in
      let (t, rest, unset, there) = wait-Reach s1 a at_place (ground arith) free in
      (
        k1,
        k2,
        record self { exit_signal = none },
        t,
        noted,
        waited,
        Reach-next first rest,
        there,
        refl,
        unset,
      )
