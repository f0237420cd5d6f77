-- ===== src/Thread/Exit.antt =====
-- thread.hpp: what the notification of exit does to the semaphore of a thread that joins, and what
-- that thread's wait does after it.
use threadx_cpp.Prelude.{
  ℕ, ◌≡◌, refl, inl, ap, ◌∙◌, true, Option, none, some, bind-eq, returns, aborts, Outcome, M, ◌>>◌,
  pure, assert, ◌||◌, ◌==◌, arith,
}
use threadx_cpp.Common.{
  Platform, Error, wait_aborted, success, is_success, to_underlying, to_error_of_zero,
}
use threadx_cpp.Ticks.{ticks, wait_forever}
use threadx_cpp.Kernel.{CriticalSection}
use threadx_cpp.Semaphore.{CountingSemaphore, binary_ceiling, release, acquire}
use threadx_cpp.Semaphore
use threadx_cpp.Semaphore.Release.{IsValid, room, verdict, release_lem}
use threadx_cpp.Semaphore.Native.{SemaphoreApi, SemaphoreLaws, NativeSemaphore, put_one}
use threadx_cpp.Thread.{Thread, ThreadNotifyCondition, exit}
use threadx_cpp.Thread.Join.{
  on_kernel, call_application, release_joiner, notify_entry_exit, wait_for_exit,
}

pub on_kernel-returns :
    {K Posture A : Type 0} (m : M K A) (s : CriticalSection K Posture) {a : A} {k : K}
    → m s.kernel ≡ returns (a, k)
    → on_kernel m s ≡ returns (a, record s { kernel = k })
on_kernel-returns {K} {Posture} {A} m s e =
    ap
      (λ (o : Outcome (A × K)). elim o [
        | returns (a, k) ↦ returns (a, record s { kernel = k })
        | aborts ↦ aborts
      ])
      e

-- A semaphore that has no instance.
abbrev pub IsEmpty : NativeSemaphore → Type 0
IsEmpty v = (v.is_created ≡ true) × (v.count ≡ 0)

module _ {K : Type 0} (p : Platform) (sems : SemaphoreApi K) (laws : SemaphoreLaws sems) where
  open laws use {view, put_done, take_done, delete_done}

  -- The application's callback leaves the semaphore at the address as it is.
  abbrev pub IsQuiet : Thread K → ℕ → Type 0
  IsQuiet self a =
      (f : ℕ → ThreadNotifyCondition → K → K)
      → self.entry_exit_notify_callback ≡ some f
      → (k : K) → view (f self.address exit k) a ≡ view k a

  call_application_lem :
      (self : Thread K) (a : ℕ) (k : K) (c : Option (ℕ → ThreadNotifyCondition → K → K))
      → self.entry_exit_notify_callback ≡ c
      → IsQuiet self a
      → (k' : K) × (call_application self exit k ≡ returns (tt, k')) × (view k' a ≡ view k a)
  unfolding call_application
  call_application_lem self a k none at_c quiet = (k, rw at_c refl, refl)
  call_application_lem self a k (some f) at_c quiet =
      (f self.address exit k, rw at_c refl, quiet f at_c k)

  release_joiner_lem :
      (a : ℕ) (k : K)
      → IsEmpty (view k a)
      → (k' : K) × (release_joiner p sems (some a) k ≡ returns (tt, k'))
        × (view k' a ≡ put_one (view k a))
  unfolding release_joiner is_success to_underlying
  release_joiner_lem a k (live, empty) =
      let v = view k a in
      let self : CountingSemaphore K = record {
        address = a;
        ceiling = binary_ceiling;
        release_notify_callback = none;
      } in
      let valid : IsValid binary_ceiling v = record {
        created = live;
        ceiling_pos = omega arith;
        within = omega (arith, empty);
        no_idle_instance = inl empty;
      } in
      let (k', run, after) = release_lem p sems laws self 1 k valid in
      let room_for_one : verdict 1 (room binary_ceiling v) ≡ success = ground (arith, empty) in
      (
        k',
        bind-eq (release p sems self 1) _ k (run ∙ ap (λ e. returns (e, k')) room_for_one),
        after ∙ ground (arith, live, empty),
      )

  -- The notification of exit returns where a thread joins, whose semaphore is empty, if the
  -- application's callback leaves that semaphore alone: the semaphore gets its one instance, or
  -- the thread that is suspended for it does.
  pub notify-put_one :
      (self : Thread K) (a : ℕ) (k : K)
      → self.exit_signal ≡ some a
      → IsQuiet self a
      → IsEmpty (view k a)
      → (k' : K) × (notify_entry_exit p sems self exit k ≡ returns (tt, k'))
        × (view k' a ≡ put_one (view k a))
  unfolding notify_entry_exit
  notify-put_one self a k at_signal quiet (live, empty) =
      let (k1, called, same) =
        call_application_lem self a k self.entry_exit_notify_callback refl quiet in
      let (k', released, after) = release_joiner_lem a k1 (
        ap (λ (v : NativeSemaphore). v.is_created) same ∙ live,
        ap (λ (v : NativeSemaphore). v.count) same ∙ empty,
      ) in
      (
        k',
        bind-eq (call_application self exit) _ k called
            ∙ ap (λ o. release_joiner p sems o k1) at_signal
            ∙ released,
        after ∙ ap put_one same,
      )

  -- The wait of a thread that joins, on a semaphore with its instance.
  wait_for_exit_lem :
      {Posture : Type 0} (self : Thread K) (sem : CountingSemaphore K)
      (s : CriticalSection K Posture)
      → (view s.kernel sem.address).is_created ≡ true
      → (view s.kernel sem.address).count ≡ 1
      → (k' : K) × (wait_for_exit p sems self sem s
          ≡ returns (record self { exit_signal = none }, record s { kernel = k' }))
  unfolding wait_for_exit acquire Semaphore.destruct is_success to_underlying
  wait_for_exit_lem {Posture} self sem s live full =
      let a = sem.address in
      let w = ticks p (wait_forever p) in
      let (code, after) = take_done a w s.kernel live (omega (arith, full)) in
      let k1 = (sems.take a w s.kernel).1 in
      let gone = delete_done a k1 (ap (λ (v : NativeSemaphore). v.is_created) after ∙ live) in
      let took : acquire p sems sem s.kernel ≡ returns (success, k1) =
        ap (λ e. returns (e, k1)) (to_error_of_zero _ code) in
      let deleted : Semaphore.destruct p sems sem k1 ≡ returns (tt, (sems.delete a k1).1) =
        rw (to_error_of_zero _ gone) refl in
      let joined : Thread K = record self { exit_signal = none } in
      let s1 : CriticalSection K Posture = record s { kernel = k1 } in
      let rest : M (CriticalSection K Posture) (Thread K) =
        on_kernel (Semaphore.destruct p sems sem) >> pure joined in
      let check : Error → M (CriticalSection K Posture) (Unit {0}) =
        λ e. assert (is_success e || to_underlying e == to_underlying wait_aborted) in
      (
        (sems.delete a k1).1,
        bind-eq (on_kernel (acquire p sems sem)) (λ e. check e >> rest) s
              (on_kernel-returns (acquire p sems sem) s took)
            ∙ bind-eq (on_kernel (Semaphore.destruct p sems sem)) (λ _. pure joined) s1
                (on_kernel-returns (Semaphore.destruct p sems sem) s1 deleted),
      )

  -- A thread that finishes before the thread that joins it waits, and after the signal was set: the
  -- notification of its exit returns, and the wait then returns too, for every posture of the
  -- critical section; the signal is cleared. The application's callback has to leave the semaphore
  -- of the thread that joins alone, on which nobody waits.
  pub notify-wait_for_exit :
      {Posture : Type 0} (self : Thread K) (sem : CountingSemaphore K)
      (s : CriticalSection K Posture)
      → self.exit_signal ≡ some sem.address
      → IsQuiet self sem.address
      → IsEmpty (view s.kernel sem.address)
      → (view s.kernel sem.address).waiting ≡ 0
      → (k1 k2 : K) × (notify_entry_exit p sems self exit s.kernel ≡ returns (tt, k1))
        × (wait_for_exit p sems self sem (record s { kernel = k1 })
            ≡ returns (record self { exit_signal = none }, record s { kernel = k2 }))
  notify-wait_for_exit {Posture} self sem s at_signal quiet (live, empty) idle =
      let a = sem.address in
      let (k1, noted, after) = notify-put_one self a s.kernel at_signal quiet (live, empty) in
      let one : put_one (view s.kernel a) ≡ record { is_created = true; count = 1; waiting = 0 } =
        ground (arith, live, empty, idle) in
      let (k2, waited) =
        wait_for_exit_lem self sem (record s { kernel = k1 })
          (ap (λ (v : NativeSemaphore). v.is_created) (after ∙ one))
          (ap (λ (v : NativeSemaphore). v.count) (after ∙ one)) in
      (k1, k2, noted, waited)
