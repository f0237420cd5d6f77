-- ===== src/Thread/JoinFinished.antt =====
-- thread.hpp: `join` of a thread that cannot be joined.
use threadx_cpp.Prelude.{
  ℕ, ◌≡◌, refl, ap, ◌∙◌, Bool, true, false, not, none, some, M, ◌>>=◌, ◌>>◌, bind-eq, pure, assert,
  returns, if◌then◌else◌,
}
use threadx_cpp.Common.{Platform, is_success, to_underlying, to_error_of_zero}
use threadx_cpp.Kernel.{CriticalSection}
use threadx_cpp.Kernel.Native.{KernelApi}
use threadx_cpp.Pool.Native.{PoolApi}
use threadx_cpp.Semaphore.{CountingSemaphore, binary_ceiling}
use threadx_cpp.Semaphore
use threadx_cpp.Semaphore.Native.{SemaphoreApi, SemaphoreLaws, NativeSemaphore}
use threadx_cpp.Thread.{Thread, joinable}
use threadx_cpp.Thread.Join.{is_set, on_kernel, publish, wait_for_exit, join}
use threadx_cpp.Thread.Exit.{on_kernel-returns}
use threadx_cpp.Thread.Publish.{left, publish_run}
use threadx_cpp.Thread.Native.{ThreadApi}

module _ {K : Type 0} {Posture : Type 0} (p : Platform) (kernel : KernelApi K Posture)
    (pools : PoolApi K) (sems : SemaphoreApi K) (laws : SemaphoreLaws sems)
    (api : ThreadApi K) where
  open laws use {view, create_done, delete_done}

  abbrev local_signal : ℕ → CountingSemaphore K
  local_signal a = record { address = a; ceiling = binary_ceiling; release_notify_callback = none }

  construct-returns :
      (a : ℕ) (k : K)
      → (sems.create a "join" 0 k).0 ≡ 0
      → Semaphore.construct p sems a binary_ceiling "join" 0 none k
        ≡ returns (local_signal a, (sems.create a "join" 0 k).1)
  unfolding Semaphore.construct is_success to_underlying
  construct-returns a k done = rw (to_error_of_zero _ done) refl

  destruct-returns :
      (a : ℕ) (k : K)
      → (view k a).is_created ≡ true
      → Semaphore.destruct p sems (local_signal a) k ≡ returns (tt, (sems.delete a k).1)
  unfolding Semaphore.destruct is_success to_underlying
  destruct-returns a k live = rw (to_error_of_zero _ (delete_done a k live)) refl

  -- `join` of a thread that cannot be joined, since it has finished or is the caller, returns
  -- without waiting and leaves the object as it was, the critical section left: if no thread joins
  -- already, the semaphore can be created, and it stays created while interrupts are masked and
  -- restored.
  pub join_unjoinable :
      (self : Thread K) (a : ℕ) (s : CriticalSection K Posture)
      → let k1 = (sems.create a "join" 0 s.kernel).1 in
        let s1 : CriticalSection K Posture = record s { kernel = k1 } in
        self.exit_signal ≡ none
        → s.locked ≡ false
        → (sems.create a "join" 0 s.kernel).0 ≡ 0
        → joinable p kernel pools api self (kernel.disable k1).1 ≡ false
        → view (left p kernel pools sems api s1).kernel a ≡ view k1 a
        → (s' : CriticalSection K Posture) × (join p kernel pools sems api self a s
            ≡ returns (self, s'))
          × (s'.locked ≡ false)
  unfolding join
  join_unjoinable self a s unset outside done refused kept =
      let k1 = (sems.create a "join" 0 s.kernel).1 in
      let s1 : CriticalSection K Posture = record s { kernel = k1 } in
      let s2 = left p kernel pools sems api s1 in
      let sem = local_signal a in
      let live : (view s2.kernel a).is_created ≡ true =
        ap (λ (v : NativeSemaphore). v.is_created) (kept ∙ create_done a "join" 0 s.kernel done) in
      let go_on : CountingSemaphore K → Bool × Thread K → M (CriticalSection K Posture) (Thread K) =
        λ e w. elim w.0 [
          | true ↦ wait_for_exit p sems w.1 e
          | false ↦ (on_kernel (Semaphore.destruct p sems e) >> pure w.1)
        ] in
      let body : CountingSemaphore K → M (CriticalSection K Posture) (Thread K) =
        λ e. publish p kernel pools sems api self e >>= go_on e in
      let constructing : M (CriticalSection K Posture) (CountingSemaphore K) =
        on_kernel (Semaphore.construct p sems a binary_ceiling "join" 0 none) in
      (
        record s2 { kernel = (sems.delete a s2.kernel).1 },
        bind-eq (assert (not (is_set self.exit_signal))) (λ _. constructing >>= body) s
              (ap (λ o. assert (not (is_set o)) s) unset)
            ∙ bind-eq constructing body s (
                on_kernel-returns (Semaphore.construct p sems a binary_ceiling "join" 0 none) s
                  (construct-returns a s.kernel done))
            ∙ bind-eq (publish p kernel pools sems api self sem) (go_on sem) s1 (
                publish_run p kernel pools sems api self sem s1 outside
                ∙ ap
                    (λ w.
                      returns ((w, if w then record self { exit_signal = some a } else self), s2))
                    refused)
            ∙ bind-eq (on_kernel (Semaphore.destruct p sems sem)) (λ _. pure self) s2
                (on_kernel-returns (Semaphore.destruct p sems sem) s2
                  (destruct-returns a s2.kernel live)),
        refl,
      )
