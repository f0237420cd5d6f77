-- ===== src/Thread/Publish.antt =====
-- thread.hpp: the critical section of `join`, in which it decides whether to wait.
use threadx_cpp.Prelude.{◌≡◌, refl, ◌∙◌, false, some, returns, if◌then◌else◌}
use threadx_cpp.Common.{Platform}
use threadx_cpp.Kernel.{CriticalSection, lock, unlock}
use threadx_cpp.Kernel
use threadx_cpp.Kernel.Native.{KernelApi, PortLaws}
use threadx_cpp.Pool.Native.{PoolApi}
use threadx_cpp.Semaphore.{CountingSemaphore}
use threadx_cpp.Semaphore.Native.{SemaphoreApi}
use threadx_cpp.Thread.{Thread, joinable}
use threadx_cpp.Thread.Join.{publish}
use threadx_cpp.Thread.Native.{ThreadApi}

module _ {K : Type 0} {Posture : Type 0} (p : Platform) (kernel : KernelApi K Posture)
    (pools : PoolApi K) (sems : SemaphoreApi K) (api : ThreadApi K) where
  -- The static section after it has been entered from the outside, and left.
  abbrev pub left : CriticalSection K Posture → CriticalSection K Posture
  left s =
      let (q, k) = kernel.disable s.kernel in
      record { locked = false; interrupt_save = q; kernel = kernel.restore q k }

  pub publish_run :
      (self : Thread K) (exit_signal : CountingSemaphore K) (s : CriticalSection K Posture)
      → s.locked ≡ false
      → let waits = joinable p kernel pools api self (kernel.disable s.kernel).1 in
        publish p kernel pools sems api self exit_signal s
        ≡ returns (
          (waits, if waits then record self { exit_signal = some exit_signal.address } else self),
          left s,
        )
  unfolding publish Kernel.construct Kernel.destruct lock unlock
  publish_run self exit_signal s outside = rw outside refl

module _ {K : Type 0} {Posture : Type 0} (p : Platform) (kernel : KernelApi K Posture)
    (laws : PortLaws kernel) (pools : PoolApi K) (sems : SemaphoreApi K) (api : ThreadApi K) where
  open laws use {posture, masked, disable_masks, disable_saves, restore_lem}

  -- Outside every critical section, the part of `join` that decides whether to wait returns: it
  -- asks whether the thread is joinable with interrupts masked, sets the signal exactly if it is,
  -- to the semaphore that it was given, and leaves the critical section and the interrupts as they
  -- were before.
  pub publish_masked :
      (self : Thread K) (exit_signal : CountingSemaphore K) (s : CriticalSection K Posture)
      → s.locked ≡ false
      → let k = (kernel.disable s.kernel).1 in
        let waits = joinable p kernel pools api self k in
        (s' : CriticalSection K Posture) × (posture k ≡ masked)
        × (publish p kernel pools sems api self exit_signal s
            ≡ returns (
              (
                waits,
                if waits then record self { exit_signal = some exit_signal.address } else self,
              ),
              s',
            ))
        × (s'.locked ≡ false)
        × (posture s'.kernel ≡ posture s.kernel)
  publish_masked self exit_signal s outside =
      let (q, k) = kernel.disable s.kernel in
      (
        left p kernel pools sems api s,
        disable_masks s.kernel,
        publish_run p kernel pools sems api self exit_signal s outside,
        refl,
        restore_lem q k ∙ disable_saves s.kernel,
      )
