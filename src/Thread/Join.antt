-- ===== src/Thread/Join.antt =====
-- thread.hpp: `join`, and the notification of entry and exit. The state is the static section of
-- kernel.cpp with the kernel, which stands for all that the other contexts do across a wait.
use threadx_cpp.Prelude.{
  ℕ, Bool, true, false, not, ◌||◌, Option, none, some, M, ◌>>=◌, ◌>>◌, pure, assert, returns,
  aborts, ◌==◌, if◌then◌else◌,
}
use threadx_cpp.Common.{Platform, wait_aborted, to_underlying, is_success}
use threadx_cpp.Kernel.{CriticalSection}
use threadx_cpp.Kernel
use threadx_cpp.Kernel.Native.{KernelApi}
use threadx_cpp.Pool.Native.{PoolApi}
use threadx_cpp.Semaphore.{CountingSemaphore, binary_ceiling}
use threadx_cpp.Semaphore
use threadx_cpp.Semaphore.Native.{SemaphoreApi}
use threadx_cpp.Thread.{Thread, ThreadNotifyCondition, entry, exit, joinable}
use threadx_cpp.Thread.Native.{ThreadApi}

abbrev pub on_kernel {ℓ} :
    {K Posture : Type 0} {A : Type ℓ} → M K A → M (CriticalSection K Posture) A
on_kernel m s = elim (m s.kernel) [
  | returns (a, k) ↦ returns (a, record s { kernel = k })
  | aborts ↦ aborts
]

abbrev pub is_set {ℓ} : {A : Type ℓ} → Option A → Bool
is_set none = false
is_set (some _) = true

-- The callback of the application, which is called first.
unfoldable pub call_application : {K : Type 0} → Thread K → ThreadNotifyCondition → M K (Unit {0})
call_application self condition k = elim self.entry_exit_notify_callback [
  | some f ↦ returns (tt, f self.address condition k)
  | none ↦ returns (tt, k)
]

module _ {K : Type 0} (p : Platform) (sems : SemaphoreApi K) where
  -- `if (thread.m_exitSignalPtr)`, with the release of the binary semaphore there.
  unfoldable pub release_joiner : Option ℕ → M K (Unit {0})
  release_joiner none = pure tt
  release_joiner (some address) = do
    error ←
        Semaphore.release p sems
          (record { address = address; ceiling = binary_ceiling; release_notify_callback = none }) 1
    assert (is_success error)

  -- `entryExitNotifyCallback`.
  unfoldable pub notify_entry_exit : Thread K → ThreadNotifyCondition → M K (Unit {0})
  unfolding call_application release_joiner
  notify_entry_exit self entry = call_application self entry
  notify_entry_exit self exit = call_application self exit >> release_joiner self.exit_signal

module _ {K : Type 0} {Posture : Type 0} (p : Platform) (sems : SemaphoreApi K) where
  -- The rest of `join` where it waits, with the destruction of the semaphore at its end.
  unfoldable pub wait_for_exit :
      Thread K → CountingSemaphore K → M (CriticalSection K Posture) (Thread K)
  wait_for_exit self exit_signal = do
    error ← on_kernel (Semaphore.acquire p sems exit_signal)
    assert (is_success error || to_underlying error == to_underlying wait_aborted)
    on_kernel (Semaphore.destruct p sems exit_signal)
    pure (record self { exit_signal = none })

module _ {K : Type 0} {Posture : Type 0} (p : Platform) (kernel : KernelApi K Posture)
    (pools : PoolApi K) (sems : SemaphoreApi K) (api : ThreadApi K) where
  -- The scoped object `cs`: its construction and its destruction.
  abbrev enter : M (CriticalSection K Posture) (Unit {0})
  enter s = returns (tt, Kernel.construct kernel s)

  abbrev leave : M (CriticalSection K Posture) (Unit {0})
  leave s = returns (tt, Kernel.destruct kernel s)

  -- The block that decides whether to wait: with true the signal has been set.
  unfoldable pub publish :
      Thread K → CountingSemaphore K → M (CriticalSection K Posture) (Bool × Thread K)
  unfolding Kernel.construct Kernel.destruct
  publish self exit_signal = do
    enter
    can_wait ←
        λ (s : CriticalSection K Posture). returns (joinable p kernel pools api self s.kernel, s)
    let self' : Thread K =
        if can_wait then record self { exit_signal = some exit_signal.address } else self
    leave
    pure (can_wait, self')

  -- The address at which the local semaphore stands is an argument.
  unfoldable pub join : Thread K → ℕ → M (CriticalSection K Posture) (Thread K)
  unfolding publish wait_for_exit
  join self local_address = do
    assert (not (is_set self.exit_signal))
    exit_signal ← on_kernel (Semaphore.construct p sems local_address binary_ceiling "join" 0 none)
    (waits, self') ← publish self exit_signal
    elim waits [
      | true ↦ wait_for_exit p sems self' exit_signal
      | false ↦ (on_kernel (Semaphore.destruct p sems exit_signal) >> pure self')
    ]
