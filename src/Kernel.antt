-- ===== src/Kernel.antt =====
-- kernel.hpp and kernel.cpp: the critical section, and the questions about the running context.
pub mod Native
pub mod Critical
pub mod Preemption
use threadx_cpp.Prelude.{
  ℕ, Bool, true, false, not, ◌&&◌, Option, none, some, ltb, ◌==◌, if◌then◌else◌,
}
use Native.{KernelApi}

pub data State : Type 0 where
  uninitialised running : State

-- The static members of CriticalSection, `m_locked` and the save area of
-- TX_INTERRUPT_SAVE_AREA, beside the kernel.
pub record CriticalSection (K : Type 0) (Posture : Type 0) : Type 0 where
  pub locked : Bool
  pub interrupt_save : Posture
  pub kernel : K

module _ {K : Type 0} {Posture : Type 0} (api : KernelApi K Posture) where
  unfoldable pub lock : CriticalSection K Posture → CriticalSection K Posture
  lock s =
      if not s.locked
      then (let (q, k) = api.disable s.kernel in
          record s { locked = true; interrupt_save = q; kernel = k })
      else s

  unfoldable pub unlock : CriticalSection K Posture → CriticalSection K Posture
  unlock s =
      if s.locked
      then record s { locked = false; kernel = api.restore s.interrupt_save s.kernel }
      else s

  -- The constructor and the destructor of the scoped object.
  unfoldable pub construct : CriticalSection K Posture → CriticalSection K Posture
  unfolding lock
  construct s = lock s

  unfoldable pub destruct : CriticalSection K Posture → CriticalSection K Posture
  unfolding unlock
  destruct s = unlock s

  unfoldable start : K → K
  start k = api.enter k

  unfoldable pub in_thread : K → Bool
  in_thread k = elim (api.identify k) [ some _ ↦ true | none ↦ false ]

  unfoldable pub in_isr : K → Bool
  in_isr k =
      not (api.system_state k == api.initialize_is_finished)
      && ltb (api.system_state k) api.initialize_in_progress

  unfoldable pub state : K → State
  state k = if ltb (api.system_state k) api.initialize_in_progress then running else uninitialised
