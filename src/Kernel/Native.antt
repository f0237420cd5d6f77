-- ===== src/Kernel/Native.antt =====
-- What kernel.hpp and kernel.cpp use of ThreadX and of its port: parameters of the model.
use threadx_cpp.Prelude.{ℕ, ◌≡◌, Option}

-- TX_DISABLE gives the interrupt posture that it found, for the save area, and masks interrupts;
-- TX_RESTORE puts a saved posture back. The rest reads the kernel.
pub record KernelApi (K : Type 0) (Posture : Type 0) : Type 0 where
  pub disable : K → Posture × K
  pub restore : Posture → K → K
  pub enter : K → K
  pub identify : K → Option ℕ
  pub system_state : K → ℕ
  pub initialize_is_finished : ℕ
  pub initialize_in_progress : ℕ

pub record PortLaws {K : Type 0} {Posture : Type 0} (api : KernelApi K Posture) : Type 0 where
  pub posture : K → Posture
  pub masked : Posture
  pub disable_saves : (k : K) → (api.disable k).0 ≡ posture k
  pub disable_masks : (k : K) → posture (api.disable k).1 ≡ masked
  pub restore_lem : (q : Posture) (k : K) → posture (api.restore q k) ≡ q
