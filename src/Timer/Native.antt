-- ===== src/Timer/Native.antt =====
-- The application timers of ThreadX that tickTimer.hpp and tickTimer.cpp call: parameters of the
-- model. `TimerLaws` states what the ThreadX manual says of them.
use threadx_cpp.Prelude.{ℕ, ◌≡◌, String, Bool, true, false, ◌==◌, if◌then◌else◌}
use threadx_cpp.Common.{tick_error, to_underlying}

-- The services, over the state K of the kernel. A timer is named by the address of its control
-- block, and each service returns its code; `name` reads a field of that block, and `time_get` the
-- count of ticks.
pub record TimerApi (K : Type 0) : Type 0 where
  pub create : ℕ → String → Bool → ℕ → ℕ → ℕ → ℕ → K → ℕ × K
  pub change : ℕ → ℕ → ℕ → K → ℕ × K
  pub activate : ℕ → K → ℕ × K
  pub deactivate : ℕ → K → ℕ × K
  pub delete : ℕ → K → ℕ × K
  pub name : ℕ → K → String
  pub time_get : K → ℕ

-- What ThreadX keeps of a timer.
pub record NativeTimer : Type 0 where
  pub is_active : Bool
  pub initial : ℕ
  pub reschedule : ℕ

-- A service that returns TX_SUCCESS has done its work on the timer, one that returns another code
-- has left the timer as it was, and no timer takes initial ticks of zero.
pub record TimerLaws {K : Type 0} (api : TimerApi K) : Type 0 where
  pub view : K → ℕ → NativeTimer
  pub create_done :
      (a : ℕ) (n : String) (f : Bool) (x i r s : ℕ) (k : K)
      → (api.create a n f x i r s k).0 ≡ 0
      → view (api.create a n f x i r s k).1 a
        ≡ record { is_active = s == 1; initial = i; reschedule = r }
  pub change_lem :
      (a i r : ℕ) (k : K)
      → view (api.change a i r k).1 a ≡ (
          if (api.change a i r k).0 == 0
          then record (view k a) { initial = i; reschedule = r }
          else view k a)
  pub activate_lem :
      (a : ℕ) (k : K)
      → view (api.activate a k).1 a
        ≡ (if (api.activate a k).0 == 0 then record (view k a) { is_active = true } else view k a)
  pub deactivate_lem :
      (a : ℕ) (k : K)
      → view (api.deactivate a k).1 a ≡ (
          if (api.deactivate a k).0 == 0 then record (view k a) { is_active = false } else view k a)
  pub create_zero :
      (a : ℕ) (n : String) (f : Bool) (x r s : ℕ) (k : K)
      → (api.create a n f x 0 r s k).0 ≡ to_underlying tick_error
  pub change_zero : (a r : ℕ) (k : K) → (api.change a 0 r k).0 ≡ to_underlying tick_error
