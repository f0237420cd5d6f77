-- ===== src/Trace/Native.antt =====
-- The trace services of ThreadX that trace.hpp calls: parameters of the model. `TraceLaws` states
-- what the ThreadX manual says of them.
use threadx_cpp.Prelude.{ℕ, ◌≡◌, Bool, not, ◌&&◌, ◌||◌, bit}

-- The services over the state K of ThreadX, and the range of the identifiers of user events.
pub record TraceApi (K : Type 0) : Type 0 where
  pub user_event_start : ℕ
  pub user_event_end : ℕ
  pub enable : ℕ → ℕ → ℕ → K → ℕ × K
  pub event_filter : ℕ → K → ℕ × K
  pub event_unfilter : ℕ → K → ℕ × K
  pub disable : K → ℕ × K
  pub isr_enter_insert : ℕ → K → K
  pub isr_exit_insert : ℕ → K → K
  pub user_event_insert : ℕ → ℕ → ℕ → ℕ → ℕ → K → ℕ × K
  pub buffer_full_notify : ℕ → K → ℕ × K

-- Each bit stands for a kind of event, and `is_traced` tells which kinds are inserted into the
-- buffer: a filter stops the kinds of its mask, and the removal of a filter lets them in again.
pub record TraceLaws {K : Type 0} (api : TraceApi K) : Type 0 where
  pub is_traced : K → ℕ → Bool
  pub filter_code : (mask : ℕ) (k : K) → (api.event_filter mask k).0 ≡ 0
  pub filter_done :
      (mask : ℕ) (k : K) (i : ℕ)
      → is_traced (api.event_filter mask k).1 i ≡ (is_traced k i && not (bit mask i))
  pub unfilter_code : (mask : ℕ) (k : K) → (api.event_unfilter mask k).0 ≡ 0
  pub unfilter_done :
      (mask : ℕ) (k : K) (i : ℕ)
      → is_traced (api.event_unfilter mask k).1 i ≡ (is_traced k i || bit mask i)
