-- ===== src/Trace.antt =====
-- trace.hpp: the class Trace<Size>, and the masks of trace events.
pub mod Native
pub mod Filter
use threadx_cpp.Prelude.{ℕ, Bool, ◌&&◌, M, ◌>>=◌, ◌>>◌, pure, assert, returns, leb, bit_or}
use threadx_cpp.Common.{Error, call, is_success}
use Native.{TraceApi}

pub data TraceEvent : Type 0 where
  tx_all_events tx_internal_events tx_block_pool_events tx_byte_pool_events : TraceEvent
  tx_event_flags_events tx_interrupt_control_event tx_mutex_events tx_queue_events : TraceEvent
  tx_semaphore_events tx_thread_events tx_time_events tx_timer_events : TraceEvent
  fx_all_events fx_internal_events fx_media_events fx_directory_events : TraceEvent
  fx_file_events : TraceEvent

-- The macros of tx_trace.h and fx_api.h.
abbrev pub Values : Type 0
Values = TraceEvent → ℕ

-- The object: the address of `m_trace`, and the template argument.
pub record Trace : Type 0 where
  pub memory : ℕ
  pub size : ℕ

-- `eventType1 | eventType2`, of two events, and of a mask and an event.
abbrev pub union : Values → TraceEvent → TraceEvent → ℕ
union values event_type1 event_type2 = bit_or (values event_type1) (values event_type2)

abbrev pub union_with : Values → ℕ → TraceEvent → ℕ
union_with values event_type1 event_type2 = bit_or event_type1 (values event_type2)

module _ {K : Type 0} (values : Values) (api : TraceApi K) where
  -- The constructor.
  unfoldable pub construct : Trace → ℕ → M K (Unit {0})
  construct self registry_entries = do
    error ← call (api.enable self.memory self.size registry_entries)
    assert (is_success error)

  unfoldable pub event_filter : ℕ → M K Error
  event_filter event_bits = call (api.event_filter event_bits)

  unfoldable pub event_unfilter : ℕ → M K Error
  event_unfilter event_bits = call (api.event_unfilter event_bits)

  -- The overloads for one event.
  unfoldable pub filter_event : TraceEvent → M K Error
  filter_event event = call (api.event_filter (values event))

  unfoldable pub unfilter_event : TraceEvent → M K Error
  unfilter_event event = call (api.event_unfilter (values event))

  unfoldable pub disable : M K Error
  disable = call api.disable

  unfoldable pub isr_enter_insert : ℕ → M K (Unit {0})
  isr_enter_insert isr_id k = returns (tt, api.isr_enter_insert isr_id k)

  unfoldable pub isr_exit_insert : ℕ → M K (Unit {0})
  isr_exit_insert isr_id k = returns (tt, api.isr_exit_insert isr_id k)

  unfoldable pub user_event_insert : ℕ → ℕ → ℕ → ℕ → ℕ → M K Error
  user_event_insert event_id info_field1 info_field2 info_field3 info_field4 = do
    assert (leb api.user_event_start event_id && leb event_id api.user_event_end)
    call (api.user_event_insert event_id info_field1 info_field2 info_field3 info_field4)

  -- `registerbufFullNotifyCallback`, with the address of the function.
  unfoldable pub register_buf_full_notify : ℕ → M K Error
  register_buf_full_notify callback = call (api.buffer_full_notify callback)
