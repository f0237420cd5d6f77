-- ===== src/Tests/Trace.antt =====
-- trace.hpp: a kernel whose state is the function that tells what is traced, and two events.
use threadx_cpp.Prelude.{ℕ, ◌≡◌, refl, Bool, true, not, ◌&&◌, ◌||◌, List, [], ◌∷◌, returns, bit}
use mathlib.Core.List.Perm
use threadx_cpp.Common.{Error, success}
use threadx_cpp.Trace.{Values, tx_queue_events, tx_mutex_events, event_filter}
use threadx_cpp.Trace.Native.{TraceApi, TraceLaws}
use threadx_cpp.Trace.Filter.{union_all, filter_each, AllSuccess, filter_union}

abbrev values : Values
values tx_mutex_events = 0x40
values tx_queue_events = 0x80
values _ = 1

abbrev api : TraceApi (ℕ → Bool)
api = record {
  user_event_start = 4096;
  user_event_end = 65535;
  enable = λ m s e k. (0, k);
  event_filter = λ mask k. (0, λ i. k i && not (bit mask i));
  event_unfilter = λ mask k. (0, λ i. k i || bit mask i);
  disable = λ k. (0, k);
  isr_enter_insert = λ i k. k;
  isr_exit_insert = λ i k. k;
  user_event_insert = λ e a b c d k. (0, k);
  buffer_full_notify = λ f k. (0, k);
}

laws : TraceLaws api
laws = record {
  is_traced = λ k. k;
  filter_code = λ mask k. refl;
  filter_done = λ mask k i. refl;
  unfilter_code = λ mask k. refl;
  unfilter_done = λ mask k i. refl;
}

abbrev everything : ℕ → Bool
everything i = true

union_runs : union_all values 0x40 (tx_queue_events ∷ []) ≡ 0xc0
union_runs = refl

filter_union_example :
    (errors : List Error) × (k' k'' : ℕ → Bool) × (event_filter values api
        (union_all values 0x40 (tx_queue_events ∷ []))
        everything
      ≡ returns (success, k'))
    × (filter_each values api (tx_queue_events ∷ tx_mutex_events ∷ []) everything
        ≡ returns (errors, k''))
    × AllSuccess errors
    × ((i : ℕ) → k' i ≡ k'' i)
unfolding laws
filter_union_example =
    filter_union values api laws tx_mutex_events (tx_queue_events ∷ [])
      (tx_queue_events ∷ tx_mutex_events ∷ []) everything
      (Perm.swap tx_queue_events tx_mutex_events [])
