-- ===== src/Thread/ThisThread.antt =====
-- thread.hpp and thread.cpp: the functions of ThisThread.
use threadx_cpp.Prelude.{ℕ, M, returns}
use threadx_cpp.Common.{Platform, Error, call}
use threadx_cpp.Ticks.{Duration, Clock, time_left, ticks}
use threadx_cpp.Thread.Native.{ThreadApi}

module _ {K : Type 0} (p : Platform) (api : ThreadApi K) where
  unfoldable pub this_id : K → ℕ
  this_id k = api.running k

  unfoldable pub sleep_for : Duration → M K Error
  sleep_for duration = call (api.sleep (ticks p duration))

  unfoldable pub sleep_until : Clock → ℕ → ℕ → M K Error
  unfolding sleep_for
  sleep_until clock time now = sleep_for (time_left clock time now)

  unfoldable pub yield : M K (Unit {0})
  yield k = returns (tt, api.relinquish k)
