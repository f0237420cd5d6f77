-- ===== src/Tests/Ticks.antt =====
-- tickTimer.hpp: durations and deadlines in ticks.
use threadx_cpp.Prelude.{ℕ, ◌-◌, ◌*◌, ◌≤◌, ◌≡◌, refl, arith, ltb, if◌then◌else◌, pos, negsuc, true}
use threadx_cpp.Common.{ulong_mod}
use threadx_cpp.Ticks.{
  Duration, Clock, tick_clock, tick_duration, time_left, conversion, ceil, ticks,
}
use threadx_cpp.Ticks.Reduce.{reduce, gcd}
use threadx_cpp.Ticks.Ceiling.{InRange, ticks_least, ticks_negative}
use threadx_cpp.Ticks.Deadline.{ticks-tick_duration, tick_clock_deadline}
use threadx_cpp.Tests.Platforms.{target}

-- 1500 microseconds, counted by a 64-bit number.
abbrev microseconds : Duration
microseconds = record { count = pos 1500; rep_bits = 64; num = 1; den = 1_000_000 }

abbrev overdue : Duration
overdue = record { count = negsuc 4; rep_bits = 64; num = 1; den = 1000 }

abbrev system_clock : Clock
system_clock = record { is_signed = true; rep_bits = 64; num = 1; den = 1000 }

two_ticks : ticks target microseconds ≡ 2
unfolding ticks ceil conversion reduce gcd
two_ticks = refl

microseconds-InRange : InRange target microseconds 1500
unfolding conversion reduce gcd
microseconds-InRange = omega arith

ticks_least_example :
    (1500 * (1 * 1000) ≤ ticks target microseconds * 1_000_000)
    × ((u : ℕ) → 1500 * (1 * 1000) ≤ u * 1_000_000 → ticks target microseconds ≤ u)
ticks_least_example = ticks_least target microseconds 1500 refl microseconds-InRange

ticks_negative_example : ticks target overdue ≡ 0
ticks_negative_example = ticks_negative target overdue 4 refl

ticks-tick_duration_example : ticks target (tick_duration target 7) ≡ 7
ticks-tick_duration_example = ticks-tick_duration target 7 (omega arith) (omega arith)

-- Three ticks late: a wait of 2 ^ 32 - 3 ticks.
tick_clock_deadline_example :
    ticks target (time_left (tick_clock target) 100 103)
    ≡ (if ltb 100 103 then ulong_mod target - (103 - 100) else 100 - 103)
tick_clock_deadline_example =
    tick_clock_deadline target 100 103 (omega arith) (omega arith) (omega arith)
