-- ===== src/Ticks.antt =====
-- tickTimer.hpp: `TickTimer::ticks`, which turns a std::chrono duration into ticks, and the wait
-- for a deadline, `time - Clock::now()`, as every `…Until` function computes it.
pub mod Reduce
pub mod Ceiling
pub mod Deadline
use threadx_cpp.Prelude.{
  ℕ, ◌+◌, ◌-◌, ◌*◌, ◌/◌, ◌%◌, ◌^◌, Bool, true, false, ℤ, pos, negsuc, sub_ℕ, ltb, ◌==◌,
  if◌then◌else◌,
}
use Prim.Native.Nat.{max}
use threadx_cpp.Common.{Platform, ulong_mod}
use Reduce.{Ratio, reduce}

-- `std::chrono::duration<Rep, std::ratio<num, den>>` with the number of bits of Rep.
pub record Duration : Type 0 where
  pub count : ℤ
  pub rep_bits : ℕ
  pub num : ℕ
  pub den : ℕ

-- `TickTimer::Duration`: a Ulong of ticks.
abbrev pub tick_duration : Platform → ℕ → Duration
tick_duration p c = record {
  count = pos c;
  rep_bits = 8 * p.word_size;
  num = 1;
  den = p.ticks_per_second;
}

abbrev pub no_wait : Platform → Duration
no_wait p = tick_duration p 0

abbrev pub wait_forever : Platform → Duration
wait_forever p = tick_duration p 0xffffffff

-- The ratio of a duration's period to that of a tick.
abbrev pub period_ratio : Platform → Duration → Ratio
period_ratio p d = record { num = d.num * p.ticks_per_second; den = d.den }

-- `std::ratio_divide`: the same in lowest terms.
unfoldable pub conversion : Platform → Duration → Ratio
conversion p d = reduce (period_ratio p d)

-- `duration_cast` computes in common_type<Ulong, Rep, intmax_t>, of 64 bits or Ulong's.
abbrev pub cast_mod : Platform → ℕ
cast_mod p = 2 ^ max 64 (8 * p.word_size)

-- Two durations are compared in common_type<Ulong, Rep>.
abbrev pub compare_mod : Platform → Duration → ℕ
compare_mod p d = 2 ^ max d.rep_bits (8 * p.word_size)

unfoldable pub duration_cast : Platform → Ratio → ℕ → ℕ
duration_cast p r c = (c * r.num) % cast_mod p / r.den % ulong_mod p

-- `std::chrono::ceil<TickTimer::Duration>(d).count()` at a count c that is not negative.
unfoldable pub ceil : Platform → Duration → ℕ → ℕ
unfolding duration_cast
ceil p d c =
    let r = conversion p d in
    let t = duration_cast p r c in
    if ltb ((t * r.den) % compare_mod p d) ((c * r.num) % compare_mod p d)
    then (t + 1) % ulong_mod p
    else t

-- `TickTimer::ticks(duration)`.
unfoldable pub ticks : Platform → Duration → ℕ
ticks p d = elim d.count [ pos c ↦ ceil p d c | negsuc _ ↦ 0 ]

-- A clock: whether its Rep is signed, the bits of Rep, and its period.
pub record Clock : Type 0 where
  pub is_signed : Bool
  pub rep_bits : ℕ
  pub num : ℕ
  pub den : ℕ

-- TickTimer as a clock: its Rep is the unsigned Ulong.
abbrev pub tick_clock : Platform → Clock
tick_clock p = record {
  is_signed = false;
  rep_bits = 8 * p.word_size;
  num = 1;
  den = p.ticks_per_second;
}

-- `time - Clock::now()`: unsigned counts wrap.
unfoldable pub time_left : Clock → ℕ → ℕ → Duration
time_left c time now = record {
  count =
      if c.is_signed then sub_ℕ time now else pos ((time + 2 ^ c.rep_bits - now) % 2 ^ c.rep_bits);
  rep_bits = c.rep_bits;
  num = c.num;
  den = c.den;
}
