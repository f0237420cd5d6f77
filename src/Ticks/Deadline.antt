-- ===== src/Ticks/Deadline.antt =====
-- tickTimer.hpp: durations of ticks, which `ticks` passes on, and the wait for a deadline
-- `time - Clock::now()` on a signed clock and on TickTimer.
use threadx_cpp.Prelude.{
  ℕ, ◌+◌, ◌-◌, ◌*◌, ◌%◌, ◌^◌, ◌≤◌, ◌<◌, ◌≡◌, refl, ◌∙◌, arith, ℤ, negsuc, sub_ℕ, Bool, true,
  Bool-cases, inl, inr, ltb, ltb→lt, ltb→ge, ge→ltb, gt→leb, if◌then◌else◌,
}
use native.Mathlib.Nat.{
  mod-eq_of_lt, add-mod_right, mod-lt, div-one, mul-one, one-mul, pow-le-pow_right,
}
use threadx_cpp.Common.{Platform, IsSupported, ulong_mod}
use threadx_cpp.Ticks.{
  tick_duration, no_wait, wait_forever, Clock, tick_clock, time_left, conversion, cast_mod,
  duration_cast, ceil, ticks,
}
use threadx_cpp.Ticks.Reduce.{reduce_self}
use threadx_cpp.Ticks.Ceiling.{ticks-ceil, ticks_negative}

conversion_of_ticks :
    (p : Platform) (c : ℕ)
    → 0 < p.ticks_per_second
    → conversion p (tick_duration p c) ≡ record { num = 1; den = 1 }
unfolding conversion
conversion_of_ticks p c h = rw (one-mul p.ticks_per_second) (reduce_self p.ticks_per_second h)

ulong_mod-le-cast_mod : (p : Platform) → ulong_mod p ≤ cast_mod p
ulong_mod-le-cast_mod p = pow-le-pow_right (omega arith) (omega arith)

cast_of_ticks :
    (p : Platform) (c : ℕ) → c < ulong_mod p → duration_cast p (record { num = 1; den = 1 }) c ≡ c
unfolding duration_cast
cast_of_ticks p c fits =
    let small : c * 1 < cast_mod p = omega (arith, ulong_mod-le-cast_mod p) in
    rw (mod-eq_of_lt small, div-one, mul-one) (mod-eq_of_lt fits)

-- Two equal numbers: `std::chrono::ceil` does not round up.
no_round_up : (x m n c : ℕ) → (if ltb (x % m) (x % m) then n else c) ≡ c
no_round_up x m n c = rw (ge→ltb (x % m) (x % m) (omega arith))

-- A duration that is a number of ticks, and fits Ulong, is passed on unchanged.
pub ticks-tick_duration :
    (p : Platform) (c : ℕ)
    → 0 < p.ticks_per_second
    → c < ulong_mod p
    → ticks p (tick_duration p c) ≡ c
unfolding ceil
ticks-tick_duration p c h fits =
    ticks-ceil p (tick_duration p c) c refl
    ∙ rw (conversion_of_ticks p c h) (rw (cast_of_ticks p c fits) (no_round_up (c * 1) _ _ c))

-- Of the two waits that the services of ThreadX treat specially, `ticks` passes on TX_NO_WAIT and
-- TX_WAIT_FOREVER as they are.
pub ticks_of_special_waits :
    (p : Platform)
    → IsSupported p
    → (ticks p (no_wait p) ≡ 0) × (ticks p (wait_forever p) ≡ 0xffffffff)
ticks_of_special_waits p s = (
  ticks-tick_duration p 0 s.ticks_pos (omega (arith, large)),
  ticks-tick_duration p 0xffffffff s.ticks_pos (omega (arith, large)),
)
  where
    large : 2 ^ 32 ≤ ulong_mod p
    large = pow-le-pow_right {n = 2} (omega arith) {i = 32} (omega (arith, s.word_of_32_bits))

negative_difference :
    (time now : ℕ) {b : Bool} (z : ℤ)
    → b ≡ true
    → time < now
    → (if b then sub_ℕ time now else z) ≡ negsuc (now - time - 1)
negative_difference time now z e h = rw (e, gt→leb now time h)

-- The wait of a `…Until` function for a deadline on a signed clock is no wait once the deadline has
-- passed.
pub past_deadline_on_signed_clock :
    (p : Platform) (c : Clock) (time now : ℕ)
    → c.is_signed ≡ true
    → time < now
    → ticks p (time_left c time now) ≡ 0
unfolding time_left
past_deadline_on_signed_clock p c time now signed past =
    ticks_negative p (time_left c time now) (now - time - 1)
      (negative_difference time now _ signed past)

unsigned_wait :
    (t n m : ℕ) → t < m → n ≤ m → (t + m - n) % m ≡ (if ltb t n then m - (n - t) else t - n)
unsigned_wait t n m fits h = elim (Bool-cases (ltb t n)) [
  | inl late ↦
      let late' = ltb→lt t n late in
      let turn : t + m - n ≡ m - (n - t) = omega arith in
      let small : m - (n - t) < m = omega arith in rw (late, turn) (mod-eq_of_lt small)
  | inr ahead ↦
      let ahead' = ltb→ge t n ahead in
      let turn : t + m - n ≡ t - n + m = omega arith in
      let small : t - n < m = omega arith in
      rw (ahead, turn) (add-mod_right (t - n) m ∙ mod-eq_of_lt small)
]

-- The wait of a `…Until` function for a deadline on TickTimer itself: what is left of it while it
-- lies ahead, and a whole turn of the tick counter less the delay once it has passed.
pub tick_clock_deadline :
    (p : Platform) (time now : ℕ)
    → 0 < p.ticks_per_second
    → time < ulong_mod p
    → now < ulong_mod p
    → ticks p (time_left (tick_clock p) time now)
      ≡ (if ltb time now then ulong_mod p - (now - time) else time - now)
unfolding time_left
tick_clock_deadline p time now h fits now_fits =
    let m = ulong_mod p in
    let wait = (time + m - now) % m in
    ticks-tick_duration p wait h (mod-lt (time + m - now) (omega arith))
    ∙ unsigned_wait time now m fits (omega arith)
