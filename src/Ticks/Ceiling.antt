-- ===== src/Ticks/Ceiling.antt =====
-- tickTimer.hpp, `ticks`: what it computes where no intermediate number overflows, for a
-- duration of any representation and period.
use threadx_cpp.Prelude.{
  ℕ, zero, suc, ◌+◌, ◌*◌, ◌/◌, ◌%◌, ◌≤◌, ◌<◌, ◌≡◌, refl, ap, arith, inl, inr, Bool-cases, ltb,
  ltb→lt, ltb→ge, if◌then◌else◌, ℤ, pos, negsuc,
}
use native.Mathlib.Nat.{
  mod-eq_of_lt, lt-div-mul-add, div-le_of_le-mul, div-mul-le_self, mul_comm, mul-le-mul_right,
}
use threadx_cpp.Common.{Platform, ulong_mod}
use threadx_cpp.Ticks.{
  Duration, period_ratio, conversion, cast_mod, compare_mod, duration_cast, ceil, ticks,
}
use threadx_cpp.Ticks.Reduce.{reduce_factor}

-- The least number of b's that cover a.
ceil_div : ℕ → ℕ → ℕ
ceil_div a b = if ltb (a / b * b) a then a / b + 1 else a / b

ceil_div-covers : (a b : ℕ) → 0 < b → a ≤ ceil_div a b * b
unfolding ceil_div
ceil_div-covers a b h = elim (Bool-cases (ltb (a / b * b) a)) [
  | inl more ↦ rw more (omega (arith, lt-div-mul-add {a = a} {b = b} h))
  | inr exact ↦ rw exact (omega (arith, ltb→ge (a / b * b) a exact))
]

lt_of_mul-lt : (a b k : ℕ) → a * k < b * k → a < b
lt_of_mul-lt a b k h = grind arith

le_of_mul-le : (a b k : ℕ) → 0 < k → a * k ≤ b * k → a ≤ b
le_of_mul-le a b k p h = grind arith

ceil_div-least : (a b u : ℕ) → 0 < b → a ≤ u * b → ceil_div a b ≤ u
unfolding ceil_div
ceil_div-least a b u h le = elim (Bool-cases (ltb (a / b * b) a)) [
  | inl more ↦
      let more' = ltb→lt (a / b * b) a more in
      let below : a / b < u = lt_of_mul-lt (a / b) u b (omega arith) in rw more (omega arith)
  | inr exact ↦ rw exact (div-le_of_le-mul b (rw (mul_comm b u) le))
]

-- What the computation of `ticks` needs at a count c: the numerator fits both common types, as a
-- signed number too, and the rounded result fits Ulong.
pub record InRange (p : Platform) (d : Duration) (c : ℕ) : Type 0 where
  pub period_pos : 0 < d.den
  pub cast_fits : c * (conversion p d).num * 2 < cast_mod p
  pub compare_fits : c * (conversion p d).num * 2 < compare_mod p d
  pub result_fits : c * (conversion p d).num / (conversion p d).den + 1 < ulong_mod p

-- The test of `std::chrono::ceil` on numbers that do not wrap.
wrapped_ceil :
    (a b m n : ℕ)
    → 0 < b
    → a < m
    → a / b + 1 < n
    → (if ltb ((a / b * b) % m) (a % m) then (a / b + 1) % n else a / b) ≡ ceil_div a b
unfolding ceil_div
wrapped_ceil a b m n b_pos fits small =
    let floor_fits : a / b * b < m = omega (arith, div-mul-le_self a b) in
    rw (mod-eq_of_lt floor_fits, mod-eq_of_lt fits, mod-eq_of_lt small) refl

ceil-ceil_div :
    (p : Platform) (d : Duration) (c : ℕ)
    → 0 < (conversion p d).den
    → InRange p d c
    → ceil p d c ≡ ceil_div (c * (conversion p d).num) (conversion p d).den
unfolding ceil duration_cast
ceil-ceil_div p d c den_pos h =
    let r = conversion p d in
    let a = c * r.num in
    let cast_lt : a < cast_mod p = omega (arith, h.cast_fits) in
    let floor_lt : a / r.den < ulong_mod p = omega (arith, h.result_fits) in
    rw (mod-eq_of_lt cast_lt, mod-eq_of_lt floor_lt)
      (wrapped_ceil a r.den (compare_mod p d) (ulong_mod p) den_pos (omega (arith, h.compare_fits))
        h.result_fits)

scale : (t g c rn rd : ℕ) {n d : ℕ} → n ≡ rn * g → d ≡ rd * g → c * rn ≤ t * rd → c * n ≤ t * d
scale t g c rn rd e k h = rw (e, k) (omega (arith, mul-le-mul_right g h))

left_factor_pos : (b r g : ℕ) → 0 < b → b ≡ r * g → 0 < r
left_factor_pos b zero g h e = absurd (omega arith)
left_factor_pos b (suc r) g h e = omega arith

unscale :
    (u g c rn rd : ℕ) {n d : ℕ} → 0 < g → n ≡ rn * g → d ≡ rd * g → c * n ≤ u * d → c * rn ≤ u * rd
unscale u g c rn rd g_pos e k h =
    let scaled : c * (rn * g) ≤ u * (rd * g) = rw (e, k) at h in
    le_of_mul-le (c * rn) (u * rd) g g_pos (omega (arith, scaled))

pub ticks-ceil : (p : Platform) (d : Duration) (c : ℕ) → d.count ≡ pos c → ticks p d ≡ ceil p d c
unfolding ticks
ticks-ceil p d c e = ap (λ (z : ℤ). elim z [ pos n ↦ ceil p d n | negsuc _ ↦ 0 ]) e

-- For a count that is not negative and in range, `ticks` is the least number of ticks that last as
-- long as the duration: at den units of time to num * count, t ticks cover it when
-- count * num * ticks_per_second ≤ t * den, and no smaller number does.
pub ticks_least :
    (p : Platform) (d : Duration) (c : ℕ)
    → d.count ≡ pos c
    → InRange p d c
    → (c * (d.num * p.ticks_per_second) ≤ ticks p d * d.den)
      × ((u : ℕ) → c * (d.num * p.ticks_per_second) ≤ u * d.den → ticks p d ≤ u)
unfolding conversion
ticks_least p d c e h =
    let r = conversion p d in
    let (g, g_pos, num_eq, den_eq) = reduce_factor (period_ratio p d) h.period_pos in
    let den_pos : 0 < r.den = left_factor_pos d.den r.den g h.period_pos den_eq in
    rw (ticks-ceil p d c e, ceil-ceil_div p d c den_pos h)
      (
        scale (ceil_div (c * r.num) r.den) g c r.num r.den num_eq den_eq
            (ceil_div-covers (c * r.num) r.den den_pos),
        λ u le.
            ceil_div-least (c * r.num) r.den u den_pos
              (unscale u g c r.num r.den g_pos num_eq den_eq le),
      )

-- A negative duration is no wait.
pub ticks_negative : (p : Platform) (d : Duration) (n : ℕ) → d.count ≡ negsuc n → ticks p d ≡ 0
unfolding ticks
ticks_negative p d n e = ap (λ (z : ℤ). elim z [ pos m ↦ ceil p d m | negsuc _ ↦ 0 ]) e
