-- ===== src/Ticks/Reduce.antt =====
-- std::ratio in lowest terms, as `std::ratio_divide` and `duration_cast` form it.
use threadx_cpp.Prelude.{
  ℕ, zero, suc, ◌+◌, ◌*◌, ◌/◌, ◌%◌, ◌<◌, ◌≡◌, refl, ◌==◌, if◌then◌else◌, arith, inl, inr,
  Bool-cases, ==→eq, ==→ne, ap, sym,
}
use native.Mathlib.Nat.{mul-div_left, div-add-mod, mod_self, div_self}

pub record Ratio : Type 0 where
  pub num : ℕ
  pub den : ℕ

-- Euclid's algorithm on fuel; the second argument falls, so one more than it is enough.
gcd_fuel : ℕ → ℕ → ℕ → ℕ
gcd_fuel zero a b = a
gcd_fuel (suc f) a b = let rest = gcd_fuel f b (a % b) in if b == 0 then a else rest

unfoldable pub gcd : ℕ → ℕ → ℕ
unfolding gcd_fuel
gcd a b = gcd_fuel (suc b) a b

unfoldable pub reduce : Ratio → Ratio
reduce r = record { num = r.num / gcd r.num r.den; den = r.den / gcd r.num r.den }

-- g divides both numbers.
abbrev Divides : ℕ → ℕ → ℕ → Type 0
Divides g a b = (q : ℕ) × (r : ℕ) × (a ≡ q * g) × (b ≡ r * g)

quotient_step : (g a b q r : ℕ) → b ≡ q * g → a % b ≡ r * g → a ≡ (a / b * q + r) * g
quotient_step g a b q r bq ar = omega (arith, div-add-mod a b, ap (λ (t : ℕ). t * (a / b)) bq)

gcd_fuel-Divides : (f a b : ℕ) → b < f → Divides (gcd_fuel f a b) a b
unfolding gcd_fuel
gcd_fuel-Divides zero a b h = elim h [ ]
gcd_fuel-Divides (suc f) a b h = elim (Bool-cases (b == 0)) [
  | inl done ↦ rw done (1, 0, omega arith, omega (arith, ==→eq b 0 done))
  | inr more ↦
      let smaller : a % b < f = omega (arith, ==→ne b 0 more) in
      let (q, r, bq, ar) = gcd_fuel-Divides f b (a % b) smaller in
      rw more (a / b * q + r, q, quotient_step (gcd_fuel f b (a % b)) a b q r bq ar, bq)
]

gcd-Divides : (a b : ℕ) → Divides (gcd a b) a b
unfolding gcd
gcd-Divides a b = gcd_fuel-Divides (suc b) a b (omega arith)

factor_of_product : (a q g : ℕ) → 0 < g → a ≡ q * g → a ≡ a / g * g
factor_of_product a q g pos e = rw e (ap (λ t. t * g) (sym (mul-div_left q pos)))

factor_pos : (b r g : ℕ) → 0 < b → b ≡ r * g → 0 < g
factor_pos b r zero h e = absurd (omega arith)
factor_pos b r (suc g) h e = omega arith

-- A reduced ratio is the ratio with a common factor taken out.
pub reduce_factor :
    (r : Ratio)
    → 0 < r.den
    → (g : ℕ) × (0 < g) × (r.num ≡ (reduce r).num * g) × (r.den ≡ (reduce r).den * g)
unfolding reduce
reduce_factor r h =
    let (m, n, e, k) = gcd-Divides r.num r.den in
    let g = gcd r.num r.den in
    let g_pos : 0 < g = factor_pos r.den n g h k in
    (g, g_pos, factor_of_product r.num m g g_pos e, factor_of_product r.den n g g_pos k)

gcd_self : (a : ℕ) → 0 < a → gcd a a ≡ a
unfolding gcd gcd_fuel
gcd_self zero h = elim h [ ]
gcd_self (suc a) h = rw (mod_self (suc a)) (ground arith)

-- A ratio of a positive number to itself is 1 to 1.
pub reduce_self :
    (a : ℕ) → 0 < a → reduce (record { num = a; den = a }) ≡ record { num = 1; den = 1 }
unfolding reduce
reduce_self a h = rw (gcd_self a h) (rw (div_self h) refl)
