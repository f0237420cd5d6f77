-- ===== src/Prelude/Bits.antt =====
-- The bits of a word, and those of `|`.
use Prim.Native.Nat.{
  ℕ, zero, suc, ◌+◌, ◌*◌, ◌/◌, ◌%◌, ◌^◌, ◌≤◌, ◌<◌, max, digits, bit_or, bit_or-bitwise,
}
use mathlib.Core.Path.{◌≡◌, refl, sym, ap, ◌∙◌}
use mathlib.Core.Bool.{Bool, ◌||◌}
use native.Mathlib.Nat.{pow-succ', div-div-eq-div-mul}
use native.Mathlib.Omega.{arith}
use threadx_cpp.Prelude.Tests.{◌==◌}

-- The bit at place i.
unfoldable pub bit : ℕ → ℕ → Bool
bit n i = n / 2 ^ i % 2 == 1

pub bit-suc : (n i : ℕ) → bit n (suc i) ≡ bit (n / 2) i
unfolding bit
bit-suc n i =
    ap (λ t. t % 2 == 1) (ap (λ d. n / d) (pow-succ' 2 i) ∙ sym (div-div-eq-div-mul n 2 (2 ^ i)))

-- The digits of `|` do not depend on the fuel, if there is enough.
abbrev or_digits : ℕ → ℕ → ℕ → ℕ
or_digits = digits (λ y. y) max

or_digits_enough : (f g a b : ℕ) → a ≤ f → a ≤ g → or_digits f a b ≡ or_digits g a b
or_digits_enough zero zero a b h h' = refl
or_digits_enough zero (suc g) zero b h h' = refl
or_digits_enough (suc f) zero zero b h h' = refl
or_digits_enough (suc f) (suc g) zero b h h' = refl
or_digits_enough zero (suc g) (suc a) b h h' = absurd (omega arith)
or_digits_enough (suc f) zero (suc a) b h h' = absurd (omega arith)
or_digits_enough (suc f) (suc g) (suc a) b h h' =
    omega (arith, or_digits_enough f g (suc a / 2) (b / 2) (omega arith) (omega arith))

pub bit_or-halves : (a b : ℕ) → bit_or a b ≡ bit_or (a / 2) (b / 2) * 2 + max (a % 2) (b % 2)
bit_or-halves zero b = omega (arith, bit_or-bitwise 0 b, bit_or-bitwise 0 (b / 2))
bit_or-halves (suc a) b = omega (
  arith,
  bit_or-bitwise (suc a) b,
  bit_or-bitwise (suc a / 2) (b / 2),
  or_digits_enough a (suc a / 2) (suc a / 2) (b / 2) (omega arith) (omega arith),
)

digit_or : (r s : ℕ) → r < 2 → s < 2 → (max r s == 1) ≡ ((r == 1) || (s == 1))
digit_or r s r_lt s_lt = ground arith

-- The bit of `a | b` at a place is set if that of a is, or that of b.
pub bit-bit_or : (a b i : ℕ) → bit (bit_or a b) i ≡ (bit a i || bit b i)
unfolding bit
bit-bit_or a b zero =
    let low : bit_or a b / 1 % 2 ≡ max (a / 1 % 2) (b / 1 % 2) = omega (arith, bit_or-halves a b) in
    ap (λ t. t == 1) low ∙ digit_or (a / 1 % 2) (b / 1 % 2) (omega arith) (omega arith)
bit-bit_or a b (suc i) =
    let half : bit_or a b / 2 ≡ bit_or (a / 2) (b / 2) = omega (arith, bit_or-halves a b) in
    bit-suc (bit_or a b) i
    ∙ ap (λ n. bit n i) half
    ∙ bit-bit_or (a / 2) (b / 2) i
    ∙ rw (bit-suc a i, bit-suc b i)
