-- ===== src/Nand/Page.antt =====
-- nandFlash.hpp, `pageDataAndSpareSizes`: the loop ends, with the greatest power of two that fits.
use threadx_cpp.Prelude.{
  ℕ, zero, suc, ◌/◌, ◌%◌, ◌^◌, ◌≤◌, ◌<◌, ◌≡◌, ◌⊎◌, inl, inr, refl, ap, ◌∙◌, true, false, some,
  arith, ◌==◌, ==→eq, eq→==, Bool-cases, if◌then◌else◌, dec_lt,
}
use native.Mathlib.Nat.{div-eq_of_lt, two-pow-succ, le-div_iff_mul-le, one-le-pow}
use threadx_cpp.Nand.{with_spare, page_data_size_from, page_data_and_spare_sizes}

-- The greatest power of two that is at most n and at most 2 ^ e.
abbrev pub IsGreatestPower : ℕ → ℕ → ℕ → Type 0
IsGreatestPower n e d = (d ≤ e) × (2 ^ d ≤ n) × ((n < 2 ^ suc d) ⊎ (d ≡ e))

one_round :
    (f n s : ℕ)
    → 0 < s
    → page_data_size_from (suc f) n s
      ≡ (if n / s == 0 then page_data_size_from f n (s / 2) else some s)
unfolding page_data_size_from
one_round f n s h = ground arith

small_page : (n s : ℕ) → n < s → (n / s == 0) ≡ true
small_page n s h = eq→== (n / s) 0 (div-eq_of_lt h)

large_page : (n s : ℕ) → 0 < s → s ≤ n → (n / s == 0) ≡ false
large_page n s s_pos h = elim (Bool-cases (n / s == 0)) [
  | inl none_fits ↦
      let at_least : 1 ≤ n / s = (le-div_iff_mul-le s_pos).1 (omega arith) in
      absurd (omega (arith, ==→eq (n / s) 0 none_fits))
  | inr some_fit ↦ some_fit
]

two_pow_pos : (e : ℕ) → 0 < 2 ^ e
two_pow_pos e = one-le-pow e 2 (omega arith)

half_power : (e : ℕ) → 2 ^ suc e / 2 ≡ 2 ^ e
half_power e = omega (arith, two-pow-succ e)

-- One round down from a power that is greater than n.
lower : (n e d : ℕ) → n < 2 ^ suc e → IsGreatestPower n e d → IsGreatestPower n (suc e) d
lower n e d above (le, fits, inl greatest) = (omega arith, fits, inl greatest)
lower n e d above (le, fits, inr last) = (omega arith, fits, inl (rw last above))

page_data_size_from-power :
    (f e n : ℕ)
    → e < f
    → 0 < n
    → (d : ℕ) × (page_data_size_from f n (2 ^ e) ≡ some (2 ^ d)) × IsGreatestPower n e d
page_data_size_from-power zero e n h pos = absurd (omega arith)
page_data_size_from-power (suc f) zero n h pos = (
  0,
  one_round f n 1 (omega arith) ∙ rw (large_page n 1 (omega arith) pos),
  (omega arith, pos, inr refl),
)
page_data_size_from-power (suc f) (suc e) n h pos = elim (dec_lt n (2 ^ suc e)) [
  | yes above ↦
      let (d, run, greatest) = page_data_size_from-power f e n (omega arith) pos in
      (
        d,
        one_round f n (2 ^ suc e) (two_pow_pos (suc e))
            ∙ rw (small_page n (2 ^ suc e) above)
                (ap (page_data_size_from f n) (half_power e) ∙ run),
        lower n e d above greatest,
      )
  | no fits ↦ (
    suc e,
    one_round f n (2 ^ suc e) (two_pow_pos (suc e))
        ∙ rw (large_page n (2 ^ suc e) (two_pow_pos (suc e)) (omega arith)),
    (omega arith, omega arith, inr refl),
  )
]

-- For every page size but 0 the loop ends, and the data size is the greatest power of two that is
-- at most the page size and 4096; the spare bytes are the rest of the page modulo the data size.
pub page_data_and_spare_sizes-power :
    (n : ℕ)
    → 0 < n
    → (d : ℕ) × (page_data_and_spare_sizes n ≡ some (2 ^ d, n % 2 ^ d))
      × (d ≤ 12)
      × (2 ^ d ≤ n)
      × ((n < 2 ^ suc d) ⊎ (d ≡ 12))
unfolding page_data_and_spare_sizes
page_data_and_spare_sizes-power n pos =
    let (d, e, (le, fits, greatest)) = page_data_size_from-power 14 12 n (omega arith) pos in
    (d, ap (with_spare n) e, le, fits, greatest)
