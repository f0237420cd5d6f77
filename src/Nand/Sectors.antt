-- ===== src/Nand/Sectors.antt =====
-- nandFlash.hpp: the pages, and the buffers of the operations on sectors.
use threadx_cpp.Prelude.{
  ℕ, ◌+◌, ◌-◌, ◌*◌, ◌/◌, ◌%◌, ◌^◌, ◌≤◌, ◌<◌, ◌≡◌, ◌↔◌, inl, inr, refl, ap, ◌∙◌, some, arith,
}
use native.Mathlib.Nat.{
  two-pow-succ, mod-eq-sub-mod, mod-eq_of_lt, pow-le-pow_right, one-le-pow, mod-lt, mul-mod_left,
  mul-div_cancel,
}
use threadx_cpp.Common.{Platform}
use threadx_cpp.LevelX.{call}
use threadx_cpp.Nand.{
  NandFlash, page_data_and_spare_sizes, page_data_size, read_sectors, write_sectors,
}
use threadx_cpp.Nand.Native.{NandApi}
use threadx_cpp.Nand.Page.{page_data_and_spare_sizes-power}

-- One sector that fits, and not two.
rest_of : (n m : ℕ) → m ≤ n → n < m + m → m + n % m ≡ n
rest_of n m fits below =
    omega (arith, mod-eq-sub-mod fits, mod-eq_of_lt {n = n - m} {m = m} (omega arith))

-- The data and the spare bytes of a page make up the page exactly if it has less than 8192 bytes.
pub page_split :
    (n : ℕ)
    → 0 < n
    → (size : ℕ) × (spare : ℕ) × (page_data_and_spare_sizes n ≡ some (size, spare))
      × (spare < size)
      × ((size + spare ≡ n) ↔ (n < 8192))
page_split n pos =
    let (d, run, le, fits, greatest) = page_data_and_spare_sizes-power n pos in
    let at_most : 2 ^ d ≤ 4096 = pow-le-pow_right {n = 2} (omega arith) {i = d} {j = 12} le in
    let at_least : 1 ≤ 2 ^ d = one-le-pow d 2 (omega arith) in
    let rest : n % 2 ^ d < 2 ^ d = mod-lt n (omega arith) in
    elim greatest [
      | inl below ↦
          let all : 2 ^ d + n % 2 ^ d ≡ n =
            rest_of n (2 ^ d) fits (omega (arith, two-pow-succ d)) in
          (2 ^ d, n % 2 ^ d, run, rest, (λ e. omega (arith, two-pow-succ d), λ h. all))
      | inr last ↦
          let size : 2 ^ d ≡ 4096 = ap (λ x. 2 ^ x) last in
          (
            2 ^ d,
            n % 2 ^ d,
            run,
            rest,
            (λ e. omega arith, λ h. rest_of n (2 ^ d) fits (omega arith)),
          )
    ]

page_data_size_pos : (self : NandFlash) → 0 < self.page_size → 0 < page_data_size self
unfolding page_data_size
page_data_size_pos self pos =
    let (d, run, le, fits, greatest) = page_data_and_spare_sizes-power self.page_size pos in
    rw run (one-le-pow d 2 (omega arith))

-- A span of so many whole sectors is read and written as so many sectors, whatever LevelX answers:
-- the assertion holds, and the bytes of the span are those of the sectors.
pub sectors_of_span :
    {K : Type 0} (p : Platform) (api : NandApi K) (self : NandFlash)
    (logical_sector memory words count : ℕ) (k : K)
    → 0 < self.page_size
    → words * p.word_size ≡ count * page_data_size self
    → (read_sectors p api self logical_sector memory words k
        ≡ call (api.sectors_read self.address logical_sector memory count) k)
      × (write_sectors p api self logical_sector memory words k
          ≡ call (api.sectors_write self.address logical_sector memory count) k)
unfolding read_sectors write_sectors
sectors_of_span {K} p api self logical_sector memory words count k pos bytes =
    let size = page_data_size self in
    let whole : words * p.word_size % size ≡ 0 =
      ap (λ b. b % size) bytes ∙ mul-mod_left count size in
    let number : words * p.word_size / size ≡ count =
      ap (λ b. b / size) bytes ∙ mul-div_cancel count (page_data_size_pos self pos) in
    (rw (whole, number) refl, rw (whole, number) refl)
