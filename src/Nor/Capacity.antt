-- ===== src/Nor/Capacity.antt =====
-- norFlash.hpp: the size that `mediaFormatSize` gives, against the sectors of the blocks.
use threadx_cpp.Prelude.{ℕ, ◌+◌, ◌-◌, ◌*◌, ◌%◌, ◌≤◌, ◌<◌, ◌≡◌, ◌↔◌, sym, ap, ◌∙◌, returns, arith}
use native.Mathlib.Nat.{mul-le-mul_right, le_of_mul-le-mul_right, mul-mod_left}
use threadx_cpp.Common.{Platform, ulong_mod}
use threadx_cpp.Nor.{NorFlash, sector_size, initialise, media_format_size, usable_sectors_per_block}
use threadx_cpp.Nor.Native.{NorApi}
use threadx_cpp.Nor.Device.{bytes, media_format_size-initialise}

pub usable_lem : (b : ℕ) → 2 ≤ b → b ≤ 122 → usable_sectors_per_block b + 1 ≡ b
unfolding usable_sectors_per_block
usable_lem b h k = omega arith

-- A block less of whole blocks, against a sector less in each block.
pub one_block_or_sectors :
    (n b c s : ℕ) → 0 < s → c + 1 ≡ b → (n * (b * s) - b * s ≤ n * c * s) ↔ (n ≤ b)
one_block_or_sectors n b c s pos h =
    let all : n * (b * s) ≡ n * c * s + n * s = ap (λ x. n * (x * s)) (sym h) ∙ omega arith in
    (
      λ le. le_of_mul-le-mul_right {m = n} {n = b} {k = s} (omega arith) pos,
      λ le. let more : n * s ≤ b * s = mul-le-mul_right s le in omega arith,
    )

module _ {K : Type 0} (p : Platform) (api : NorApi K) where
  -- For a flash of n whole blocks, at least two, of an admitted number of sectors: the size that
  -- `mediaFormatSize` returns, once the driver has reported its geometry, is at most that of the
  -- usable sectors of all the blocks exactly if the flash has no more blocks than a block has
  -- sectors.
  pub format_size_fits_iff :
      (self : NorFlash) (n : ℕ) (k : K)
      → 0 < p.word_size
      → 0 < sector_size p api
      → 2 ≤ self.block_sectors
      → self.block_sectors ≤ 122
      → 2 ≤ n
      → self.storage_size ≡ n * (self.block_sectors * sector_size p api)
      → self.storage_size < ulong_mod p
      → (size : ℕ) × (media_format_size p api (initialise p api self) k ≡ returns (size, k))
        × ((size ≤ n * usable_sectors_per_block self.block_sectors * sector_size p api)
            ↔ (n ≤ self.block_sectors))
  format_size_fits_iff self n k word_pos sector_pos at_least at_most several whole fits =
      let b = bytes p api self in
      let sector = sector_size p api in
      let one : 1 * sector ≤ b =
        mul-le-mul_right {m = 1} {n = self.block_sectors} sector (omega arith) in
      let two : 2 * b ≤ n * b = mul-le-mul_right {m = 2} {n = n} b several in
      let size =
        media_format_size-initialise p api self k word_pos (omega arith) fits
          (ap (λ t. t % b) whole ∙ mul-mod_left n b) in
      (
        n * b - b,
        size ∙ ap (λ t. returns (t - b, k)) whole,
        one_block_or_sectors n self.block_sectors (usable_sectors_per_block self.block_sectors)
            sector sector_pos (usable_lem self.block_sectors at_least at_most),
      )
