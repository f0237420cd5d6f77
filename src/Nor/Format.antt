-- ===== src/Nor/Format.antt =====
-- norFlash.hpp and media.hpp: a media is formatted on a flash, with the size that `mediaFormatSize`
-- gives and the sectors of `sectorSize()`.
use threadx_cpp.Prelude.{
  ℕ, ◌+◌, ◌-◌, ◌*◌, ◌%◌, ◌≤◌, ◌<◌, ◌≡◌, ◌↔◌, refl, sym, ap, ◌∙◌, String, M, subst, ◌>>=◌, bind-eq,
  eq→==, arith,
}
use native.Mathlib.Nat.{mul-div_left, mul-le-mul_right, mul-sub, mul-mod_left}
use threadx_cpp.Common.{Platform, ulong_mod}
use threadx_cpp.FileX.{
  Error, call, MediaSectorSize, half_a_kilobyte, one_kilo_byte, two_kilo_bytes, four_kilobytes,
  sector_bytes,
}
use threadx_cpp.Media.{Media, media_memory_size, format}
use threadx_cpp.Media.Native.{MediaApi}
use threadx_cpp.Nor.{NorFlash, sector_size, initialise, media_format_size, usable_sectors_per_block}
use threadx_cpp.Nor.Native.{NorApi}
use threadx_cpp.Nor.Device.{bytes, media_format_size-initialise}
use threadx_cpp.Nor.Capacity.{usable_lem, one_block_or_sectors}

-- A block less of n blocks, in sectors.
blocks_in_sectors : (n b s : ℕ) → n * (b * s) - b * s ≡ (n * b - b) * s
blocks_in_sectors n b s = omega (arith, mul-sub s (n * b) b)

sector_bytes_pos : (s : MediaSectorSize) → 0 < sector_bytes s
sector_bytes_pos half_a_kilobyte = omega arith
sector_bytes_pos one_kilo_byte = omega arith
sector_bytes_pos two_kilo_bytes = omega arith
sector_bytes_pos four_kilobytes = omega arith

module _ {K : Type 0} (p : Platform) (nor_api : NorApi K) (media_api : MediaApi K) where
  -- A program's `media.format(name, flash.mediaFormatSize(), …)`, once the driver has reported the
  -- geometry of the flash.
  unfoldable pub format_flash : NorFlash → Media K → String → ℕ → ℕ → M K Error
  format_flash flash media name sector_per_cluster directory_entries = do
    size ← media_format_size p nor_api (initialise p nor_api flash)
    format p media_api media name size sector_per_cluster directory_entries

  -- What is asked of FileX: one FAT, no hidden sectors, one head of one sector a track.
  abbrev pub request : Media K → String → ℕ → ℕ → ℕ → K → ℕ × K
  request media name sectors sector_per_cluster directory_entries =
      media_api.media_format media.address media.driver_info media.media_memory
        (media_memory_size p media.sector_size) name 1 directory_entries 0 sectors
        (sector_bytes media.sector_size) sector_per_cluster 1 1

  format-whole :
      (media : Media K) (name : String) (sectors cluster entries : ℕ) (k : K)
      → format p media_api media name (sectors * sector_bytes media.sector_size) cluster entries k
        ≡ call (request media name sectors cluster entries) k
  unfolding format
  format-whole media name sectors cluster entries k =
      rw
        (
          eq→== (sectors * sector_bytes media.sector_size % sector_bytes media.sector_size) 0
              (mul-mod_left sectors (sector_bytes media.sector_size)),
          mul-div_left sectors (sector_bytes_pos media.sector_size),
        )
        refl

  -- A media with sectors of the size that `sectorSize()` gives, on a flash of n whole blocks, at
  -- least two, of an admitted number of sectors: the formatting with the size that
  -- `mediaFormatSize` gives passes the assertion of `format`, and is a request to FileX for the
  -- sectors of n - 1 blocks; these are at most the usable sectors of all the blocks exactly if the
  -- flash has no more blocks than a block has sectors.
  pub format_flash_lem :
      (flash : NorFlash) (media : Media K) (name : String) (n cluster entries : ℕ) (k : K)
      → 0 < p.word_size
      → sector_bytes media.sector_size ≡ sector_size p nor_api
      → 2 ≤ flash.block_sectors
      → flash.block_sectors ≤ 122
      → 2 ≤ n
      → flash.storage_size ≡ n * (flash.block_sectors * sector_size p nor_api)
      → flash.storage_size < ulong_mod p
      → (sectors : ℕ) × (format_flash flash media name cluster entries k
          ≡ call (request media name sectors cluster entries) k)
        × (sectors + flash.block_sectors ≡ n * flash.block_sectors)
        × ((sectors ≤ n * usable_sectors_per_block flash.block_sectors) ↔ (n ≤ flash.block_sectors))
  unfolding format_flash
  format_flash_lem flash media name n cluster entries k word_pos same at_least at_most several whole
        fits =
      let b = flash.block_sectors in
      let sectors = n * b - b in
      let sector_pos : 0 < sector_size p nor_api =
        subst (λ s. 0 < s) same (sector_bytes_pos media.sector_size) in
      let one : 1 * sector_size p nor_api ≤ bytes p nor_api flash =
        mul-le-mul_right {m = 1} {n = b} (sector_size p nor_api) (omega arith) in
      let two : 2 * bytes p nor_api flash ≤ n * bytes p nor_api flash =
        mul-le-mul_right {m = 2} {n = n} (bytes p nor_api flash) several in
      let two_sectors : 2 * b ≤ n * b = mul-le-mul_right {m = 2} {n = n} b several in
      let size : flash.storage_size - bytes p nor_api flash
          ≡ sectors * sector_bytes media.sector_size =
        ap (λ t. t - bytes p nor_api flash) whole
        ∙ blocks_in_sectors n b (sector_size p nor_api)
        ∙ ap (λ s. sectors * s) (sym same) in
      (
        sectors,
        bind-eq (media_format_size p nor_api (initialise p nor_api flash))
              (λ t. format p media_api media name t cluster entries) k
              (media_format_size-initialise p nor_api flash k word_pos (omega arith) fits (
                ap (λ t. t % bytes p nor_api flash) whole ∙ mul-mod_left n (bytes p nor_api flash)))
            ∙ ap (λ t. format p media_api media name t cluster entries k) size
            ∙ format-whole media name sectors cluster entries k,
        omega arith,
        let fits_iff =
              one_block_or_sectors n b (usable_sectors_per_block b) 1 (omega arith)
                (usable_lem b at_least at_most) in
            (λ le. fits_iff.0 (omega arith), λ le. let fewer = fits_iff.1 le in omega arith),
      )
