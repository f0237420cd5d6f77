-- ===== src/Nor/Layout.antt =====
-- norFlash.hpp, `Block`: its metadata fill one sector exactly for the block sizes that the
-- static_assert admits.
use threadx_cpp.Prelude.{ℕ, ◌+◌, ◌*◌, ◌≤◌, ◌<◌, ◌≡◌, ◌↔◌, arith}
use threadx_cpp.Nor.{
  uint_mod, usable_sectors_per_block, free_bitmap_words, unused_metadata_words_per_block,
  metadata_words, block_words,
}

-- With the sectors of 128 words of LevelX, exactly the block sizes up to 122 sectors leave room for
-- the metadata in the first sector of a block.
pub metadata_fit_iff :
    (b : ℕ)
    → 2 ≤ b
    → b < uint_mod
    → (3 + free_bitmap_words b + usable_sectors_per_block b ≤ 128) ↔ (b ≤ 122)
unfolding free_bitmap_words
metadata_fit_iff b h k = (λ f. omega arith, λ f. omega arith)

-- For the admitted block sizes the struct `Block` has the metadata in exactly one sector and is as
-- many sectors long as the block; the bitmap has a bit for each usable sector, and less than a word
-- to spare; and the last of these sizes, and no other, makes the array `unusedWords` of length zero.
pub block_layout :
    (b : ℕ)
    → 2 ≤ b
    → b ≤ 122
    → (metadata_words 128 b ≡ 128)
      × (block_words 128 b ≡ b * 128)
      × (usable_sectors_per_block b ≤ 32 * free_bitmap_words b)
      × (32 * free_bitmap_words b < usable_sectors_per_block b + 32)
      × ((unused_metadata_words_per_block 128 b ≡ 0) ↔ (b ≡ 122))
unfolding block_words
block_layout b h k =
    (omega arith, omega arith, omega arith, omega arith, (λ f. omega arith, λ f. omega arith))
