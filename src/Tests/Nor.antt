-- ===== src/Tests/Nor.antt =====
-- norFlash.hpp: a flash of four blocks.
use threadx_cpp.Prelude.{ℕ, suc, ◌+◌, ◌-◌, ◌*◌, ◌≤◌, ◌<◌, ◌≡◌, ◌↔◌, refl, returns, arith}
use threadx_cpp.Nor.{
  NorFlash, usable_sectors_per_block, free_bitmap_words, unused_metadata_words_per_block,
  metadata_words, block_words, initialise, media_format_size, block_size,
}
use threadx_cpp.Nor.Native.{NorApi}
use threadx_cpp.Nor.Layout.{block_layout}
use threadx_cpp.Nor.Device.{media_format_size-initialise}
use threadx_cpp.Tests.Platforms.{target}

block_layout_example :
    (metadata_words 128 32 ≡ 128)
    × (block_words 128 32 ≡ 32 * 128)
    × (usable_sectors_per_block 32 ≤ 32 * free_bitmap_words 32)
    × (32 * free_bitmap_words 32 < usable_sectors_per_block 32 + 32)
    × ((unused_metadata_words_per_block 128 32 ≡ 0) ↔ (◌≡◌ {A = ℕ} 32 122))
block_layout_example = block_layout 32 (omega arith) (omega arith)

-- The state counts the initialisations.
abbrev pub api : NorApi ℕ
api = record {
  values = λ e. 0;
  native_sector_size = 128;
  initialize = λ k. suc k;
  flash_open = λ a k. (0, k);
  close = λ a k. (0, k);
  extended_cache_enable = λ a m s k. (0, k);
  defragment = λ a k. (0, k);
  partial_defragment = λ a n k. (0, k);
  sector_read = λ a n d k. (0, k);
  sector_write = λ a n d k. (0, k);
  sector_release = λ a n k. (0, k);
}

abbrev flash : NorFlash
flash = record {
  address = 0x4000;
  block_sectors = 8;
  cache_sectors = 0;
  storage_size = 16384;
  base_address = 0x8000000;
  extended_cache_memory = 0;
}

media_format_size-initialise_example :
    media_format_size target api (initialise target api flash) 0
    ≡ returns (16384 - 8 * (128 * 4), 0)
media_format_size-initialise_example =
    media_format_size-initialise target api flash 0 (omega arith) (omega arith) (omega arith) refl

-- With 8 sectors a block, a flash of 32 blocks has 224 usable sectors, fewer than the 248 of its size.
abbrev pub large : NorFlash
large = record flash { storage_size = 32 * (8 * (128 * 4)) }

large_runs : media_format_size target api (initialise target api large) 0 ≡ returns (248 * 512, 0)
unfolding media_format_size initialise block_size
large_runs = refl
