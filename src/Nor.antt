-- ===== src/Nor.antt =====
-- norFlash.hpp: the class NorFlash<BlockSectors, CacheSectors> over LevelX.
pub mod Native
pub mod Layout
pub mod Device
pub mod Driver
pub mod Capacity
pub mod Format
use threadx_cpp.Prelude.{
  ℕ, ◌+◌, ◌-◌, ◌*◌, ◌/◌, ◌%◌, ◌^◌, ◌≤◌, Bool, true, false, not, M, ◌>>=◌, ◌>>◌, pure, assert,
  returns, ltb, ◌==◌, if◌then◌else◌,
}
use threadx_cpp.Common.{Platform, ulong_mod}
use threadx_cpp.LevelX.{Error, success, named, is_success, call}
use Native.{NorApi, NorControl}

-- Uint has 32 bits.
abbrev pub uint_mod : ℕ
uint_mod = 2 ^ 32

-- `usableSectorsPerBlock`, `freeBitmapWords` and `unusedMetadataWordsPerBlock`, in Uint; the
-- last for sectors of n words.
unfoldable pub usable_sectors_per_block : ℕ → ℕ
usable_sectors_per_block block_sectors = (block_sectors + uint_mod - 1) % uint_mod

unfoldable pub free_bitmap_words : ℕ → ℕ
unfolding usable_sectors_per_block
free_bitmap_words block_sectors =
    ((usable_sectors_per_block block_sectors + uint_mod - 1) % uint_mod / 32 + 1) % uint_mod

unfoldable pub unused_metadata_words_per_block : ℕ → ℕ → ℕ
unfolding usable_sectors_per_block free_bitmap_words
unused_metadata_words_per_block n block_sectors =
    (n
      + uint_mod
      - (3 + free_bitmap_words block_sectors + usable_sectors_per_block block_sectors) % uint_mod)
    % uint_mod

-- The words of the members of `Block`, in order: the counters, the bitmap, the sector metadata of a
-- word each, the unused words, and the physical sectors.
unfoldable pub metadata_words : ℕ → ℕ → ℕ
unfolding usable_sectors_per_block free_bitmap_words unused_metadata_words_per_block
metadata_words n block_sectors =
    1
    + 1
    + 1
    + free_bitmap_words block_sectors
    + usable_sectors_per_block block_sectors
    + unused_metadata_words_per_block n block_sectors

unfoldable pub block_words : ℕ → ℕ → ℕ
unfolding metadata_words
block_words n block_sectors =
    metadata_words n block_sectors + usable_sectors_per_block block_sectors * n

-- The object: the template arguments, and the constants given to the constructor.
pub record NorFlash : Type 0 where
  pub address : ℕ
  pub block_sectors : ℕ
  pub cache_sectors : ℕ
  pub storage_size : ℕ
  pub base_address : ℕ
  pub extended_cache_memory : ℕ

-- The static member `m_initialised` beside LevelX.
pub record World (K : Type 0) : Type 0 where
  pub initialised : Bool
  pub kernel : K

module _ {K : Type 0} (p : Platform) (api : NorApi K) where
  -- `norSectorSize`, in bytes.
  abbrev pub sector_size : ℕ
  sector_size = api.native_sector_size * p.word_size

  -- `m_blockSize`.
  unfoldable pub block_size : NorFlash → ℕ
  block_size self = (self.block_sectors * sector_size) % ulong_mod p

  -- The constructor. LevelX is initialised by the first one.
  unfoldable pub construct : NorFlash → M (World K) (Unit {0})
  construct self = do
    assert (self.storage_size % (self.block_sectors * sector_size) == 0)
    λ w. returns (
      tt,
      if not w.initialised
          then record { initialised = true; kernel = api.initialize w.kernel }
          else w,
    )

  unfoldable pub close : NorFlash → M K Error
  close self = call (api.close self.address)

  unfoldable pub destruct : NorFlash → M K (Unit {0})
  unfolding close
  destruct self = do error ← close self; assert (is_success api.values error)

  -- `if constexpr (CacheSectors > 0)`.
  unfoldable pub enable_cache : NorFlash → M K Error
  enable_cache self =
      if ltb 0 self.cache_sectors
      then call (
          api.extended_cache_enable self.address self.extended_cache_memory
            (self.cache_sectors * sector_size))
      else pure (named api.values success)

  unfoldable pub open_flash : NorFlash → M K Error
  unfolding enable_cache
  open_flash self = do
    error ← call (api.flash_open self.address)
    if not (is_success api.values error) then pure error else enable_cache self

  unfoldable defragment : NorFlash → M K Error
  defragment self = call (api.defragment self.address)

  unfoldable defragment_blocks : NorFlash → ℕ → M K Error
  defragment_blocks self number_of_blocks =
      call (api.partial_defragment self.address number_of_blocks)

  unfoldable read_sector : NorFlash → ℕ → ℕ → M K Error
  read_sector self logical_sector sector_data =
      call (api.sector_read self.address logical_sector sector_data)

  unfoldable write_sector : NorFlash → ℕ → ℕ → M K Error
  write_sector self logical_sector sector_data =
      call (api.sector_write self.address logical_sector sector_data)

  unfoldable release_sector : NorFlash → ℕ → M K Error
  release_sector self logical_sector = call (api.sector_release self.address logical_sector)

  -- What `DriverCallback::initialise` writes into the control block, before it asks the
  -- `initialiseCallback` of the derived class.
  unfoldable pub initialise : NorFlash → NorControl
  unfolding block_size
  initialise self = record {
    base_address = self.base_address;
    total_blocks = self.storage_size / block_size self;
    words_per_block = block_size self / p.word_size;
  }

  -- `mediaFormatSize()` reads the control block.
  unfoldable pub media_format_size : NorControl → M K ℕ
  media_format_size control = do
    assert (ltb 1 control.total_blocks)
    pure (((control.total_blocks - 1) * (control.words_per_block * p.word_size)) % ulong_mod p)
