-- ===== src/Nand.antt =====
-- nandFlash.hpp: the class NandFlash<Blocks, BlockPages, PageSize> over LevelX, with the division of
-- a page into data and spare bytes, by which it sizes its buffers. The file is excluded from the
-- build by `#if 0`.
pub mod Native
pub mod Page
pub mod Sectors
pub mod Driver
use threadx_cpp.Prelude.{
  ℕ, zero, suc, ◌+◌, ◌-◌, ◌*◌, ◌/◌, ◌%◌, Bool, true, not, Option, none, some, M, ◌>>=◌, ◌>>◌, pure,
  assert, returns, ltb, ◌==◌, if◌then◌else◌,
}
use threadx_cpp.Common.{Platform, ulong_mod}
use threadx_cpp.LevelX.{Error, is_success, call}
use Native.{NandApi}

pub data NandPageSize : Type 0 where
  a_quarter_of_kilobyte half_a_kilobyte two_kilo_bytes four_kilo_bytes eight_kilo_bytes :
      NandPageSize

abbrev pub page_bytes : NandPageSize → ℕ
page_bytes a_quarter_of_kilobyte = 256
page_bytes half_a_kilobyte = 256 * 2
page_bytes two_kilo_bytes = 256 * 2 * 4
page_bytes four_kilo_bytes = 256 * 2 * 4 * 2
page_bytes eight_kilo_bytes = 256 * 2 * 4 * 2 * 2

pub record NandSpareDataInfo : Type 0 where
  pub data1_offset : ℕ
  pub data1_length : ℕ
  pub data2_offset : ℕ
  pub data2_length : ℕ

-- `while (PageSize / pageDataSize == 0) pageDataSize /= 2;` with fuel. A division by 0, which is no
-- constant expression, gives none, and so does the end of the fuel.
unfoldable pub page_data_size_from : ℕ → ℕ → ℕ → Option ℕ
page_data_size_from zero page_size size = none
page_data_size_from (suc f) page_size size =
    let rest = page_data_size_from f page_size (size / 2) in
    if size == 0 then none else if page_size / size == 0 then rest else some size

-- The pair that is returned.
abbrev pub with_spare : ℕ → Option ℕ → Option (ℕ × ℕ)
with_spare page_size none = none
with_spare page_size (some size) = some (size, page_size % size)

-- `pageDataAndSpareSizes()`: 13 rounds go down to a size of 1, and one more finds the 0.
unfoldable pub page_data_and_spare_sizes : ℕ → Option (ℕ × ℕ)
page_data_and_spare_sizes page_size = with_spare page_size (page_data_size_from 14 page_size 4096)

-- `eccSize`, for the data size of a page: three bytes for each quarter of a kilobyte.
unfoldable pub ecc_size : ℕ → ℕ
ecc_size page_data_size = 3 * (page_data_size / page_bytes a_quarter_of_kilobyte)

-- The words of `workingMemory`, for the data size of a page.
unfoldable pub working_memory_words : Platform → ℕ → ℕ → ℕ → ℕ
working_memory_words p blocks page_size page_data_size =
    (2 * blocks + 3 * page_data_size + 2 * page_size) % ulong_mod p / p.word_size

-- The object: the template arguments, the constant given to the constructor, and the address of
-- `workingMemory`.
pub record NandFlash : Type 0 where
  pub address : ℕ
  pub blocks : ℕ
  pub block_pages : ℕ
  pub page_size : ℕ
  pub spare_data_info : NandSpareDataInfo
  pub working_memory : ℕ

-- The static member `m_initialised` beside LevelX.
pub record World (K : Type 0) : Type 0 where
  pub initialised : Bool
  pub kernel : K

-- The components of `pageDataAndSpareSizes()`. A page of 0 bytes, which does not compile, has none.
abbrev pub first_of : Option (ℕ × ℕ) → ℕ
first_of (some (size, spare)) = size
first_of none = 0

abbrev pub second_of : Option (ℕ × ℕ) → ℕ
second_of (some (size, spare)) = spare
second_of none = 0

unfoldable pub page_data_size : NandFlash → ℕ
page_data_size self = first_of (page_data_and_spare_sizes self.page_size)

unfoldable pub spare_bytes_size : NandFlash → ℕ
spare_bytes_size self = second_of (page_data_and_spare_sizes self.page_size)

abbrev pub block_pages : NandFlash → ℕ
block_pages self = self.block_pages

-- `sectorSize()`, as the number of its bytes.
abbrev pub sector_size : NandFlash → ℕ
sector_size self = page_data_size self

-- The bytes of a `PhysicalPage` and of a `Block`, and the words of a `BlockDiag`.
unfoldable pub physical_page_bytes : Platform → NandFlash → ℕ
physical_page_bytes p self = page_data_size self / p.word_size * p.word_size + spare_bytes_size self

unfoldable pub block_bytes : Platform → NandFlash → ℕ
unfolding physical_page_bytes
block_bytes p self = self.block_pages * physical_page_bytes p self

unfoldable pub block_diag_words : NandFlash → ℕ
block_diag_words self = 1 + self.block_pages + self.block_pages

-- `workingMemory.size() * wordSize`.
unfoldable pub working_memory_bytes : Platform → NandFlash → ℕ
working_memory_bytes p self =
    working_memory_words p self.blocks self.page_size (page_data_size self) * p.word_size

module _ {K : Type 0} (p : Platform) (api : NandApi K) where
  -- The constructor. LevelX is initialised by the first one.
  unfoldable pub construct : NandFlash → M (World K) (Unit {0})
  construct self w = returns (
    tt,
    if not w.initialised
        then record { initialised = true; kernel = api.initialize w.kernel }
        else w,
  )

  unfoldable pub close : NandFlash → M K Error
  close self = call (api.close self.address)

  unfoldable pub destruct : NandFlash → M K (Unit {0})
  unfolding close
  destruct self = do error ← close self; assert (is_success api.values error)

  -- `mediaFormatSize()`, with the words of a block in the control block.
  unfoldable pub media_format_size : NandFlash → ℕ → M K ℕ
  media_format_size self words_per_block = do
    assert (ltb 1 self.blocks)
    pure (((self.blocks - 1) * (words_per_block * p.word_size)) % ulong_mod p)

  unfoldable pub open_flash : NandFlash → M K Error
  open_flash self =
      call (api.flash_open self.address self.working_memory (working_memory_bytes p self))

  unfoldable pub format : NandFlash → M K Error
  format self =
      call (api.flash_format self.address self.working_memory (working_memory_bytes p self))

  -- Sector data are a span: the address of its first word, and the number of its words.
  unfoldable pub read_sectors : NandFlash → ℕ → ℕ → ℕ → M K Error
  read_sectors self logical_sector memory words = do
    assert (words * p.word_size % sector_size self == 0)
    call (
        api.sectors_read self.address logical_sector memory
          (words * p.word_size / sector_size self))

  unfoldable pub write_sectors : NandFlash → ℕ → ℕ → ℕ → M K Error
  write_sectors self logical_sector memory words = do
    assert (words * p.word_size % sector_size self == 0)
    call (
        api.sectors_write self.address logical_sector memory
          (words * p.word_size / sector_size self))

  unfoldable pub release_sectors : NandFlash → ℕ → ℕ → M K Error
  release_sectors self logical_sector sector_count =
      call (api.sectors_release self.address logical_sector sector_count)

  -- The buffers are addresses.
  unfoldable pub compute_page_ecc : NandFlash → ℕ → ℕ → M K Error
  compute_page_ecc self page_buffer ecc = call (api.page_ecc_compute self.address page_buffer ecc)

  unfoldable pub check_page_ecc : NandFlash → ℕ → ℕ → M K Error
  check_page_ecc self page_buffer ecc = call (api.page_ecc_check self.address page_buffer ecc)
