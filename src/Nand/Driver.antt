-- ===== src/Nand/Driver.antt =====
-- nandFlash.hpp, DriverCallback: what LevelX calls of the driver.
use threadx_cpp.Prelude.{ℕ}
use threadx_cpp.LevelX.{Error, Values, success, named}
use threadx_cpp.Nand.{NandFlash, page_data_size, spare_bytes_size}
use threadx_cpp.Nand.Native.{NandControl}

-- The virtual functions of a derived class, over the state K of the device. Pointers are addresses.
pub record NandDriver (K : Type 0) : Type 0 where
  pub initialise_callback : K → Error × K
  pub read_callback : ℕ → ℕ → ℕ → ℕ → K → Error × K
  pub write_callback : ℕ → ℕ → ℕ → ℕ → K → Error × K
  pub read_pages_callback : ℕ → ℕ → ℕ → ℕ → ℕ → K → Error × K
  pub write_pages_callback : ℕ → ℕ → ℕ → ℕ → ℕ → K → Error × K
  pub copy_pages_callback : ℕ → ℕ → ℕ → ℕ → ℕ → ℕ → K → Error × K
  pub erase_block_callback : ℕ → ℕ → K → Error × K
  pub verify_erased_block_callback : ℕ → K → Error × K
  pub verify_erased_page_callback : ℕ → ℕ → K → Error × K
  pub get_block_status_callback : ℕ → ℕ → K → Error × K
  pub set_block_status_callback : ℕ → ℕ → K → Error × K
  pub get_extra_bytes_callback : ℕ → ℕ → ℕ → ℕ → K → Error × K
  pub set_extra_bytes_callback : ℕ → ℕ → ℕ → ℕ → K → Error × K
  pub system_error_callback : ℕ → ℕ → ℕ → K → Error × K

-- `NandFlash::initialiseCallback` and `NandFlash::systemErrorCallback`, which a derived class may
-- override.
abbrev pub initialise_callback : {K : Type 0} → Values → K → Error × K
initialise_callback values k = (named values success, k)

abbrev pub system_error_callback : {K : Type 0} → Values → ℕ → ℕ → ℕ → K → Error × K
system_error_callback values error_code block page k = (named values success, k)

-- `std::to_underlying(error)`, for LevelX.
abbrev pub code_of : {K : Type 0} → Error × K → ℕ × K
code_of (error, k) = (error.underlying, k)

-- What `initialise` writes into the control block, beside the addresses of the callbacks.
unfoldable pub control_of : NandFlash → NandControl
control_of self = record {
  total_blocks = self.blocks;
  pages_per_block = self.block_pages;
  bytes_per_page = page_data_size self;
  spare_total_length = spare_bytes_size self;
  spare_data1_offset = self.spare_data_info.data1_offset;
  spare_data1_length = self.spare_data_info.data1_length;
  spare_data2_offset = self.spare_data_info.data2_offset;
  spare_data2_length = self.spare_data_info.data2_length;
}

module _ {K : Type 0} (driver : NandDriver K) where
  unfoldable pub initialise : NandFlash → K → ℕ × NandControl × K
  initialise self k =
      let (code, k') = code_of (driver.initialise_callback k) in (code, control_of self, k')

  unfoldable pub read : ℕ → ℕ → ℕ → ℕ → K → ℕ × K
  read block page destination words k =
      code_of (driver.read_callback block page destination words k)

  unfoldable pub write : ℕ → ℕ → ℕ → ℕ → K → ℕ × K
  write block page source words k = code_of (driver.write_callback block page source words k)

  unfoldable pub read_pages : ℕ → ℕ → ℕ → ℕ → ℕ → K → ℕ × K
  read_pages block page main_buffer spare_buffer pages k =
      code_of (driver.read_pages_callback block page main_buffer spare_buffer pages k)

  unfoldable pub write_pages : ℕ → ℕ → ℕ → ℕ → ℕ → K → ℕ × K
  write_pages block page main_buffer spare_buffer pages k =
      code_of (driver.write_pages_callback block page main_buffer spare_buffer pages k)

  unfoldable pub copy_pages : ℕ → ℕ → ℕ → ℕ → ℕ → ℕ → K → ℕ × K
  copy_pages source_block source_page destination_block destination_page pages data_buffer k =
      code_of (
        driver.copy_pages_callback source_block source_page destination_block destination_page pages
          data_buffer k)

  unfoldable pub erase_block : ℕ → ℕ → K → ℕ × K
  erase_block block erase_count k = code_of (driver.erase_block_callback block erase_count k)

  unfoldable pub verify_erased_block : ℕ → K → ℕ × K
  verify_erased_block block k = code_of (driver.verify_erased_block_callback block k)

  unfoldable pub verify_erased_page : ℕ → ℕ → K → ℕ × K
  verify_erased_page block page k = code_of (driver.verify_erased_page_callback block page k)

  unfoldable pub get_block_status : ℕ → ℕ → K → ℕ × K
  get_block_status block bad_block_flag k =
      code_of (driver.get_block_status_callback block bad_block_flag k)

  unfoldable pub set_block_status : ℕ → ℕ → K → ℕ × K
  set_block_status block bad_block_flag k =
      code_of (driver.set_block_status_callback block bad_block_flag k)

  unfoldable pub get_extra_bytes : ℕ → ℕ → ℕ → ℕ → K → ℕ × K
  get_extra_bytes block page destination size k =
      code_of (driver.get_extra_bytes_callback block page destination size k)

  unfoldable pub set_extra_bytes : ℕ → ℕ → ℕ → ℕ → K → ℕ × K
  set_extra_bytes block page source size k =
      code_of (driver.set_extra_bytes_callback block page source size k)

  unfoldable pub system_error : ℕ → ℕ → ℕ → K → ℕ × K
  system_error error_code block page k =
      code_of (driver.system_error_callback error_code block page k)
