-- ===== src/Nor/Driver.antt =====
-- norFlash.hpp, DriverCallback: what LevelX calls of the driver.
use threadx_cpp.Prelude.{ℕ}
use threadx_cpp.Common.{Platform}
use threadx_cpp.LevelX.{Error, Values, success, named}
use threadx_cpp.Nor.{NorFlash}
use threadx_cpp.Nor
use threadx_cpp.Nor.Native.{NorApi, NorControl}

-- The virtual functions of a derived class, over the state K of the device. Pointers are addresses.
pub record NorDriver (K : Type 0) : Type 0 where
  pub initialise_callback : K → Error × K
  pub read_callback : ℕ → ℕ → ℕ → K → Error × K
  pub write_callback : ℕ → ℕ → ℕ → K → Error × K
  pub erase_block_callback : ℕ → ℕ → K → Error × K
  pub verify_erased_block_callback : ℕ → K → Error × K
  pub system_error_callback : ℕ → K → Error × K

-- `NorFlash::initialiseCallback` and `NorFlash::systemErrorCallback`, which a derived class may
-- override.
abbrev pub initialise_callback : {K : Type 0} → Values → K → Error × K
initialise_callback values k = (named values success, k)

abbrev pub system_error_callback : {K : Type 0} → Values → ℕ → K → Error × K
system_error_callback values error_code k = (named values success, k)

-- `std::to_underlying(error)`, for LevelX.
abbrev pub code_of : {K : Type 0} → Error × K → ℕ × K
code_of (error, k) = (error.underlying, k)

module _ {K : Type 0} (driver : NorDriver K) where
  -- With the control block that the function has written.
  unfoldable pub initialise : {L : Type 0} → Platform → NorApi L → NorFlash → K → ℕ × NorControl × K
  initialise p api self k =
      let (code, k') = code_of (driver.initialise_callback k) in
      (code, Nor.initialise p api self, k')

  unfoldable pub read : ℕ → ℕ → ℕ → K → ℕ × K
  read flash_address destination words k =
      code_of (driver.read_callback flash_address destination words k)

  unfoldable pub write : ℕ → ℕ → ℕ → K → ℕ × K
  write flash_address source words k = code_of (driver.write_callback flash_address source words k)

  unfoldable pub erase_block : ℕ → ℕ → K → ℕ × K
  erase_block block erase_count k = code_of (driver.erase_block_callback block erase_count k)

  unfoldable pub verify_erased_block : ℕ → K → ℕ × K
  verify_erased_block block k = code_of (driver.verify_erased_block_callback block k)

  unfoldable pub system_error : ℕ → K → ℕ × K
  system_error error_code k = code_of (driver.system_error_callback error_code k)
