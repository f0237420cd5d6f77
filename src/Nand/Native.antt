-- ===== src/Nand/Native.antt =====
-- The NAND flash services of LevelX that nandFlash.hpp calls: parameters of the model.
use threadx_cpp.Prelude.{ℕ}
use threadx_cpp.LevelX.{Values}

-- What LevelX keeps of an open flash, as far as the driver sets it.
pub record NandControl : Type 0 where
  pub total_blocks : ℕ
  pub pages_per_block : ℕ
  pub bytes_per_page : ℕ
  pub spare_total_length : ℕ
  pub spare_data1_offset : ℕ
  pub spare_data1_length : ℕ
  pub spare_data2_offset : ℕ
  pub spare_data2_length : ℕ

-- The services over the state K of LevelX, and the values of its macros. A flash is named by the
-- address of its control block, memory by the address of its first byte.
pub record NandApi (K : Type 0) : Type 0 where
  pub values : Values
  pub initialize : K → K
  pub flash_open : ℕ → ℕ → ℕ → K → ℕ × K
  pub flash_format : ℕ → ℕ → ℕ → K → ℕ × K
  pub close : ℕ → K → ℕ × K
  pub sectors_read : ℕ → ℕ → ℕ → ℕ → K → ℕ × K
  pub sectors_write : ℕ → ℕ → ℕ → ℕ → K → ℕ × K
  pub sectors_release : ℕ → ℕ → ℕ → K → ℕ × K
  pub page_ecc_compute : ℕ → ℕ → ℕ → K → ℕ × K
  pub page_ecc_check : ℕ → ℕ → ℕ → K → ℕ × K
