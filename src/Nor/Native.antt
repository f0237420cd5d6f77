-- ===== src/Nor/Native.antt =====
-- The NOR flash services of LevelX that norFlash.hpp calls: parameters of the model.
use threadx_cpp.Prelude.{ℕ}
use threadx_cpp.LevelX.{Values}

-- What LevelX keeps of an open flash, as far as the driver sets or reads it.
pub record NorControl : Type 0 where
  pub base_address : ℕ
  pub total_blocks : ℕ
  pub words_per_block : ℕ

-- The services over the state K of LevelX, and the values of its macros. A flash is named by the
-- address of its control block; sector data by the address of their first word.
pub record NorApi (K : Type 0) : Type 0 where
  pub values : Values
  pub native_sector_size : ℕ
  pub initialize : K → K
  pub flash_open : ℕ → K → ℕ × K
  pub close : ℕ → K → ℕ × K
  pub extended_cache_enable : ℕ → ℕ → ℕ → K → ℕ × K
  pub defragment : ℕ → K → ℕ × K
  pub partial_defragment : ℕ → ℕ → K → ℕ × K
  pub sector_read : ℕ → ℕ → ℕ → K → ℕ × K
  pub sector_write : ℕ → ℕ → ℕ → K → ℕ × K
  pub sector_release : ℕ → ℕ → K → ℕ × K
