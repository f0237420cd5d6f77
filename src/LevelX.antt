-- ===== src/LevelX.antt =====
-- lxCommon.hpp: the result codes of LevelX, whose numbers are macros of lx_api.h.
use threadx_cpp.Prelude.{ℕ, Bool, M, returns, ◌==◌}

-- The enumerators of `LevelX::Error`.
pub data ErrorName : Type 0 where
  success error no_sectors sector_not_found no_pages invalid_write : ErrorName
  nand_error_corrected nand_error_not_corrected no_memory disabled bad_block : ErrorName
  no_blocks not_supported system_invalid_format system_invalid_block : ErrorName
  system_allocation_failed system_mutex_create_failed system_invalid_sector_map : ErrorName

-- A value of the enumeration: any number of its underlying type.
pub record Error : Type 0 where
  pub underlying : ℕ

-- The macros of lx_api.h.
abbrev pub Values : Type 0
Values = ErrorName → ℕ

abbrev pub named : Values → ErrorName → Error
named values n = record { underlying = values n }

abbrev pub is_success : Values → Error → Bool
is_success values e = e.underlying == values success

-- `Error{lx_service(…)}`.
abbrev pub call : {S : Type 0} → (S → ℕ × S) → M S Error
call service s = let (code, t) = service s in returns (record { underlying = code }, t)
