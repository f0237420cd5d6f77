-- ===== src/FileX.antt =====
-- fxCommon.hpp: the result codes of FileX, whose numbers are macros of fx_api.h, and the sizes of a
-- sector.
use threadx_cpp.Prelude.{ℕ, ◌*◌, Bool, M, returns, ◌==◌}

-- The enumerators of `FileX::Error`.
pub data ErrorName : Type 0 where
  success boot_error media_invalid fat_read_error not_found not_a_file access_error : ErrorName
  not_open file_corrupt end_of_file no_more_space already_created invalid_name : ErrorName
  invalid_path not_directory no_more_entries dir_not_empty media_not_open invalid_year : ErrorName
  invalid_month invalid_day invalid_hour invalid_minute invalid_second ptr_error : ErrorName
  invalid_attr caller_error buffer_error not_implemented write_protect invalid_option : ErrorName
  sector_invalid io_error not_enough_memory error_fixed error_not_fixed not_available : ErrorName
  invalid_checksum read_continue invalid_state : ErrorName

-- A value of the enumeration: any number of its underlying type.
pub record Error : Type 0 where
  pub underlying : ℕ

-- The macros of fx_api.h.
abbrev pub Values : Type 0
Values = ErrorName → ℕ

abbrev pub named : Values → ErrorName → Error
named values n = record { underlying = values n }

abbrev pub is_error : Values → ErrorName → Error → Bool
is_error values n e = e.underlying == values n

abbrev pub is_success : Values → Error → Bool
is_success values = is_error values success

-- `Error{fx_service(…)}`.
abbrev pub call : {S : Type 0} → (S → ℕ × S) → M S Error
call service s = let (code, t) = service s in returns (record { underlying = code }, t)

pub data MediaSectorSize : Type 0 where
  half_a_kilobyte one_kilo_byte two_kilo_bytes four_kilobytes : MediaSectorSize

abbrev pub sector_bytes : MediaSectorSize → ℕ
sector_bytes half_a_kilobyte = 512
sector_bytes one_kilo_byte = 512 * 2
sector_bytes two_kilo_bytes = 512 * 2 * 2
sector_bytes four_kilobytes = 512 * 2 * 2 * 2

abbrev pub default_sector_size : MediaSectorSize
default_sector_size = half_a_kilobyte
