-- ===== src/Media/Native.antt =====
-- The media services of FileX that media.hpp calls: parameters of the model.
use threadx_cpp.Prelude.{ℕ, Bool, String}
use threadx_cpp.FileX.{Values}

-- The fields of the control block of a media by which FileX and its driver communicate.
pub record DriverFields : Type 0 where
  pub driver_info : ℕ
  pub driver_request : ℕ
  pub driver_status : ℕ
  pub driver_buffer : ℕ
  pub driver_logical_sector : ℕ
  pub driver_sectors : ℕ
  pub driver_write_protect : ℕ
  pub driver_free_sector_update : ℕ
  pub driver_system_write : ℕ
  pub driver_data_sector_read : ℕ
  pub driver_sector_type : ℕ

-- The services over the state K of FileX, the values of its macros, and whether the build defines
-- FX_ENABLE_FAULT_TOLERANT. A media is named by the address of its control block, memory by the
-- address of its first byte. `volume_get` writes into the memory that it is given; the getters of
-- paths are given the content of a pointer, and give its content after the call. `string_length` is
-- that of the string at an address.
pub record MediaApi (K : Type 0) : Type 0 where
  pub values : Values
  pub has_fault_tolerant : Bool
  pub maximum_log_file_size : ℕ
  pub system_initialize : K → K
  pub system_date_set : ℕ → ℕ → ℕ → K → ℕ × K
  pub system_time_set : ℕ → ℕ → ℕ → K → ℕ × K
  pub open_notify_set : ℕ → K → ℕ × K
  pub close_notify_set : ℕ → K → ℕ × K
  pub media_open : ℕ → String → ℕ → ℕ → ℕ → K → ℕ × K
  pub fault_tolerant_enable : ℕ → ℕ → ℕ → K → ℕ × K
  pub media_format : ℕ → ℕ → ℕ → ℕ → String → ℕ → ℕ → ℕ → ℕ → ℕ → ℕ → ℕ → ℕ → K → ℕ × K
  pub volume_set : ℕ → String → K → ℕ × K
  pub directory_create : ℕ → String → K → ℕ × K
  pub directory_delete : ℕ → String → K → ℕ × K
  pub directory_rename : ℕ → String → String → K → ℕ × K
  pub file_create : ℕ → String → K → ℕ × K
  pub file_delete : ℕ → String → K → ℕ × K
  pub file_rename : ℕ → String → String → K → ℕ × K
  pub directory_default_set : ℕ → String → K → ℕ × K
  pub local_path_clear : ℕ → K → ℕ × K
  pub space_available : ℕ → K → ℕ × ℕ × K
  pub media_abort : ℕ → K → ℕ × K
  pub cache_invalidate : ℕ → K → ℕ × K
  pub media_flush : ℕ → K → ℕ × K
  pub media_close : ℕ → K → ℕ × K
  pub media_write : ℕ → ℕ → ℕ → K → ℕ × K
  pub media_read : ℕ → ℕ → ℕ → K → ℕ × K
  pub boot_sector : ℕ
  pub volume_get : ℕ → ℕ → ℕ → K → ℕ × K
  pub directory_default_get : ℕ → ℕ → K → ℕ × ℕ × K
  pub local_path_get : ℕ → ℕ → K → ℕ × ℕ × K
  pub local_path_set : ℕ → ℕ → String → K → ℕ × K
  pub media_name : ℕ → K → ℕ
  pub string_length : ℕ → K → ℕ
