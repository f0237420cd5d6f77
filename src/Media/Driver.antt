-- ===== src/Media/Driver.antt =====
-- media.hpp: what the driver of a media reads and writes, and the callbacks.
use threadx_cpp.Prelude.{ℕ, Bool, not, none, some, M, returns, aborts, ◌==◌, if◌then◌else◌}
use threadx_cpp.FileX.{Error}
use threadx_cpp.Media.{Media, NotifyCallback}
use threadx_cpp.Media.Native.{DriverFields}

-- The enumerators, whose values are macros of fx_api.h.
pub data MediaSectorType : Type 0 where
  unknown boot fat directory data_sector : MediaSectorType

pub data MediaDriverRequest : Type 0 where
  read write flush abort init boot_read release_sectors boot_write uninit : MediaDriverRequest

-- A value of such an enumeration is any number of its underlying type.
abbrev pub is_request : (MediaDriverRequest → ℕ) → MediaDriverRequest → ℕ → Bool
is_request values request underlying = underlying == values request

abbrev pub is_sector_type : (MediaSectorType → ℕ) → MediaSectorType → ℕ → Bool
is_sector_type values type underlying = underlying == values type

-- The accessors of the driver.
unfoldable pub driver_info : DriverFields → ℕ
driver_info media = media.driver_info

unfoldable pub driver_request : DriverFields → ℕ
driver_request media = media.driver_request

unfoldable pub driver_status : Error → DriverFields → DriverFields
driver_status error media = record media { driver_status = error.underlying }

unfoldable pub driver_buffer : DriverFields → ℕ
driver_buffer media = media.driver_buffer

unfoldable pub driver_logical_sector : DriverFields → ℕ
driver_logical_sector media = media.driver_logical_sector

unfoldable pub driver_sectors : DriverFields → ℕ
driver_sectors media = media.driver_sectors

unfoldable pub driver_write_protect : Bool → DriverFields → DriverFields
driver_write_protect write_protect media = record media {
  driver_write_protect = if write_protect then 1 else 0;
}

unfoldable pub driver_free_sector_update : Bool → DriverFields → DriverFields
driver_free_sector_update free_sector_update media = record media {
  driver_free_sector_update = if free_sector_update then 1 else 0;
}

unfoldable pub driver_system_write : DriverFields → Bool
driver_system_write media = not (media.driver_system_write == 0)

unfoldable pub driver_data_sector_read : DriverFields → Bool
driver_data_sector_read media = not (media.driver_data_sector_read == 0)

unfoldable pub driver_sector_type : DriverFields → ℕ
driver_sector_type media = media.driver_sector_type

-- The static callbacks, which find the object: `driverCallback` calls the virtual function of the
-- application, and the others call the member, which throws where it is empty.
unfoldable pub driver_callback :
    {K : Type 0} → (Media K → M K (Unit {0})) → Media K → M K (Unit {0})
driver_callback application self = application self

abbrev pub notify : {K : Type 0} → NotifyCallback K → ℕ → M K (Unit {0})
notify (some f) address k = returns (tt, f address k)
notify none address k = aborts

unfoldable pub notify_open : {K : Type 0} → Media K → M K (Unit {0})
notify_open self = notify self.open_notify_callback self.address

unfoldable pub notify_close : {K : Type 0} → Media K → M K (Unit {0})
notify_close self = notify self.close_notify_callback self.address
