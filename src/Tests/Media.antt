-- ===== src/Tests/Media.antt =====
-- media.hpp and nandFlash.hpp: a FileX that opens the media with the name "disk", and pages.
use threadx_cpp.Prelude.{ℕ, true, ◌≡◌, ◌==◌, refl, false, none, [], ◌∷◌, returns, if◌then◌else◌}
use threadx_cpp.FileX.{success, Values, half_a_kilobyte, four_kilobytes}
use threadx_cpp.Media.{Media, Tm}
use threadx_cpp.Media.Native.{MediaApi}
use threadx_cpp.Media.Setup.{construct_all, set_up, construct_all-set_up}
use threadx_cpp.Tests.Platforms.{target}

abbrev values : Values
values success = 0
values _ = 1

-- A driver at address 0 is an I/O error.
abbrev pub api : MediaApi ℕ
api = record {
  values = values;
  has_fault_tolerant = false;
  maximum_log_file_size = 3072;
  system_initialize = λ k. k;
  system_date_set = λ y m d k. (0, k);
  system_time_set = λ h m s k. (0, k);
  open_notify_set = λ a k. (0, k);
  close_notify_set = λ a k. (0, k);
  media_open = λ a n d m s k. (if d == 0 then 0x90 else 0, k);
  fault_tolerant_enable = λ a m s k. (0, k);
  media_format = λ a d m s n f e r t b c h g k. (0, k);
  volume_set = λ a n k. (0, k);
  directory_create = λ a n k. (0, k);
  directory_delete = λ a n k. (0, k);
  directory_rename = λ a n o k. (0, k);
  file_create = λ a n k. (0, k);
  file_delete = λ a n k. (0, k);
  file_rename = λ a n o k. (0, k);
  directory_default_set = λ a n k. (0, k);
  local_path_clear = λ a k. (0, k);
  space_available = λ a k. (0, 0, k);
  media_abort = λ a k. (0, k);
  cache_invalidate = λ a k. (0, k);
  media_flush = λ a k. (0, k);
  media_close = λ a k. (0, k);
  media_write = λ a n d k. (0, k);
  media_read = λ a n d k. (0, k);
  boot_sector = 1;
  volume_get = λ a m s k. (0, k);
  directory_default_get = λ a p k. (0, 0x8000, k);
  local_path_get = λ a p k. (0, 0x8000, k);
  local_path_set = λ a l n k. (0, k);
  media_name = λ a k. 0x9000;
  string_length = λ a k. 4;
}

abbrev pub media : ℕ → Media ℕ
media driver = record {
  address = 0x5000;
  sector_size = half_a_kilobyte;
  driver_info = driver;
  open_notify_callback = none;
  close_notify_callback = none;
  media_memory = 0x6000;
  fault_tolerant_cache = 0x7000;
}

-- A build with fault tolerance, and sectors of four kilobytes.
abbrev tolerant : MediaApi ℕ
tolerant = record api { has_fault_tolerant = true }

abbrev large : Media ℕ
large = record (media 1) { sector_size = four_kilobytes }

abbrev noon : Tm
noon = record { year = 125; mon = 5; mday = 1; hour = 12; min = 0; sec = 0 }

construct_all-set_up_example :
    construct_all target api
      ((media 0, noon) ∷ (media 1, noon) ∷ [])
      (record { file_system_initialised = false; kernel = 0 })
    ≡ returns (tt, record { file_system_initialised = true; kernel = set_up target api noon 0 })
construct_all-set_up_example =
    construct_all-set_up target api (media 0) noon ((media 1, noon) ∷ []) 0
      ((refl, refl), ((refl, refl), tt))
