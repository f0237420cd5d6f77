-- ===== src/Media.antt =====
-- media.hpp: the class Media<N> over FileX. The object does not change after its construction.
pub mod Native
pub mod Cache
pub mod Open
pub mod Setup
pub mod Names
pub mod Driver
use threadx_cpp.Prelude.{
  ℕ, ◌+◌, ◌*◌, ◌/◌, ◌%◌, Bool, true, false, not, ◌||◌, Option, none, some, String, M, ◌>>=◌, ◌>>◌,
  pure, assert, returns, aborts, ltb, ◌==◌, if◌then◌else◌,
}
use threadx_cpp.Common.{Platform}
use threadx_cpp.FileX.{
  Error, success, media_not_open, named, is_error, is_success, call, MediaSectorSize, sector_bytes,
  one_kilo_byte, four_kilobytes,
}
use Native.{MediaApi}

pub data FaultTolerantMode : Type 0 where
  disable enable : FaultTolerantMode

abbrev pub is_disable : FaultTolerantMode → Bool
is_disable disable = true
is_disable enable = false

-- `std::function<void(Media &)>`: empty, or what a call does to FileX.
abbrev pub NotifyCallback : Type 0 → Type 0
NotifyCallback K = Option (ℕ → K → K)

-- The object, with the addresses of its members `m_mediaMemory` and `m_faultTolerantCache`.
pub record Media (K : Type 0) : Type 0 where
  pub address : ℕ
  pub sector_size : MediaSectorSize
  pub driver_info : ℕ
  pub open_notify_callback : NotifyCallback K
  pub close_notify_callback : NotifyCallback K
  pub media_memory : ℕ
  pub fault_tolerant_cache : ℕ

-- The static member `m_fileSystemInitialised` beside FileX.
pub record World (K : Type 0) : Type 0 where
  pub file_system_initialised : Bool
  pub kernel : K

abbrev pub on_kernel {ℓ} : {K : Type 0} {A : Type ℓ} → M K A → M (World K) A
on_kernel m w = elim (m w.kernel) [
  | returns (a, k) ↦ returns (a, record w { kernel = k })
  | aborts ↦ aborts
]

-- The members of `std::tm` that are used; the year is after 1900.
pub record Tm : Type 0 where
  pub year : ℕ
  pub mon : ℕ
  pub mday : ℕ
  pub hour : ℕ
  pub min : ℕ
  pub sec : ℕ

-- `cacheSize()`: the words of `m_faultTolerantCache`.
unfoldable pub cache_size : Platform → ℕ → MediaSectorSize → ℕ
cache_size p fault_tolerant_cache_size n =
    if ltb (sector_bytes one_kilo_byte) (sector_bytes n)
    then sector_bytes four_kilobytes / p.word_size
    else fault_tolerant_cache_size / p.word_size

-- `m_mediaMemorySizeInBytes`, from the words of `m_mediaMemory`.
unfoldable pub media_memory_size : Platform → MediaSectorSize → ℕ
media_memory_size p n = sector_bytes n / p.word_size * p.word_size

module _ {K : Type 0} (p : Platform) (api : MediaApi K) where
  -- `setFileSystemTime()`; the local time is an argument.
  unfoldable pub set_file_system_time : Tm → M K Error
  set_file_system_time local_time = do
    dated ← call (api.system_date_set (local_time.year + 1900) (local_time.mon + 1) local_time.mday)
    if not (is_success api.values dated) then pure dated else do
      timed ← call (api.system_time_set local_time.hour local_time.min local_time.sec)
      if not (is_success api.values timed) then pure timed else pure (named api.values success)

  -- The first construction initialises FileX and its clock, whatever becomes of the latter.
  unfoldable pub initialise_once : Tm → M (World K) (Unit {0})
  unfolding set_file_system_time
  initialise_once local_time w =
      if not w.file_system_initialised
      then (elim (set_file_system_time local_time (api.system_initialize w.kernel)) [
        | returns (_, k) ↦ returns (tt, record { file_system_initialised = true; kernel = k })
        | aborts ↦ aborts
      ])
      else returns (tt, w)

  unfoldable pub register : NotifyCallback K → (K → ℕ × K) → M K (Unit {0})
  register none service = pure tt
  register (some _) service = do error ← call service; assert (is_success api.values error)

  -- The constructor.
  unfoldable pub construct : Media K → Tm → M (World K) (Unit {0})
  unfolding initialise_once register
  construct self local_time = do
    initialise_once local_time
    on_kernel (register self.open_notify_callback (api.open_notify_set self.address))
    on_kernel (register self.close_notify_callback (api.close_notify_set self.address))

  unfoldable pub close : Media K → M K Error
  close self = call (api.media_close self.address)

  unfoldable pub destruct : Media K → M K (Unit {0})
  unfolding close
  destruct self = do
    error ← close self
    assert (is_success api.values error || is_error api.values media_not_open error)

  -- `if (mode == FaultTolerantMode::enable)` in `open`. The size given to FileX is
  -- `m_faultTolerantCacheSize`, not that of the array.
  unfoldable pub enable_fault_tolerant : Media K → FaultTolerantMode → M K Error
  enable_fault_tolerant self disable = pure (named api.values success)
  enable_fault_tolerant self enable =
      if api.has_fault_tolerant
      then call (
          api.fault_tolerant_enable self.address self.fault_tolerant_cache
            api.maximum_log_file_size)
      else (assert (is_disable enable) >> pure (named api.values success))

  unfoldable pub open_media : Media K → String → FaultTolerantMode → M K Error
  unfolding enable_fault_tolerant
  open_media self name mode = do
    error ← call (
        api.media_open self.address name self.driver_info self.media_memory
          (media_memory_size p self.sector_size))
    if not (is_success api.values error) then pure error else enable_fault_tolerant self mode

  unfoldable pub format : Media K → String → ℕ → ℕ → ℕ → M K Error
  format self volume_name storage_size sector_per_cluster directory_entries = do
    let n = sector_bytes self.sector_size
    assert (storage_size % n == 0)
    call (
        api.media_format self.address self.driver_info self.media_memory
          (media_memory_size p self.sector_size) volume_name 1 directory_entries 0
          (storage_size / n) n sector_per_cluster 1 1)

  -- `volume(volumeName)`: names have less than `volumNameLength` characters, whose number is an
  -- argument.
  unfoldable pub set_volume : Media K → String → ℕ → M K Error
  set_volume self volume_name length = do
    assert (ltb length 12)
    call (api.volume_set self.address volume_name)

  unfoldable create_dir : Media K → String → M K Error
  create_dir self dir_name = call (api.directory_create self.address dir_name)

  unfoldable delete_dir : Media K → String → M K Error
  delete_dir self dir_name = call (api.directory_delete self.address dir_name)

  unfoldable rename_dir : Media K → String → String → M K Error
  rename_dir self dir_name new_name = call (api.directory_rename self.address dir_name new_name)

  unfoldable create_file : Media K → String → M K Error
  create_file self file_name = call (api.file_create self.address file_name)

  unfoldable delete_file : Media K → String → M K Error
  delete_file self file_name = call (api.file_delete self.address file_name)

  unfoldable rename_file : Media K → String → String → M K Error
  rename_file self file_name new_file_name =
      call (api.file_rename self.address file_name new_file_name)

  unfoldable set_default_dir : Media K → String → M K Error
  set_default_dir self new_path = call (api.directory_default_set self.address new_path)

  unfoldable clear_local_dir : Media K → M K Error
  clear_local_dir self = call (api.local_path_clear self.address)

  unfoldable space : Media K → M K (Error × ℕ)
  space self k =
      let (code, left, k') = api.space_available self.address k in
      returns ((record { underlying = code }, left), k')

  unfoldable abort : Media K → M K Error
  abort self = call (api.media_abort self.address)

  unfoldable invalidate_cache : Media K → M K Error
  invalidate_cache self = call (api.cache_invalidate self.address)

  unfoldable flush : Media K → M K Error
  flush self = call (api.media_flush self.address)

  unfoldable write_sector : Media K → ℕ → ℕ → M K Error
  write_sector self sector_no sector_data =
      call (api.media_write self.address sector_no sector_data)

  unfoldable read_sector : Media K → ℕ → ℕ → M K Error
  read_sector self sector_no sector_data = call (api.media_read self.address sector_no sector_data)
