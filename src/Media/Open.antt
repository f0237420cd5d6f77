-- ===== src/Media/Open.antt =====
-- media.hpp: opening a media that FileX opens, with and without fault tolerance.
use threadx_cpp.Prelude.{ℕ, ◌≡◌, String, returns, aborts, arith, if◌then◌else◌}
use threadx_cpp.Common.{Platform}
use threadx_cpp.FileX.{success, named}
use threadx_cpp.Media.{
  Media, FaultTolerantMode, disable, enable, is_disable, media_memory_size, open_media,
}
use threadx_cpp.Media.Native.{MediaApi}

module _ {K : Type 0} (p : Platform) (api : MediaApi K) where
  -- What FileX is asked to open.
  abbrev pub opening : Media K → String → K → ℕ × K
  opening self name =
      api.media_open self.address name self.driver_info self.media_memory
        (media_memory_size p self.sector_size)

  -- A media that FileX opens: without fault tolerance asked for, it is open and that is all; with
  -- it, the last word is that of FileX's fault tolerance, which gets the address of the cache and the
  -- size of the log file; and where the build lacks it, the assertion fails, the media being open.
  pub open_media_opened :
      (self : Media K) (name : String) (mode : FaultTolerantMode) (k : K)
      → (opening self name k).0 ≡ api.values success
      → let k1 = (opening self name k).1 in
        let service =
          api.fault_tolerant_enable self.address self.fault_tolerant_cache api.maximum_log_file_size
            k1 in
        open_media p api self name mode k ≡ (
          if is_disable mode
          then returns (named api.values success, k1)
          else if api.has_fault_tolerant
          then returns (record { underlying = service.0 }, service.1)
          else aborts)
  unfolding open_media
  open_media_opened self name disable k opened = ground arith
  open_media_opened self name enable k opened = ground arith
