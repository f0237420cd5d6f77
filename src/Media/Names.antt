-- ===== src/Media/Names.antt =====
-- media.hpp: the operations that give a string, as a std::string_view into memory of FileX or of the
-- call itself.
use threadx_cpp.Prelude.{ℕ, String, M, ◌>>=◌, ◌>>◌, pure, assert, returns, not, ◌==◌}
use threadx_cpp.FileX.{Error, call}
use threadx_cpp.Media.{Media}
use threadx_cpp.Media.Native.{MediaApi}

pub record StringView : Type 0 where
  pub start : ℕ
  pub length : ℕ

module _ {K : Type 0} (api : MediaApi K) where
  -- `std::string_view{pointer}`, which a null pointer has no value for: an abort here.
  unfoldable pub string_view : ℕ → M K StringView
  string_view pointer = do
    assert (not (pointer == 0))
    λ k. returns (record { start = pointer; length = api.string_length pointer k }, k)

  -- `volume()`, with the address of the local array that FileX writes the name into.
  unfoldable pub volume : Media K → ℕ → M K (Error × StringView)
  unfolding string_view
  volume self volume_name = do
    error ← call (api.volume_get self.address volume_name api.boot_sector)
    view ← string_view volume_name
    pure (error, view)

  -- A getter that is given a null pointer to set.
  unfoldable pub path_of : (ℕ → K → ℕ × ℕ × K) → M K (Error × StringView)
  unfolding string_view
  path_of service = do
    (code, path) ← λ k. let (code, path, k') = service 0 k in returns ((code, path), k')
    view ← string_view path
    pure (record { underlying = code }, view)

  unfoldable pub default_dir : Media K → M K (Error × StringView)
  unfolding path_of
  default_dir self = path_of (api.directory_default_get self.address)

  unfoldable pub local_dir : Media K → M K (Error × StringView)
  unfolding path_of
  local_dir self = path_of (api.local_path_get self.address)

  -- `localDir(newPath)`, with the address of the local FX_LOCAL_PATH that FileX is given.
  unfoldable pub set_local_dir : Media K → ℕ → String → M K Error
  set_local_dir self local_path new_path =
      call (api.local_path_set self.address local_path new_path)

  unfoldable pub name : Media K → M K StringView
  unfolding string_view
  name self k = string_view (api.media_name self.address k) k
