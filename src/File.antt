-- ===== src/File.antt =====
-- file.hpp and file.cpp: the class File over FileX. The object does not change after its
-- construction; the state of FileX is the state.
pub mod Native
pub mod RoundTrip
use threadx_cpp.Prelude.{
  ℕ, Option, none, some, String, List, length, M, ◌>>=◌, ◌>>◌, pure, assert, returns, aborts, leb,
  if◌then◌else◌,
}
use threadx_cpp.FileX.{Error, is_success, call}
use Native.{FileApi, OpenOption, SeekFrom}

pub data AllocateOption : Type 0 where
  strict best_effort : AllocateOption

pub data TruncateOption : Type 0 where
  no_release release : TruncateOption

-- `std::function<void(File &)>`: empty, or what a call does to FileX.
abbrev pub NotifyCallback : Type 0 → Type 0
NotifyCallback K = Option (ℕ → K → K)

pub record File (K : Type 0) : Type 0 where
  pub address : ℕ
  pub write_notify_callback : NotifyCallback K

module _ {K : Type 0} (api : FileApi K) where
  unfoldable pub register : ℕ → NotifyCallback K → M K (Unit {0})
  register address none = pure tt
  register address (some _) = do
    error ← call (api.write_notify_set address)
    assert (is_success api.values error)

  -- The constructor, with the addresses of the object and of its media.
  unfoldable pub construct : ℕ → String → ℕ → OpenOption → NotifyCallback K → M K (File K)
  unfolding register
  construct address file_name media option callback = do
    error ← call (api.file_open media address file_name (api.open_code option))
    assert (is_success api.values error)
    register address callback
    pure (record { address = address; write_notify_callback = callback })

  unfoldable destruct : File K → M K (Unit {0})
  destruct self = do error ← call (api.close self.address); assert (is_success api.values error)

  unfoldable pub allocate : File K → ℕ → AllocateOption → M K (Error × ℕ)
  allocate self size strict = do
    error ← call (api.extended_allocate self.address size)
    pure (error, if is_success api.values error then size else 0)
  allocate self size best_effort = λ k.
      let (code, allocated_size, k') = api.best_effort_allocate self.address size k in
      returns ((record { underlying = code }, allocated_size), k')

  unfoldable truncate : File K → ℕ → TruncateOption → M K Error
  truncate self new_size no_release = call (api.extended_truncate self.address new_size)
  truncate self new_size release = call (api.extended_truncate_release self.address new_size)

  unfoldable pub seek : File K → ℕ → M K Error
  seek self offset = call (api.extended_seek self.address offset)

  unfoldable relative_seek : File K → ℕ → SeekFrom → M K Error
  relative_seek self offset from =
      call (api.extended_relative_seek self.address offset (api.seek_code from))

  -- Both overloads of `write`: the bytes of a span or of a text.
  unfoldable pub write : File K → List ℕ → M K Error
  write self bytes = call (api.write self.address bytes)

  -- The result is followed by the bytes in the buffer.
  unfoldable pub read_sized : File K → ℕ → M K ((Error × ℕ) × List ℕ)
  read_sized self size k =
      let (code, bytes, k') = api.read self.address size k in
      returns (((record { underlying = code }, length bytes), bytes), k')

  -- `read(buffer)` and `read(buffer, size)`, for a buffer of so many bytes.
  unfoldable read_full : File K → ℕ → M K ((Error × ℕ) × List ℕ)
  read_full self buffer_size = read_sized self buffer_size

  unfoldable pub read : File K → ℕ → ℕ → M K ((Error × ℕ) × List ℕ)
  unfolding read_sized
  read self buffer_size size = do assert (leb size buffer_size); read_sized self size

-- `writeNotifyCallback`: FileX calls it after a write. It is registered only where the callback is
-- set; an empty std::function throws.
unfoldable notify_write : {K : Type 0} → File K → M K (Unit {0})
notify_write self k = elim self.write_notify_callback [
  | some f ↦ returns (tt, f self.address k)
  | none ↦ aborts
]
