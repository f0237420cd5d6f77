-- ===== src/File/Native.antt =====
-- The file services of FileX that file.hpp and file.cpp call: parameters of the model. `FileLaws`
-- states what the FileX manual says of files.
use threadx_cpp.Prelude.{ℕ, ◌+◌, ◌≤◌, ◌<◌, ◌≡◌, String, List, ◌++◌, length, take, drop, Bool, true}
use threadx_cpp.FileX.{Values, success}

pub data OpenOption : Type 0 where
  read write fast_read : OpenOption

pub data SeekFrom : Type 0 where
  begin end forward back : SeekFrom

-- The services over the state K of FileX, the values of its macros, and those of the options. A
-- file is named by the address of its control block. The best effort allocation gives its code, the
-- size allocated, and the new state; a read the bytes that it has put into the buffer, whose number
-- is the actual size.
pub record FileApi (K : Type 0) : Type 0 where
  pub values : Values
  pub open_code : OpenOption → ℕ
  pub seek_code : SeekFrom → ℕ
  pub file_open : ℕ → ℕ → String → ℕ → K → ℕ × K
  pub write_notify_set : ℕ → K → ℕ × K
  pub close : ℕ → K → ℕ × K
  pub extended_allocate : ℕ → ℕ → K → ℕ × K
  pub best_effort_allocate : ℕ → ℕ → K → ℕ × ℕ × K
  pub extended_truncate : ℕ → ℕ → K → ℕ × K
  pub extended_truncate_release : ℕ → ℕ → K → ℕ × K
  pub extended_seek : ℕ → ℕ → K → ℕ × K
  pub extended_relative_seek : ℕ → ℕ → ℕ → K → ℕ × K
  pub write : ℕ → List ℕ → K → ℕ × K
  pub read : ℕ → ℕ → K → ℕ × List ℕ × K

-- What FileX keeps of a file: whether it is open, and for writing, its bytes, the position, and how
-- many more bytes the media and the largest size of a file have room for.
pub record NativeFile : Type 0 where
  pub is_open : Bool
  pub is_writable : Bool
  pub bytes : List ℕ
  pub position : ℕ
  pub room : ℕ

-- The bytes of a file into which data are written at a position.
abbrev pub overwritten : ℕ → List ℕ → List ℕ → List ℕ
overwritten p ds bytes = take p bytes ++ (ds ++ drop (p + length ds) bytes)

-- On a media that is open and not write-protected, whose driver reports no error: a file that is
-- opened for writing is open, and can be written; on an open file a seek to a place within it goes
-- there; data for which there is room are written at the position into a file that can be written;
-- and a read of some bytes, all of which are there, gives them.
pub record FileLaws {K : Type 0} (api : FileApi K) : Type 0 where
  pub view : K → ℕ → NativeFile
  pub open_done :
      (media a : ℕ) (name : String) (k : K)
      → (api.file_open media a name (api.open_code write) k).0 ≡ api.values success
      → ((view (api.file_open media a name (api.open_code write) k).1 a).is_open ≡ true)
        × ((view (api.file_open media a name (api.open_code write) k).1 a).is_writable ≡ true)
  pub notify_kept : (a b : ℕ) (k : K) → view (api.write_notify_set a k).1 b ≡ view k b
  pub seek_done :
      (a p : ℕ) (k : K)
      → (view k a).is_open ≡ true
      → p ≤ length (view k a).bytes
      → ((api.extended_seek a p k).0 ≡ api.values success)
        × (view (api.extended_seek a p k).1 a ≡ record (view k a) { position = p })
  pub write_done :
      (a : ℕ) (ds : List ℕ) (k : K)
      → (view k a).is_open ≡ true
      → (view k a).is_writable ≡ true
      → length ds ≤ (view k a).room
      → ((api.write a ds k).0 ≡ api.values success)
        × ((view (api.write a ds k).1 a).is_open ≡ true)
        × ((view (api.write a ds k).1 a).bytes
            ≡ overwritten (view k a).position ds (view k a).bytes)
  pub read_done :
      (a n : ℕ) (k : K)
      → (view k a).is_open ≡ true
      → 0 < n
      → (view k a).position + n ≤ length (view k a).bytes
      → ((api.read a n k).0 ≡ api.values success)
        × ((api.read a n k).1 ≡ take n (drop (view k a).position (view k a).bytes))
