-- ===== src/Tests/File.antt =====
-- file.cpp: a FileX with one file, which has room for eight bytes.
use threadx_cpp.Prelude.{
  ◌+◌, ◌≡◌, refl, none, ℕ, true, false, ◌&&◌, ◌==◌, [], ◌∷◌, length, take, drop, returns, arith,
  leb, le→leb, if◌then◌else◌,
}
use threadx_cpp.FileX.{Values, success, named}
use threadx_cpp.File.{File, construct, seek, write, read}
use threadx_cpp.File.Native
use threadx_cpp.File.Native.{FileApi, OpenOption, FileLaws, NativeFile, overwritten}
use threadx_cpp.File.RoundTrip.{write-read}

abbrev values : Values
values success = 0
values _ = 1

abbrev open_code : OpenOption → ℕ
open_code Native.write = 1
open_code _ = 0

abbrev api : FileApi NativeFile
api = record {
  values = values;
  open_code = open_code;
  seek_code = λ s. 0;
  file_open = λ m a n o k. (0, record k { is_open = true; is_writable = o == 1; position = 0 });
  write_notify_set = λ a k. (0, k);
  close = λ a k. (0, k);
  extended_allocate = λ a s k. (0, k);
  best_effort_allocate = λ a s k. (0, s, k);
  extended_truncate = λ a s k. (0, k);
  extended_truncate_release = λ a s k. (0, k);
  extended_seek =
      λ a p k. if leb p (length k.bytes) then (0, record k { position = p }) else (1, k);
  extended_relative_seek = λ a o f k. (0, k);
  write = λ a ds k.
      if k.is_writable && leb (length ds) k.room
      then (
        0,
        record k { bytes = overwritten k.position ds k.bytes; position = k.position + length ds },
      )
      else (1, k);
  read = λ a n k. (0, take n (drop k.position k.bytes), record k { position = k.position + n });
}

laws : FileLaws api
laws = record {
  view = λ k a. k;
  open_done = λ m a n k done. (refl, refl);
  notify_kept = λ a b k. refl;
  seek_done = λ a p k opened within. rw (le→leb p (length k.bytes) within) (refl, refl);
  write_done = λ a ds k opened writable fits.
      rw (writable, le→leb (length ds) k.room fits) (refl, opened, refl);
  read_done = λ a n k opened pos there. (refl, refl);
}

-- Three bytes, and what the constructor leaves.
abbrev three_bytes : NativeFile
three_bytes = record {
  is_open = false;
  is_writable = false;
  bytes = 1 ∷ 2 ∷ 3 ∷ [];
  position = 0;
  room = 8;
}

abbrev opened_file : NativeFile
opened_file = record three_bytes { is_open = true; is_writable = true }

abbrev file : File NativeFile
file = record { address = 0xc000; write_notify_callback = none }

-- Two bytes are written over the last one, and behind it.
write-read_example :
    (k1 : NativeFile) × (k2 : NativeFile) × (k3 : NativeFile) × (k4 : NativeFile) × (seek api file 2
        opened_file
      ≡ returns (named values success, k1))
    × (write api file (7 ∷ 8 ∷ []) k1 ≡ returns (named values success, k2))
    × (seek api file 2 k2 ≡ returns (named values success, k3))
    × (read api file 16 2 k3 ≡ returns (((named values success, 2), 7 ∷ 8 ∷ []), k4))
unfolding laws construct
write-read_example =
    write-read api laws 0xc000 "log" 0x5000 none 2 (7 ∷ 8 ∷ []) 16 three_bytes opened_file refl
      (omega arith) (omega arith) (omega arith) (omega arith)
