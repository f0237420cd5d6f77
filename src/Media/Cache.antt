-- ===== src/Media/Cache.antt =====
-- media.hpp: the sizes of the buffers of Media.
use threadx_cpp.Prelude.{ℕ, ◌*◌, ◌%◌, ◌≤◌, ◌≡◌, ◌⊎◌, ◌↔◌, arith}
use threadx_cpp.Common.{Platform}
use threadx_cpp.FileX.{
  MediaSectorSize, half_a_kilobyte, one_kilo_byte, two_kilo_bytes, four_kilobytes, sector_bytes,
}
use threadx_cpp.Media.{Media, cache_size, media_memory_size}

-- A word of 4 or 8 bytes.
abbrev pub IsWordSize : ℕ → Type 0
IsWordSize n = (n ≡ 4) ⊎ (n ≡ 8)

-- The media buffer is one sector, and the fault tolerant cache, with the log file of 3072 bytes of
-- FileX, is a whole number of sectors and holds the log file.
buffers_whole_sectors :
    (p : Platform) (n : MediaSectorSize)
    → IsWordSize p.word_size
    → (media_memory_size p n ≡ sector_bytes n)
      × (cache_size p 3072 n * p.word_size % sector_bytes n ≡ 0)
      × (3072 ≤ cache_size p 3072 n * p.word_size)
unfolding cache_size media_memory_size
buffers_whole_sectors p half_a_kilobyte w = ground arith
buffers_whole_sectors p _ w = ground arith

-- For that cache `open` gives FileX the size of the log file instead: it is the size of the cache,
-- and a whole number of sectors, exactly for sectors of at most a kilobyte.
pub log_file_whole_sectors_iff :
    (p : Platform) (n : MediaSectorSize)
    → IsWordSize p.word_size
    → ((3072 ≡ cache_size p 3072 n * p.word_size) ↔ (sector_bytes n ≤ sector_bytes one_kilo_byte))
      × ((3072 % sector_bytes n ≡ 0) ↔ (3072 ≡ cache_size p 3072 n * p.word_size))
unfolding cache_size
log_file_whole_sectors_iff p half_a_kilobyte w =
    ((λ h. omega arith, λ h. ground arith), (λ h. ground arith, λ h. omega arith))
log_file_whole_sectors_iff p one_kilo_byte w =
    ((λ h. omega arith, λ h. ground arith), (λ h. ground arith, λ h. omega arith))
log_file_whole_sectors_iff p two_kilo_bytes w =
    ((λ h. ground arith, λ h. omega arith), (λ h. omega arith, λ h. ground arith))
log_file_whole_sectors_iff p four_kilobytes w =
    ((λ h. ground arith, λ h. omega arith), (λ h. omega arith, λ h. ground arith))
