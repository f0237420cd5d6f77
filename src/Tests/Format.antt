-- ===== src/Tests/Format.antt =====
-- norFlash.hpp and media.hpp: a media on a flash of 32 blocks of 8 sectors.
use threadx_cpp.Prelude.{ℕ, ◌+◌, ◌*◌, ◌≤◌, ◌≡◌, ◌↔◌, refl, arith}
use threadx_cpp.FileX.{call}
use threadx_cpp.Nor.{usable_sectors_per_block}
use threadx_cpp.Nor.Format.{format_flash, request, format_flash_lem}
use threadx_cpp.Tests.Platforms.{target}
use threadx_cpp.Tests.Nor
use threadx_cpp.Tests.Media

format_flash_lem_example :
    (sectors : ℕ) × (format_flash target Nor.api Media.api Nor.large (Media.media 1) "disk" 1 32 0
      ≡ call (request target Nor.api Media.api (Media.media 1) "disk" sectors 1 32) 0)
    × (sectors + 8 ≡ 32 * 8)
    × ((sectors ≤ 32 * usable_sectors_per_block 8) ↔ (32 ≤ 8))
format_flash_lem_example =
    format_flash_lem target Nor.api Media.api Nor.large (Media.media 1) "disk" 32 1 32 0
      (omega arith) refl (omega arith) (omega arith) (omega arith) refl (omega arith)
