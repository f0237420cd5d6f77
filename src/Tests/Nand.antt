-- ===== src/Tests/Nand.antt =====
-- nandFlash.hpp: a page of 2112 bytes.
use threadx_cpp.Prelude.{ℕ, suc, ◌+◌, ◌%◌, ◌^◌, ◌≤◌, ◌<◌, ◌≡◌, ◌⊎◌, ◌↔◌, refl, some, arith}
use threadx_cpp.Nand.{page_data_and_spare_sizes, page_data_size_from}
use threadx_cpp.Nand.Sectors.{page_split}
use threadx_cpp.Nand.Page.{page_data_and_spare_sizes-power}

page_sizes_run : page_data_and_spare_sizes 2112 ≡ some (2048, 64)
unfolding page_data_and_spare_sizes page_data_size_from
page_sizes_run = refl

page_data_and_spare_sizes-power_example :
    (d : ℕ) × (page_data_and_spare_sizes 2112 ≡ some (2 ^ d, 2112 % 2 ^ d))
    × (d ≤ 12)
    × (2 ^ d ≤ 2112)
    × ((2112 < 2 ^ suc d) ⊎ (d ≡ 12))
page_data_and_spare_sizes-power_example = page_data_and_spare_sizes-power 2112 (omega arith)

page_split_example :
    (size : ℕ) × (spare : ℕ) × (page_data_and_spare_sizes 2112 ≡ some (size, spare))
    × (spare < size)
    × ((size + spare ≡ 2112) ↔ (2112 < 8192))
page_split_example = page_split 2112 (omega arith)
