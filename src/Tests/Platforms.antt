-- ===== src/Tests/Platforms.antt =====
-- A 32-bit target with a thousand ticks a second.
use threadx_cpp.Prelude.{arith}
use threadx_cpp.Common.{Platform, IsSupported}

abbrev pub target : Platform
target = record { word_size = 4; pointer_size = 4; size_t_size = 4; ticks_per_second = 1000 }

pub target-IsSupported : IsSupported target
target-IsSupported = omega arith
