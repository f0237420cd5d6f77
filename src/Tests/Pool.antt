-- ===== src/Tests/Pool.antt =====
-- memoryPool.hpp: the size of a pool for three allocations, and a pool that is too small for two.
use threadx_cpp.Prelude.{ℕ, ◌≡◌, refl, List, [], ◌∷◌}
use threadx_cpp.Pool.{BytePool, minimum_pool_size}
use threadx_cpp.Tests.Platforms.{target}
use threadx_cpp.Tests.Startup

abbrev sizes : List ℕ
sizes = 16 ∷ 100 ∷ 4 ∷ []

minimum_pool_size_runs : minimum_pool_size target sizes ≡ 152
unfolding minimum_pool_size
minimum_pool_size_runs = refl

-- A pool of 1056 bytes, the minimum for 1024 bytes and 8.
abbrev exact : BytePool
exact = record { address = 0x1000; size = 1056 }
