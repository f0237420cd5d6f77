-- ===== src/Pool.antt =====
-- memoryPool.hpp: the classes BytePool, BlockPool and Allocation, and `minimumPoolSize`. The
-- objects do not change after their construction; the kernel is the state.
pub mod Native
pub mod Size
pub mod Small
use threadx_cpp.Prelude.{
  ℕ, ◌+◌, ◌*◌, ◌%◌, ◌≡◌, List, [], ◌∷◌, String, M, ◌>>=◌, ◌>>◌, pure, assert, returns,
}
use threadx_cpp.Common.{Platform, ulong_mod, Error, call, to_error, is_success}
use threadx_cpp.Ticks.{Duration, ticks}
use Native.{PoolApi}

-- `BytePool<Size>`, whose storage is part of the object.
pub record BytePool : Type 0 where
  pub address : ℕ
  pub size : ℕ

-- The static_assert of BytePool.
pub record IsBytePool (p : Platform) (pool : BytePool) : Type 0 where
  pub whole_words : pool.size % p.word_size ≡ 0

-- `BlockPool<Size, BlockSize>`.
pub record BlockPool : Type 0 where
  pub address : ℕ
  pub size : ℕ
  pub block_size : ℕ

-- The static_asserts of BlockPool.
pub record IsBlockPool (p : Platform) (pool : BlockPool) : Type 0 where
  pub whole_words : pool.size % p.word_size ≡ 0
  pub whole_blocks : pool.size % (pool.block_size + p.pointer_size) ≡ 0

pub record Allocation : Type 0 where
  pub memory_ptr : ℕ

module _ {K : Type 0} (p : Platform) (api : PoolApi K) where
  -- Error{service}, with the pointer that the service has stored.
  abbrev allocated : (K → ℕ × ℕ × K) → M K (Error × ℕ)
  allocated service k = let (code, ptr, k') = service k in returns ((to_error code, ptr), k')

  unfoldable pub construct_byte_pool : BytePool → String → M K (Unit {0})
  construct_byte_pool pool name = do
    error ← call (api.byte_create pool.address name pool.size)
    assert (is_success error)

  unfoldable pub destruct_byte_pool : BytePool → M K (Unit {0})
  destruct_byte_pool pool = do
    error ← call (api.byte_delete pool.address)
    assert (is_success error)

  unfoldable prioritise_byte_pool : BytePool → M K Error
  prioritise_byte_pool pool = call (api.byte_prioritize pool.address)

  unfoldable byte_pool_name : BytePool → K → String
  byte_pool_name pool = api.byte_name pool.address

  unfoldable pub construct_block_pool : BlockPool → String → M K (Unit {0})
  construct_block_pool pool name = do
    error ← call (api.block_create pool.address name pool.block_size pool.size)
    assert (is_success error)

  unfoldable pub destruct_block_pool : BlockPool → M K (Unit {0})
  destruct_block_pool pool = do
    error ← call (api.block_delete pool.address)
    assert (is_success error)

  -- `blockSize()` reads the control block.
  unfoldable pub block_size : BlockPool → K → ℕ
  block_size pool = api.block_size pool.address

  unfoldable prioritise_block_pool : BlockPool → M K Error
  prioritise_block_pool pool = call (api.block_prioritize pool.address)

  unfoldable block_pool_name : BlockPool → K → String
  block_pool_name pool = api.block_name pool.address

  -- The constructors of Allocation; the wait is TickTimer::noWait by default.
  unfoldable pub allocate_bytes : BytePool → ℕ → Duration → M K Allocation
  allocate_bytes pool memory_size duration = do
    (error, ptr) ← allocated (api.byte_allocate pool.address memory_size (ticks p duration))
    assert (is_success error)
    pure (record { memory_ptr = ptr })

  unfoldable pub allocate_block : BlockPool → Duration → M K Allocation
  allocate_block pool duration = do
    (error, ptr) ← allocated (api.block_allocate pool.address (ticks p duration))
    assert (is_success error)
    pure (record { memory_ptr = ptr })

  unfoldable get : Allocation → ℕ
  get allocation = allocation.memory_ptr

  -- The destructors of Allocation.
  unfoldable pub release_bytes : Allocation → M K (Unit {0})
  release_bytes allocation = do
    error ← call (api.byte_release allocation.memory_ptr)
    assert (is_success error)

  unfoldable pub release_block : Allocation → M K (Unit {0})
  release_block allocation = do
    error ← call (api.block_release allocation.memory_ptr)
    assert (is_success error)

-- The loop of `minimumPoolSize`.
minimum_pool_size_from : Platform → ℕ → List ℕ → ℕ
minimum_pool_size_from p pool_size [] = pool_size
minimum_pool_size_from p pool_size (m ∷ ms) =
    minimum_pool_size_from p ((pool_size + (m + 2 * p.pointer_size)) % ulong_mod p) ms

unfoldable pub minimum_pool_size : Platform → List ℕ → ℕ
unfolding minimum_pool_size_from
minimum_pool_size p memory_sizes = minimum_pool_size_from p (2 * p.pointer_size) memory_sizes
