-- ===== src/Pool/Size.antt =====
-- memoryPool.hpp, `minimumPoolSize`: the sum that it computes, and that a pool of this size serves
-- allocations that it was computed for.
use threadx_cpp.Prelude.{
  ℕ, suc, ◌+◌, ◌-◌, ◌*◌, ◌%◌, ◌≤◌, ◌<◌, ◌≡◌, refl, sym, ap, ◌∙◌, List, [], ◌∷◌, map, sum, length,
  String, M, ◌>>=◌, bind-eq, pure, returns, arith, le→leb,
}
use native.Mathlib.Nat.{mod-eq_of_lt, mod-lt, mod-add-mod, add_assoc, add-zero}
use threadx_cpp.Common.{Platform, ulong_mod, is_success_of_zero, is_success-to_error}
use threadx_cpp.Ticks.{Duration, ticks}
use threadx_cpp.Pool.{
  BytePool, Allocation, construct_byte_pool, allocate_bytes, minimum_pool_size,
  minimum_pool_size_from,
}
use threadx_cpp.Pool.Native.{PoolApi, BytePoolLaws, split_off}

-- What the allocations take, each with its two pointers.
abbrev pub total_size : Platform → List ℕ → ℕ
total_size p ms = sum (map (λ m. m + 2 * p.pointer_size) ms)

minimum_pool_size_from-sum :
    (p : Platform) (acc : ℕ) (ms : List ℕ)
    → acc < ulong_mod p
    → minimum_pool_size_from p acc ms ≡ (acc + total_size p ms) % ulong_mod p
unfolding minimum_pool_size_from
minimum_pool_size_from-sum p acc [] h = rw add-zero (sym (mod-eq_of_lt h))
minimum_pool_size_from-sum p acc (m ∷ ms) h =
    let step = m + 2 * p.pointer_size in
    minimum_pool_size_from-sum p ((acc + step) % ulong_mod p) ms (mod-lt (acc + step) (omega arith))
    ∙ mod-add-mod (acc + step) (ulong_mod p) (total_size p ms)
    ∙ ap (λ t. t % ulong_mod p) (add_assoc acc step (total_size p ms))

-- The minimum is the room of all the allocations and the two pointers at the end, modulo the range
-- of Ulong.
pub minimum_pool_size-sum :
    (p : Platform) (ms : List ℕ)
    → 2 * p.pointer_size < ulong_mod p
    → minimum_pool_size p ms ≡ (2 * p.pointer_size + total_size p ms) % ulong_mod p
unfolding minimum_pool_size
minimum_pool_size-sum p ms h = minimum_pool_size_from-sum p (2 * p.pointer_size) ms h

-- Where it does not wrap, it is that sum.
pub minimum_pool_size_exact :
    (p : Platform) (ms : List ℕ)
    → 2 * p.pointer_size + total_size p ms < ulong_mod p
    → minimum_pool_size p ms ≡ 2 * p.pointer_size + total_size p ms
minimum_pool_size_exact p ms fits = minimum_pool_size-sum p ms (omega arith) ∙ mod-eq_of_lt fits

-- All sizes are multiples of n.
abbrev pub AllMultiples : ℕ → List ℕ → Type 0
AllMultiples n [] = Unit {0}
AllMultiples n (m ∷ ms) = (m % n ≡ 0) × AllMultiples n ms

-- No size is 0, and each with its two pointers is at least as large as the smallest block that
-- ThreadX splits off.
abbrev pub AllLarge : Platform → ℕ → List ℕ → Type 0
AllLarge p block_min [] = Unit {0}
AllLarge p block_min (m ∷ ms) =
    ((0 < m) × (block_min ≤ m + 2 * p.pointer_size)) × AllLarge p block_min ms

-- What is left for such allocations is split off.
pub split_off-total :
    (p : Platform) (block_min r : ℕ) (ms : List ℕ)
    → AllLarge p block_min ms
    → total_size p ms ≤ r
    → total_size p ms ≤ split_off block_min r
split_off-total p block_min r [] large fits = omega arith
split_off-total p block_min r (m ∷ ms) large fits =
    rw (le→leb block_min r (omega (arith, large.0.1))) fits

module _ {K : Type 0} (p : Platform) (api : PoolApi K) where
  -- An Allocation for each size, from the same pool.
  unfoldable pub allocate_all : BytePool → Duration → List ℕ → M K (List Allocation)
  allocate_all pool wait [] = pure []
  allocate_all pool wait (m ∷ ms) = do
    a ← allocate_bytes p api pool m wait
    rest ← allocate_all pool wait ms
    pure (a ∷ rest)

module _ {K : Type 0} (p : Platform) (api : PoolApi K)
    (laws : BytePoolLaws p.pointer_size api) where
  open laws use {room, block_min, create_done, allocate_done}

  pub construct_byte_pool_room :
      (pool : BytePool) (name : String) (k k1 : K)
      → pool.size % p.pointer_size ≡ 0
      → construct_byte_pool p api pool name k ≡ returns (tt, k1)
      → room k1 pool.address ≡ pool.size - 2 * p.pointer_size
  unfolding construct_byte_pool
  construct_byte_pool_room pool name k k1 aligned made = ground (
    arith,
    is_success-to_error (api.byte_create pool.address name pool.size k).0,
    create_done pool.address name pool.size k aligned,
  )

  pub allocate_bytes_fits :
      (pool : BytePool) (wait : Duration) (m : ℕ) (k : K)
      → m % p.pointer_size ≡ 0
      → 0 < m
      → m + 2 * p.pointer_size ≤ room k pool.address
      → (a : Allocation) × (k' : K) × (allocate_bytes p api pool m wait k ≡ returns (a, k'))
        × (room k' pool.address
            ≡ split_off block_min (room k pool.address - (m + 2 * p.pointer_size)))
  unfolding allocate_bytes
  allocate_bytes_fits pool wait m k whole pos fits =
      let (code, left) = allocate_done pool.address m (ticks p wait) k whole pos fits in
      let service = api.byte_allocate pool.address m (ticks p wait) k in
      (record { memory_ptr = service.1 }, service.2, rw (is_success_of_zero service.0 code), left)

  allocate_all_fits :
      (pool : BytePool) (wait : Duration) (ms : List ℕ) (k : K)
      → AllMultiples p.pointer_size ms
      → AllLarge p block_min ms
      → total_size p ms ≤ room k pool.address
      → (blocks : List Allocation) × (k' : K) × (allocate_all p api pool wait ms k
          ≡ returns (blocks, k'))
        × (length blocks ≡ length ms)
  unfolding allocate_all
  allocate_all_fits pool wait [] k whole large fits = ([], k, refl, refl)
  allocate_all_fits pool wait (m ∷ ms) k whole large fits =
      let (a, k1, first, left) =
        allocate_bytes_fits pool wait m k whole.0 large.0.0 (omega arith) in
      let r = room k pool.address - (m + 2 * p.pointer_size) in
      let enough = split_off-total p block_min r ms large.1 (omega arith) in
      let (rest, k', others, same) =
        allocate_all_fits pool wait ms k1 whole.1 large.1 (rw left enough) in
      (
        a ∷ rest,
        k',
        bind-eq (allocate_bytes p api pool m wait) _ k first
            ∙ bind-eq (allocate_all p api pool wait ms) _ k1 others,
        ap suc same,
      )

  -- A byte pool of whole pointers' sizes, of at least the minimum size for some allocations, which
  -- are of whole pointers' sizes too, large enough for ThreadX to split off, and in all less than
  -- Ulong holds, serves them all: once it is constructed, none of them fails.
  pub minimum_pool_size_suffices :
      (pool : BytePool) (name : String) (wait : Duration) (ms : List ℕ) (k k1 : K)
      → AllMultiples p.pointer_size ms
      → AllLarge p block_min ms
      → 2 * p.pointer_size + total_size p ms < ulong_mod p
      → pool.size % p.pointer_size ≡ 0
      → minimum_pool_size p ms ≤ pool.size
      → construct_byte_pool p api pool name k ≡ returns (tt, k1)
      → (blocks : List Allocation) × (k' : K) × (allocate_all p api pool wait ms k1
          ≡ returns (blocks, k'))
        × (length blocks ≡ length ms)
  minimum_pool_size_suffices pool name wait ms k k1 whole large fits aligned size made =
      allocate_all_fits pool wait ms k1 whole large (
        omega (
          arith,
          minimum_pool_size_exact p ms fits,
          construct_byte_pool_room pool name k k1 aligned made,
        ))
