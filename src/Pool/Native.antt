-- ===== src/Pool/Native.antt =====
-- The byte and block pools of ThreadX that memoryPool.hpp calls: parameters of the model.
-- `BytePoolLaws` states how ThreadX accounts for the room in a byte pool.
use threadx_cpp.Prelude.{ℕ, ◌+◌, ◌-◌, ◌*◌, ◌%◌, ◌≤◌, ◌<◌, ◌≡◌, ◌≢◌, String, leb, if◌then◌else◌}

-- The services, over the state K of the kernel. A pool is named by the address of its control
-- block. An allocation gives its code, what it has stored in the pointer, and the new state.
pub record PoolApi (K : Type 0) : Type 0 where
  pub byte_create : ℕ → String → ℕ → K → ℕ × K
  pub byte_delete : ℕ → K → ℕ × K
  pub byte_prioritize : ℕ → K → ℕ × K
  pub byte_allocate : ℕ → ℕ → ℕ → K → ℕ × ℕ × K
  pub byte_release : ℕ → K → ℕ × K
  pub byte_name : ℕ → K → String
  pub block_create : ℕ → String → ℕ → ℕ → K → ℕ × K
  pub block_delete : ℕ → K → ℕ × K
  pub block_prioritize : ℕ → K → ℕ × K
  pub block_allocate : ℕ → ℕ → K → ℕ × ℕ × K
  pub block_release : ℕ → K → ℕ × K
  pub block_size : ℕ → K → ℕ
  pub block_name : ℕ → K → String

-- What ThreadX leaves of a block of r bytes beyond an allocation in it: a rest of less than
-- TX_BYTE_BLOCK_MIN bytes is not split off, and goes with the allocation.
abbrev pub split_off : ℕ → ℕ → ℕ
split_off block_min r = if leb block_min r then r else 0

-- A new byte pool of whole pointers' sizes has the room of its size but for the two pointers at its
-- end. As long as nothing has been released, an allocation of whole pointers' sizes, of one at
-- least, takes its size and two pointers more from that room, and what is not split off, without
-- waiting, and succeeds if the room is there; one that does not wait fails if it is not.
pub record BytePoolLaws {K : Type 0} (pointer_size : ℕ) (api : PoolApi K) : Type 0 where
  pub room : K → ℕ → ℕ
  pub block_min : ℕ
  pub create_done :
      (a : ℕ) (n : String) (s : ℕ) (k : K)
      → s % pointer_size ≡ 0
      → (api.byte_create a n s k).0 ≡ 0
      → room (api.byte_create a n s k).1 a ≡ s - 2 * pointer_size
  pub allocate_done :
      (a m w : ℕ) (k : K)
      → m % pointer_size ≡ 0
      → 0 < m
      → m + 2 * pointer_size ≤ room k a
      → ((api.byte_allocate a m w k).0 ≡ 0)
        × (room (api.byte_allocate a m w k).2 a
            ≡ split_off block_min (room k a - (m + 2 * pointer_size)))
  pub allocate_refused :
      (a m : ℕ) (k : K) → room k a < m + 2 * pointer_size → (api.byte_allocate a m 0 k).0 ≢ 0
