-- ===== src/Thread/Life.antt =====
-- thread.hpp: a program that constructs threads in one block pool and destroys them, in any order,
-- and the bounded set of addresses that it should be.
pub mod Objects
pub mod Construct
pub mod Destruct
pub mod Refinement
pub mod Defaults
use threadx_cpp.Prelude.{
  ℕ, ◌-◌, ◌≡◌, Bool, true, false, ◌&&◌, Option, none, some, List, [], ◌∷◌, String, M, ◌>>=◌, pure,
  update, ◌==◌, ltb, leb, length, if◌then◌else◌,
}
use threadx_cpp.Common.{Platform}
use threadx_cpp.Kernel.Native.{KernelApi}
use threadx_cpp.Pool.{BlockPool}
use threadx_cpp.Pool.Native.{PoolApi}
use threadx_cpp.Thread.{
  Thread, NotifyCallback, ThreadStartType, construct_in_block_pool, destruct_in_block_pool,
}
use threadx_cpp.Thread.Native.{ThreadApi, NativeThread, View}

-- What a constructor is given, with the address at which the object stands.
pub record Request (K : Type 0) : Type 0 where
  pub at : ℕ
  pub named : String
  pub callback : NotifyCallback K
  pub priority : ℕ
  pub threshold : ℕ
  pub slice : ℕ
  pub start : ThreadStartType

-- The object at an address is constructed if there is none, and destroyed if there is one.
pub data Op (K : Type 0) : Type 0 where
  emplace : Request K → Op K
  reset_at : ℕ → Op K

abbrev pub contains : ℕ → List ℕ → Bool
contains a [] = false
contains a (b ∷ bs) = if b == a then true else contains a bs

abbrev pub remove : ℕ → List ℕ → List ℕ
remove a [] = []
remove a (b ∷ bs) = if b == a then bs else b ∷ remove a bs

-- The set of addresses: `total` objects at most, of priorities below `priorities` and with
-- thresholds that are at most these; none where the program aborts.
abbrev pub spec_step : {K : Type 0} → ℕ → ℕ → Op K → List ℕ → Option (List ℕ)
spec_step total priorities (emplace r) live =
    if contains r.at live
    then some live
    else if ltb (length live) total && (ltb r.priority priorities && leb r.threshold r.priority)
    then some (r.at ∷ live)
    else none
spec_step total priorities (reset_at a) live =
    if contains a live then some (remove a live) else some live

abbrev pub spec_run : {K : Type 0} → ℕ → ℕ → List (Op K) → List ℕ → Option (List ℕ)
spec_run total priorities [] live = some live
spec_run total priorities (o ∷ os) live = elim (spec_step total priorities o live) [
  | some after ↦ spec_run total priorities os after
  | none ↦ none
]

module _ {K : Type 0} where
  abbrev pub find : ℕ → List (Thread K) → Option (Thread K)
  find a [] = none
  find a (t ∷ ts) = if t.address == a then some t else find a ts

  abbrev pub removed : ℕ → List (Thread K) → List (Thread K)
  removed a [] = []
  removed a (t ∷ ts) = if t.address == a then ts else t ∷ removed a ts

  -- The threads and the blocks that the objects stand for.
  abbrev pub threads : List (Thread K) → ℕ → Option NativeThread
  threads [] = λ a. none
  threads (t ∷ ts) =
      update (threads ts) t.address
        (some (record { stack_start = t.stack_alloc.memory_ptr; is_finished = false }))

  abbrev pub blocks : List (Thread K) → ℕ → Bool
  blocks [] = λ b. false
  blocks (t ∷ ts) = update (blocks ts) t.stack_alloc.memory_ptr true

  -- The kernel with these objects in a pool of `total` blocks.
  abbrev pub world : ℕ → List (Thread K) → View
  world total live = record {
    free = total - length live;
    given = blocks live;
    thread = threads live;
  }

  -- No two of the objects share an address or the block of their stack.
  abbrev pub Separate : List (Thread K) → Type 0
  Separate [] = Unit {0}
  Separate (t ∷ ts) =
      (threads ts t.address ≡ none) × (blocks ts t.stack_alloc.memory_ptr ≡ false) × Separate ts

module _ {K Posture : Type 0} (p : Platform) (kernel : KernelApi K Posture) (pools : PoolApi K)
    (api : ThreadApi K) (pool : BlockPool) where
  abbrev pub constructor : Request K → M K (Thread K)
  constructor r =
      construct_in_block_pool p kernel pools api r.at r.named pool r.callback r.priority r.threshold
        r.slice r.start

  unfoldable pub emplace_at :
      Request K → List (Thread K) → Option (Thread K) → M K (List (Thread K))
  emplace_at r live (some _) = pure live
  emplace_at r live none = do t ← constructor r; pure (t ∷ live)

  unfoldable pub destroy_at : ℕ → List (Thread K) → Option (Thread K) → M K (List (Thread K))
  destroy_at a live none = pure live
  destroy_at a live (some t) = do
    _ ← destruct_in_block_pool p kernel pools api t
    pure (removed a live)

  unfoldable pub step : Op K → List (Thread K) → M K (List (Thread K))
  unfolding emplace_at destroy_at
  step (emplace r) live = emplace_at r live (find r.at live)
  step (reset_at a) live = destroy_at a live (find a live)

  unfoldable pub run : List (Op K) → List (Thread K) → M K (List (Thread K))
  run [] live = pure live
  run (o ∷ os) live = do after ← step o live; run os after
