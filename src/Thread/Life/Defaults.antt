-- ===== src/Thread/Life/Defaults.antt =====
-- thread.hpp: the default of the preemption threshold.
use threadx_cpp.Prelude.{ℕ, ◌≤◌, ◌<◌, ◌≡◌, List, ◌∷◌, none, String, returns, aborts, length, inr}
use threadx_cpp.Common.{Platform, IsSupported}
use threadx_cpp.Kernel.Native.{KernelApi}
use threadx_cpp.Pool.{BlockPool}
use threadx_cpp.Pool.Native.{PoolApi}
use threadx_cpp.Thread.{
  Thread, NotifyCallback, auto_start, default_priority, no_time_slice, construct_with_priority,
}
use threadx_cpp.Thread.Native.{ThreadApi, LifeLaws}
use threadx_cpp.Thread.Life.{Request, threads, world, Separate}
use threadx_cpp.Thread.Life.Construct.{construct_done, construct_refused}

module _ {K Posture : Type 0} (p : Platform) (supported : IsSupported p)
    (kernel : KernelApi K Posture) (pools : PoolApi K) (api : ThreadApi K) (pool : BlockPool)
    (laws : LifeLaws pool.address pool.block_size pools api) where
  open laws use {view, minimum_stack, max_priorities}

  -- The constructor in a block pool that is given a priority of ThreadX and leaves the preemption
  -- threshold to its default, with a free block that is large enough for a stack: it makes the
  -- thread if the priority is 16 or more, and aborts if it is less, and so more urgent.
  pub construct_with_priority_cases :
      (total : ℕ) (live : List (Thread K)) (at priority : ℕ) (named : String)
      (callback : NotifyCallback K) (k : K)
      → view k ≡ world total live
      → Separate live
      → threads live at ≡ none
      → minimum_stack ≤ pool.block_size
      → length live < total
      → priority < max_priorities
      → let made = construct_with_priority p kernel pools api at named pool callback priority k in
        (16 ≤ priority
          → (t : Thread K) × (k' : K) × (made ≡ returns (t, k'))
            × (view k' ≡ world total (t ∷ live)))
        × (priority < 16 → made ≡ aborts)
  unfolding construct_with_priority
  construct_with_priority_cases total live at priority named callback k e v absent large room low =
      let r : Request K = record {
        at = at;
        named = named;
        callback = callback;
        priority = priority;
        threshold = default_priority;
        slice = no_time_slice;
        start = auto_start;
      } in
      (
        λ above.
            let (t, k', made, _, after, _) =
              construct_done p supported kernel pools api pool laws total r live k e v absent large
                room (low, above) in
            (t, k', made, after),
        λ below.
            construct_refused p supported kernel pools api pool laws total r live k e absent large
              (inr (inr below)),
      )
