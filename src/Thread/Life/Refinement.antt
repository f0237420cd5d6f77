-- ===== src/Thread/Life/Refinement.antt =====
-- thread.hpp, memoryPool.hpp: the program of Life is the bounded set of the addresses of its
-- objects.
use threadx_cpp.Prelude.{
  ℕ, suc, ◌≤◌, ◌<◌, ◌≡◌, refl, sym, ap, true, false, ◌&&◌, Option, none, some, List, [], ◌∷◌, map,
  Outcome, pure, bind-eq, bind-aborts, returns, aborts, length, arith, ltb, leb, inl, inr, ◌⊎◌,
  lt→ltb, le→leb, ge→ltb, gt→leb, dec_lt, subst,
}
use threadx_cpp.Common.{Platform, IsSupported}
use threadx_cpp.Kernel.Native.{KernelApi}
use threadx_cpp.Pool.{BlockPool}
use threadx_cpp.Pool.Native.{PoolApi}
use threadx_cpp.Thread.{Thread, destruct_in_block_pool}
use threadx_cpp.Thread.Native.{ThreadApi, LifeLaws}
use threadx_cpp.Thread.Life.{
  Request, Op, emplace, reset_at, spec_step, spec_run, find, removed, world, Separate, constructor,
  emplace_at, destroy_at, step, run,
}
use threadx_cpp.Thread.Life.Objects.{address, find-contains, find_lem, removed-Separate}
use threadx_cpp.Thread.Life.Construct.{construct_done, construct_refused}
use threadx_cpp.Thread.Life.Destruct.{destruct_in_block_pool_done}

module _ {K : Type 0} where
  length-map-address : (live : List (Thread K)) → length (map address live) ≡ length live
  length-map-address [] = refl
  length-map-address (t ∷ ts) = ap suc (length-map-address ts)

module _ {K Posture : Type 0} (p : Platform) (supported : IsSupported p)
    (kernel : KernelApi K Posture) (pools : PoolApi K) (api : ThreadApi K) (pool : BlockPool)
    (laws : LifeLaws pool.address pool.block_size pools api) (total : ℕ) where
  open laws use {view, minimum_stack, max_priorities}

  -- The objects are the threads that exist, with a block of the pool each, and the other blocks are
  -- free.
  abbrev pub IsWorld : List (Thread K) → K → Type 0
  IsWorld live k = (view k ≡ world total live) × Separate live × (length live ≤ total)

  -- The program aborts where the set does, and has its addresses where it returns.
  abbrev pub Follows : Option (List ℕ) → Outcome (List (Thread K) × K) → Type 0
  Follows none aborts = Unit {0}
  Follows (some addresses) (returns (live, k)) = (map address live ≡ addresses) × IsWorld live k
  Follows none (returns _) = ⊥
  Follows (some _) aborts = ⊥

  room_cases :
      (r : Request K) (n : ℕ)
      → let b = ltb n total && (ltb r.priority max_priorities && leb r.threshold r.priority) in
        ((b ≡ true) × (n < total) × (r.priority < max_priorities) × (r.threshold ≤ r.priority))
        ⊎ ((b ≡ false)
            × ((total ≤ n) ⊎ ((max_priorities ≤ r.priority) ⊎ (r.priority < r.threshold))))
  room_cases r n = elim (dec_lt n total) [
    | no full ↦ inr (rw (ge→ltb n total (omega arith)) refl, inl (omega arith))
    | yes room ↦ elim (dec_lt r.priority max_priorities) [
      | no high ↦ inr (
        rw (lt→ltb n total room, ge→ltb r.priority max_priorities (omega arith)) refl,
        inr (inl (omega arith)),
      )
      | yes low ↦ elim (dec_lt r.priority r.threshold) [
        | yes above ↦ inr (
          rw
              (
                lt→ltb n total room,
                lt→ltb r.priority max_priorities low,
                gt→leb r.threshold r.priority above,
              )
              refl,
          inr (inr above),
        )
        | no within ↦ inl (
          rw
              (
                lt→ltb n total room,
                lt→ltb r.priority max_priorities low,
                le→leb r.threshold r.priority (omega arith),
              )
              refl,
          room,
          low,
          omega arith,
        )
      ]
    ]
  ]

  emplace_lem :
      (r : Request K) (live : List (Thread K)) (k : K) (found : Option (Thread K))
      → find r.at live ≡ found
      → minimum_stack ≤ pool.block_size
      → IsWorld live k
      → Follows
          (spec_step total max_priorities (emplace r) (map address live))
          (emplace_at p kernel pools api pool r live found k)
  unfolding emplace_at
  emplace_lem r live k (some t) e large w = rw ((find_lem r.at t live e).1) (refl, w)
  emplace_lem r live k none e large w =
      let (absent, free) = find-contains r.at live e in
      let extended = λ (t : Thread K). pure {S = K} (t ∷ live) in
      elim (room_cases r (length (map address live))) [
        | inl (b, room, low, within) ↦
            let (t, k', made, at, after, separate) =
              construct_done p supported kernel pools api pool laws total r live k w.0 w.1 free
                large (omega (arith, length-map-address live)) (low, within) in
            rw (absent, b, bind-eq (constructor p kernel pools api pool r) extended k made)
              (
                ap (λ a. a ∷ map address live) at,
                (after, separate, omega (arith, room, length-map-address live)),
              )
        | inr (b, cause) ↦
            let fails =
              construct_refused p supported kernel pools api pool laws total r live k w.0 free large
                (subst
                  (λ n. (total ≤ n) ⊎ ((max_priorities ≤ r.priority) ⊎ (r.priority < r.threshold)))
                  (length-map-address live) cause) in
            rw (absent, b, bind-aborts (constructor p kernel pools api pool r) extended k fails) tt
      ]

  destroy_lem :
      (a : ℕ) (live : List (Thread K)) (k : K) (found : Option (Thread K))
      → find a live ≡ found
      → IsWorld live k
      → Follows
          (spec_step {K = K} total max_priorities (reset_at a) (map address live))
          (destroy_at p kernel pools api pool a live found k)
  unfolding destroy_at
  destroy_lem a live k none e w = rw ((find-contains a live e).0) (refl, w)
  destroy_lem a live k (some t) e w =
      let (_, present, _, _, counted, without) = find_lem a t live e in
      let (k', done, after) =
        destruct_in_block_pool_done p supported kernel pools api pool laws total a t live k w.0 w.1
          w.2 e in
      rw
        (
          present,
          bind-eq (destruct_in_block_pool p kernel pools api t) (λ _. pure (removed a live)) k done,
        )
        (without, (after, removed-Separate a live w.1, omega (arith, counted, w.2)))

  step_lem :
      (o : Op K) (live : List (Thread K)) (k : K)
      → minimum_stack ≤ pool.block_size
      → IsWorld live k
      → Follows
          (spec_step total max_priorities o (map address live))
          (step p kernel pools api pool o live k)
  unfolding step
  step_lem (emplace r) live k large w = emplace_lem r live k (find r.at live) refl large w
  step_lem (reset_at a) live k large w = destroy_lem a live k (find a live) refl w

  -- A program that follows the set goes on so.
  elim_Follows :
      (set : Option (List ℕ)) (out : Outcome (List (Thread K) × K)) (os : List (Op K))
      → Follows set out
      → ((live : List (Thread K)) (k : K)
          → IsWorld live k
          → Follows
              (spec_run total max_priorities os (map address live))
              (run p kernel pools api pool os live k))
      → Follows
          (elim set [ some after ↦ spec_run total max_priorities os after | none ↦ none ])
          (elim out [ returns (live, k) ↦ run p kernel pools api pool os live k | aborts ↦ aborts ])
  elim_Follows none aborts os f rest = tt
  elim_Follows (some addresses) (returns (live, k)) os (same, w) rest =
      rw (sym same) (rest live k w)
  elim_Follows none (returns _) os f rest = absurd f
  elim_Follows (some _) aborts os f rest = absurd f

  -- A program constructs threads in a block pool and destroys them, in any order, while no other
  -- thread runs, the blocks being large enough for a stack. From a state in which its objects are
  -- the threads that exist, it aborts exactly where the bounded set of their addresses does: at a
  -- construction for which no block is free, or a priority or a threshold that ThreadX refuses. Where
  -- it returns, its objects are those of the set, and again the threads that exist, each with a block
  -- of its own for its stack; the other blocks are free.
  pub run-spec_run_of_threads :
      (os : List (Op K)) (live : List (Thread K)) (k : K)
      → minimum_stack ≤ pool.block_size
      → IsWorld live k
      → Follows
          (spec_run total max_priorities os (map address live))
          (run p kernel pools api pool os live k)
  unfolding run
  run-spec_run_of_threads [] live k large w = (refl, w)
  run-spec_run_of_threads (o ∷ os) live k large w =
      elim_Follows (spec_step total max_priorities o (map address live))
        (step p kernel pools api pool o live k) os (step_lem o live k large w)
        (λ after k'. run-spec_run_of_threads os after k' large)
