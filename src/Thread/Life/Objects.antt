-- ===== src/Thread/Life/Objects.antt =====
-- thread.hpp: the objects of Life, their blocks and their threads.
use threadx_cpp.Prelude.{
  ℕ, suc, ◌≡◌, refl, ap, true, false, none, some, List, [], ◌∷◌, map, update, ◌==◌, length, arith,
  ==→eq, Bool-cases, inl, inr,
}
use threadx_cpp.Thread.{Thread}
use threadx_cpp.Thread.Native.{NativeThread, IsUnused}
use threadx_cpp.Thread.Life.{contains, remove, find, removed, threads, blocks, Separate}

module _ {K : Type 0} where
  abbrev pub address : Thread K → ℕ
  address t = t.address

  abbrev pub stack : Thread K → ℕ
  stack t = t.stack_alloc.memory_ptr

  abbrev pub native : Thread K → NativeThread
  native t = record { stack_start = stack t; is_finished = false }

  pub find-contains :
      (a : ℕ) (live : List (Thread K))
      → find a live ≡ none
      → (contains a (map address live) ≡ false) × (threads live a ≡ none)
  find-contains a [] h = (refl, refl)
  find-contains a (t ∷ ts) h = ground (arith, find-contains a ts, ==→eq t.address a)

  -- An object that is found stands in the list with its thread and its block.
  pub find_lem :
      (a : ℕ) (t : Thread K) (live : List (Thread K))
      → find a live ≡ some t
      → (t.address ≡ a)
        × (contains a (map address live) ≡ true)
        × (threads live a ≡ some (native t))
        × (blocks live (stack t) ≡ true)
        × (length live ≡ suc (length (removed a live)))
        × (map address (removed a live) ≡ remove a (map address live))
  find_lem a t [] h = cc
  find_lem a t (u ∷ us) h = ground (arith, find_lem a t us, ==→eq u.address a)

  -- Every thread that exists has its stack in a block that is given out.
  threads-given :
      (live : List (Thread K)) (a : ℕ) (x : NativeThread)
      → threads live a ≡ some x
      → blocks live x.stack_start ≡ true
  threads-given [] a x h = cc
  threads-given (t ∷ ts) a x h = ground (arith, threads-given ts a x)

  pub blocks-IsUnused :
      (live : List (Thread K)) (b : ℕ) → blocks live b ≡ false → IsUnused (threads live) b
  blocks-IsUnused live b h a x e same =
      ground (arith, threads-given live a x e, ap (blocks live) same)

  -- What is free stays so when an object goes.
  removed-free :
      (a b c : ℕ) (live : List (Thread K))
      → (blocks live b ≡ false → blocks (removed a live) b ≡ false)
        × (threads live c ≡ none → threads (removed a live) c ≡ none)
  removed-free a b c [] = (λ h. h, λ h. h)
  removed-free a b c (t ∷ ts) = ground (arith, removed-free a b c ts)

  -- An object that goes takes its thread and its block with it, and no other.
  pub removed_lem :
      (a j : ℕ) (t : Thread K) (live : List (Thread K))
      → Separate live
      → find a live ≡ some t
      → (update (threads live) a none j ≡ threads (removed a live) j)
        × (update (blocks live) (stack t) false j ≡ blocks (removed a live) j)
  removed_lem a j t [] v h = cc
  removed_lem a j t (u ∷ us) v h =
      ground (arith, removed_lem a j t us v.2, find_lem a t us, ==→eq u.address a)

  pub removed-Separate :
      (a : ℕ) (live : List (Thread K)) → Separate live → Separate (removed a live)
  removed-Separate a [] v = v
  removed-Separate a (t ∷ ts) v = elim (Bool-cases (t.address == a)) [
    | inl e ↦ rw e v.2
    | inr e ↦
        let kept = removed-free a (stack t) t.address ts in
        rw e (kept.1 v.0, kept.0 v.1, removed-Separate a ts v.2)
  ]
