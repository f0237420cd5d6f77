-- ===== src/Thread/Life/Destruct.antt =====
-- thread.hpp, memoryPool.hpp: the destructor of a thread whose stack is a block.
use threadx_cpp.Prelude.{
  ℕ, suc, ◌-◌, ◌≤◌, ◌≡◌, refl, sym, ap, ◌∙◌, true, false, none, some, List, bind-eq, returns,
  update, length, arith, update_self, update_twice, fun_ext, subst,
}
use threadx_cpp.Common.{Platform, IsSupported, is_success_of_zero}
use threadx_cpp.Kernel.Native.{KernelApi}
use threadx_cpp.Pool.{BlockPool, release_block}
use threadx_cpp.Pool.Native.{PoolApi}
use threadx_cpp.Thread.{Thread, destruct, destruct_in_block_pool}
use threadx_cpp.Thread.Native.{ThreadApi, NativeThread, View, LifeLaws, IsUnused}
use threadx_cpp.Thread.Life.{find, removed, threads, blocks, world, Separate}
use threadx_cpp.Thread.Life.Objects.{find_lem, removed_lem, blocks-IsUnused, stack, native}

module _ {K Posture : Type 0} (p : Platform) (supported : IsSupported p)
    (kernel : KernelApi K Posture) (pools : PoolApi K) (api : ThreadApi K) (pool : BlockPool)
    (laws : LifeLaws pool.address pool.block_size pools api) where
  open laws use {
    view, minimum_stack, max_priorities, block_size_lem, allocate_done, allocate_refused,
    release_done, create_done, create_bad_priority, create_bad_threshold, entry_exit_notify_done,
    terminate_done, delete_done,
  }

  destruct_done :
      (t : Thread K) (k : K)
      → (view k).thread t.address ≡ some (native t)
      → (k' : K) × (destruct p kernel pools api t k ≡ returns (tt, k'))
        × (view k' ≡ record (view k) { thread = update (view k).thread t.address none })
  unfolding destruct
  destruct_done t k exists =
      let a = t.address in
      let (stopped, finished) = terminate_done a (native t) k exists in
      let ended : NativeThread = record (native t) { is_finished = true } in
      let k1 = (api.terminate a k).1 in
      let (gone, after) =
        delete_done a ended k1
          (ap (λ (v : View). v.thread a) finished ∙ update_self (view k).thread a (some ended))
          refl in
      (
        (api.delete a k1).1,
        rw (is_success_of_zero _ stopped) (rw (is_success_of_zero _ gone) refl),
        after
            ∙ ap (λ (v : View). record v { thread = update v.thread a none }) finished
            ∙ ap (λ f. record (view k) { thread = f })
                (update_twice (view k).thread a (some ended) none),
      )

  pub destruct_in_block_pool_done :
      (total : ℕ) (a : ℕ) (t : Thread K) (live : List (Thread K)) (k : K)
      → view k ≡ world total live
      → Separate live
      → length live ≤ total
      → find a live ≡ some t
      → (k' : K) × (destruct_in_block_pool p kernel pools api t k ≡ returns (tt, k'))
        × (view k' ≡ world total (removed a live))
  unfolding destruct_in_block_pool release_block
  destruct_in_block_pool_done total a t live k e v bound found =
      let (at_a, _, exists, given, counted, _) = find_lem a t live found in
      let (k1, destroyed, after) =
        destruct_done t k
          (ap (λ (u : View). u.thread t.address) e ∙ ap (threads live) at_a ∙ exists) in
      let rest : View = record (world total live) { thread = threads (removed a live) } in
      let without : view k1 ≡ rest =
        after
        ∙ ap (λ (u : View). record u { thread = update u.thread t.address none }) e
        ∙ ap (λ n. record (world total live) { thread = update (threads live) n none }) at_a
        ∙ ap (λ f. record (world total live) { thread = f })
            (fun_ext (λ j. (removed_lem a j t live v found).0)) in
      let ungiven : update (blocks live) (stack t) false ≡ blocks (removed a live) =
        fun_ext (λ j. (removed_lem a j t live v found).1) in
      let (code, released) =
        release_done (stack t) k1 (ap (λ (u : View). u.given (stack t)) without ∙ given) (
          subst (λ (u : View). IsUnused u.thread (stack t)) (sym without)
            (blocks-IsUnused (removed a live) (stack t)
              (sym (ap (λ f. f (stack t)) ungiven) ∙ update_self (blocks live) (stack t) false))) in
      (
        (pools.block_release (stack t) k1).1,
        bind-eq (destruct p kernel pools api t) _ k destroyed
            ∙ (rw (is_success_of_zero _ code) refl),
        released
            ∙ ap
                (λ (u : View). record u {
                  free = suc u.free;
                  given = update u.given (stack t) false;
                })
                without
            ∙ ap (λ f. record rest { free = suc (total - length live); given = f }) ungiven
            ∙ ap (λ n. record (world total (removed a live)) { free = n }) (omega (arith, counted)),
      )
