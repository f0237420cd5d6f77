-- ===== src/Thread/Life/Construct.antt =====
-- thread.hpp, memoryPool.hpp: the constructor of a thread in a block pool.
use threadx_cpp.Prelude.{
  ℕ, ◌-◌, ◌≤◌, ◌<◌, ◌≡◌, refl, sym, ap, ◌∙◌, true, false, none, some, List, ◌∷◌, String, bind-eq,
  returns, aborts, update, length, arith, update_self, bind-aborts, inl, inr, dec_lt, subst, ◌⊎◌,
}
use threadx_cpp.Common.{Platform, IsSupported, is_success_of_zero, is_success_of_code}
use threadx_cpp.Kernel.Native.{KernelApi}
use threadx_cpp.Pool.{BlockPool, Allocation, allocate_block, block_size}
use threadx_cpp.Pool.Native.{PoolApi}
use threadx_cpp.Ticks.{no_wait, ticks}
use threadx_cpp.Ticks.Deadline.{ticks_of_special_waits}
use threadx_cpp.Thread.{
  Thread, ThreadStartType, dont_start, auto_start, start_code, new_thread, init,
  construct_in_block_pool,
}
use threadx_cpp.Thread.Native.{ThreadApi, View, LifeLaws, IsUnused}
use threadx_cpp.Thread.Life.{threads, blocks, world, Separate, Request, constructor}
use threadx_cpp.Thread.Life.Objects.{blocks-IsUnused, stack, native}

pub start_code_bound : (start : ThreadStartType) → start_code start < 2
start_code_bound dont_start = omega arith
start_code_bound auto_start = omega arith

module _ {K Posture : Type 0} (p : Platform) (supported : IsSupported p)
    (kernel : KernelApi K Posture) (pools : PoolApi K) (api : ThreadApi K) (pool : BlockPool)
    (laws : LifeLaws pool.address pool.block_size pools api) where
  open laws use {
    view, minimum_stack, max_priorities, block_size_lem, allocate_done, allocate_refused,
    release_done, create_done, create_bad_priority, create_bad_threshold, entry_exit_notify_done,
    terminate_done, delete_done,
  }

  allocate_block_lem :
      (total : ℕ) (live : List (Thread K)) (k : K)
      → view k ≡ world total live
      → length live < total
      → (alloc : Allocation) × (k' : K) × (allocate_block p pools pool (no_wait p) k
          ≡ returns (alloc, k'))
        × (blocks live alloc.memory_ptr ≡ false)
        × (view k' ≡ record (world total live) {
          free = total - length live - 1;
          given = update (blocks live) alloc.memory_ptr true;
        })
  unfolding allocate_block
  allocate_block_lem total live k e room =
      let w = ticks p (no_wait p) in
      let (code, free, after) = allocate_done w k (omega (arith, ap (λ (v : View). v.free) e)) in
      let ptr = (pools.block_allocate pool.address w k).1 in
      (
        record { memory_ptr = ptr },
        (pools.block_allocate pool.address w k).2,
        rw (is_success_of_zero _ code) refl,
        sym (ap (λ (v : View). v.given ptr) e) ∙ free,
        after
            ∙ ap (λ (v : View). record v { free = v.free - 1; given = update v.given ptr true }) e,
      )

  allocate_block_refused :
      (total : ℕ) (live : List (Thread K)) (k : K)
      → view k ≡ world total live
      → total ≤ length live
      → allocate_block p pools pool (no_wait p) k ≡ aborts
  unfolding allocate_block
  allocate_block_refused total live k e full =
      let code = allocate_refused k (ap (λ (v : View). v.free) e ∙ omega arith) in
      rw (ticks_of_special_waits p supported).0 (rw (is_success_of_code _ 15 code) refl)

  init_done :
      (self : Thread K) (n : String) (s priority threshold slice : ℕ) (start : ThreadStartType)
      (k : K)
      → (view k).thread self.address ≡ none
      → (view k).given (stack self) ≡ true
      → IsUnused (view k).thread (stack self)
      → minimum_stack ≤ s
      → priority < max_priorities
      → threshold ≤ priority
      → (k' : K) × (init p kernel pools api self n s priority threshold slice start k
          ≡ returns (tt, k'))
        × (view k'
            ≡ record (view k) { thread = update (view k).thread self.address (some (native self)) })
  unfolding init
  init_done self n s priority threshold slice start k absent given unused large low within =
      let a = self.address in
      let service = api.create a n (stack self) s priority threshold slice (start_code start) k in
      let (code, after) =
        create_done a n (stack self) s priority threshold slice (start_code start) k absent given
          unused large low within (start_code_bound start) in
      let (noted, same) = entry_exit_notify_done a (native self) service.1 (
        ap (λ (v : View). v.thread a) after ∙ update_self (view k).thread a (some (native self))) in
      (
        (api.entry_exit_notify a service.1).1,
        rw (is_success_of_zero _ code) (rw (is_success_of_zero _ noted) refl),
        same ∙ after,
      )

  init_refused :
      (self : Thread K) (n : String) (s priority threshold slice : ℕ) (start : ThreadStartType)
      (k : K)
      → (view k).thread self.address ≡ none
      → minimum_stack ≤ s
      → (max_priorities ≤ priority) ⊎ (priority < threshold)
      → init p kernel pools api self n s priority threshold slice start k ≡ aborts
  unfolding init
  init_refused self n s priority threshold slice start k absent large high =
      elim (dec_lt priority max_priorities) [
        | yes low ↦
            let code =
              create_bad_threshold self.address n (stack self) s priority threshold slice
                (start_code start) k absent large low (omega arith) in
            rw (is_success_of_code _ 23 code) refl
        | no above ↦
            let code =
              create_bad_priority self.address n (stack self) s priority threshold slice
                (start_code start) k absent large (omega arith) in
            rw (is_success_of_code _ 14 code) refl
      ]

  -- What the constructor asks of ThreadX.
  abbrev pub IsAdmitted : Request K → Type 0
  IsAdmitted r = (r.priority < max_priorities) × (r.threshold ≤ r.priority)

  pub construct_done :
      (total : ℕ) (r : Request K) (live : List (Thread K)) (k : K)
      → view k ≡ world total live
      → Separate live
      → threads live r.at ≡ none
      → minimum_stack ≤ pool.block_size
      → length live < total
      → IsAdmitted r
      → (t : Thread K) × (k' : K) × (constructor p kernel pools api pool r k ≡ returns (t, k'))
        × (t.address ≡ r.at)
        × (view k' ≡ world total (t ∷ live))
        × Separate (t ∷ live)
  unfolding construct_in_block_pool block_size
  construct_done total r live k e v absent large room admitted =
      let (alloc, k1, allocated, free, taken) = allocate_block_lem total live k e room in
      let t : Thread K = new_thread p kernel pools api r.at alloc r.callback in
      let (k', created, after) =
        init_done t r.named (pools.block_size pool.address k1) r.priority r.threshold r.slice
          r.start k1 (ap (λ (v : View). v.thread r.at) taken ∙ absent)
          (ap (λ (v : View). v.given alloc.memory_ptr) taken
            ∙ update_self (blocks live) alloc.memory_ptr true)
          (subst (λ (v : View). IsUnused v.thread alloc.memory_ptr) (sym taken)
            (blocks-IsUnused live alloc.memory_ptr free))
          (rw (block_size_lem k1) large) admitted.0 admitted.1 in
      (
        t,
        k',
        bind-eq (allocate_block p pools pool (no_wait p)) _ k allocated
            ∙ bind-eq
                (init p kernel pools api t r.named (pools.block_size pool.address k1) r.priority
                  r.threshold r.slice r.start)
                _ k1 created,
        refl,
        after
            ∙ ap (λ (u : View). record u { thread = update u.thread r.at (some (native t)) }) taken
            ∙ ap (λ n. record (world total (t ∷ live)) { free = n }) (omega arith),
        (absent, free, v),
      )

  pub construct_refused :
      (total : ℕ) (r : Request K) (live : List (Thread K)) (k : K)
      → view k ≡ world total live
      → threads live r.at ≡ none
      → minimum_stack ≤ pool.block_size
      → (total ≤ length live) ⊎ ((max_priorities ≤ r.priority) ⊎ (r.priority < r.threshold))
      → constructor p kernel pools api pool r k ≡ aborts
  unfolding construct_in_block_pool block_size
  construct_refused total r live k e absent large cause = elim (dec_lt (length live) total) [
    | no full ↦
        bind-aborts (allocate_block p pools pool (no_wait p)) _ k
          (allocate_block_refused total live k e (omega arith))
    | yes room ↦
        let (alloc, k1, allocated, free, taken) = allocate_block_lem total live k e room in
        let t : Thread K = new_thread p kernel pools api r.at alloc r.callback in
        let size = pools.block_size pool.address k1 in
        bind-eq (allocate_block p pools pool (no_wait p)) _ k allocated
        ∙ bind-aborts
            (init p kernel pools api t r.named size r.priority r.threshold r.slice r.start) _ k1
            (init_refused t r.named size r.priority r.threshold r.slice r.start k1
              (ap (λ (v : View). v.thread r.at) taken ∙ absent) (rw (block_size_lem k1) large)
              (elim cause [ inl full ↦ absurd (omega arith) | inr c ↦ c ]))
  ]
