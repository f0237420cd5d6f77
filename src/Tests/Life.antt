-- ===== src/Tests/Life.antt =====
-- thread.hpp, memoryPool.hpp: a kernel with one pool of two blocks, which gives out every block
-- once, and threads of 32 priorities.
use threadx_cpp.Prelude.{
  ℕ, suc, ◌-◌, ◌≤◌, ◌<◌, ◌≡◌, refl, ap, Bool, true, false, ◌&&◌, Option, none, some, List, [], ◌∷◌,
  returns, aborts, arith, ℕ_discrete, ltb, leb, Outcome, lt→ltb, ge→ltb, update, fun_ext,
  if◌then◌else◌,
}
use threadx_cpp.Kernel.Native.{KernelApi}
use threadx_cpp.Common.{is_success, to_error}
use threadx_cpp.Pool.{BlockPool, allocate_block, block_size}
use threadx_cpp.Pool.Native.{PoolApi}
use threadx_cpp.Thread.{Thread, auto_start, init, construct_in_block_pool, construct_with_priority}
use threadx_cpp.Thread.Native.{ThreadApi, NativeThread, View, LifeLaws}
use threadx_cpp.Thread.Life.{Request, Op, emplace, reset_at, run, step, world}
use threadx_cpp.Thread.Life.Refinement.{Follows, run-spec_run_of_threads}
use threadx_cpp.Thread.Life.Defaults.{construct_with_priority_cases}
use threadx_cpp.Tests.Platforms.{target, target-IsSupported}

record Kernel : Type 0 where
  next : ℕ
  free : ℕ
  given : ℕ → Bool
  thread : ℕ → Option NativeThread

abbrev view : Kernel → View
view k = record { free = k.free; given = λ b. ltb b k.next && k.given b; thread = k.thread }

abbrev pools : PoolApi Kernel
pools = record {
  byte_create = λ a n s k. (0, k);
  byte_delete = λ a k. (0, k);
  byte_prioritize = λ a k. (0, k);
  byte_allocate = λ a m w k. (16, 0, k);
  byte_release = λ a k. (0, k);
  byte_name = λ a k. "";
  block_create = λ a n b s k. (0, k);
  block_delete = λ a k. (0, k);
  block_prioritize = λ a k. (0, k);
  block_allocate = λ a w k.
      if ltb 0 k.free
      then (
        0,
        k.next,
        record k { next = suc k.next; free = k.free - 1; given = update k.given k.next true },
      )
      else (16, 0, k);
  block_release = λ b k. (0, record k { free = suc k.free; given = update k.given b false });
  block_size = λ a k. 1024;
  block_name = λ a k. "";
}

abbrev start_thread : ℕ → ℕ → ℕ → ℕ → ℕ → Kernel → ℕ × Kernel
start_thread a b s priority threshold k = elim (k.thread a) [
  | some _ ↦ (14, k)
  | none ↦
      if ltb s 128
      then (5, k)
      else if leb 32 priority
      then (15, k)
      else if ltb priority threshold
      then (24, k)
      else (
        0,
        record k {
          thread = update k.thread a (some (record { stack_start = b; is_finished = false }));
        },
      )
]

abbrev end_thread : ℕ → Kernel → ℕ × Kernel
end_thread a k = elim (k.thread a) [
  | some t ↦ (0, record k { thread = update k.thread a (some (record t { is_finished = true })) })
  | none ↦ (14, k)
]

abbrev delete_thread : ℕ → Kernel → ℕ × Kernel
delete_thread a k = elim (k.thread a) [
  | some t ↦ if t.is_finished then (0, record k { thread = update k.thread a none }) else (17, k)
  | none ↦ (14, k)
]

abbrev api : ThreadApi Kernel
api = record {
  create = λ a n b s priority threshold slice start k. start_thread a b s priority threshold k;
  entry_exit_notify = λ a k. (0, k);
  stack_error_notify = λ b k. (0, k);
  terminate = end_thread;
  delete = delete_thread;
  resume = λ a k. (0, k);
  suspend = λ a k. (0, k);
  reset = λ a k. (0, k);
  wait_abort = λ a k. (0, k);
  preemption_change = λ a n k. (0, k);
  priority_change = λ a n k. (0, k);
  time_slice_change = λ a n k. (0, k);
  sleep = λ n k. (0, k);
  relinquish = λ k. k;
  running = λ k. 0;
  state = λ a k. 0;
  stack = λ a k. record { stack_size = 0; stack_ptr = 0; stack_end = 0; stack_highest_ptr = 0 };
  preempt_threshold = λ a k. 0;
  user_priority = λ a k. 0;
  new_time_slice = λ a k. 0;
  name = λ a k. "";
}

allocated_view :
    (k : Kernel) (b : ℕ)
    → ltb b (suc k.next) && update k.given k.next true b
      ≡ update (λ b. ltb b k.next && k.given b) k.next true b
allocated_view k b = ground arith

released_view :
    (k : Kernel) (a b : ℕ)
    → ltb b k.next && update k.given a false b ≡ update (λ b. ltb b k.next && k.given b) a false b
released_view k a b = ground arith

laws : LifeLaws 0x1000 1024 pools api
laws = record {
  view = view;
  minimum_stack = 128;
  max_priorities = 32;
  block_size_lem = λ k. refl;
  allocate_done = λ w k room. rw (lt→ltb 0 k.free room) (
    refl,
    rw (ge→ltb k.next k.next (omega arith)) refl,
    ap (λ f. record (view k) { free = k.free - 1; given = f }) (fun_ext (allocated_view k)),
  );
  allocate_refused = λ k empty. ground arith;
  release_done = λ b k given unused. (
    refl,
    ap (λ f. record (view k) { free = suc k.free; given = f }) (fun_ext (released_view k b)),
  );
  create_done = λ a n b s priority threshold slice start k absent given unused large low within st.
      (ground arith, ground arith);
  create_bad_priority = λ a n b s priority threshold slice start k absent large high. ground arith;
  create_bad_threshold =
      λ a n b s priority threshold slice start k absent large low above. ground arith;
  entry_exit_notify_done = λ a t k exists. (refl, refl);
  terminate_done = λ a t k exists. (ground arith, ground arith);
  delete_done = λ a t k exists finished. (ground arith, ground arith);
}

abbrev port : KernelApi Kernel ℕ
port = record {
  disable = λ k. (0, k);
  restore = λ q k. k;
  enter = λ k. k;
  identify = λ k. none;
  system_state = λ k. 0;
  initialize_is_finished = 0;
  initialize_in_progress = 1;
}

abbrev pool : BlockPool
pool = record { address = 0x1000; size = 2056; block_size = 1024 }

abbrev fresh : Kernel
fresh = record { next = 0x1004; free = 2; given = λ b. false; thread = λ a. none }

abbrev request : ℕ → Request Kernel
request a = record {
  at = a;
  named = "thread";
  callback = none;
  priority = 16;
  threshold = 16;
  slice = 0;
  start = auto_start;
}

-- Two blocks serve three threads, as one is destroyed in time, and not three at once.
abbrev in_time : List (Op Kernel)
in_time = emplace (request 100) ∷ emplace (request 200) ∷ reset_at 100 ∷ emplace (request 300) ∷ []

abbrev at_once : List (Op Kernel)
at_once = emplace (request 100) ∷ emplace (request 200) ∷ emplace (request 300) ∷ []

view_of_fresh : view fresh ≡ world {K = Kernel} 2 []
view_of_fresh = ap (λ f. record { free = 2; given = f; thread = λ a. none }) (fun_ext unused)
  where
    unused : (b : ℕ) → ltb b 0x1004 && false ≡ false
    unused b = ground arith

run-spec_run_of_threads_example :
    Follows target target-IsSupported port pools api pool laws 2
      (some (300 ∷ 200 ∷ []))
      (run target port pools api pool in_time [] fresh)
unfolding laws
run-spec_run_of_threads_example =
    run-spec_run_of_threads target target-IsSupported port pools api pool laws 2 in_time [] fresh
      (omega arith) (view_of_fresh, tt, omega arith)

three_at_once_abort : run target port pools api pool at_once [] fresh ≡ aborts
unfolding run step construct_in_block_pool allocate_block is_success to_error init block_size
    ℕ_discrete
three_at_once_abort = refl

construct_with_priority_cases_example :
    let made : ℕ → Outcome (Thread Kernel × Kernel) = λ priority.
      construct_with_priority target port pools api 100 "thread" pool none priority fresh in
    (16 ≤ 5
      → (t : Thread Kernel) × (k' : Kernel) × (made 5 ≡ returns (t, k'))
        × (view k' ≡ world 2 (t ∷ [])))
    × (5 < 16 → made 5 ≡ aborts)
unfolding laws
construct_with_priority_cases_example =
    construct_with_priority_cases target target-IsSupported port pools api pool laws 2 [] 100 5
      "thread" none fresh view_of_fresh tt refl (omega arith) (omega arith) (omega arith)
