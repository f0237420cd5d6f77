-- ===== src/Tests/Semaphore.antt =====
-- semaphore.hpp: a kernel with one semaphore.
use threadx_cpp.Prelude.{
  ◌-◌, ◌≡◌, refl, inr, true, false, none, List, [], ◌∷◌, returns, arith, ltb, if◌then◌else◌,
}
use threadx_cpp.Common.{Error, success, ceiling_exceeded, to_underlying, to_error, is_success}
use threadx_cpp.Semaphore.{CountingSemaphore, construct, release}
use threadx_cpp.Semaphore.Native.{SemaphoreApi, SemaphoreLaws, NativeSemaphore, put_one}
use threadx_cpp.Semaphore.Release.{IsValid, room, verdict, put_many, release_lem}
use threadx_cpp.Semaphore.Acquire.{
  Call, releases, try_acquires, run, try_acquire_many, construct-IsValid, release-acquire_many,
  run-IsValid,
}
use threadx_cpp.Tests.Platforms.{target, target-IsSupported}

abbrev pub api : SemaphoreApi NativeSemaphore
api = record {
  create = λ a n c k. (0, record { is_created = true; count = c; waiting = 0 });
  put_notify = λ a k. (0, k);
  ceiling_put = λ a c k. if ltb k.count c then (0, put_one k) else (33, k);
  take = λ a w k. if ltb 0 k.count then (0, record k { count = k.count - 1 }) else (13, k);
  prioritize = λ a k. (0, k);
  delete = λ a k. (0, k);
  count = λ a k. k.count;
  name = λ a k. "";
}

unfoldable pub laws : SemaphoreLaws api
unfolding to_underlying
laws = record {
  view = λ k a. k;
  count_lem = λ a k. refl;
  create_done = λ a n c k h. refl;
  put_notify_lem = λ a k. refl;
  put_refused = λ a c k live pos full. ground arith;
  put_done = λ a c k live below. ground arith;
  take_done = λ a w k live some_left. ground arith;
  take_refused = λ a k live none_left. ground arith;
  delete_done = λ a k live. refl;
}

-- Two instances, of four at most.
abbrev two_of_four : NativeSemaphore
two_of_four = record { is_created = true; count = 2; waiting = 0 }

abbrev four : CountingSemaphore NativeSemaphore
four = record { address = 0x2000; ceiling = 4; release_notify_callback = none }

two_of_four-IsValid : IsValid 4 two_of_four
two_of_four-IsValid = record {
  created = refl;
  ceiling_pos = omega arith;
  within = omega arith;
  no_idle_instance = inr refl;
}

-- Five more find room for two.
release_stops :
    release target api four 5 two_of_four
    ≡ returns (ceiling_exceeded, record { is_created = true; count = 4; waiting = 0 })
unfolding release is_success to_error to_underlying
release_stops = refl

release_lem_example :
    (k' : NativeSemaphore) × (release target api four 5 two_of_four
      ≡ returns (verdict 5 (room 4 two_of_four), k'))
    × (k' ≡ put_many 4 5 two_of_four)
unfolding laws
release_lem_example = release_lem target api laws four 5 two_of_four two_of_four-IsValid

construct-IsValid_example : IsValid 4 two_of_four × (two_of_four.count ≡ 2) × (four.ceiling ≡ 4)
unfolding laws construct is_success to_error to_underlying
construct-IsValid_example =
    construct-IsValid target target-IsSupported api laws 0x2000 4 "s" 2 none
      (record { is_created = false; count = 0; waiting = 0 }) {self = four} {k' = two_of_four}
      (omega arith) refl

release-acquire_many_example :
    (k' k'' : NativeSemaphore) × (release target api four 2 two_of_four ≡ returns (success, k'))
    × (try_acquire_many target api four 2 k' ≡ returns (success ∷ success ∷ [], k''))
    × (k'' ≡ two_of_four)
unfolding laws
release-acquire_many_example =
    release-acquire_many target target-IsSupported api laws four 2 two_of_four two_of_four-IsValid
      refl (omega arith)

abbrev calls : List Call
calls = try_acquires ∷ releases 9 ∷ try_acquires ∷ []

run-IsValid_example :
    (es : List Error) × (k' : NativeSemaphore) × (run target api four calls two_of_four
      ≡ returns (es, k'))
    × IsValid 4 k'
unfolding laws
run-IsValid_example =
    run-IsValid target target-IsSupported api laws four calls two_of_four two_of_four-IsValid
