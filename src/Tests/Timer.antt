-- ===== src/Tests/Timer.antt =====
-- tickTimer.hpp: a kernel with one timer.
use threadx_cpp.Prelude.{
  ℕ, ◌≡◌, ◌≢◌, refl, true, false, none, some, [], ◌∷◌, returns, arith, ◌==◌, if◌then◌else◌,
}
use threadx_cpp.Common.{success, tick_error, to_error, to_underlying, is_success}
use threadx_cpp.Ticks.{tick_duration, ticks, ceil, conversion}
use threadx_cpp.Ticks.Reduce.{reduce, gcd}
use threadx_cpp.Timer.{
  TickTimer, World, periodic, one_shot, no_activate, auto_activate, construct, reset_all,
}
use threadx_cpp.Timer.Native.{TimerApi, TimerLaws, NativeTimer}
use threadx_cpp.Timer.Reset.{Agrees, reset_all-Agrees, reset_all_success, reset_all_zero_ticks}
use threadx_cpp.Timer.Construct.{Order, construct_all, construct_all-distinct}
use threadx_cpp.Tests.Platforms.{target}

abbrev api : TimerApi NativeTimer
api = record {
  create = λ a n f x i r s k.
      if i == 0 then (22, k) else (0, record { is_active = s == 1; initial = i; reschedule = r });
  change = λ a i r k. if i == 0 then (22, k) else (0, record k { initial = i; reschedule = r });
  activate = λ a k. (0, record k { is_active = true });
  deactivate = λ a k. (0, record k { is_active = false });
  delete = λ a k. (0, k);
  name = λ a k. "";
  time_get = λ k. 0;
}

laws : TimerLaws api
unfolding to_underlying
laws = record {
  view = λ k a. k;
  create_done = λ a n f x i r s k h. ground arith;
  change_lem = λ a i r k. ground arith;
  activate_lem = λ a k. refl;
  deactivate_lem = λ a k. refl;
  create_zero = λ a n f x r s k. refl;
  change_zero = λ a r k. refl;
}

abbrev every_ten : NativeTimer
every_ten = record { is_active = true; initial = 10; reschedule = 10 }

abbrev timer : TickTimer NativeTimer
timer = record {
  address = 0x3000;
  timeout_ticks = 10;
  expiration_callback = none;
  id = 0;
  type = periodic;
  activation_type = auto_activate;
}

timer-Agrees : Agrees target api laws timer every_ten
unfolding laws
timer-Agrees = record { initial = refl; reschedule = refl }

abbrev once : TickTimer NativeTimer
once = record timer { timeout_ticks = 25; type = one_shot; activation_type = no_activate }

abbrev once_timer : NativeTimer
once_timer = record { is_active = false; initial = 25; reschedule = 0 }

reset_runs :
    reset_all target api timer (tick_duration target 25) one_shot no_activate every_ten
    ≡ returns ((success, once), once_timer)
unfolding reset_all is_success to_error to_underlying ticks ceil conversion reduce gcd
reset_runs = refl

reset_all-Agrees_example : Agrees target api laws once once_timer
reset_all-Agrees_example =
    reset_all-Agrees target api laws timer (tick_duration target 25) one_shot no_activate every_ten
      timer-Agrees reset_runs

reset_all_success_example :
    (once ≡ record timer {
      timeout_ticks = ticks target (tick_duration target 25);
      type = one_shot;
      activation_type = no_activate;
    })
    × (false ≡ (0 == 1))
unfolding laws is_success to_underlying
reset_all_success_example =
    reset_all_success target api laws timer (tick_duration target 25) one_shot no_activate every_ten
      {e = success} refl reset_runs

reset_all_zero_ticks_example :
    (k' : NativeTimer) × (reset_all target api timer
        (tick_duration target 0)
        periodic
        auto_activate
        every_ten
      ≡ returns ((tick_error, timer), k'))
    × (k' ≡ record every_ten { is_active = false })
unfolding laws ticks ceil conversion reduce gcd
reset_all_zero_ticks_example =
    reset_all_zero_ticks target api laws timer (tick_duration target 0) periodic auto_activate
      every_ten refl (λ e. cc) refl

abbrev blinker : Order NativeTimer
blinker = record {
  address = 0x3000;
  name = "blinker";
  timeout = tick_duration target 10;
  callback = some (λ id k. k);
  type = periodic;
  activation = auto_activate;
}

abbrev blinker_timer : ℕ → TickTimer NativeTimer
blinker_timer n = record timer { id = n; expiration_callback = some (λ id k. k) }

abbrev start : World NativeTimer
start = record { id_counter = 0; kernel = once_timer }

construct_all-distinct_example : ◌≢◌ {A = ℕ} 1 2
unfolding construct_all construct is_success to_error to_underlying ticks ceil conversion reduce gcd
construct_all-distinct_example =
    construct_all-distinct target api (blinker ∷ blinker ∷ []) start [] (blinker_timer 1) []
      (blinker_timer 2) [] {w' = record { id_counter = 2; kernel = every_ten }} (omega arith) refl
      refl
