-- ===== src/Timer/Reset.antt =====
-- tickTimer.hpp, `reset`: the object and the timer of the kernel stay in agreement on every branch.
use threadx_cpp.Prelude.{
  ℕ, ◌≡◌, ◌≢◌, refl, ap, ◌∙◌, true, false, returns, arith, ◌==◌, if◌then◌else◌,
}
use threadx_cpp.Common.{
  Platform, Error, tick_error, to_error, to_error-to_underlying, to_underlying, is_success,
  is_success-to_error,
}
use threadx_cpp.Ticks.{Duration, ticks}
use threadx_cpp.Timer.{
  TickTimer, TimerType, periodic_immediate, ActivationType, no_activate, auto_activate,
  activation_code, initial_ticks, reschedule_ticks, reset_all,
}
use threadx_cpp.Timer.Native.{TimerApi, TimerLaws}

initial_ticks-zero :
    (type : TimerType) {t : ℕ} → type ≢ periodic_immediate → t ≡ 0 → initial_ticks type t ≡ 0
initial_ticks-zero type ne z = ground arith

module _ {K : Type 0} (p : Platform) (api : TimerApi K) (laws : TimerLaws api) where
  open laws use {view, change_lem, activate_lem, deactivate_lem, change_zero}

  -- The kernel counts with the settings that the object remembers.
  pub record Agrees (self : TickTimer K) (k : K) : Type 0 where
    pub initial : (view k self.address).initial ≡ initial_ticks self.type self.timeout_ticks
    pub reschedule :
        (view k self.address).reschedule ≡ reschedule_ticks self.type self.timeout_ticks

  -- The facts about one reset: the laws of its three services, at the arguments that it gives them.
  abbrev Services : TickTimer K → ℕ → TimerType → K → Type 0
  Services self t type k =
      let i = initial_ticks type t in
      let r = reschedule_ticks type t in
      let k1 = (api.deactivate self.address k).1 in
      let k2 = (api.change self.address i r k1).1 in
      (view k1 self.address ≡ (
        if (api.deactivate self.address k).0 == 0
        then record (view k self.address) { is_active = false }
        else view k self.address))
      × (view k2 self.address ≡ (
          if (api.change self.address i r k1).0 == 0
          then record (view k1 self.address) { initial = i; reschedule = r }
          else view k1 self.address))
      × (view (api.activate self.address k2).1 self.address ≡ (
          if (api.activate self.address k2).0 == 0
          then record (view k2 self.address) { is_active = true }
          else view k2 self.address))
      × (is_success (to_error (api.deactivate self.address k).0)
          ≡ ((api.deactivate self.address k).0 == 0))
      × (is_success (to_error (api.change self.address i r k1).0)
          ≡ ((api.change self.address i r k1).0 == 0))
      × (is_success (to_error (api.activate self.address k2).0)
          ≡ ((api.activate self.address k2).0 == 0))

  services : (self : TickTimer K) (t : ℕ) (type : TimerType) (k : K) → Services self t type k
  services self t type k = (
    deactivate_lem self.address k,
    change_lem self.address _ _ _,
    activate_lem self.address _,
    is_success-to_error _,
    is_success-to_error _,
    is_success-to_error _,
  )

  -- Whatever `reset` returns, an error of any of its services included, the settings of the object
  -- and those of the kernel's timer agree after it if they did before.
  pub reset_all-Agrees :
      (self : TickTimer K) (d : Duration) (type : TimerType) (act : ActivationType) (k : K)
      {e : Error} {self' : TickTimer K} {k' : K}
      → Agrees self k
      → reset_all p api self d type act k ≡ returns ((e, self'), k')
      → Agrees self' k'
  unfolding reset_all
  reset_all-Agrees self d type no_activate k h e = ground (arith, services self (ticks p d) type k)
  reset_all-Agrees self d type auto_activate k h e =
      ground (arith, services self (ticks p d) type k)

  -- A reset that reports success has made the object remember the new settings, and the timer runs
  -- exactly if the new activation type says so.
  pub reset_all_success :
      (self : TickTimer K) (d : Duration) (type : TimerType) (act : ActivationType) (k : K)
      {e : Error} {self' : TickTimer K} {k' : K}
      → is_success e ≡ true
      → reset_all p api self d type act k ≡ returns ((e, self'), k')
      → (self' ≡ record self { timeout_ticks = ticks p d; type = type; activation_type = act })
        × ((view k' self.address).is_active ≡ (activation_code act == 1))
  unfolding reset_all
  reset_all_success self d type no_activate k s e = ground (arith, services self (ticks p d) type k)
  reset_all_success self d type auto_activate k s e =
      ground (arith, services self (ticks p d) type k)

  -- A reset to a timeout of zero ticks, unless it is for a periodic timer that fires at once, returns
  -- TX_TICK_ERROR whenever the timer could be stopped: the object keeps its settings, and the timer
  -- stays stopped.
  pub reset_all_zero_ticks :
      (self : TickTimer K) (d : Duration) (type : TimerType) (act : ActivationType) (k : K)
      → ticks p d ≡ 0
      → type ≢ periodic_immediate
      → (api.deactivate self.address k).0 ≡ 0
      → (k' : K) × (reset_all p api self d type act k ≡ returns ((tick_error, self), k'))
        × (view k' self.address ≡ record (view k self.address) { is_active = false })
  unfolding reset_all
  reset_all_zero_ticks self d type act k z ne ok =
      let i = initial_ticks type (ticks p d) in
      let r = reschedule_ticks type (ticks p d) in
      let k1 = (api.deactivate self.address k).1 in
      let i_zero : i ≡ 0 = initial_ticks-zero type ne z in
      let fails : (api.change self.address i r k1).0 ≡ to_underlying tick_error =
        rw i_zero (change_zero self.address r k1) in
      let reads : to_error (api.change self.address i r k1).0 ≡ tick_error =
        ap to_error fails ∙ to_error-to_underlying tick_error tt in
      let code : to_underlying tick_error ≡ 22 = unfold to_underlying in refl in
      let (stopped, kept, _, a, b, _) = services self (ticks p d) type k in
      (
        (api.change self.address i r k1).1,
        ground (arith, a, b, fails, reads, code),
        ground (arith, stopped, kept, fails, code),
      )
