-- ===== src/Timer.antt =====
-- tickTimer.hpp and tickTimer.cpp: the class TickTimer. A method takes the object and returns it
-- anew beside its result; the kernel is the state.
pub mod Native
pub mod Reset
pub mod Construct
use threadx_cpp.Prelude.{
  ℕ, ◌+◌, ◌*◌, ◌%◌, ◌^◌, Bool, true, false, not, Option, none, some, String, M, ◌>>=◌, ◌>>◌, pure,
  assert, get, put, Outcome, returns, aborts, if◌then◌else◌,
}
use threadx_cpp.Common.{Platform, Error, success, call, is_success}
use threadx_cpp.Ticks.{Duration, tick_duration, ticks}
use Native.{TimerApi}

pub data TimerType : Type 0 where
  periodic periodic_immediate one_shot : TimerType

pub data ActivationType : Type 0 where
  no_activate auto_activate : ActivationType

abbrev pub activation_code : ActivationType → ℕ
activation_code no_activate = 0
activation_code auto_activate = 1

-- `std::function<void(Ulong)>`: empty, or what a call does to the kernel.
abbrev pub ExpirationCallback : Type 0 → Type 0
ExpirationCallback K = Option (ℕ → K → K)

abbrev pub is_set {ℓ} : {A : Type ℓ} → Option A → Bool
is_set none = false
is_set (some _) = true

pub record TickTimer (K : Type 0) : Type 0 where
  pub address : ℕ
  pub timeout_ticks : ℕ
  pub expiration_callback : ExpirationCallback K
  pub id : ℕ
  pub type : TimerType
  pub activation_type : ActivationType

-- The static `m_idCounter` beside the kernel.
pub record World (K : Type 0) : Type 0 where
  pub id_counter : ℕ
  pub kernel : K

abbrev pub on_kernel {ℓ} : {K : Type 0} {A : Type ℓ} → M K A → M (World K) A
on_kernel m w = elim (m w.kernel) [
  | returns (a, k) ↦ returns (a, record w { kernel = k })
  | aborts ↦ aborts
]

-- `type == Type::periodicImmediate ? 1UL : ticks`.
abbrev pub initial_ticks : TimerType → ℕ → ℕ
initial_ticks periodic_immediate t = 1
initial_ticks _ t = t

-- `type == Type::oneShot ? 0UL : ticks`.
abbrev pub reschedule_ticks : TimerType → ℕ → ℕ
reschedule_ticks one_shot t = 0
reschedule_ticks _ t = t

-- `expirationCallback ? ++m_idCounter : 0`, over the numbers of size_t.
unfoldable pub next_id : {K : Type 0} → Platform → ExpirationCallback K → M (World K) ℕ
next_id p none w = returns (0, w)
next_id p (some _) w =
    let n = (w.id_counter + 1) % 2 ^ (8 * p.size_t_size) in returns (n, record w { id_counter = n })

module _ {K : Type 0} (p : Platform) (api : TimerApi K) where
  -- The constructor, with the address at which the object stands.
  unfoldable pub construct :
      ℕ
      → String
      → Duration
      → ExpirationCallback K
      → TimerType
      → ActivationType
      → M (World K) (TickTimer K)
  unfolding next_id
  construct address name timeout callback type activation = do
    id ← next_id p callback
    let t = ticks p timeout
    error ← on_kernel (
        call (
          api.create address name (is_set callback) address (initial_ticks type t)
            (reschedule_ticks type t) (activation_code activation)))
    assert (is_success error)
    pure (record {
      address = address;
      timeout_ticks = t;
      expiration_callback = callback;
      id = id;
      type = type;
      activation_type = activation;
    })

  unfoldable pub destruct : TickTimer K → M K (Unit {0})
  destruct self = do error ← call (api.delete self.address); assert (is_success error)

  -- `TickTimer::now()`.
  unfoldable now : K → Duration
  now k = tick_duration p (api.time_get k)

  -- `id()`.
  unfoldable timer_id : TickTimer K → ℕ
  timer_id self = self.id

  unfoldable name : TickTimer K → K → String
  name self = api.name self.address

  unfoldable pub activate : TickTimer K → M K Error
  activate self = call (api.activate self.address)

  unfoldable pub deactivate : TickTimer K → M K Error
  deactivate self = call (api.deactivate self.address)

  -- The last statement of `reset`.
  unfoldable pub activate_if_auto : TickTimer K → ActivationType → M K (Error × TickTimer K)
  unfolding activate
  activate_if_auto self auto_activate = do error ← activate self; pure (error, self)
  activate_if_auto self no_activate = pure (success, self)

  -- `reset(timeout, type, activationType)`.
  unfoldable pub reset_all :
      TickTimer K → Duration → TimerType → ActivationType → M K (Error × TickTimer K)
  unfolding deactivate activate_if_auto
  reset_all self timeout type activation = do
    stopped ← deactivate self
    if not (is_success stopped) then pure (stopped, self) else do
      changed ← call (
          api.change self.address (initial_ticks type (ticks p timeout))
            (reschedule_ticks type (ticks p timeout)))
      if not (is_success changed)
          then pure (changed, self)
          else activate_if_auto
              (record self {
                timeout_ticks = ticks p timeout;
                type = type;
                activation_type = activation;
              })
              activation

  -- The overloads that keep a setting of the object.
  unfoldable pub reset_activation :
      TickTimer K → Duration → ActivationType → M K (Error × TickTimer K)
  reset_activation self timeout activation = reset_all self timeout self.type activation

  unfoldable pub reset_type : TickTimer K → Duration → TimerType → M K (Error × TickTimer K)
  reset_type self timeout type = reset_all self timeout type self.activation_type

  unfoldable pub reset_timeout : TickTimer K → Duration → M K (Error × TickTimer K)
  reset_timeout self timeout = reset_all self timeout self.type self.activation_type

  unfoldable pub reset : TickTimer K → M K (Error × TickTimer K)
  reset self = reset_all self (tick_duration p self.timeout_ticks) self.type self.activation_type

-- `expirationCallback`: the kernel calls it with the address it was given. An empty std::function
-- throws; it is registered only where the callback is set.
unfoldable pub expire : {K : Type 0} → TickTimer K → M K (Unit {0})
expire self k = elim self.expiration_callback [ some f ↦ returns (tt, f self.id k) | none ↦ aborts ]
