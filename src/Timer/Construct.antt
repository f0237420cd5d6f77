-- ===== src/Timer/Construct.antt =====
-- tickTimer.hpp, the constructor: agreement with the kernel's timer, and the identifiers that the
-- timers of a program get one after the other.
use threadx_cpp.Prelude.{
  ℕ, ◌+◌, ◌*◌, ◌^◌, ◌<◌, ◌≡◌, ◌≢◌, true, ◌||◌, List, [], ◌∷◌, ◌++◌, String, M, ◌>>=◌, bind-returns,
  pure, returns, arith, length, if◌then◌else◌, ◌==◌,
}
use native.Mathlib.Nat.{mod-eq_of_lt}
use threadx_cpp.Common.{Platform, is_success-to_error}
use threadx_cpp.Ticks.{Duration, ticks}
use threadx_cpp.Timer.{
  TickTimer, TimerType, ActivationType, ExpirationCallback, World, is_set, activation_code,
  initial_ticks, reschedule_ticks, construct,
}
use threadx_cpp.Timer.Native.{TimerApi, TimerLaws}
use threadx_cpp.Timer.Reset.{Agrees}

-- The arguments of one constructor call.
pub record Order (K : Type 0) : Type 0 where
  pub address : ℕ
  pub name : String
  pub timeout : Duration
  pub callback : ExpirationCallback K
  pub type : TimerType
  pub activation : ActivationType

-- The timers carry the numbers n + 1, n + 2, … in turn if they have a callback, and 0 if not.
abbrev Numbered : {K : Type 0} → ℕ → List (TickTimer K) → Type 0
Numbered n [] = Unit {0}
Numbered n (t ∷ ts) =
    (t.id ≡ (if is_set t.expiration_callback then n + 1 else 0))
    × Numbered (if is_set t.expiration_callback then n + 1 else n) ts

-- A later timer has a greater number, or none.
Numbered-later :
    {K : Type 0} (n : ℕ) (xs : List (TickTimer K)) (u : TickTimer K) (zs : List (TickTimer K))
    → Numbered n (xs ++ u ∷ zs)
    → (m : ℕ) × (n < m) × (u.id ≡ (if is_set u.expiration_callback then m else 0))
Numbered-later n [] u zs h = (n + 1, omega arith, h.0)
Numbered-later n (x ∷ xs) u zs h =
    let (m, lt, e) =
      Numbered-later (if is_set x.expiration_callback then n + 1 else n) xs u zs h.1 in
    (m, ground arith, e)

Numbered-distinct :
    {K : Type 0} (n : ℕ) (xs : List (TickTimer K)) (t : TickTimer K) (ys : List (TickTimer K))
    (u : TickTimer K) (zs : List (TickTimer K))
    → Numbered n (xs ++ t ∷ ys ++ u ∷ zs)
    → (is_set t.expiration_callback || is_set u.expiration_callback) ≡ true
    → t.id ≢ u.id
Numbered-distinct n [] t ys u zs h some_set e =
    let (m, lt, number) =
      Numbered-later (if is_set t.expiration_callback then n + 1 else n) ys u zs h.1 in
    ground (arith, h.0)
Numbered-distinct n (x ∷ xs) t ys u zs h some_set e =
    Numbered-distinct (if is_set x.expiration_callback then n + 1 else n) xs t ys u zs h.1 some_set
      e

module _ {K : Type 0} (p : Platform) (api : TimerApi K) where
  abbrev pub make : Order K → M (World K) (TickTimer K)
  make o = construct p api o.address o.name o.timeout o.callback o.type o.activation

  -- One constructor call after the other.
  unfoldable pub construct_all : List (Order K) → M (World K) (List (TickTimer K))
  construct_all [] = pure []
  construct_all (o ∷ os) = do t ← make o; ts ← construct_all os; pure (t ∷ ts)

  construct_numbers :
      (o : Order K) (w : World K) {t : TickTimer K} {w' : World K}
      → w.id_counter + 1 < 2 ^ (8 * p.size_t_size)
      → make o w ≡ returns (t, w')
      → (t.id ≡ (if is_set t.expiration_callback then w.id_counter + 1 else 0))
        × (w'.id_counter
            ≡ (if is_set t.expiration_callback then w.id_counter + 1 else w.id_counter))
  unfolding construct
  construct_numbers o w fits e = ground (arith, mod-eq_of_lt fits)

  construct_all-Numbered :
      (os : List (Order K)) (w : World K) {ts : List (TickTimer K)} {w' : World K}
      → w.id_counter + length os < 2 ^ (8 * p.size_t_size)
      → construct_all os w ≡ returns (ts, w')
      → Numbered w.id_counter ts
  unfolding construct_all
  construct_all-Numbered [] w fits e = ground arith
  construct_all-Numbered (o ∷ os) w {ts} fits e =
      let (t, w1, made, rest) =
        bind-returns (make o) (λ t. construct_all os >>= λ ts. pure (t ∷ ts)) w e in
      let (ts', w2, others, last) = bind-returns (construct_all os) (λ ts. pure (t ∷ ts)) w1 rest in
      let (number, counter) = construct_numbers o w (omega arith) made in
      let fits' : w1.id_counter + length os < 2 ^ (8 * p.size_t_size) = ground arith in
      let ih = construct_all-Numbered os w1 fits' others in
      let all : t ∷ ts' ≡ ts = cc in rw (← all) (number, rw (← counter) ih)

  -- Of two timers that a program constructs one after the other, with others before, between and
  -- after them, of which at least one has a callback, the identifiers differ: as long as the counter
  -- does not overflow size_t. So an identifier handed to a callback is that of its own timer only.
  pub construct_all-distinct :
      (os : List (Order K)) (w : World K) (xs : List (TickTimer K)) (t : TickTimer K)
      (ys : List (TickTimer K)) (u : TickTimer K) (zs : List (TickTimer K)) {w' : World K}
      → w.id_counter + length os < 2 ^ (8 * p.size_t_size)
      → construct_all os w ≡ returns (xs ++ t ∷ ys ++ u ∷ zs, w')
      → (is_set t.expiration_callback || is_set u.expiration_callback) ≡ true
      → t.id ≢ u.id
  construct_all-distinct os w xs t ys u zs fits e some_set =
      Numbered-distinct w.id_counter xs t ys u zs (construct_all-Numbered os w fits e) some_set

module _ {K : Type 0} (p : Platform) (api : TimerApi K) (laws : TimerLaws api) where
  open laws use {view, create_done}

  -- A constructor that returns leaves the kernel's timer with the settings of the object, running
  -- exactly if the activation type says so.
  pub construct-Agrees :
      (o : Order K) (w : World K) {t : TickTimer K} {w' : World K}
      → make p api o w ≡ returns (t, w')
      → Agrees p api laws t w'.kernel
        × ((view w'.kernel t.address).is_active ≡ (activation_code o.activation == 1))
  unfolding construct
  construct-Agrees o w e =
      let t = ticks p o.timeout in
      let i = initial_ticks o.type t in
      let r = reschedule_ticks o.type t in
      let a = activation_code o.activation in
      let service = api.create o.address o.name (is_set o.callback) o.address i r a in
      ground (
        arith,
        is_success-to_error (service w.kernel).0,
        create_done o.address o.name (is_set o.callback) o.address i r a w.kernel,
      )
