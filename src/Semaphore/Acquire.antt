-- ===== src/Semaphore/Acquire.antt =====
-- semaphore.hpp: the constructor, `tryAcquire`, and any sequence of calls that do not wait.
use threadx_cpp.Prelude.{
  ℕ, zero, suc, ◌+◌, ◌-◌, ◌≤◌, ◌<◌, ◌≡◌, refl, sym, ap, subst, ◌∙◌, none, some, List, [], ◌∷◌,
  String, M, ◌>>=◌, bind-eq, pure, returns, arith, ltb, if◌then◌else◌, dec_lt, replicate,
}
use threadx_cpp.Common.{
  Platform, IsSupported, Error, success, no_instance, call, is_success-to_error, to_error_of,
  to_error_of_zero,
}
use threadx_cpp.Ticks.Deadline.{ticks_of_special_waits}
use threadx_cpp.Semaphore.{CountingSemaphore, NotifyCallback, construct, release, try_acquire}
use threadx_cpp.Semaphore.Native.{SemaphoreApi, SemaphoreLaws, NativeSemaphore}
use threadx_cpp.Semaphore.Release.{IsValid, room, verdict, put_many, release_lem}

-- What an attempt to take an instance reports, and leaves.
abbrev pub taken : NativeSemaphore → Error
taken v = if ltb 0 v.count then success else no_instance

abbrev pub take_one : NativeSemaphore → NativeSemaphore
take_one v = record v { count = v.count - 1 }

put_many-IsValid :
    (ceiling n : ℕ) (v : NativeSemaphore)
    → IsValid ceiling v
    → IsValid ceiling (put_many ceiling n v)
put_many-IsValid ceiling n v h = ground arith

take_one-IsValid :
    (ceiling : ℕ) (v : NativeSemaphore) → IsValid ceiling v → IsValid ceiling (take_one v)
take_one-IsValid ceiling v h = ground arith

module _ {K : Type 0} (p : Platform) (api : SemaphoreApi K) where
  -- n attempts to take an instance, one after the other.
  unfoldable pub try_acquire_many : CountingSemaphore K → ℕ → M K (List Error)
  try_acquire_many self zero = pure []
  try_acquire_many self (suc n) = do
    e ← try_acquire p api self
    es ← try_acquire_many self n
    pure (e ∷ es)

module _ {K : Type 0} (p : Platform) (supported : IsSupported p) (api : SemaphoreApi K)
    (laws : SemaphoreLaws api) where
  open laws use {view, create_done, put_notify_lem, take_done, take_refused}

  -- A constructor that returns leaves a valid semaphore that holds the initial count.
  pub construct-IsValid :
      (address ceiling : ℕ) (name : String) (initial : ℕ) (callback : NotifyCallback K) (k : K)
      {self : CountingSemaphore K} {k' : K}
      → 0 < ceiling
      → construct p api address ceiling name initial callback k ≡ returns (self, k')
      → IsValid self.ceiling (view k' self.address)
        × ((view k' self.address).count ≡ initial)
        × (self.ceiling ≡ ceiling)
  unfolding construct
  construct-IsValid address ceiling name initial none k pos e = ground (
    arith,
    is_success-to_error (api.create address name initial k).0,
    create_done address name initial k,
  )
  construct-IsValid address ceiling name initial (some f) k pos e = ground (
    arith,
    is_success-to_error (api.create address name initial k).0,
    create_done address name initial k,
    put_notify_lem address (api.create address name initial k).1,
  )

  try_acquire-take :
      (self : CountingSemaphore K) (k : K)
      → try_acquire p api self k ≡ call (api.take self.address 0) k
  unfolding try_acquire
  try_acquire-take self k =
      ap (λ w. call (api.take self.address w) k) (ticks_of_special_waits p supported).0

  -- `tryAcquire` returns without waiting: it takes an instance if there is one, and reports
  -- TX_NO_INSTANCE and changes nothing if there is none.
  pub try_acquire_lem :
      (self : CountingSemaphore K) (k : K)
      → IsValid self.ceiling (view k self.address)
      → (k' : K) × (try_acquire p api self k ≡ returns (taken (view k self.address), k'))
        × (view k' self.address ≡ take_one (view k self.address))
  try_acquire_lem self k h = elim (dec_lt 0 (view k self.address).count) [
    | yes some_left ↦
        let (code, after) = take_done self.address 0 k h.created some_left in
        let reads = to_error_of_zero _ code in
        ((api.take self.address 0 k).1, try_acquire-take self k ∙ ground (arith, reads), after)
    | no none_left ↦
        let (code, after) = take_refused self.address k h.created (omega arith) in
        let reads = to_error_of _ no_instance tt code in
        (
          (api.take self.address 0 k).1,
          try_acquire-take self k ∙ ground (arith, reads),
          ground (arith, after),
        )
  ]

  try_acquire_many_lem :
      (self : CountingSemaphore K) (n : ℕ) (k : K)
      → IsValid self.ceiling (view k self.address)
      → n ≤ (view k self.address).count
      → (k' : K) × (try_acquire_many p api self n k ≡ returns (replicate n success, k'))
        × (view k' self.address
            ≡ record (view k self.address) { count = (view k self.address).count - n })
  unfolding try_acquire_many
  try_acquire_many_lem self zero k h le = (k, refl, ground arith)
  try_acquire_many_lem self (suc n) k h le =
      let v = view k self.address in
      let (k1, first, after) = try_acquire_lem self k h in
      let h1 = subst (IsValid self.ceiling) (sym after) (take_one-IsValid self.ceiling v h) in
      let counts = ap (λ (u : NativeSemaphore). u.count) after in
      let (k', others, left) = try_acquire_many_lem self n k1 h1 (omega arith) in
      let took : taken v ≡ success = ground arith in
      (
        k',
        bind-eq (try_acquire p api self) _ k first
            ∙ bind-eq (try_acquire_many p api self n) _ k1 others
            ∙ ap (λ e. returns (e ∷ replicate n success, k')) took,
        ground (arith, left, after),
      )

  -- n instances released to a semaphore that has the room for them, and no suspended thread, can be
  -- taken again without waiting: both report success throughout, and leave the semaphore as it was.
  pub release-acquire_many :
      (self : CountingSemaphore K) (n : ℕ) (k : K)
      → IsValid self.ceiling (view k self.address)
      → (view k self.address).waiting ≡ 0
      → (view k self.address).count + n ≤ self.ceiling
      → (k' k'' : K) × (release p api self n k ≡ returns (success, k'))
        × (try_acquire_many p api self n k' ≡ returns (replicate n success, k''))
        × (view k'' self.address ≡ view k self.address)
  release-acquire_many self n k h quiet fits =
      let v = view k self.address in
      let (k1, released, after) = release_lem p api laws self n k h in
      let h1 = subst (IsValid self.ceiling) (sym after) (put_many-IsValid self.ceiling n v h) in
      let counts = ap (λ (u : NativeSemaphore). u.count) after in
      let (k2, took, left) = try_acquire_many_lem self n k1 h1 (omega arith) in
      let enough : verdict n (room self.ceiling v) ≡ success = ground arith in
      (k1, k2, rw (released, enough), took, ground (arith, left, after))

-- A call that does not wait.
pub data Call : Type 0 where
  releases : ℕ → Call
  try_acquires : Call

module _ {K : Type 0} (p : Platform) (api : SemaphoreApi K) where
  unfoldable pub step : CountingSemaphore K → Call → M K Error
  step self (releases n) = release p api self n
  step self try_acquires = try_acquire p api self

  unfoldable pub run : CountingSemaphore K → List Call → M K (List Error)
  run self [] = pure []
  run self (c ∷ cs) = do e ← step self c; es ← run self cs; pure (e ∷ es)

module _ {K : Type 0} (p : Platform) (supported : IsSupported p) (api : SemaphoreApi K)
    (laws : SemaphoreLaws api) where
  open laws use {view}

  step-IsValid :
      (self : CountingSemaphore K) (c : Call) (k : K)
      → IsValid self.ceiling (view k self.address)
      → (e : Error) × (k' : K) × (step p api self c k ≡ returns (e, k'))
        × IsValid self.ceiling (view k' self.address)
  unfolding step
  step-IsValid self (releases n) k h =
      let (k', run, after) = release_lem p api laws self n k h in
      (_, k', run, subst (IsValid self.ceiling) (sym after) (put_many-IsValid self.ceiling n _ h))
  step-IsValid self try_acquires k h =
      let (k', run, after) = try_acquire_lem p supported api laws self k h in
      (_, k', run, subst (IsValid self.ceiling) (sym after) (take_one-IsValid self.ceiling _ h))

  -- Any sequence of releases and attempts to acquire runs to its end, and leaves the semaphore
  -- valid: its count within the ceiling, and no thread suspended while there is an instance.
  pub run-IsValid :
      (self : CountingSemaphore K) (cs : List Call) (k : K)
      → IsValid self.ceiling (view k self.address)
      → (es : List Error) × (k' : K) × (run p api self cs k ≡ returns (es, k'))
        × IsValid self.ceiling (view k' self.address)
  unfolding run
  run-IsValid self [] k h = ([], k, refl, h)
  run-IsValid self (c ∷ cs) k h =
      let (e, k1, first, h1) = step-IsValid self c k h in
      let (es, k', others, h') = run-IsValid self cs k1 h1 in
      (
        e ∷ es,
        k',
        bind-eq (step p api self c) _ k first ∙ bind-eq (run p api self cs) _ k1 others,
        h',
      )
