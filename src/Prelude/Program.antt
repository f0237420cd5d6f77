-- ===== src/Prelude/Program.antt =====
-- The monad of the C++ functions: a computation reads and changes a state, and returns a value
-- or aborts at a failed `assert`.
use mathlib.Core.Bool.{Bool, true, false}
use mathlib.Core.Path.{◌≡◌, refl, ap}

pub data Outcome {ℓ} (A : Type ℓ) : Type ℓ where
  returns : A → Outcome A
  aborts : Outcome A

abbrev pub M {ℓ} : Type 0 → Type ℓ → Type ℓ
M S A = S → Outcome (A × S)

infixl 5 ◌>>=◌ ◌>>◌
abbrev pub ◌>>=◌ {ℓ κ} : {S : Type 0} {A : Type ℓ} {B : Type κ} → M S A → (A → M S B) → M S B
◌>>=◌ m f s = elim (m s) [ returns (a, t) ↦ f a t | aborts ↦ aborts ]

abbrev pub ◌>>◌ {κ} : {S : Type 0} {B : Type κ} → M S (Unit {0}) → M S B → M S B
◌>>◌ m k = m >>= λ _. k

abbrev pub pure {ℓ} : {S : Type 0} {A : Type ℓ} → A → M S A
pure a s = returns (a, s)

-- `assert` of a build without NDEBUG.
abbrev pub assert : {S : Type 0} → Bool → M S (Unit {0})
assert true s = returns (tt, s)
assert false s = aborts

abbrev pub get : {S : Type 0} → M S S
get s = returns (s, s)

abbrev pub put : {S : Type 0} → S → M S (Unit {0})
put t s = returns (tt, t)

-- A sequence that returns has a first part that returns, and a rest that does from there.
module _ {ℓ κ} {S : Type 0} {A : Type ℓ} {B : Type κ} where
  continue_returns :
      (o : Outcome (A × S)) (f : A → M S B) {r : B × S}
      → (elim o [ returns (a, t) ↦ f a t | aborts ↦ aborts ]) ≡ returns r
      → (a : A) × (t : S) × (o ≡ returns (a, t)) × (f a t ≡ returns r)
  continue_returns (returns (a, t)) f e = (a, t, refl, e)
  continue_returns aborts f e = cc

  pub bind-returns :
      (m : M S A) (f : A → M S B) (s : S) {r : B × S}
      → (m >>= f) s ≡ returns r
      → (a : A) × (t : S) × (m s ≡ returns (a, t)) × (f a t ≡ returns r)
  bind-returns m f s e = continue_returns (m s) f e

  -- A sequence goes on from where its first part returns.
  pub bind-eq :
      (m : M S A) (f : A → M S B) (s : S) {a : A} {t : S}
      → m s ≡ returns (a, t)
      → (m >>= f) s ≡ f a t
  bind-eq m f s e =
      ap (λ (o : Outcome (A × S)). elim o [ returns (a, t) ↦ f a t | aborts ↦ aborts ]) e

  -- A sequence aborts where its first part does.
  pub bind-aborts : (m : M S A) (f : A → M S B) (s : S) → m s ≡ aborts → (m >>= f) s ≡ aborts
  bind-aborts m f s e =
      ap (λ (o : Outcome (A × S)). elim o [ returns (a, t) ↦ f a t | aborts ↦ aborts ]) e
