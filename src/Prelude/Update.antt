-- ===== src/Prelude/Update.antt =====
-- A function with another value at one number.
use Prim.Native.Nat.{ℕ}
use mathlib.Core.Path.{◌≡◌, fun_ext}
use mathlib.Core.Logic.{◌≢◌, ite}
use native.Mathlib.Omega.{arith}
use native.Mathlib.Decide.{ℕ_discrete}

module _ {ℓ} {A : Type ℓ} where
  abbrev pub update : (ℕ → A) → ℕ → A → ℕ → A
  update f i a j = ite (ℕ_discrete j i) a (f j)

  pub update_self : (f : ℕ → A) (i : ℕ) (a : A) → update f i a i ≡ a
  update_self f i a = ground arith

  pub update_ne : (f : ℕ → A) (i : ℕ) (a : A) (j : ℕ) → j ≢ i → update f i a j ≡ f j
  update_ne f i a j h = ground arith

  pub update_twice : (f : ℕ → A) (i : ℕ) (a b : A) → update (update f i a) i b ≡ update f i b
  update_twice f i a b = fun_ext (λ j. ground arith)
