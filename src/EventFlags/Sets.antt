-- ===== src/EventFlags/Sets.antt =====
-- eventFlags.hpp: a group as a set of flags, and what the calls that do not wait do to that set.
use threadx_cpp.Prelude.{
  ℕ, zero, suc, ◌<◌, ◌≡◌, ap, Bool-cases, inl, inr, Bool, true, false, not, ◌&&◌, ◌||◌, Option,
  none, some, List, [], ◌∷◌, arith, bit, ℕ_discrete, if◌then◌else◌,
}
use threadx_cpp.Common.{Error, success, no_events}
use threadx_cpp.EventFlags.{ClearOption}
use threadx_cpp.EventFlags.Masks.{is_clear}
use threadx_cpp.EventFlags.Native.{AllSet}

-- A call that does not wait: `set` and `clear`, `get` for all flags of a mask, and `waitAnyFor` of no
-- time for any of them.
pub data Call : Type 0 where
  sets clears : ℕ → Call
  gets_all gets_any : ℕ → ClearOption → Call

-- The flags with those of a mask, and without them.
abbrev pub with_flags : (ℕ → Bool) → ℕ → ℕ → Bool
with_flags f mask i = f i || bit mask i

abbrev pub without_flags : (ℕ → Bool) → ℕ → ℕ → Bool
without_flags f mask i = f i && not (bit mask i)

-- Whether all flags of a mask, of w bits, are in the set, or any of them.
unfoldable pub has_all : ℕ → (ℕ → Bool) → ℕ → Bool
has_all zero f mask = true
has_all (suc w) f mask = (not (bit mask w) || f w) && has_all w f mask

unfoldable pub has_any : ℕ → (ℕ → Bool) → ℕ → Bool
has_any zero f mask = false
has_any (suc w) f mask = (bit mask w && f w) || has_any w f mask

-- A reading of the flags, if they are there: what it reports, with the flags that it gives, and the
-- set after it.
abbrev pub spec_read :
    Bool → (ℕ → Bool) → ℕ → ClearOption → (Error × Option (ℕ → Bool)) × (ℕ → Bool)
spec_read true f mask option =
    ((success, some f), if is_clear option then without_flags f mask else f)
spec_read false f mask option = ((no_events, none), f)

abbrev pub spec_step : ℕ → Call → (ℕ → Bool) → (Error × Option (ℕ → Bool)) × (ℕ → Bool)
spec_step w (sets mask) f = ((success, none), with_flags f mask)
spec_step w (clears mask) f = ((success, none), without_flags f mask)
spec_step w (gets_all mask option) f = spec_read (has_all w f mask) f mask option
spec_step w (gets_any mask option) f = spec_read (has_any w f mask) f mask option

abbrev pub spec_run : ℕ → List Call → (ℕ → Bool) → List (Error × Option (ℕ → Bool)) × (ℕ → Bool)
spec_run w [] f = ([], f)
spec_run w (c ∷ cs) f =
    let (r, after) = spec_step w c f in let (rs, last) = spec_run w cs after in (r ∷ rs, last)

pub has_all-AllSet : (w : ℕ) (f : ℕ → Bool) (mask : ℕ) → has_all w f mask ≡ true → AllSet w f mask
unfolding has_all
has_all-AllSet zero f mask h i lt asked = absurd (omega arith)
has_all-AllSet (suc w) f mask h i lt asked = elim (ℕ_discrete i w) [
  | yes e ↦ ground (arith, ap (bit mask) e, ap f e)
  | no ne ↦
      let rest : has_all w f mask ≡ true = ground arith in
      has_all-AllSet w f mask rest i (omega arith) asked
]

pub has_all_missing :
    (w : ℕ) (f : ℕ → Bool) (mask : ℕ)
    → has_all w f mask ≡ false
    → (i : ℕ) × (i < w) × (bit mask i ≡ true) × (f i ≡ false)
unfolding has_all
has_all_missing zero f mask h = cc
has_all_missing (suc w) f mask h = elim (Bool-cases (has_all w f mask)) [
  | inl rest ↦ (w, omega arith, ground arith, ground arith)
  | inr lacks ↦
      let (i, lt, asked, missing) = has_all_missing w f mask lacks in
      (i, omega arith, asked, missing)
]

pub has_any_found :
    (w : ℕ) (f : ℕ → Bool) (mask : ℕ)
    → has_any w f mask ≡ true
    → (i : ℕ) × (i < w) × (bit mask i ≡ true) × (f i ≡ true)
unfolding has_any
has_any_found zero f mask h = cc
has_any_found (suc w) f mask h = elim (Bool-cases (has_any w f mask)) [
  | inl found ↦
      let (i, lt, asked, there) = has_any_found w f mask found in (i, omega arith, asked, there)
  | inr none_of_rest ↦ (w, omega arith, ground arith, ground arith)
]

pub has_any_none :
    (w : ℕ) (f : ℕ → Bool) (mask i : ℕ)
    → has_any w f mask ≡ false
    → i < w
    → bit mask i ≡ true
    → f i ≡ false
unfolding has_any
has_any_none zero f mask i h lt asked = absurd (omega arith)
has_any_none (suc w) f mask i h lt asked = elim (ℕ_discrete i w) [
  | yes e ↦ ground (arith, ap (bit mask) e, ap f e)
  | no ne ↦
      let rest : has_any w f mask ≡ false = ground arith in
      has_any_none w f mask i rest (omega arith) asked
]
