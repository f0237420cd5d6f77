-- ===== src/Tests/EventFlags.antt =====
-- eventFlags.cpp: a kernel with one group of flags, in words of 32 bits.
use threadx_cpp.Prelude.{
  List, [], ◌∷◌, ◌%◌, ltb, ge→ltb, lt→ltb, ℕ, zero, suc, ◌+◌, ◌*◌, ◌/◌, ◌%◌, ◌<◌, ◌≡◌, refl, ap,
  ◌∙◌, none, Bool, true, false, not, ◌&&◌, ◌||◌, returns, arith, ◌==◌, eq→==, ℕ_discrete,
  if◌then◌else◌, bit, bit-suc,
}
use threadx_cpp.Common.{Error, success, no_events, to_underlying}
use threadx_cpp.EventFlags.{EventFlags, clear, dont_clear, get_by_default}
use threadx_cpp.EventFlags.Sets.{Call, sets, clears, gets_all, gets_any, spec_run}
use threadx_cpp.EventFlags.Run.{run, AllReport, IsGroup, run-spec_run_of_flags}
use threadx_cpp.EventFlags.Defaults.{get_by_default_cases}
use threadx_cpp.EventFlags.Native.{EventFlagsApi, EventFlagsLaws, NativeFlags, AllSet}
use threadx_cpp.Tests.Platforms.{target, target-IsSupported}

-- The word with w given bits.
word : ℕ → (ℕ → Bool) → ℕ
word zero f = 0
word (suc w) f = (if f 0 then 1 else 0) + 2 * word w (λ i. f (suc i))

low_digit : (b : Bool) (n : ℕ) → (((if b then 1 else 0) + 2 * n) / 1 % 2 == 1) ≡ b
low_digit true n = eq→== ((1 + 2 * n) / 1 % 2) 1 (omega arith)
low_digit false n = let even : (0 + 2 * n) / 1 % 2 ≡ 0 = omega arith in ap (λ t. t == 1) even

other_digits : (b : Bool) (n : ℕ) → ((if b then 1 else 0) + 2 * n) / 2 ≡ n
other_digits true n = omega arith
other_digits false n = omega arith

bit_of_word : (w : ℕ) (f : ℕ → Bool) (i : ℕ) → i < w → bit (word w f) i ≡ f i
unfolding word bit
bit_of_word zero f i h = absurd (omega arith)
bit_of_word (suc w) f zero h = low_digit (f 0) _
bit_of_word (suc w) f (suc i) h =
    bit-suc (word (suc w) f) i
    ∙ ap (λ n. bit n i) (other_digits (f 0) _)
    ∙ bit_of_word w (λ j. f (suc j)) i (omega arith)

-- Whether the w lowest flags of a mask are set.
all_set : ℕ → (ℕ → Bool) → ℕ → Bool
all_set zero f mask = true
all_set (suc w) f mask = (not (bit mask w) || f w) && all_set w f mask

all_set_of : (w : ℕ) (f : ℕ → Bool) (mask : ℕ) → AllSet w f mask → all_set w f mask ≡ true
unfolding all_set
all_set_of zero f mask h = refl
all_set_of (suc w) f mask h =
    ground (arith, all_set_of w f mask (λ i lt. h i (omega arith)), h w (omega arith))

all_set_missing :
    (w : ℕ) (f : ℕ → Bool) (mask i : ℕ)
    → i < w
    → bit mask i ≡ true
    → f i ≡ false
    → all_set w f mask ≡ false
unfolding all_set
all_set_missing zero f mask i lt asked missing = absurd (omega arith)
all_set_missing (suc w) f mask i lt asked missing = elim (ℕ_discrete i w) [
  | yes e ↦ ground (arith, ap (bit mask) e, ap f e)
  | no ne ↦ ground (arith, all_set_missing w f mask i (omega arith) asked missing)
]

-- Whether any of them is.
any_set : ℕ → (ℕ → Bool) → ℕ → Bool
any_set zero f mask = false
any_set (suc w) f mask = (bit mask w && f w) || any_set w f mask

any_set_of :
    (w : ℕ) (f : ℕ → Bool) (mask i : ℕ)
    → i < w
    → bit mask i ≡ true
    → f i ≡ true
    → any_set w f mask ≡ true
unfolding any_set
any_set_of zero f mask i lt asked there = absurd (omega arith)
any_set_of (suc w) f mask i lt asked there = elim (ℕ_discrete i w) [
  | yes e ↦ ground (arith, ap (bit mask) e, ap f e)
  | no ne ↦ ground (arith, any_set_of w f mask i (omega arith) asked there)
]

any_set_none :
    (w : ℕ) (f : ℕ → Bool) (mask : ℕ)
    → ((i : ℕ) → i < w → bit mask i ≡ true → f i ≡ false)
    → any_set w f mask ≡ false
unfolding any_set
any_set_none zero f mask h = refl
any_set_none (suc w) f mask h =
    ground (arith, any_set_none w f mask (λ i lt. h i (omega arith)), h w (omega arith))

abbrev api : EventFlagsApi NativeFlags
api = record {
  create = λ a n k. (0, k);
  set_notify = λ a k. (0, k);
  delete = λ a k. (0, k);
  set = λ a mask option k.
      if option == 0
      then (0, record k { flag = λ i. k.flag i || bit mask i })
      else (0, record k { flag = λ i. k.flag i && bit mask i });
  get = λ a mask option w wait k.
      if (if ltb option 2 then any_set 32 k.flag mask else all_set 32 k.flag mask)
      then (
        0,
        word 32 k.flag,
        if option % 2 == 0 then k else record k { flag = λ i. k.flag i && not (bit mask i) },
      )
      else (7, w, k);
  name = λ a k. "";
}

laws : EventFlagsLaws 32 api
unfolding to_underlying
laws = record {
  view = λ k a. k;
  or_done = λ a mask k idle. (refl, refl);
  and_done = λ a mask k idle. (refl, refl);
  all_clear_done = λ a mask w wait k idle pos all.
      rw (all_set_of 32 k.flag mask all) (refl, (λ i lt. bit_of_word 32 k.flag i lt), refl);
  all_done = λ a mask w wait k idle pos all.
      rw (all_set_of 32 k.flag mask all) (refl, (λ i lt. bit_of_word 32 k.flag i lt), refl);
  all_refused = λ a mask option w i k idle low high lt asked missing.
      rw (ge→ltb option 2 low, all_set_missing 32 k.flag mask i lt asked missing) (refl, refl);
  any_clear_done = λ a mask w wait i k idle lt asked there.
      rw (any_set_of 32 k.flag mask i lt asked there)
        (refl, (λ i lt. bit_of_word 32 k.flag i lt), refl);
  any_done = λ a mask w wait i k idle lt asked there.
      rw (any_set_of 32 k.flag mask i lt asked there)
        (refl, (λ i lt. bit_of_word 32 k.flag i lt), refl);
  any_refused = λ a mask option w k idle low pos none_there.
      rw (lt→ltb option 2 low, any_set_none 32 k.flag mask none_there) (refl, refl);
}

-- The flags at places 0 and 5.
abbrev flags : NativeFlags
flags = record { is_idle = true; flag = bit 33 }

abbrev group : EventFlags NativeFlags
group = record { address = 0xa000; set_notify_callback = none }

-- Flags 1 and 2 are set, 2 is taken by a `get`, which is refused the next time, and 0 goes.
abbrev calls : List Call
calls = sets 6 ∷ gets_all 4 clear ∷ gets_all 4 clear ∷ gets_any 36 dont_clear ∷ clears 1 ∷ []

run-spec_run_of_flags_example :
    (rs : List (Error × ℕ)) × (k' : NativeFlags) × (run target api group calls flags
      ≡ returns (rs, k'))
    × (AllReport 32 (spec_run 32 calls (bit 33)).0 rs
        × IsGroup target target-IsSupported api laws group k' (spec_run 32 calls (bit 33)).1)
unfolding laws
run-spec_run_of_flags_example =
    run-spec_run_of_flags target target-IsSupported api laws group calls flags (bit 33)
      (refl, λ i lt. refl) (omega arith)

get_by_default_cases_example :
    (((i : ℕ) → i < 8 * 4 → bit 33 i ≡ true)
      → (word : ℕ) × (k' : NativeFlags) × (get_by_default target api group flags
          ≡ returns ((success, word), k'))
        × ((i : ℕ) → i < 8 * 4 → (bit word i ≡ true) × (k'.flag i ≡ false)))
    × ((i : ℕ)
        → i < 8 * 4
        → bit 33 i ≡ false
        → (word : ℕ) × (k' : NativeFlags) × (get_by_default target api group flags
            ≡ returns ((no_events, word), k'))
          × (k' ≡ flags))
unfolding laws
get_by_default_cases_example =
    get_by_default_cases target target-IsSupported api laws group flags refl
