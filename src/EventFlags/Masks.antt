-- ===== src/EventFlags/Masks.antt =====
-- eventFlags.cpp: what `set`, `clear` and `get` do to the flags of a group.
use threadx_cpp.Prelude.{
  ℕ, zero, suc, ◌-◌, ◌*◌, ◌/◌, ◌%◌, ◌^◌, ◌<◌, ◌≡◌, refl, sym, ap, ◌∙◌, Bool, true, false, not, ◌&&◌,
  ◌||◌, returns, arith, ◌==◌, bit, bit-suc,
}
use native.Mathlib.Nat.{two-pow-succ}
use threadx_cpp.Common.{
  Platform, IsSupported, ulong_mod, success, no_events, to_error_of, to_error_of_zero,
}
use threadx_cpp.Ticks.Deadline.{ticks_of_special_waits}
use threadx_cpp.EventFlags.{
  EventFlags, ClearOption, dont_clear, clear, complement, set_flags, clear_flags, get,
}
use threadx_cpp.EventFlags.Native.{EventFlagsApi, EventFlagsLaws, NativeFlags, AllSet}

opposite_parity : (r : ℕ) → r < 2 → (1 - r == 1) ≡ not (r == 1)
opposite_parity zero h = refl
opposite_parity (suc zero) h = refl
opposite_parity (suc (suc r)) h = absurd (omega arith)

or_true : (b : Bool) → (b || true) ≡ true
or_true true = refl
or_true false = refl

and_true : (b : Bool) → b ≡ (b && true)
and_true true = refl
and_true false = refl

abbrev pub is_clear : ClearOption → Bool
is_clear dont_clear = false
is_clear clear = true

-- The bits of the complement within w bits.
pub bit_of_complement : (w m i : ℕ) → m < 2 ^ w → i < w → bit (2 ^ w - 1 - m) i ≡ not (bit m i)
unfolding bit
bit_of_complement zero m i h lt = absurd (omega arith)
bit_of_complement (suc w) m zero h lt =
    let parity : (2 ^ suc w - 1 - m) / 1 % 2 ≡ 1 - m / 1 % 2 = omega (arith, two-pow-succ w) in
    ap (λ t. t == 1) parity ∙ opposite_parity (m / 1 % 2) (omega arith)
bit_of_complement (suc w) m (suc i) h lt =
    let half : (2 ^ suc w - 1 - m) / 2 ≡ 2 ^ w - 1 - m / 2 = omega (arith, two-pow-succ w) in
    bit-suc (2 ^ suc w - 1 - m) i
    ∙ ap (λ n. bit n i) half
    ∙ bit_of_complement w (m / 2) i (omega (arith, two-pow-succ w)) (omega arith)
    ∙ ap not (sym (bit-suc m i))

module _ {K : Type 0} (p : Platform) (api : EventFlagsApi K)
    (laws : EventFlagsLaws (8 * p.word_size) api) where
  open laws use {view, and_done}

  -- `clear` of an idle group succeeds, and clears the flags of the mask and no other.
  pub clear_flags_lem :
      (self : EventFlags K) (mask : ℕ) (k : K)
      → (view k self.address).is_idle ≡ true
      → mask < ulong_mod p
      → (k' : K) × (clear_flags p api self mask k ≡ returns (success, k'))
        × ((view k' self.address).is_idle ≡ true)
        × ((i : ℕ)
            → i < 8 * p.word_size
            → (view k' self.address).flag i ≡ ((view k self.address).flag i && not (bit mask i)))
  unfolding clear_flags
  clear_flags_lem self mask k idle fits =
      let a = self.address in
      let (code, after) = and_done a (complement p mask) k idle in
      let kept = (λ (i : ℕ) (lt : i < 8 * p.word_size).
        ap (λ (v : NativeFlags). v.flag i) after
        ∙ ap (λ b. (view k a).flag i && b) (bit_of_complement (8 * p.word_size) mask i fits lt)) in
      (
        (api.set a (complement p mask) 2 k).1,
        rw (to_error_of_zero _ code) refl,
        ap (λ (v : NativeFlags). v.is_idle) after ∙ idle,
        kept,
      )

module _ {K : Type 0} (p : Platform) (supported : IsSupported p) (api : EventFlagsApi K)
    (laws : EventFlagsLaws (8 * p.word_size) api) where
  open laws use {view, or_done, all_done, all_clear_done, all_refused}

  -- The group after the service has set flags.
  set_flags_there :
      (a mask : ℕ) (k : K)
      → (view k a).is_idle ≡ true
      → let k1 = (api.set a mask 0 k).1 in
        ((api.set a mask 0 k).0 ≡ 0)
        × ((view k1 a).is_idle ≡ true)
        × ((i : ℕ) → (view k1 a).flag i ≡ ((view k a).flag i || bit mask i))
        × AllSet (8 * p.word_size) (view k1 a).flag mask
  set_flags_there a mask k idle =
      let (code, after) = or_done a mask k idle in
      let now = (λ (i : ℕ). ap (λ (v : NativeFlags). v.flag i) after) in
      (
        code,
        ap (λ (v : NativeFlags). v.is_idle) after ∙ idle,
        now,
        λ i lt asked. now i ∙ ap (λ b. (view k a).flag i || b) asked ∙ or_true _,
      )

  -- Flags that are set on an idle group, a mask that is not empty, are there for `get`, which
  -- succeeds without waiting: it gives the flags of the mask and those that were there before, and
  -- leaves them in the group but for those of the mask if its option is to clear.
  pub set_flags-get :
      (self : EventFlags K) (mask : ℕ) (option : ClearOption) (k : K)
      → (view k self.address).is_idle ≡ true
      → 0 < mask
      → (k1 : K) × (k2 : K) × (flags : ℕ) × (set_flags p api self mask k ≡ returns (success, k1))
        × (get p api self mask option k1 ≡ returns ((success, flags), k2))
        × ((i : ℕ)
            → i < 8 * p.word_size
            → bit flags i ≡ ((view k self.address).flag i || bit mask i))
        × ((i : ℕ)
            → (view k2 self.address).flag i ≡ (
                ((view k self.address).flag i || bit mask i)
                && not (is_clear option && bit mask i)))
  unfolding set_flags get
  set_flags-get self mask dont_clear k idle pos =
      let a = self.address in
      let (set_code, idle1, now, there) = set_flags_there a mask k idle in
      let k1 = (api.set a mask 0 k).1 in
      let (code, flags, left) = all_done a mask 0 0 k1 idle1 pos there in
      (
        k1,
        (api.get a mask 2 0 0 k1).2,
        (api.get a mask 2 0 0 k1).1,
        rw (to_error_of_zero _ set_code) refl,
        rw ((ticks_of_special_waits p supported).0, to_error_of_zero _ code) refl,
        λ i lt. flags i lt ∙ now i,
        λ i. ap (λ (v : NativeFlags). v.flag i) left ∙ now i ∙ and_true _,
      )
  set_flags-get self mask clear k idle pos =
      let a = self.address in
      let (set_code, idle1, now, there) = set_flags_there a mask k idle in
      let k1 = (api.set a mask 0 k).1 in
      let (code, flags, left) = all_clear_done a mask 0 0 k1 idle1 pos there in
      (
        k1,
        (api.get a mask 3 0 0 k1).2,
        (api.get a mask 3 0 0 k1).1,
        rw (to_error_of_zero _ set_code) refl,
        rw ((ticks_of_special_waits p supported).0, to_error_of_zero _ code) refl,
        λ i lt. flags i lt ∙ now i,
        λ i. ap (λ (v : NativeFlags). v.flag i) left ∙ ap (λ b. b && not (bit mask i)) (now i),
      )

  -- `get` of an idle group, for a mask with a flag that is not there, returns TX_NO_EVENTS whatever
  -- its option, and changes nothing.
  pub get_missing :
      (self : EventFlags K) (mask i : ℕ) (option : ClearOption) (k : K)
      → (view k self.address).is_idle ≡ true
      → i < 8 * p.word_size
      → bit mask i ≡ true
      → (view k self.address).flag i ≡ false
      → (flags : ℕ) × (k' : K) × (get p api self mask option k ≡ returns ((no_events, flags), k'))
        × (view k' self.address ≡ view k self.address)
  unfolding get
  get_missing self mask i dont_clear k idle lt asked missing =
      let (code, same) =
        all_refused self.address mask 2 0 i k idle (omega arith) (omega arith) lt asked missing in
      (
        (api.get self.address mask 2 0 0 k).1,
        (api.get self.address mask 2 0 0 k).2,
        rw ((ticks_of_special_waits p supported).0, to_error_of _ no_events tt code) refl,
        same,
      )
  get_missing self mask i clear k idle lt asked missing =
      let (code, same) =
        all_refused self.address mask 3 0 i k idle (omega arith) (omega arith) lt asked missing in
      (
        (api.get self.address mask 3 0 0 k).1,
        (api.get self.address mask 3 0 0 k).2,
        rw ((ticks_of_special_waits p supported).0, to_error_of _ no_events tt code) refl,
        same,
      )
