-- ===== src/EventFlags/Defaults.antt =====
-- eventFlags.hpp: `get` with its default arguments.
use threadx_cpp.Prelude.{
  ◌-◌, ℕ, ◌*◌, ◌^◌, ◌<◌, ◌≡◌, refl, ap, ◌∙◌, true, false, not, ◌%◌, returns, arith, bit, ◌==◌, ◌&&◌,
}
use native.Mathlib.Nat.{zero-div, pow-le-pow_right}
use threadx_cpp.Common.{Platform, IsSupported, ulong_mod, success, no_events, to_error_of_zero}
use threadx_cpp.Ticks.Deadline.{ticks_of_special_waits}
use threadx_cpp.EventFlags.{EventFlags, clear, all_bits, get, get_by_default}
use threadx_cpp.EventFlags.Masks.{bit_of_complement, get_missing}
use threadx_cpp.EventFlags.Native.{EventFlagsApi, EventFlagsLaws, NativeFlags}

ulong_pos : (p : Platform) → IsSupported p → 1 < ulong_mod p
ulong_pos p s = pow-le-pow_right {n = 2} (omega arith) {i = 1} (omega (arith, s.word_of_32_bits))

bit_of_zero : (i : ℕ) → bit 0 i ≡ false
unfolding bit
bit_of_zero i = ap (λ d. d % 2 == 1) (zero-div (2 ^ i))

bit_of_all :
    (p : Platform) (i : ℕ) → 0 < ulong_mod p → i < 8 * p.word_size → bit (all_bits p) i ≡ true
bit_of_all p i pos lt =
    let same : all_bits p ≡ all_bits p - 0 = omega arith in
    ap (λ n. bit n i) same ∙ bit_of_complement (8 * p.word_size) 0 i pos lt ∙ ap not (bit_of_zero i)

module _ {K : Type 0} (p : Platform) (supported : IsSupported p) (api : EventFlagsApi K)
    (laws : EventFlagsLaws (8 * p.word_size) api) where
  open laws use {view, all_clear_done}

  -- `get` of an idle group without arguments: if all flags of the word are set it succeeds, gives
  -- them, and clears them all; if one flag is not set it returns noEvents, and the group keeps the
  -- others.
  pub get_by_default_cases :
      (self : EventFlags K) (k : K)
      → let group = view k self.address in
        group.is_idle ≡ true
        → (((i : ℕ) → i < 8 * p.word_size → group.flag i ≡ true)
            → (flags : ℕ) × (k' : K) × (get_by_default p api self k
                ≡ returns ((success, flags), k'))
              × ((i : ℕ)
                  → i < 8 * p.word_size
                  → (bit flags i ≡ true) × ((view k' self.address).flag i ≡ false)))
          × ((i : ℕ)
              → i < 8 * p.word_size
              → group.flag i ≡ false
              → (flags : ℕ) × (k' : K) × (get_by_default p api self k
                  ≡ returns ((no_events, flags), k'))
                × (view k' self.address ≡ group))
  unfolding get_by_default get
  get_by_default_cases self k idle =
      let a = self.address in
      let mask = all_bits p in
      let large = ulong_pos p supported in
      (
        λ all.
            let (code, word, after) =
              all_clear_done a mask 0 0 k idle (omega arith) (λ i lt asked. all i lt) in
            (
              (api.get a mask 3 0 0 k).1,
              (api.get a mask 3 0 0 k).2,
              rw ((ticks_of_special_waits p supported).0, to_error_of_zero _ code) refl,
              λ i lt. (
                word i lt ∙ all i lt,
                ap (λ (v : NativeFlags). v.flag i) after
                    ∙ ap (λ b. (view k a).flag i && not b) (bit_of_all p i (omega arith) lt)
                    ∙ ap (λ b. b && false) (all i lt),
              ),
            ),
        λ i lt missing.
            get_missing p supported api laws self mask i clear k idle lt
              (bit_of_all p i (omega arith) lt) missing,
      )
