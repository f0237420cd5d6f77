-- ===== src/EventFlags/Run.antt =====
-- eventFlags.hpp and eventFlags.cpp: the calls that do not wait, against a set of flags.
use threadx_cpp.Prelude.{
  ℕ, ◌*◌, ◌≤◌, ◌<◌, ◌≡◌, refl, ap, ◌∙◌, Bool, true, false, not, ◌&&◌, ◌||◌, Option, none, some,
  List, [], ◌∷◌, M, ◌>>=◌, bind-eq, pure, returns, arith, bit, if◌then◌else◌,
}
use threadx_cpp.Common.{
  Platform, IsSupported, ulong_mod, Error, success, no_events, to_error, to_underlying, to_error_of,
  to_error_of_zero,
}
use threadx_cpp.Ticks.{no_wait}
use threadx_cpp.Ticks.Deadline.{ticks_of_special_waits}
use threadx_cpp.EventFlags.{
  EventFlags, ClearOption, dont_clear, clear, flag_code, all_option, any_option, set_flags,
  clear_flags, get, wait_any_for, wait_all_for, wait_for,
}
use threadx_cpp.EventFlags.Masks.{is_clear, clear_flags_lem}
use threadx_cpp.EventFlags.Native.{EventFlagsApi, EventFlagsLaws, NativeFlags, AllSet}
use threadx_cpp.EventFlags.Sets.{
  Call, sets, clears, gets_all, gets_any, without_flags, has_all, has_any, spec_read, spec_step,
  spec_run, has_all-AllSet, has_all_missing, has_any_found, has_any_none,
}

-- What a bitset holds, and a mask with a flag where ThreadX asks for one.
abbrev pub IsCall : Platform → Call → Type 0
IsCall p (sets mask) = mask < ulong_mod p
IsCall p (clears mask) = mask < ulong_mod p
IsCall p (gets_all mask option) = (0 < mask) × (mask < ulong_mod p)
IsCall p (gets_any mask option) = (0 < mask) × (mask < ulong_mod p)

abbrev pub AreCalls : Platform → List Call → Type 0
AreCalls p [] = Unit {0}
AreCalls p (c ∷ cs) = IsCall p c × AreCalls p cs

-- Two sets with the same flags below w.
abbrev pub AreSame : ℕ → (ℕ → Bool) → (ℕ → Bool) → Type 0
AreSame w f g = (i : ℕ) → i < w → f i ≡ g i

-- A call reports the error of the set, and its flags where it gives them.
abbrev pub Reports : ℕ → Error × Option (ℕ → Bool) → Error × ℕ → Type 0
Reports w (e, none) (error, word) = error ≡ e
Reports w (e, some f) (error, word) = (error ≡ e) × AreSame w (bit word) f

abbrev pub AllReport : ℕ → List (Error × Option (ℕ → Bool)) → List (Error × ℕ) → Type 0
AllReport w [] [] = Unit {0}
AllReport w (s ∷ ss) (r ∷ rs) = Reports w s r × AllReport w ss rs
AllReport w [] (_ ∷ _) = ⊥
AllReport w (_ ∷ _) [] = ⊥

module _ {K : Type 0} (p : Platform) (api : EventFlagsApi K) where
  unfoldable pub step : EventFlags K → Call → M K (Error × ℕ)
  step self (sets mask) = do e ← set_flags p api self mask; pure (e, 0)
  step self (clears mask) = do e ← clear_flags p api self mask; pure (e, 0)
  step self (gets_all mask option) = get p api self mask option
  step self (gets_any mask option) = wait_any_for p api self mask (no_wait p) option

  unfoldable pub run : EventFlags K → List Call → M K (List (Error × ℕ))
  run self [] = pure []
  run self (c ∷ cs) = do r ← step self c; rs ← run self cs; pure (r ∷ rs)

module _ {K : Type 0} (p : Platform) (supported : IsSupported p) (api : EventFlagsApi K)
    (laws : EventFlagsLaws (8 * p.word_size) api) where
  open laws use {
    view, or_done, all_done, all_clear_done, all_refused, any_done, any_clear_done, any_refused,
  }

  -- The group is idle, and has the flags of the set.
  abbrev pub IsGroup : EventFlags K → K → (ℕ → Bool) → Type 0
  IsGroup self k f =
      ((view k self.address).is_idle ≡ true)
      × AreSame (8 * p.word_size) (view k self.address).flag f

  -- What a reading of a group, by a service that answers `out`, is on the set.
  read_lem :
      (self : EventFlags K) (there : Bool) (mask : ℕ) (option : ClearOption) (out : ℕ × ℕ × K)
      (k : K) (f : ℕ → Bool)
      → IsGroup self k f
      → (there ≡ true
          → (out.0 ≡ 0)
            × AreSame (8 * p.word_size) (bit out.1) (view k self.address).flag
            × (view out.2 self.address ≡ (
                if is_clear option
                then record (view k self.address) {
                  flag = without_flags (view k self.address).flag mask;
                }
                else view k self.address)))
      → (there ≡ false
          → (out.0 ≡ to_underlying no_events) × (view out.2 self.address ≡ view k self.address))
      → let (r, after) = spec_read there f mask option in
        Reports (8 * p.word_size) r (to_error out.0, out.1) × IsGroup self out.2 after
  read_lem self true mask dont_clear out k f (idle, same) done refused =
      let (code, word, after) = done refl in
      (
        (to_error_of_zero _ code, λ i lt. word i lt ∙ same i lt),
        (
          ap (λ (v : NativeFlags). v.is_idle) after ∙ idle,
          λ i lt. ap (λ (v : NativeFlags). v.flag i) after ∙ same i lt,
        ),
      )
  read_lem self true mask clear out k f (idle, same) done refused =
      let (code, word, after) = done refl in
      (
        (to_error_of_zero _ code, λ i lt. word i lt ∙ same i lt),
        (
          ap (λ (v : NativeFlags). v.is_idle) after ∙ idle,
          λ i lt.
              ap (λ (v : NativeFlags). v.flag i) after
              ∙ ap (λ b. b && not (bit mask i)) (same i lt),
        ),
      )
  read_lem self false mask option out k f (idle, same) done refused =
      let (code, after) = refused refl in
      (
        to_error_of _ no_events tt code,
        (
          ap (λ (v : NativeFlags). v.is_idle) after ∙ idle,
          λ i lt. ap (λ (v : NativeFlags). v.flag i) after ∙ same i lt,
        ),
      )

  all_out :
      (self : EventFlags K) (mask : ℕ) (option : ClearOption) (k : K) (f : ℕ → Bool)
      → IsGroup self k f
      → 0 < mask
      → let out = api.get self.address mask (flag_code (all_option option)) 0 0 k in
        let (r, after) = spec_read (has_all (8 * p.word_size) f mask) f mask option in
        Reports (8 * p.word_size) r (to_error out.0, out.1) × IsGroup self out.2 after
  all_out self mask option k f group pos =
      let w = 8 * p.word_size in
      let a = self.address in
      read_lem self (has_all w f mask) mask option
        (api.get a mask (flag_code (all_option option)) 0 0 k) k f group
        (λ there.
          all_there option (λ i lt asked. group.1 i lt ∙ has_all-AllSet w f mask there i lt asked))
        (λ lacks.
          let (i, lt, asked, missing) = has_all_missing w f mask lacks in
          all_refused a mask (flag_code (all_option option)) 0 i k group.0 (bounds option).0
            (bounds option).1 lt asked (group.1 i lt ∙ missing))
    where
      bounds : (o : ClearOption) → (2 ≤ flag_code (all_option o)) × (flag_code (all_option o) ≤ 3)
      bounds dont_clear = (omega arith, omega arith)
      bounds clear = (omega arith, omega arith)

      all_there :
          (o : ClearOption)
          → AllSet (8 * p.word_size) (view k self.address).flag mask
          → let out = api.get self.address mask (flag_code (all_option o)) 0 0 k in
            (out.0 ≡ 0)
            × AreSame (8 * p.word_size) (bit out.1) (view k self.address).flag
            × (view out.2 self.address ≡ (
                if is_clear o
                then record (view k self.address) {
                  flag = without_flags (view k self.address).flag mask;
                }
                else view k self.address))
      all_there dont_clear all = all_done self.address mask 0 0 k group.0 pos all
      all_there clear all = all_clear_done self.address mask 0 0 k group.0 pos all

  any_out :
      (self : EventFlags K) (mask : ℕ) (option : ClearOption) (k : K) (f : ℕ → Bool)
      → IsGroup self k f
      → 0 < mask
      → let out = api.get self.address mask (flag_code (any_option option)) 0 0 k in
        let (r, after) = spec_read (has_any (8 * p.word_size) f mask) f mask option in
        Reports (8 * p.word_size) r (to_error out.0, out.1) × IsGroup self out.2 after
  any_out self mask option k f group pos =
      let w = 8 * p.word_size in
      let a = self.address in
      read_lem self (has_any w f mask) mask option
        (api.get a mask (flag_code (any_option option)) 0 0 k) k f group
        (λ found.
          let (i, lt, asked, there) = has_any_found w f mask found in
          any_there option i lt asked (group.1 i lt ∙ there))
        (λ lacks.
          any_refused a mask (flag_code (any_option option)) 0 k group.0 (bound option) pos
            (λ i lt asked. group.1 i lt ∙ has_any_none w f mask i lacks lt asked))
    where
      bound : (o : ClearOption) → flag_code (any_option o) < 2
      bound dont_clear = omega arith
      bound clear = omega arith

      any_there :
          (o : ClearOption) (i : ℕ)
          → i < 8 * p.word_size
          → bit mask i ≡ true
          → (view k self.address).flag i ≡ true
          → let out = api.get self.address mask (flag_code (any_option o)) 0 0 k in
            (out.0 ≡ 0)
            × AreSame (8 * p.word_size) (bit out.1) (view k self.address).flag
            × (view out.2 self.address ≡ (
                if is_clear o
                then record (view k self.address) {
                  flag = without_flags (view k self.address).flag mask;
                }
                else view k self.address))
      any_there dont_clear i lt asked there =
          any_done self.address mask 0 0 i k group.0 lt asked there
      any_there clear i lt asked there =
          any_clear_done self.address mask 0 0 i k group.0 lt asked there

  step_lem :
      (self : EventFlags K) (c : Call) (k : K) (f : ℕ → Bool)
      → IsGroup self k f
      → IsCall p c
      → let (s, after) = spec_step (8 * p.word_size) c f in
        (r : Error × ℕ) × (k' : K) × (step p api self c k ≡ returns (r, k'))
        × (Reports (8 * p.word_size) s r × IsGroup self k' after)
  unfolding step set_flags get wait_any_for wait_all_for wait_for
  step_lem self (sets mask) k f (idle, same) fits =
      let a = self.address in
      let (code, after) = or_done a mask k idle in
      (
        (success, 0),
        (api.set a mask 0 k).1,
        rw (to_error_of_zero _ code) refl,
        (
          refl,
          (
            ap (λ (v : NativeFlags). v.is_idle) after ∙ idle,
            λ i lt.
                ap (λ (v : NativeFlags). v.flag i) after ∙ ap (λ b. b || bit mask i) (same i lt),
          ),
        ),
      )
  step_lem self (clears mask) k f (idle, same) fits =
      let (k', done, idle', left) = clear_flags_lem p api laws self mask k idle fits in
      (
        (success, 0),
        k',
        bind-eq (clear_flags p api self mask) (λ e. pure (e, 0)) k done,
        (refl, (idle', λ i lt. left i lt ∙ ap (λ b. b && not (bit mask i)) (same i lt))),
      )
  step_lem self (gets_all mask option) k f group (pos, fits) =
      let out = api.get self.address mask (flag_code (all_option option)) 0 0 k in
      (
        (to_error out.0, out.1),
        out.2,
        rw (ticks_of_special_waits p supported).0 refl,
        all_out self mask option k f group pos,
      )
  step_lem self (gets_any mask option) k f group (pos, fits) =
      let out = api.get self.address mask (flag_code (any_option option)) 0 0 k in
      (
        (to_error out.0, out.1),
        out.2,
        rw (ticks_of_special_waits p supported).0 refl,
        any_out self mask option k f group pos,
      )

  -- In any sequence of `set`, `clear`, `get` and `waitAnyFor` of no time, with masks of at least one
  -- flag for the last two, an idle group is the set of its flags: every call returns without waiting
  -- and reports the error that it has on that set, with the flags that it gives where it succeeds,
  -- and the group stays idle and ends with the flags of the set.
  pub run-spec_run_of_flags :
      (self : EventFlags K) (cs : List Call) (k : K) (f : ℕ → Bool)
      → IsGroup self k f
      → AreCalls p cs
      → let (ss, last) = spec_run (8 * p.word_size) cs f in
        (rs : List (Error × ℕ)) × (k' : K) × (run p api self cs k ≡ returns (rs, k'))
        × (AllReport (8 * p.word_size) ss rs × IsGroup self k' last)
  unfolding run
  run-spec_run_of_flags self [] k f group calls = ([], k, refl, (tt, group))
  run-spec_run_of_flags self (c ∷ cs) k f group calls =
      let (r, k1, first, (reports, after)) = step_lem self c k f group calls.0 in
      let (rs, k', others, (report, last)) =
        run-spec_run_of_flags self cs k1 (spec_step (8 * p.word_size) c f).1 after calls.1 in
      (
        r ∷ rs,
        k',
        bind-eq (step p api self c) _ k first ∙ bind-eq (run p api self cs) _ k1 others,
        ((reports, report), last),
      )
