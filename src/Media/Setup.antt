-- ===== src/Media/Setup.antt =====
-- media.hpp: the set-up of FileX by the constructors of a program's media.
use threadx_cpp.Prelude.{
  ◌+◌, ◌==◌, ◌≡◌, refl, ◌∙◌, true, false, List, [], ◌∷◌, M, ◌>>◌, pure, bind-eq, returns, none,
  arith, if◌then◌else◌,
}
use threadx_cpp.Common.{Platform}
use threadx_cpp.FileX.{success}
use threadx_cpp.Media.{Media, World, Tm, initialise_once, construct}
use threadx_cpp.Media.Native.{MediaApi}

module _ {K : Type 0} (p : Platform) (api : MediaApi K) where
  -- Constructor calls, one after the other, each at the local time then.
  unfoldable pub construct_all : List (Media K × Tm) → M (World K) (Unit {0})
  construct_all [] = pure tt
  construct_all ((m, time) ∷ ms) = do construct p api m time; construct_all ms

  -- No media of the list has a callback, as by default.
  abbrev pub AllPlain : List (Media K × Tm) → Type 0
  AllPlain [] = Unit {0}
  AllPlain ((m, _) ∷ ms) =
      ((m.open_notify_callback ≡ none) × (m.close_notify_callback ≡ none)) × AllPlain ms

  -- FileX initialised, and its clock set: the time of day if it has taken the date.
  abbrev pub set_up : Tm → K → K
  set_up time k =
      let dated =
        api.system_date_set (time.year + 1900) (time.mon + 1) time.mday (api.system_initialize k) in
      if dated.0 == api.values success
      then (api.system_time_set time.hour time.min time.sec dated.1).1
      else dated.1

  initialise_once-set_up :
      (time : Tm) (k : K)
      → initialise_once p api time (record { file_system_initialised = false; kernel = k })
        ≡ returns (tt, record { file_system_initialised = true; kernel = set_up time k })
  unfolding initialise_once
  initialise_once-set_up time k = ground arith

  initialise_once-again :
      (time : Tm) (k : K)
      → initialise_once p api time (record { file_system_initialised = true; kernel = k })
        ≡ returns (tt, record { file_system_initialised = true; kernel = k })
  unfolding initialise_once
  initialise_once-again time k = refl

  construct_plain :
      (m : Media K) (time : Tm) (w w' : World K)
      → m.open_notify_callback ≡ none
      → m.close_notify_callback ≡ none
      → initialise_once p api time w ≡ returns (tt, w')
      → construct p api m time w ≡ returns (tt, w')
  unfolding construct
  construct_plain m time w w' opening closing e =
      bind-eq (initialise_once p api time) _ w e ∙ rw (opening, closing) refl

  later_constructions :
      (ms : List (Media K × Tm)) (k : K)
      → AllPlain ms
      → construct_all ms (record { file_system_initialised = true; kernel = k })
        ≡ returns (tt, record { file_system_initialised = true; kernel = k })
  unfolding construct_all
  later_constructions [] k plain = refl
  later_constructions ((m, time) ∷ ms) k (here, plain) =
      let w : World K = record { file_system_initialised = true; kernel = k } in
      bind-eq (construct p api m time) (λ _. construct_all ms) w
        (construct_plain m time w w here.0 here.1 (initialise_once-again time k))
      ∙ later_constructions ms k plain

  -- However many media without callbacks a program constructs, at least one, FileX is initialised
  -- once, and its clock is set once, to the local time at the first construction; where FileX does
  -- not take the date or the time, the constructor goes on all the same.
  pub construct_all-set_up :
      (m : Media K) (time : Tm) (ms : List (Media K × Tm)) (k : K)
      → AllPlain ((m, time) ∷ ms)
      → construct_all ((m, time) ∷ ms) (record { file_system_initialised = false; kernel = k })
        ≡ returns (tt, record { file_system_initialised = true; kernel = set_up time k })
  unfolding construct_all
  construct_all-set_up m time ms k (here, plain) =
      let w : World K = record { file_system_initialised = false; kernel = k } in
      let w' : World K = record { file_system_initialised = true; kernel = set_up time k } in
      bind-eq (construct p api m time) (λ _. construct_all ms) w
        (construct_plain m time w w' here.0 here.1 (initialise_once-set_up time k))
      ∙ later_constructions ms (set_up time k) plain
