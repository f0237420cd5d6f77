-- ===== src/Thread/JoinStep.antt =====
-- thread.hpp, `join` called by one thread: what each step does, and the states that are reached.
use threadx_cpp.Prelude.{
  update, ℕ, ◌≡◌, ◌≢◌, inl, inr, refl, sym, ap, subst, ◌∙◌, Bool, true, false, Option, none, some,
  arith,
}
use threadx_cpp.Thread.Protocol.{
  Place, outside, constructed, checking, decided, waiting, resumed, returned, System, released,
  Step, call, fail, enter, refuse, pass, publish, acquire, abort, clear, finish, notify, Reach,
  start, next, initial, refused_after,
}
use threadx_cpp.Thread.JoinInv.{
  only, only-eq, Fits, FitsAt, Inv, Fits-place, Next, update_self, moved, as_joiner, joiner, stayed,
  Fits-finish, Fits-notify, count_after, none_ne_some,
}

-- The notification is a step after which the thread that joins stands as before.
notified_step :
    (j : ℕ) (s : System) (sig : Option ℕ)
    → Inv j s
    → s.exit_signal ≡ sig
    → s.finished ≡ true
    → s.notified ≡ false
    → s.holder ≡ none
    → Next j s (record (released s sig) { notified = true })
notified_step j s none v at_sig fin noted free =
    stayed s.finished true s.count v
      (subst
        (λ q.
          Fits j (s.place j) s.finished true s.aborted s.exit_signal s.holder
            (count_after j q s.count j))
        at_sig
        (Fits-notify j (s.place j) s.finished s.aborted s.exit_signal s.holder s.count free (
          subst (λ b. Fits j (s.place j) s.finished b s.aborted s.exit_signal s.holder (s.count j))
            noted v.fits)))
      (inr fin) (rw (noted) (omega arith)) (λ h. h)
notified_step j s (some i) v at_sig fin noted free =
    stayed s.finished true (update s.count i 1) v
      (subst
        (λ q.
          Fits j (s.place j) s.finished true s.aborted s.exit_signal s.holder
            (count_after j q s.count j))
        at_sig
        (Fits-notify j (s.place j) s.finished s.aborted s.exit_signal s.holder s.count free (
          subst (λ b. Fits j (s.place j) s.finished b s.aborted s.exit_signal s.holder (s.count j))
            noted v.fits)))
      (inr fin) (rw (noted) (omega arith)) (λ h. h)

-- The step of a thread that is not outside: it is the thread j.
own_step :
    {j : ℕ} {s t u : System} (i : ℕ) (q : Place)
    → q ≢ outside
    → s.place i ≡ q
    → t ≡ u
    → Inv j s
    → (Inv i s → FitsAt i q s → Next i s u)
    → Next j s t
own_step {j} {s} {t} {u} i q inside at_q eq v own =
    as_joiner (joiner i q v at_q inside)
      (λ w. subst (λ r. Next i s r) (sym eq) (own w (Fits-place q at_q w))) v

-- Who acquires has been notified of the exit.
acquired_after :
    {j : ℕ} {s : System} → Inv j s → s.place j ≡ waiting → s.count j ≡ 1 → s.finished ≡ true
acquired_after {j} {s} v at_place full =
    let (_, _, n) = Fits-place waiting at_place v in ground (arith, v.order, n, full)

pub Step-Next :
    {j : ℕ} {aborts : Bool} {s t : System} → Step (only j) aborts s t → Inv j s → Next j s t
Step-Next {j} {aborts} {s} {t} (call i at_place may unset free eq) v =
    as_joiner (only-eq j i may)
      (λ w.
        subst (λ r. Next i s r) (sym eq)
          (moved i s outside constructed s.aborted s.exit_signal s.holder (update s.count i 0) w
            at_place (omega arith) (λ e. cc) (unset, free w.exclusive, update_self s.count i 0)))
      v
Step-Next {j} {aborts} {s} {t} (fail i k at_place may set _ eq) v =
    let (unset, _) = Fits-place outside (ap s.place (sym (only-eq j i may)) ∙ at_place) v in
    absurd (none_ne_some (sym unset ∙ set))
Step-Next {j} {aborts} {s} {t} (enter i at_place free eq) v =
    own_step i constructed (λ e. cc) at_place eq v
      (λ w (sig, _, n).
        moved i s constructed checking s.aborted s.exit_signal (some i) s.count w at_place
          (omega arith) (λ e. cc) (sig, refl, n))
Step-Next {j} {aborts} {s} {t} (refuse i at_place why eq) v =
    own_step i checking (λ e. cc) at_place eq v
      (λ w (sig, _, _).
        moved i s checking returned s.aborted s.exit_signal none s.count w at_place (omega arith)
          (λ e. cc) (sig, refl, inl (refused_after w.other why)))
Step-Next {j} {aborts} {s} {t} (pass i at_place fin _ eq) v =
    own_step i checking (λ e. cc) at_place eq v
      (λ w (sig, hold, n).
        moved i s checking decided s.aborted s.exit_signal s.holder s.count w at_place (omega arith)
          (λ e. cc) (sig, hold, n, fin))
Step-Next {j} {aborts} {s} {t} (publish i at_place eq) v =
    own_step i decided (λ e. cc) at_place eq v
      (λ w (_, _, n, fin).
        moved i s decided waiting s.aborted (some i) none s.count w at_place (omega arith) (λ e. cc)
          (refl, refl, ground (arith, w.order)))
Step-Next {j} {aborts} {s} {t} (acquire i at_place full free eq) v =
    own_step i waiting (λ e. cc) at_place eq v
      (λ w (sig, _, _).
        moved i s waiting resumed s.aborted s.exit_signal s.holder (update s.count i 0) w at_place
          (omega arith) (λ e. cc) (sig, free w.exclusive, inl (acquired_after w at_place full)))
Step-Next {j} {aborts} {s} {t} (abort i may at_place free eq) v =
    own_step i waiting (λ e. cc) at_place eq v
      (λ w (sig, _, _).
        moved i s waiting resumed true s.exit_signal s.holder s.count w at_place (omega arith)
          (λ e. cc) (sig, free w.exclusive, inr refl))
Step-Next {j} {aborts} {s} {t} (clear i at_place free eq) v =
    own_step i resumed (λ e. cc) at_place eq v
      (λ w (_, _, left).
        moved i s resumed returned s.aborted none s.holder s.count w at_place (omega arith)
          (λ e. cc) (refl, free w.exclusive, left))
Step-Next {j} {aborts} {s} {t} (finish running free eq) v =
    subst (λ u. Next j s u) (sym eq)
      (stayed true s.notified s.count v
        (Fits-finish j (s.place j) s.notified s.aborted s.exit_signal s.holder (s.count j)
          (free v.exclusive)
          (subst (λ b. Fits j (s.place j) b s.notified s.aborted s.exit_signal s.holder (s.count j))
            running v.fits))
        (inr refl) (rw running (omega arith)) (λ h. refl))
Step-Next {j} {aborts} {s} {t} (notify fin noted _ free eq) v =
    subst (λ u. Next j s u) (sym eq)
      (notified_step j s s.exit_signal v refl fin noted (free v.exclusive))

initial-Inv : (own : ℕ → Bool) (j : ℕ) → own j ≡ false → Inv j (initial own true true)
initial-Inv own j other = record {
  fits = (refl, refl);
  order = inl refl;
  other = other;
  registered = refl;
  exclusive = refl;
  others = λ i ne. refl;
}

pub Reach-Inv :
    {own : ℕ → Bool} {j : ℕ} {aborts : Bool} {t : System}
    → own j ≡ false
    → Reach (only j) aborts (initial own true true) t
    → Inv j t
Reach-Inv {own} {j} other start = initial-Inv own j other
Reach-Inv other (next r st) = (Step-Next st (Reach-Inv other r)).inv
