-- ===== src/Thread/JoinSafety.antt =====
-- thread.hpp, `join` called by any threads: none returns before the thread that they join has
-- finished, but for aborted waits.
use threadx_cpp.Prelude.{
  update, ℕ, ◌<◌, ◌≡◌, ◌⊎◌, inl, inr, ◌≢◌, refl, sym, ap, ◌∙◌, subst, Bool, true, false, Option,
  none, some, arith, ℕ_discrete,
}
use threadx_cpp.Thread.Protocol.{
  Place, constructed, checking, decided, waiting, resumed, returned, failed, System, go, released,
  Step, call, fail, enter, refuse, pass, publish, acquire, abort, clear, finish, notify, Reach,
  start, next, initial, refused_after,
}

-- Whether a thread has gone past its wait.
abbrev has_left : Place → Bool
has_left resumed = true
has_left returned = true
has_left _ = false

-- A semaphore has an instance only after the end of the thread, and who has gone past its wait did
-- so after that, or after an abort.
record IsSafe (s : System) : Type 0 where
  given : (i : ℕ) → 0 < s.count i → s.finished ≡ true
  left :
      (i : ℕ)
      → s.own i ≡ false
      → has_left (s.place i) ≡ true
      → (s.finished ≡ true) ⊎ (s.aborted ≡ true)

update_self : (f : ℕ → Place) (i j : ℕ) (q : Place) → j ≡ i → q ≡ update f i q j
update_self f i j q same = ground arith

update_ne : (f : ℕ → Place) (i j : ℕ) (q : Place) → j ≢ i → f j ≡ update f i q j
update_ne f i j q other = ground arith

carried : {A : Type 0} {a b : Bool} → (a ≡ true → b ≡ true) → A ⊎ (a ≡ true) → A ⊎ (b ≡ true)
carried f (inl x) = inl x
carried f (inr y) = inr (f y)

-- A thread moves, and goes past its wait only after the end of the thread or an abort.
moved-IsSafe :
    (s : System) (i : ℕ) (q : Place) (ab : Bool) (sig hold : Option ℕ) (cs : ℕ → ℕ)
    → IsSafe s
    → (s.own i ≡ false → has_left q ≡ true → (s.finished ≡ true) ⊎ (ab ≡ true))
    → (s.aborted ≡ true → ab ≡ true)
    → ((j : ℕ) → 0 < cs j → s.finished ≡ true)
    → IsSafe (record (go s i q) { aborted = ab; exit_signal = sig; holder = hold; count = cs })
moved-IsSafe s i q ab sig hold cs v here still counts = record {
  given = counts;
  left = λ j other h. elim (ℕ_discrete j i) [
    | yes same ↦
        here (subst (λ x. s.own x ≡ false) same other)
          (ap has_left (update_self s.place i j q same) ∙ h)
    | no apart ↦ carried still (v.left j other (ap has_left (update_ne s.place i j q apart) ∙ h))
  ];
}

-- No instance comes from a count that is set to 0.
emptied : {s : System} (i : ℕ) → IsSafe s → (j : ℕ) → 0 < update s.count i 0 j → s.finished ≡ true
emptied {s} i v j pos = elim (ℕ_discrete j i) [
  | yes same ↦ absurd (ground arith)
  | no other ↦ v.given j (ground arith)
]

finished-released : (s : System) (signal : Option ℕ) → (released s signal).finished ≡ s.finished
finished-released s none = refl
finished-released s (some i) = refl

Step-IsSafe :
    {callers : ℕ → Bool} {may_abort : Bool} {s t : System}
    → Step callers may_abort s t
    → IsSafe s
    → IsSafe t
Step-IsSafe {s = s} (call i _ _ _ _ eq) v = subst IsSafe (sym eq) (
    moved-IsSafe s i constructed s.aborted s.exit_signal s.holder (update s.count i 0) v (λ o e. cc)
      (λ h. h) (emptied i v))
Step-IsSafe {s = s} (fail i _ _ _ _ _ eq) v = subst IsSafe (sym eq) (
    moved-IsSafe s i failed s.aborted s.exit_signal s.holder s.count v (λ o e. cc) (λ h. h) v.given)
Step-IsSafe {s = s} (enter i _ _ eq) v = subst IsSafe (sym eq) (
    moved-IsSafe s i checking s.aborted s.exit_signal (some i) s.count v (λ o e. cc) (λ h. h)
      v.given)
Step-IsSafe {s = s} (refuse i _ why eq) v = subst IsSafe (sym eq) (
    moved-IsSafe s i returned s.aborted s.exit_signal none s.count v
      (λ o e. inl (refused_after o why)) (λ h. h) v.given)
Step-IsSafe {s = s} (pass i _ _ _ eq) v = subst IsSafe (sym eq) (
    moved-IsSafe s i decided s.aborted s.exit_signal s.holder s.count v (λ o e. cc) (λ h. h)
      v.given)
Step-IsSafe {s = s} (publish i _ eq) v =
    subst IsSafe (sym eq)
      (moved-IsSafe s i waiting s.aborted (some i) none s.count v (λ o e. cc) (λ h. h) v.given)
Step-IsSafe {s = s} (acquire i _ full _ eq) v = subst IsSafe (sym eq) (
    moved-IsSafe s i resumed s.aborted s.exit_signal s.holder (update s.count i 0) v
      (λ o e. inl (v.given i (omega (arith, full)))) (λ h. h) (emptied i v))
Step-IsSafe {s = s} (abort i _ _ _ eq) v = subst IsSafe (sym eq) (
    moved-IsSafe s i resumed true s.exit_signal s.holder s.count v (λ o e. inr refl) (λ h. refl)
      v.given)
Step-IsSafe {s = s} (clear i at_place _ eq) v = subst IsSafe (sym eq) (
    moved-IsSafe s i returned s.aborted none s.holder s.count v
      (λ o e. v.left i o (ap has_left at_place)) (λ h. h) v.given)
Step-IsSafe {s = s} (finish _ _ eq) v =
    subst IsSafe (sym eq) (record { given = λ i h. refl; left = λ i o h. inl refl })
Step-IsSafe {s = s} (notify fin _ _ _ eq) v = subst IsSafe (sym eq) (
    let after = finished-released s s.exit_signal ∙ fin in
    record { given = λ i h. after; left = λ i o h. inl after })

initial-IsSafe :
    (own : ℕ → Bool) (registered exclusive : Bool) → IsSafe (initial own registered exclusive)
initial-IsSafe own registered exclusive = record {
  given = λ i h. absurd (omega (arith, h));
  left = λ i o h. cc;
}

Reach-IsSafe :
    {own callers : ℕ → Bool} {registered exclusive may_abort : Bool} {t : System}
    → Reach callers may_abort (initial own registered exclusive) t
    → IsSafe t
Reach-IsSafe {own} {registered = registered} {exclusive = exclusive} start =
    initial-IsSafe own registered exclusive
Reach-IsSafe (next r st) = Step-IsSafe st (Reach-IsSafe r)

-- In every state that is reached while any threads call `join` on a thread, whether or not critical
-- sections are exclusive and the notification is registered: if a call of
-- another thread than the joined one has returned then the joined one has finished, or a wait was
-- aborted.
pub join-returns_after_exit :
    (own callers : ℕ → Bool) (registered exclusive may_abort : Bool) (t : System) (i : ℕ)
    → Reach callers may_abort (initial own registered exclusive) t
    → t.own i ≡ false
    → t.place i ≡ returned
    → (t.finished ≡ true) ⊎ (t.aborted ≡ true)
join-returns_after_exit own callers registered exclusive may_abort t i r other at_place =
    (Reach-IsSafe r).left i other (ap has_left at_place)
