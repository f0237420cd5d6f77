-- ===== src/Thread/JoinTwo.antt =====
-- thread.hpp, `join` called by two threads on one thread.
use threadx_cpp.Prelude.{
  update, ℕ, ◌≡◌, ◌≢◌, refl, sym, ap, ◌∙◌, Bool, true, false, none, some, arith, subst,
}
use threadx_cpp.Thread.Protocol.{
  Place, constructed, checking, decided, waiting, resumed, returned, System, go, released, Step,
  call, fail, enter, refuse, pass, publish, acquire, abort, clear, finish, notify, Reach, start,
  next, initial,
}

-- Every thread may call `join`.
abbrev pub anyone : ℕ → Bool
anyone i = true

-- The thread i waits for a release that has been given to another thread.
abbrev Stuck : ℕ → System → Type 0
Stuck i s = (s.place i ≡ waiting) × (s.count i ≡ 0) × (s.notified ≡ true)

other_place : {i k : ℕ} (f : ℕ → Place) {q : Place} → f i ≡ waiting → f k ≡ q → q ≢ waiting → i ≢ k
other_place {i} {k} f {q} at_i at_k ne same = ne (sym at_k ∙ ap f (sym same) ∙ at_i)

moved_other :
    {A : Type 0} {i k : ℕ} (f : ℕ → A) (a : A) {b : A} → i ≢ k → f i ≡ b → update f k a i ≡ b
moved_other f a ne h = ground (arith, h)

-- A step that moves another thread, and touches neither a count nor the exit notification, leaves
-- the thread stuck.
moved_Stuck :
    {i k : ℕ} {t u : System} {q : Place} (s : System) (g : Place)
    → t ≡ u
    → s.place k ≡ q
    → q ≢ waiting
    → (u.place ≡ update s.place k g) × (u.count ≡ s.count) × (u.notified ≡ s.notified)
    → Stuck i s
    → Stuck i t
moved_Stuck {i} {k} {t} {u} s g eq at_k elsewhere (pl, co, nt) (p, c, n) =
    let ne : i ≢ k = other_place s.place p at_k elsewhere in
    subst (Stuck i) (sym eq)
      (ap (λ f. f i) pl ∙ moved_other s.place _ ne p, ap (λ f. f i) co ∙ c, nt ∙ n)

Step-Stuck : {i : ℕ} {s t : System} → Step anyone false s t → Stuck i s → Stuck i t
Step-Stuck {i} {s} {t} (call k at_k _ _ _ eq) (p, c, n) =
    let ne : i ≢ k = other_place s.place p at_k (λ e. cc) in
    subst (Stuck i) (sym eq) (moved_other s.place _ ne p, moved_other s.count _ ne c, n)
Step-Stuck {i} {s} (fail k _ at_k _ _ _ eq) v =
    moved_Stuck s _ eq at_k (λ e. cc) (refl, refl, refl) v
Step-Stuck {i} {s} (enter k at_k _ eq) v = moved_Stuck s _ eq at_k (λ e. cc) (refl, refl, refl) v
Step-Stuck {i} {s} (refuse k at_k _ eq) v = moved_Stuck s _ eq at_k (λ e. cc) (refl, refl, refl) v
Step-Stuck {i} {s} (pass k at_k _ _ eq) v = moved_Stuck s _ eq at_k (λ e. cc) (refl, refl, refl) v
Step-Stuck {i} {s} (publish k at_k eq) v = moved_Stuck s _ eq at_k (λ e. cc) (refl, refl, refl) v
Step-Stuck {i} {s} {t} (acquire k _ full _ eq) (p, c, n) =
    let ne : i ≢ k = λ same. ground (arith, c, full, ap s.count same) in
    subst (Stuck i) (sym eq) (moved_other s.place _ ne p, moved_other s.count _ ne c, n)
Step-Stuck {i} {s} {t} (abort k may _ _ eq) v = cc
Step-Stuck {i} {s} (clear k at_k _ eq) v = moved_Stuck s _ eq at_k (λ e. cc) (refl, refl, refl) v
Step-Stuck {i} {s} {t} (finish _ _ eq) (p, c, n) = subst (Stuck i) (sym eq) (p, c, n)
Step-Stuck {i} {s} {t} (notify _ unnoted _ _ eq) (p, c, n) = cc

Reach-Stuck : {i : ℕ} {s t : System} → Reach anyone false s t → Stuck i s → Stuck i t
Reach-Stuck start v = v
Reach-Stuck (next r st) v = Step-Stuck st (Reach-Stuck r v)

-- Both threads are behind the assertion; then both publish their signal; then the thread ends, and
-- notifies the second, which returns.
abbrev both_called : (ℕ → Bool) → Bool → ℕ → ℕ → System
both_called own exclusive i j =
    let a : System = record (go (initial own true exclusive) i constructed) {
      count = update (λ k. 0) i 0;
    } in
    record (go a j constructed) { count = update a.count j 0 }

abbrev first_waits : (ℕ → Bool) → Bool → ℕ → ℕ → System
first_waits own exclusive i j =
    record (go
      (go (record (go (both_called own exclusive i j) i checking) { holder = some i }) i decided) i
      waiting) { holder = none; exit_signal = some i }

abbrev both_wait : (ℕ → Bool) → Bool → ℕ → ℕ → System
both_wait own exclusive i j =
    record (go
      (go (record (go (first_waits own exclusive i j) j checking) { holder = some j }) j decided) j
      waiting) { holder = none; exit_signal = some j }

abbrev notified_one : (ℕ → Bool) → Bool → ℕ → ℕ → System
notified_one own exclusive i j =
    record (released (record (both_wait own exclusive i j) { finished = true }) (some j)) {
      notified = true;
    }

abbrev second_returned : (ℕ → Bool) → Bool → ℕ → ℕ → System
second_returned own exclusive i j =
    let a = notified_one own exclusive i j in
    let b : System = record (go a j resumed) { count = update a.count j 0 } in
    record (go b j returned) { exit_signal = none }

module _ (own : ℕ → Bool) (exclusive : Bool) (i j : ℕ) (other_i : own i ≡ false)
    (other_j : own j ≡ false) (ne : i ≢ j) where
  calls : Reach anyone false (initial own true exclusive) (both_called own exclusive i j)
  calls =
      next (next start (call i refl refl refl (λ e. refl) refl))
        (call j (ground (arith, ne)) refl refl (λ e. refl) refl)

  waits_first : Reach anyone false (both_called own exclusive i j) (first_waits own exclusive i j)
  waits_first =
      next
        (next (next start (enter i (ground (arith, ne)) (λ e. refl) refl))
          (pass i (ground (arith, ne)) refl other_i refl))
        (publish i (ground (arith, ne)) refl)

  waits_both : Reach anyone false (both_called own exclusive i j) (both_wait own exclusive i j)
  waits_both =
      next
        (next (next waits_first (enter j (ground (arith, ne)) (λ e. refl) refl))
          (pass j (ground (arith, ne)) refl other_j refl))
        (publish j (ground (arith, ne)) refl)

  is_notified : Reach anyone false (both_called own exclusive i j) (notified_one own exclusive i j)
  is_notified =
      next (next waits_both (finish refl (λ e. refl) refl)) (notify refl refl refl (λ e. refl) refl)

  second_returns :
      Reach anyone false (both_called own exclusive i j) (second_returned own exclusive i j)
  second_returns =
      next (next is_notified (acquire j (ground (arith, ne)) (ground (arith, ne)) (λ e. refl) refl))
        (clear j (ground (arith, ne)) (λ e. refl) refl)

  second_returned-Stuck : Stuck i (second_returned own exclusive i j)
  second_returned-Stuck = (ground (arith, ne), ground (arith, ne), refl)

-- Two threads, neither of which is the joined one, call `join` on one thread whose notification is
-- registered, whether or not critical sections are exclusive. A state is reached
-- in which both are behind the assertion, with no signal set and the thread not finished; and from it,
-- without an abort, one in which the thread has finished, the second has returned and the first waits.
-- From there the first waits in every state that can be reached without an abort.
pub two_joins_lose_one :
    (own : ℕ → Bool) (exclusive : Bool) (i j : ℕ)
    → own i ≡ false
    → own j ≡ false
    → i ≢ j
    → (r : System) × (s : System) × Reach anyone false (initial own true exclusive) r
      × (r.place i ≡ constructed)
      × (r.place j ≡ constructed)
      × (r.exit_signal ≡ none)
      × (r.finished ≡ false)
      × Reach anyone false r s
      × (s.finished ≡ true)
      × (s.place j ≡ returned)
      × ((t : System) → Reach anyone false s t → t.place i ≡ waiting)
two_joins_lose_one own exclusive i j other_i other_j ne = (
  both_called own exclusive i j,
  second_returned own exclusive i j,
  calls own exclusive i j other_i other_j ne,
  ground (arith, ne),
  ground (arith, ne),
  refl,
  refl,
  second_returns own exclusive i j other_i other_j ne,
  refl,
  ground (arith, ne),
  λ t r.
      let (p, _, _) = Reach-Stuck r (second_returned-Stuck own exclusive i j other_i other_j ne) in
      p,
)
