-- ===== src/Thread/JoinOne.antt =====
-- thread.hpp, `join` called by one thread: it returns once the thread that it joins has finished.
use threadx_cpp.Prelude.{
  ℕ, zero, suc, ◌<◌, ◌≡◌, ◌≢◌, ◌⊎◌, inl, inr, refl, ap, ◌∙◌, Bool, true, false, arith,
  if◌then◌else◌,
}
use threadx_cpp.Thread.Protocol.{
  Place, outside, constructed, checking, decided, waiting, resumed, returned, failed, System, Step,
  enter, refuse, publish, acquire, clear, notify, Reach, initial,
}
use threadx_cpp.Thread.JoinInv.{only, Inv, Fits-place, rank, Next}
use threadx_cpp.Thread.JoinStep.{Step-Next, Reach-Inv}

-- Every run from a state gets to a state of P: there is a step, and all steps lead to such states.
pub data Inevitable (callers : ℕ → Bool) (aborts : Bool) (P : System → Type 0)
    : System → Type 0 where
  arrived : {s : System} → P s → Inevitable callers aborts P s
  onward :
      {s : System} (t : System)
      → Step callers aborts s t
      → ((u : System) → Step callers aborts s u → Inevitable callers aborts P u)
      → Inevitable callers aborts P s

-- After the end of the thread, somebody can take a step until the call returns.
record CanStep (j : ℕ) (aborts : Bool) (s : System) : Type 0 where
  to : System
  by : Step (only j) aborts s to

only_self : (j : ℕ) → only j j ≡ true
only_self j = ground arith

can_wake :
    {j : ℕ} {aborts : Bool} {s : System}
    → Inv j s
    → s.finished ≡ true
    → s.place j ≡ waiting
    → (b : Bool) → s.notified ≡ b
    → CanStep j aborts s
can_wake {j} {aborts} {s} v fin at_place true noted =
    let (_, free, n) = Fits-place waiting at_place v in
    record {
      to = _;
      by = acquire j at_place (n ∙ ap (λ b. if b then 1 else 0) noted) (λ e. free) refl;
    }
can_wake {j} {aborts} {s} v fin at_place false noted =
    let (_, free, n) = Fits-place waiting at_place v in
    record { to = _; by = notify fin noted v.registered (λ e. free) refl }

can_step :
    {j : ℕ} {aborts : Bool} {s : System} (q : Place)
    → Inv j s
    → s.finished ≡ true
    → s.place j ≡ q
    → q ≢ outside
    → (q ≡ returned) ⊎ CanStep j aborts s
can_step outside v fin at_place inside = absurd (inside refl)
can_step {j} {aborts} {s} constructed v fin at_place inside =
    let (_, free, _) = Fits-place constructed at_place v in
    inr (record { to = _; by = enter j at_place (λ e. free) refl })
can_step {j} {aborts} {s} checking v fin at_place inside =
    inr (record { to = _; by = refuse j at_place (inl fin) refl })
can_step {j} {aborts} {s} decided v fin at_place inside =
    inr (record { to = _; by = publish j at_place refl })
can_step {j} {aborts} {s} waiting v fin at_place inside =
    inr (can_wake v fin at_place s.notified refl)
can_step {j} {aborts} {s} resumed v fin at_place inside =
    let (_, free, _) = Fits-place resumed at_place v in
    inr (record { to = _; by = clear j at_place (λ e. free) refl })
can_step returned v fin at_place inside = inl refl
can_step failed v fin at_place inside = elim (Fits-place failed at_place v) [ ]

-- On the number of steps that are left.
returns_within :
    (n : ℕ) {j : ℕ} {aborts : Bool} (s : System)
    → Inv j s
    → rank j s < n
    → s.finished ≡ true
    → s.place j ≢ outside
    → Inevitable (only j) aborts (λ t. t.place j ≡ returned) s
returns_within zero s v below fin inside = absurd (omega arith)
returns_within (suc n) {j} {aborts} s v below fin inside =
    elim (can_step {aborts = aborts} (s.place j) v fin refl inside) [
      | inl there ↦ arrived there
      | inr c ↦ onward c.to c.by (λ u st.
          let w : Next j s u = Step-Next st v in
          returns_within n u w.inv (omega (arith, w.less)) (w.still fin) (w.inside inside))
    ]

-- While one thread, another than the joined one, calls `join` on a thread and nobody else does, where
-- critical sections are exclusive and the notification is registered before the thread ends: from
-- every state that is reached, with the call begun and the thread that it joins finished, every order
-- of the steps that are left gets the call to return, and there is always a step.
pub join-returns :
    (own : ℕ → Bool) (j : ℕ) (aborts : Bool) (s : System)
    → own j ≡ false
    → Reach (only j) aborts (initial own true true) s
    → s.finished ≡ true
    → s.place j ≢ outside
    → Inevitable (only j) aborts (λ t. t.place j ≡ returned) s
join-returns own j aborts s other r fin inside =
    returns_within (suc (rank j s)) s (Reach-Inv other r) (omega arith) fin inside
