-- ===== src/Thread/JoinInv.antt =====
-- thread.hpp, `join` called by one thread: what the fields of the system are at each place where the
-- thread can stand, step by step.
use threadx_cpp.Prelude.{
  update, ℕ, ◌+◌, ◌<◌, ◌≡◌, ◌≢◌, ◌⊎◌, inl, refl, sym, subst, ◌∙◌, Bool, true, false, Option, none,
  some, arith, ℕ_discrete, if◌then◌else◌,
}
use mathlib.Core.Logic.{ite}
use threadx_cpp.Thread.Protocol.{
  Place, outside, constructed, checking, decided, waiting, resumed, returned, failed, System, go,
}

-- The callers of `join`, where there is one.
abbrev pub only : ℕ → ℕ → Bool
only j i = ite (ℕ_discrete i j) true false

pub only-eq : (j i : ℕ) → only j i ≡ true → i ≡ j
only-eq j i h = ground arith

-- What the other fields are while the thread j stands at a place.
abbrev pub Fits : ℕ → Place → Bool → Bool → Bool → Option ℕ → Option ℕ → ℕ → Type 0
Fits j outside fin noted ab sig hold n = (sig ≡ none) × (hold ≡ none)
Fits j constructed fin noted ab sig hold n = (sig ≡ none) × (hold ≡ none) × (n ≡ 0)
Fits j checking fin noted ab sig hold n = (sig ≡ none) × (hold ≡ some j) × (n ≡ 0)
Fits j decided fin noted ab sig hold n = (sig ≡ none) × (hold ≡ some j) × (n ≡ 0) × (fin ≡ false)
Fits j waiting fin noted ab sig hold n =
    (sig ≡ some j) × (hold ≡ none) × (n ≡ (if noted then 1 else 0))
Fits j resumed fin noted ab sig hold n =
    (sig ≡ some j) × (hold ≡ none) × ((fin ≡ true) ⊎ (ab ≡ true))
Fits j returned fin noted ab sig hold n =
    (sig ≡ none) × (hold ≡ none) × ((fin ≡ true) ⊎ (ab ≡ true))
Fits j failed fin noted ab sig hold n = ⊥

abbrev pub FitsAt : ℕ → Place → System → Type 0
FitsAt j q s = Fits j q s.finished s.notified s.aborted s.exit_signal s.holder (s.count j)

pub record Inv (j : ℕ) (s : System) : Type 0 where
  pub fits : FitsAt j (s.place j) s
  pub order : (s.notified ≡ false) ⊎ (s.finished ≡ true)
  pub other : s.own j ≡ false
  pub registered : s.registered ≡ true
  pub exclusive : s.exclusive ≡ true
  pub others : (i : ℕ) → i ≢ j → s.place i ≡ outside

pub Fits-place : {j : ℕ} {s : System} (q : Place) → s.place j ≡ q → Inv j s → FitsAt j q s
Fits-place {j} {s} q h v = subst (λ r. FitsAt j r s) h v.fits

-- How many steps are left at most.
abbrev place_rank : Place → ℕ
place_rank outside = 6
place_rank constructed = 5
place_rank checking = 4
place_rank decided = 3
place_rank waiting = 2
place_rank resumed = 1
place_rank _ = 0

abbrev pub rank : ℕ → System → ℕ
rank j s = place_rank (s.place j) + (if s.finished then 0 else 1) + (if s.notified then 0 else 1)

-- What a step does.
pub record Next (j : ℕ) (s t : System) : Type 0 where
  pub inv : Inv j t
  pub less : rank j t < rank j s
  pub still : s.finished ≡ true → t.finished ≡ true
  pub inside : s.place j ≢ outside → t.place j ≢ outside

pub update_self : {A : Type 0} (f : ℕ → A) (i : ℕ) (a : A) → update f i a i ≡ a
update_self f i a = ground arith

update_ne : {A : Type 0} (f : ℕ → A) (i : ℕ) (a : A) (j : ℕ) → j ≢ i → update f i a j ≡ f j
update_ne f i a j h = ground arith

-- A move of the thread j from the place p to the place q.
pub moved :
    (j : ℕ) (s : System) (p q : Place) (ab : Bool) (sig hold : Option ℕ) (cs : ℕ → ℕ)
    → Inv j s
    → s.place j ≡ p
    → place_rank q < place_rank p
    → q ≢ outside
    → Fits j q s.finished s.notified ab sig hold (cs j)
    → Next j s (record (go s j q) { aborted = ab; exit_signal = sig; holder = hold; count = cs })
moved j s p q ab sig hold cs v at_p down inside f = record {
  inv = record {
    fits = rw (update_self s.place j q) f;
    order = v.order;
    other = v.other;
    registered = v.registered;
    exclusive = v.exclusive;
    others = λ i ne. update_ne s.place j q i ne ∙ v.others i ne;
  };
  less = rw (update_self s.place j q, at_p) (omega arith);
  still = λ h. h;
  inside = λ h. rw (update_self s.place j q) inside;
}

-- The lemmas about a thread's own steps are stated for the thread that takes the step.
pub as_joiner : {i j : ℕ} {s t : System} → i ≡ j → (Inv i s → Next i s t) → Inv j s → Next j s t
as_joiner {i} {j} {s} {t} same own v =
    subst (λ k. Next k s t) same (own (subst (λ k. Inv k s) (sym same) v))

-- Who is not outside is the thread j.
pub joiner :
    {j : ℕ} {s : System} (i : ℕ) (q : Place) → Inv j s → s.place i ≡ q → q ≢ outside → i ≡ j
joiner {j} {s} i q v at_q inside = elim (ℕ_discrete i j) [
  | yes same ↦ same
  | no other ↦ absurd (inside (sym at_q ∙ v.others i other))
]

-- The thread that is joined takes a step: nobody moves.
pub stayed :
    {j : ℕ} {s : System} (fin noted : Bool) (cs : ℕ → ℕ)
    → Inv j s
    → Fits j (s.place j) fin noted s.aborted s.exit_signal s.holder (cs j)
    → (noted ≡ false) ⊎ (fin ≡ true)
    → (if fin then 0 else 1) + (if noted then 0 else 1)
      < (if s.finished then 0 else 1) + (if s.notified then 0 else 1)
    → (s.finished ≡ true → fin ≡ true)
    → Next j s (record s { finished = fin; notified = noted; count = cs })
stayed fin noted cs v f order down still = record {
  inv = record {
    fits = f;
    order = order;
    other = v.other;
    registered = v.registered;
    exclusive = v.exclusive;
    others = v.others;
  };
  less = omega arith;
  still = still;
  inside = λ h. h;
}

pub none_ne_some : {k : ℕ} → none ≢ some k
none_ne_some {k} = λ e. cc

-- A thread that is finished stays at a place that fits.
pub Fits-finish :
    (j : ℕ) (q : Place) (noted ab : Bool) (sig hold : Option ℕ) (n : ℕ)
    → hold ≡ none
    → Fits j q false noted ab sig hold n
    → Fits j q true noted ab sig hold n
Fits-finish j outside noted ab sig hold n free f = f
Fits-finish j constructed noted ab sig hold n free f = f
Fits-finish j checking noted ab sig hold n free f = f
Fits-finish j decided noted ab sig hold n free (e, h, r, fin) = absurd (none_ne_some (sym free ∙ h))
Fits-finish j waiting noted ab sig hold n free f = f
Fits-finish j resumed noted ab sig hold n free (e, h, r) = (e, h, inl refl)
Fits-finish j returned noted ab sig hold n free (e, h, r) = (e, h, inl refl)
Fits-finish j failed noted ab sig hold n free f = elim f [ ]

-- The notification, with the count of the semaphore of j after it, at each place.
abbrev pub count_after : ℕ → Option ℕ → (ℕ → ℕ) → ℕ → ℕ
count_after j none cs = cs
count_after j (some i) cs = update cs i 1

pub Fits-notify :
    (j : ℕ) (q : Place) (fin ab : Bool) (sig hold : Option ℕ) (cs : ℕ → ℕ)
    → hold ≡ none
    → Fits j q fin false ab sig hold (cs j)
    → Fits j q fin true ab sig hold (count_after j sig cs j)
Fits-notify j outside fin ab sig hold cs free f = f
Fits-notify j constructed fin ab sig hold cs free (e, h, n) = (e, h, rw e n)
Fits-notify j checking fin ab sig hold cs free (e, h, n) = (e, h, rw e n)
Fits-notify j decided fin ab sig hold cs free (e, h, n, r) = (e, h, rw e n, r)
Fits-notify j waiting fin ab sig hold cs free (e, h, n) = (e, h, rw e (update_self cs j 1))
Fits-notify j resumed fin ab sig hold cs free f = f
Fits-notify j returned fin ab sig hold cs free f = f
Fits-notify j failed fin ab sig hold cs free f = elim f [ ]
