-- ===== src/Kernel/Preemption.antt =====
-- kernel.cpp, CriticalSection, instruction by instruction on one processor: several contexts call
-- `lock` and `unlock`, and any of them may be preempted while interrupts are not masked.
use threadx_cpp.Prelude.{
  update, update_self, update_ne, ℕ, ◌≡◌, ◌≢◌, refl, sym, ap, subst, ◌∙◌, Bool, true, false,
  ℕ_discrete,
}

-- Where a context stands: outside, in `lock` between test_and_set and TX_DISABLE, inside, in
-- `unlock` before TX_RESTORE, and between TX_RESTORE and clear.
pub data Pc : Type 0 where
  outside flag_set inside flag_tested restored : Pc

pub record System : Type 0 where
  pub locked : Bool
  pub masked : Bool
  pub saved : Bool
  pub current : ℕ
  pub pc : ℕ → Pc

-- The current context goes to the place a.
abbrev pub go : System → Pc → System
go s a = record s { pc = update s.pc s.current a }

abbrev pub here : System → Pc
here s = s.pc s.current

-- One step; `may` says where a context may be preempted, beside that interrupts are not masked.
pub data Step (may : Pc → Bool) (s t : System) : Type 0 where
  preempt :
      (j : ℕ) → s.masked ≡ false → may (here s) ≡ true → t ≡ record s { current = j } → Step may s t
  set_flag :
      here s ≡ outside
      → s.locked ≡ false
      → t ≡ record (go s flag_set) { locked = true }
      → Step may s t
  find_set : here s ≡ outside → s.locked ≡ true → t ≡ go s inside → Step may s t
  disable :
      here s ≡ flag_set
      → t ≡ record (go s inside) { saved = s.masked; masked = true }
      → Step may s t
  test_flag : here s ≡ inside → s.locked ≡ true → t ≡ go s flag_tested → Step may s t
  find_clear : here s ≡ inside → s.locked ≡ false → t ≡ go s outside → Step may s t
  restore : here s ≡ flag_tested → t ≡ record (go s restored) { masked = s.saved } → Step may s t
  clear : here s ≡ restored → t ≡ record (go s outside) { locked = false } → Step may s t

pub data Reach (may : Pc → Bool) (s : System) : System → Type 0 where
  start : Reach may s s
  next : {t u : System} → Reach may s t → Step may t u → Reach may s u

true≢false : ◌≢◌ {A = Bool} true false
true≢false e = cc

outside≢inside : outside ≢ inside
outside≢inside e = cc

-- Nobody is in a critical section.
pub record IsQuiet (s : System) : Type 0 where
  pub unlocked : s.locked ≡ false
  pub unmasked : s.masked ≡ false
  pub all_outside : (i : ℕ) → s.pc i ≡ outside

-- What the flag, the mask and the save area are while the current context stands at a place.
abbrev Fits : Pc → Bool → Bool → Bool → Type 0
Fits outside locked masked saved = (locked ≡ false) × (masked ≡ false)
Fits flag_set locked masked saved = (locked ≡ true) × (masked ≡ false)
Fits inside locked masked saved = (locked ≡ true) × (masked ≡ true) × (saved ≡ false)
Fits flag_tested locked masked saved = (locked ≡ true) × (masked ≡ true) × (saved ≡ false)
Fits restored locked masked saved = (locked ≡ true) × (masked ≡ false)

record Inv (s : System) : Type 0 where
  fits : Fits (here s) s.locked s.masked s.saved
  others : (i : ℕ) → i ≢ s.current → s.pc i ≡ outside

Fits-here : {s : System} (p : Pc) → here s ≡ p → Inv s → Fits p s.locked s.masked s.saved
Fits-here {s} p h v = subst (λ q. Fits q s.locked s.masked s.saved) h v.fits

-- A move of the current context keeps the invariant if the new place fits.
moved :
    (s : System) (a : Pc) (l m sv : Bool)
    → Inv s
    → Fits a l m sv
    → Inv (record (go s a) { locked = l; masked = m; saved = sv })
moved s a l m sv v f = record {
  fits = rw (update_self s.pc s.current a) f;
  others = λ i ne. update_ne s.pc s.current a i ne ∙ v.others i ne;
}

quiet-Inv : {s : System} → IsQuiet s → Inv s
quiet-Inv {s} q = record {
  fits = rw (q.all_outside s.current) (q.unlocked, q.unmasked);
  others = λ i ne. q.all_outside i;
}

module _ (may : Pc → Bool) (not_in_lock : may flag_set ≡ false)
    (not_in_unlock : may restored ≡ false) where
  -- Where a context can be preempted it is outside.
  preempted_outside :
      (p : Pc) (l : Bool) {m : Bool} (sv : Bool)
      → Fits p l m sv
      → m ≡ false
      → may p ≡ true
      → p ≡ outside
  preempted_outside outside l sv f m h = refl
  preempted_outside flag_set l sv f m h = cc
  preempted_outside inside l sv f m h = cc
  preempted_outside flag_tested l sv f m h = cc
  preempted_outside restored l sv f m h = cc

  all_outside : {s : System} → Inv s → here s ≡ outside → (i : ℕ) → s.pc i ≡ outside
  all_outside {s} v h i = elim (ℕ_discrete i s.current) [
    | yes same ↦ ap s.pc same ∙ h
    | no other ↦ v.others i other
  ]

  switched : {s : System} (j : ℕ) → Inv s → here s ≡ outside → Inv (record s { current = j })
  switched {s} j v h = record {
    fits = rw (all_outside v h j) (Fits-here outside h v);
    others = λ i ne. all_outside v h i;
  }

  Step-Inv : {s t : System} → Step may s t → Inv s → Inv t
  Step-Inv {s} (preempt j m h e) v =
      rw e (switched j v (preempted_outside (here s) s.locked s.saved v.fits m h))
  Step-Inv {s} (set_flag h l e) v =
      rw e (moved s flag_set true s.masked s.saved v (refl, (Fits-here outside h v).1))
  Step-Inv {s} (find_set h l e) v = absurd (true≢false (sym l ∙ (Fits-here outside h v).0))
  Step-Inv {s} (disable h e) v =
      let (l, m) = Fits-here flag_set h v in
      rw e (moved s inside s.locked true s.masked v (l, refl, m))
  Step-Inv {s} (test_flag h l e) v =
      rw e (moved s flag_tested s.locked s.masked s.saved v (Fits-here inside h v))
  Step-Inv {s} (find_clear h l e) v = absurd (true≢false (sym (Fits-here inside h v).0 ∙ l))
  Step-Inv {s} (restore h e) v =
      let (l, m, sv) = Fits-here flag_tested h v in
      rw e (moved s restored s.locked s.saved s.saved v (l, sv))
  Step-Inv {s} (clear h e) v =
      rw e (moved s outside false s.masked s.saved v (refl, (Fits-here restored h v).1))

  Reach-Inv : {s t : System} → IsQuiet s → Reach may s t → Inv t
  Reach-Inv q start = quiet-Inv q
  Reach-Inv q (next r st) = Step-Inv st (Reach-Inv q r)

  -- If no context can be preempted between test_and_set and TX_DISABLE, nor between TX_RESTORE and
  -- clear, then from a state with nobody in a critical section two contexts are never inside
  -- together, and whoever is inside is running with interrupts masked.
  pub mutual_exclusion :
      {s t : System} (i j : ℕ)
      → IsQuiet s
      → Reach may s t
      → t.pc i ≡ inside
      → t.pc j ≡ inside
      → (i ≡ j) × (i ≡ t.current) × (t.masked ≡ true)
  mutual_exclusion {t} i j q r in_i in_j =
      let v = Reach-Inv q r in
      let at_i = inside_current v i in_i in
      let at_j = inside_current v j in_j in
      (at_i ∙ sym at_j, at_i, (Fits-here inside (ap t.pc (sym at_i) ∙ in_i) v).1)
    where
      inside_current : Inv t → (k : ℕ) → t.pc k ≡ inside → k ≡ t.current
      inside_current v k in_k = elim (ℕ_discrete k t.current) [
        | yes same ↦ same
        | no other ↦ absurd (outside≢inside (sym (v.others k other) ∙ in_k))
      ]

-- `may` of the code: nothing but the mask holds preemption off.
abbrev pub anywhere : Pc → Bool
anywhere _ = true

-- The calls are not atomic: from any state with nobody in a critical section, a context that is
-- preempted in `lock` before TX_DISABLE lets another one in, which runs with interrupts not masked,
-- and then joins it inside.
pub preempted_lock_admits_two :
    (s : System) (j : ℕ)
    → IsQuiet s
    → j ≢ s.current
    → (u t : System) × Reach anywhere s u
      × Reach anywhere u t
      × (u.current ≡ j)
      × (here u ≡ inside)
      × (u.masked ≡ false)
      × (t.pc s.current ≡ inside)
      × (t.pc j ≡ inside)
preempted_lock_admits_two s j q ne =
    let i = s.current in
    let s1 : System = record (go s flag_set) { locked = true } in
    let s2 : System = record s1 { current = j } in
    let u : System = go s2 inside in
    let s3 : System = record u { current = i } in
    let t : System = record (go s3 inside) { saved = s3.masked; masked = true } in
    let j_outside : here s2 ≡ outside = update_ne s.pc i flag_set j ne ∙ q.all_outside j in
    let i_stopped : here s3 ≡ flag_set =
      update_ne s1.pc j inside i (λ e. ne (sym e)) ∙ update_self s.pc i flag_set in
    (
      u,
      t,
      next
          (next (next start (set_flag (q.all_outside i) q.unlocked refl))
            (preempt j q.unmasked refl refl))
          (find_set j_outside refl refl),
      next (next start (preempt i q.unmasked refl refl)) (disable i_stopped refl),
      refl,
      update_self s1.pc j inside,
      q.unmasked,
      update_self u.pc i inside,
      update_ne u.pc i inside j ne ∙ update_self s1.pc j inside,
    )
