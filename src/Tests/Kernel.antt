-- ===== src/Tests/Kernel.antt =====
-- kernel.cpp: a port whose interrupt posture is one bit.
use threadx_cpp.Prelude.{ℕ, ◌≡◌, refl, Bool, true, false, none, [], ◌∷◌, arith, ℕ_discrete}
use threadx_cpp.Kernel.{CriticalSection}
use threadx_cpp.Kernel.Native.{KernelApi, PortLaws}
use threadx_cpp.Kernel.Critical.{locks, unlocks, run, posture_after}
use threadx_cpp.Kernel.Preemption.{
  Pc, System, outside, flag_set, inside, restored, Reach, start, next, set_flag, disable, IsQuiet,
  go, here, anywhere, mutual_exclusion, preempted_lock_admits_two,
}

-- The kernel is its posture: whether interrupts are masked.
abbrev pub api : KernelApi Bool Bool
api = record {
  disable = λ k. (k, true);
  restore = λ q k. q;
  enter = λ k. k;
  identify = λ k. none;
  system_state = λ k. 0;
  initialize_is_finished = 0;
  initialize_in_progress = 1;
}

unfoldable pub laws : PortLaws api
laws = record {
  posture = λ k. k;
  masked = true;
  disable_saves = λ k. refl;
  disable_masks = λ k. refl;
  restore_lem = λ q k. refl;
}

abbrev pub free : CriticalSection Bool Bool
free = record { locked = false; interrupt_save = false; kernel = false }

-- Two calls of lock, and one of unlock: nothing is masked.
posture_after_example : (run api free (locks ∷ locks ∷ unlocks ∷ [])).kernel ≡ false
unfolding laws
posture_after_example = posture_after api laws false free (locks ∷ locks ∷ unlocks ∷ []) refl refl

abbrev quiet : System
quiet = record { locked = false; masked = false; saved = false; current = 1; pc = λ i. outside }

quiet-IsQuiet : IsQuiet quiet
quiet-IsQuiet = record { unlocked = refl; unmasked = refl; all_outside = λ i. refl }

-- Preemption everywhere but in the two places.
abbrev guarded : Pc → Bool
guarded flag_set = false
guarded restored = false
guarded _ = true

abbrev at_flag : System
at_flag = record (go quiet flag_set) { locked = true }

abbrev entered : System
entered = record (go at_flag inside) { saved = false; masked = true }

mutual_exclusion_example : (◌≡◌ {A = ℕ} 1 1) × (1 ≡ entered.current) × (entered.masked ≡ true)
unfolding ℕ_discrete
mutual_exclusion_example =
    mutual_exclusion guarded refl refl {s = quiet} {t = entered} 1 1 quiet-IsQuiet
      (next (next start (set_flag refl refl refl)) (disable refl refl)) refl refl

preempted_lock_admits_two_example :
    (u t : System) × Reach anywhere quiet u
    × Reach anywhere u t
    × (u.current ≡ 2)
    × (here u ≡ inside)
    × (u.masked ≡ false)
    × (t.pc 1 ≡ inside)
    × (t.pc 2 ≡ inside)
preempted_lock_admits_two_example =
    preempted_lock_admits_two quiet 2 quiet-IsQuiet (λ e. omega arith)
