-- ===== src/Kernel/Critical.antt =====
-- kernel.cpp, CriticalSection: what sequences of its calls do to the interrupt posture.
use threadx_cpp.Prelude.{◌≡◌, refl, ap, ◌∙◌, Bool, true, false, List, [], ◌∷◌, arith, if◌then◌else◌}
use threadx_cpp.Kernel.{CriticalSection, lock, unlock}
use threadx_cpp.Kernel.Native.{KernelApi, PortLaws}

pub data Call : Type 0 where
  locks unlocks : Call

-- The state of the flag after a list of calls: that of the last one.
abbrev pub flag_after : Bool → List Call → Bool
flag_after b [] = b
flag_after b (locks ∷ cs) = flag_after true cs
flag_after b (unlocks ∷ cs) = flag_after false cs

module _ {K : Type 0} {Posture : Type 0} (api : KernelApi K Posture) where
  unfoldable pub step : CriticalSection K Posture → Call → CriticalSection K Posture
  unfolding lock unlock
  step s locks = lock api s
  step s unlocks = unlock api s

  unfoldable pub run : CriticalSection K Posture → List Call → CriticalSection K Posture
  run s [] = s
  run s (c ∷ cs) = run (step s c) cs

module _ {K : Type 0} {Posture : Type 0} (api : KernelApi K Posture) (laws : PortLaws api)
    (outside : Posture) where
  open laws use {posture, masked, disable_saves, disable_masks, restore_lem}

  -- Interrupts are masked while the flag is set, with the posture of the outside in the save area,
  -- and have that posture while it is clear.
  pub record IsConsistent (s : CriticalSection K Posture) : Type 0 where
    pub held : posture s.kernel ≡ (if s.locked then masked else outside)
    pub saved : (if s.locked then s.interrupt_save else outside) ≡ outside

  step-IsConsistent :
      (s : CriticalSection K Posture) (c : Call) → IsConsistent s → IsConsistent (step api s c)
  unfolding step
  step-IsConsistent s locks h = ground (arith, disable_saves s.kernel, disable_masks s.kernel)
  step-IsConsistent s unlocks h = ground (arith, restore_lem s.interrupt_save s.kernel)

  run-IsConsistent :
      (s : CriticalSection K Posture) (cs : List Call)
      → IsConsistent s
      → IsConsistent (run api s cs)
  unfolding run
  run-IsConsistent s [] h = h
  run-IsConsistent s (c ∷ cs) h = run-IsConsistent (step api s c) cs (step-IsConsistent s c h)

  locked-lock : (s : CriticalSection K Posture) → (lock api s).locked ≡ true
  unfolding lock
  locked-lock s = ground arith

  locked-unlock : (s : CriticalSection K Posture) → (unlock api s).locked ≡ false
  unfolding unlock
  locked-unlock s = ground arith

  locked-run :
      (s : CriticalSection K Posture) (cs : List Call)
      → (run api s cs).locked ≡ flag_after s.locked cs
  unfolding run
  locked-run s [] = refl
  locked-run s (locks ∷ cs) =
      locked-run (step api s locks) cs ∙ ap (λ b. flag_after b cs) (unfold step in locked-lock s)
  locked-run s (unlocks ∷ cs) =
      locked-run (step api s unlocks) cs
      ∙ ap (λ b. flag_after b cs) (unfold step in locked-unlock s)

  -- After any calls of `lock` and `unlock` in one context, from outside every critical section,
  -- interrupts are masked exactly if the last call was `lock`; otherwise they have the posture of
  -- the outside. So calls do not nest: one `unlock` undoes every `lock` before it.
  pub posture_after :
      (s : CriticalSection K Posture) (cs : List Call)
      → s.locked ≡ false
      → posture s.kernel ≡ outside
      → posture (run api s cs).kernel ≡ (if flag_after false cs then masked else outside)
  posture_after s cs unlocked now =
      let outside_consistent : IsConsistent s = ground arith in
      (run-IsConsistent s cs outside_consistent).held
      ∙ ap (λ (b : Bool). if b then masked else outside)
          (locked-run s cs ∙ ap (λ b. flag_after b cs) unlocked)
