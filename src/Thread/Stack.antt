-- ===== src/Thread/Stack.antt =====
-- thread.hpp: `stackInfo`, and bounds on what it reports.
use threadx_cpp.Prelude.{◌^◌, ◌%◌, ℕ, ◌+◌, ◌-◌, ◌*◌, ◌/◌, ◌≤◌, ◌<◌, ◌≡◌, ◌↔◌, ◌∙◌, arith}
use native.Mathlib.Nat.{mod-eq_of_lt, mod-lt, div-add-mod', add-mod_right, div-le_of_le-mul}
use threadx_cpp.Common.{Platform}
use threadx_cpp.Thread.Native.{NativeStack}

pub record StackInfo : Type 0 where
  pub size : ℕ
  pub used : ℕ
  pub max_used : ℕ
  pub max_used_percent : ℕ

-- uintptr_t holds the numbers below this one.
abbrev pub uintptr_mod : Platform → ℕ
uintptr_mod p = 2 ^ (8 * p.pointer_size)

-- `uintptr_t(end) - uintptr_t(ptr) + 1`.
abbrev pub bytes_from : Platform → ℕ → ℕ → ℕ
bytes_from p end ptr = (end + uintptr_mod p - ptr + 1) % uintptr_mod p

-- `stackInfo()`, from the fields of the control block. Ulong is at least as large as uintptr_t, so
-- the quotient is computed in Ulong.
unfoldable pub stack_info : Platform → NativeStack → StackInfo
stack_info p stack = record {
  size = stack.stack_size;
  used = bytes_from p stack.stack_end stack.stack_ptr;
  max_used = bytes_from p stack.stack_end stack.stack_highest_ptr;
  max_used_percent =
      bytes_from p stack.stack_end stack.stack_highest_ptr * 100 % uintptr_mod p / stack.stack_size;
}

-- A stack at the address `start`, which grows down from its last byte and has not overflowed: its
-- pointer, and the lowest pointer that ThreadX has noted, which is not always up to date, are
-- within it. A hundred times its size fits the address space.
pub record IsStack (p : Platform) (start : ℕ) (s : NativeStack) : Type 0 where
  pub size_pos : 0 < s.stack_size
  pub last_byte : s.stack_end + 1 ≡ start + s.stack_size
  pub fits : start + s.stack_size < uintptr_mod p
  pub hundredth : s.stack_size * 100 < uintptr_mod p
  pub above_start : start ≤ s.stack_ptr
  pub within : s.stack_ptr ≤ s.stack_end + 1
  pub noted_above_start : start ≤ s.stack_highest_ptr
  pub noted_within : s.stack_highest_ptr ≤ s.stack_end + 1

bytes_from-eq :
    (p : Platform) (end ptr : ℕ)
    → ptr ≤ end + 1
    → end + 1 < uintptr_mod p
    → bytes_from p end ptr ≡ end + 1 - ptr
bytes_from-eq p end ptr h fits =
    let m = uintptr_mod p in
    let turn : end + m - ptr + 1 ≡ end + 1 - ptr + m = omega arith in
    let small : end + 1 - ptr < m = omega arith in
    rw turn (add-mod_right (end + 1 - ptr) m ∙ mod-eq_of_lt small)

-- A quotient that is rounded down.
quotient_bounds : (a b : ℕ) → 0 < b → (a / b * b ≤ a) × (a < (a / b + 1) * b)
quotient_bounds a b pos =
    (omega (arith, div-add-mod' a b), omega (arith, div-add-mod' a b, mod-lt a pos))

-- For a stack whose pointer and lowest noted pointer are within its memory, of which a hundred times
-- the size fits uintptr_t, no subtraction and no product of `stackInfo` wraps: the used bytes and
-- the most ever used are at most the size, and the used bytes are at most the most ever used exactly
-- if the noted pointer is not above the pointer. The percentage is at most 100, and is the greatest
-- number of hundredths of the size that is at most the most ever used.
pub stack_info-bounds :
    (p : Platform) (start : ℕ) (s : NativeStack)
    → IsStack p start s
    → let info = stack_info p s in
      (info.used ≤ info.size)
      × (info.max_used ≤ info.size)
      × ((info.used ≤ info.max_used) ↔ (s.stack_highest_ptr ≤ s.stack_ptr))
      × (info.max_used_percent ≤ 100)
      × (info.max_used_percent * info.size ≤ info.max_used * 100)
      × (info.max_used * 100 < (info.max_used_percent + 1) * info.size)
unfolding stack_info
stack_info-bounds p start s h =
    let most = s.stack_end + 1 - s.stack_highest_ptr in
    let last = h.last_byte in
    let below = h.within in
    let noted_below = h.noted_within in
    let above = h.above_start in
    let noted_above = h.noted_above_start in
    let in_use = bytes_from-eq p s.stack_end s.stack_ptr h.within (omega (arith, h.fits)) in
    let ever =
      bytes_from-eq p s.stack_end s.stack_highest_ptr h.noted_within (omega (arith, h.fits)) in
    let small : most * 100 < uintptr_mod p = omega (arith, h.hundredth) in
    let share : most * 100 / s.stack_size ≤ 100 =
      div-le_of_le-mul s.stack_size {m = most * 100} {n = 100} (omega arith) in
    let (at_most, above_it) = quotient_bounds (most * 100) s.stack_size h.size_pos in
    rw (in_use, ever, mod-eq_of_lt small)
      (omega arith, omega arith, (λ le. omega arith, λ le. omega arith), share, at_most, above_it)
