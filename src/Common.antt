-- ===== src/Common.antt =====
-- txCommon.hpp: the result codes of ThreadX and the sizes of its types.
use threadx_cpp.Prelude.{
  ℕ, zero, suc, ◌+◌, ◌*◌, ◌^◌, ◌≤◌, ◌<◌, ◌≡◌, refl, List, [], ◌∷◌, arith, get_or, ◌==◌, eq→==, true,
  false, M, if◌then◌else◌, returns, Bool,
}

-- What the target gives: `sizeof(Ulong)`, `sizeof(uintptr_t)`, `sizeof(size_t)` and the
-- ThreadX option TX_TIMER_TICKS_PER_SECOND.
pub record Platform : Type 0 where
  pub word_size : ℕ
  pub pointer_size : ℕ
  pub size_t_size : ℕ
  pub ticks_per_second : ℕ

-- Ulong holds the numbers below this one.
abbrev pub ulong_mod : Platform → ℕ
ulong_mod p = 2 ^ (8 * p.word_size)

-- The static_assert, and what every ThreadX target has: a Ulong of 32 bits at least, and ticks.
pub record IsSupported (p : Platform) : Type 0 where
  pub word_holds_pointer : p.pointer_size ≤ p.word_size
  pub word_of_32_bits : 4 ≤ p.word_size
  pub ticks_pos : 0 < p.ticks_per_second

-- `enum class Error : Uint`. A value without an enumerator is `unnamed`.
pub data Error : Type 0 where
  success deleted pool_error ptr_error wait_error size_error group_error no_events : Error
  option_error queue_error queue_empty queue_full semaphore_error no_instance : Error
  thread_error priority_error no_memory delete_error resume_error caller_error : Error
  suspend_error timer_error tick_error activate_error thresh_error suspend_lifted : Error
  wait_aborted wait_abort_error mutex_error not_available not_owned inheret_error : Error
  not_done ceiling_exceeded invalid_ceiling feature_not_enabled : Error
  unnamed : ℕ → Error

-- `startError = noMemory`.
abbrev pub start_error : Error
start_error = no_memory

-- The enumerators from `success` on, in order: the one at place n has the value n.
abbrev enumerators : List Error
enumerators =
    success ∷ deleted ∷ pool_error ∷ ptr_error ∷ wait_error ∷ size_error ∷ group_error ∷ no_events
    ∷ option_error ∷ queue_error ∷ queue_empty ∷ queue_full ∷ semaphore_error ∷ no_instance
    ∷ thread_error ∷ priority_error ∷ no_memory ∷ delete_error ∷ resume_error ∷ caller_error
    ∷ suspend_error ∷ timer_error ∷ tick_error ∷ activate_error ∷ thresh_error ∷ suspend_lifted
    ∷ wait_aborted ∷ wait_abort_error ∷ mutex_error ∷ not_available ∷ not_owned ∷ inheret_error
    ∷ not_done ∷ ceiling_exceeded ∷ invalid_ceiling ∷ []

-- `Error{code}`.
unfoldable pub to_error : ℕ → Error
to_error n = if n == 0xff then feature_not_enabled else get_or enumerators n (unnamed n)

-- `std::to_underlying(error)`.
unfoldable pub to_underlying : Error → ℕ
to_underlying success = 0
to_underlying deleted = 1
to_underlying pool_error = 2
to_underlying ptr_error = 3
to_underlying wait_error = 4
to_underlying size_error = 5
to_underlying group_error = 6
to_underlying no_events = 7
to_underlying option_error = 8
to_underlying queue_error = 9
to_underlying queue_empty = 10
to_underlying queue_full = 11
to_underlying semaphore_error = 12
to_underlying no_instance = 13
to_underlying thread_error = 14
to_underlying priority_error = 15
to_underlying no_memory = 16
to_underlying delete_error = 17
to_underlying resume_error = 18
to_underlying caller_error = 19
to_underlying suspend_error = 20
to_underlying timer_error = 21
to_underlying tick_error = 22
to_underlying activate_error = 23
to_underlying thresh_error = 24
to_underlying suspend_lifted = 25
to_underlying wait_aborted = 26
to_underlying wait_abort_error = 27
to_underlying mutex_error = 28
to_underlying not_available = 29
to_underlying not_owned = 30
to_underlying inheret_error = 31
to_underlying not_done = 32
to_underlying ceiling_exceeded = 33
to_underlying invalid_ceiling = 34
to_underlying feature_not_enabled = 0xff
to_underlying (unnamed n) = n

abbrev Counts : ℕ → List Error → Type 0
Counts k [] = Unit {0}
Counts k (e ∷ es) = (to_underlying e ≡ k) × Counts (k + 1) es

get_or-Counts :
    (k : ℕ) (es : List Error) (n m : ℕ)
    → Counts k es
    → k + n ≡ m
    → to_underlying (get_or es n (unnamed m)) ≡ m
unfolding to_underlying
get_or-Counts k [] n m h e = refl
get_or-Counts k (x ∷ es) zero m h e = omega (arith, h.0)
get_or-Counts k (x ∷ es) (suc n) m h e = get_or-Counts (k + 1) es n m h.1 (omega arith)

enumerators-Counts : Counts 0 enumerators
unfolding to_underlying
enumerators-Counts = omega arith

-- Every code of ThreadX survives the wrapper: a code read as an `Error` has that code as its value.
pub to_underlying-to_error : (n : ℕ) → to_underlying (to_error n) ≡ n
unfolding to_error to_underlying
to_underlying-to_error n = ground (arith, get_or-Counts 0 enumerators n n enumerators-Counts)

-- `error == Error::success`.
unfoldable pub is_success : Error → Bool
unfolding to_underlying
is_success e = to_underlying e == 0

-- `Error{tx_service(…)}` for a service that changes the state and returns a code.
abbrev pub call : {S : Type 0} → (S → ℕ × S) → M S Error
call service s = let (code, t) = service s in returns (to_error code, t)

-- A service has succeeded exactly when its code is 0.
pub is_success-to_error : (n : ℕ) → is_success (to_error n) ≡ (n == 0)
unfolding is_success
is_success-to_error n = rw (to_underlying-to_error n)

-- The enumerators of the enumeration.
abbrev pub IsNamed : Error → Type 0
IsNamed (unnamed n) = ⊥
IsNamed _ = Unit {0}

-- An enumerator is read back from its value.
pub to_error-to_underlying : (e : Error) → IsNamed e → to_error (to_underlying e) ≡ e
unfolding to_error to_underlying
to_error-to_underlying (unnamed n) h = absurd h
to_error-to_underlying _ h = refl

-- The test of a code that is known.
pub is_success_of_zero : (n : ℕ) → n ≡ 0 → is_success (to_error n) ≡ true
is_success_of_zero n e = rw (is_success-to_error n) (eq→== n 0 e)

pub is_success_of_code : (n m : ℕ) → n ≡ suc m → is_success (to_error n) ≡ false
is_success_of_code n m e = rw (is_success-to_error n) (ground arith)

pub to_error_of : (n : ℕ) (e : Error) → IsNamed e → n ≡ to_underlying e → to_error n ≡ e
to_error_of n e named h = rw h (to_error-to_underlying e named)

pub to_error_of_zero : (n : ℕ) → n ≡ 0 → to_error n ≡ success
unfolding to_error
to_error_of_zero n e = rw e
