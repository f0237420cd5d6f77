-- ===== src/Thread/Protocol.antt =====
-- thread.hpp: threads that join a thread, and that thread's exit, step by step. The number of a
-- thread that joins names its local semaphore too. Where critical sections are exclusive, a section
-- between the construction and the destruction of a CriticalSection excludes the steps of all
-- others; Kernel/Preemption says which runs these are. ThreadX marks a thread as finished before it
-- runs the exit notification, which no other thread interrupts. An instance that ThreadX hands to a
-- suspended thread counts as one until that thread goes on.
use threadx_cpp.Prelude.{
  ℕ, ◌≡◌, ◌≢◌, ◌⊎◌, inl, inr, sym, ◌∙◌, Bool, true, false, Option, none, some, update,
}

-- Where a thread stands in `join`: outside; behind the assertion and the construction of the
-- semaphore; in the critical section; there, having found the thread joinable; at `acquire`; behind it; returned; or with its assertion
-- failed.
pub data Place : Type 0 where
  outside constructed checking decided waiting resumed returned failed : Place

-- `own` says which calls are those of the thread that is joined, and `registered` whether the
-- constructor has registered the notification before the thread ends, and `exclusive` whether critical
-- sections are; no step changes them.
pub record System : Type 0 where
  pub own : ℕ → Bool
  pub registered : Bool
  pub exclusive : Bool
  pub finished : Bool
  pub notified : Bool
  pub aborted : Bool
  pub exit_signal : Option ℕ
  pub holder : Option ℕ
  pub count : ℕ → ℕ
  pub place : ℕ → Place

abbrev pub go : System → ℕ → Place → System
go s i q = record s { place = update s.place i q }

-- No other thread is in an exclusive section.
abbrev pub IsFree : System → Type 0
IsFree s = s.exclusive ≡ true → s.holder ≡ none

-- What the exit notification does: the release of the semaphore that the signal points to, a
-- binary one.
abbrev pub released : System → Option ℕ → System
released s none = s
released s (some i) = record s { count = update s.count i 1 }

-- One step; `callers` are the threads that may call `join`, and `aborts` says whether waits may be
-- aborted.
pub data Step (callers : ℕ → Bool) (aborts : Bool) (s t : System) : Type 0 where
  call :
      (i : ℕ)
      → s.place i ≡ outside
      → callers i ≡ true
      → s.exit_signal ≡ none
      → IsFree s
      → t ≡ record (go s i constructed) { count = update s.count i 0 }
      → Step callers aborts s t
  fail :
      (i j : ℕ)
      → s.place i ≡ outside
      → callers i ≡ true
      → s.exit_signal ≡ some j
      → IsFree s
      → t ≡ go s i failed
      → Step callers aborts s t
  enter :
      (i : ℕ)
      → s.place i ≡ constructed
      → IsFree s
      → t ≡ record (go s i checking) { holder = some i }
      → Step callers aborts s t
  refuse :
      (i : ℕ)
      → s.place i ≡ checking
      → (s.finished ≡ true) ⊎ (s.own i ≡ true)
      → t ≡ record (go s i returned) { holder = none }
      → Step callers aborts s t
  pass :
      (i : ℕ)
      → s.place i ≡ checking
      → s.finished ≡ false
      → s.own i ≡ false
      → t ≡ go s i decided
      → Step callers aborts s t
  publish :
      (i : ℕ)
      → s.place i ≡ decided
      → t ≡ record (go s i waiting) { holder = none; exit_signal = some i }
      → Step callers aborts s t
  acquire :
      (i : ℕ)
      → s.place i ≡ waiting
      → s.count i ≡ 1
      → IsFree s
      → t ≡ record (go s i resumed) { count = update s.count i 0 }
      → Step callers aborts s t
  abort :
      (i : ℕ)
      → aborts ≡ true
      → s.place i ≡ waiting
      → IsFree s
      → t ≡ record (go s i resumed) { aborted = true }
      → Step callers aborts s t
  clear :
      (i : ℕ)
      → s.place i ≡ resumed
      → IsFree s
      → t ≡ record (go s i returned) { exit_signal = none }
      → Step callers aborts s t
  finish :
      s.finished ≡ false → IsFree s → t ≡ record s { finished = true } → Step callers aborts s t
  notify :
      s.finished ≡ true
      → s.notified ≡ false
      → s.registered ≡ true
      → IsFree s
      → t ≡ record (released s s.exit_signal) { notified = true }
      → Step callers aborts s t

pub data Reach (callers : ℕ → Bool) (aborts : Bool) (s : System) : System → Type 0 where
  start : Reach callers aborts s s
  next :
      {t u : System} → Reach callers aborts s t → Step callers aborts t u → Reach callers aborts s u

false_ne_true : false ≢ true
false_ne_true = λ e. cc

-- Who is refused and is not the thread that is joined.
pub refused_after : {o f : Bool} → o ≡ false → (f ≡ true) ⊎ (o ≡ true) → f ≡ true
refused_after other (inl fin) = fin
refused_after other (inr mine) = absurd (false_ne_true (sym other ∙ mine))

-- The thread runs, and nobody has called `join`.
abbrev pub initial : (ℕ → Bool) → Bool → Bool → System
initial own registered exclusive = record {
  own = own;
  registered = registered;
  exclusive = exclusive;
  finished = false;
  notified = false;
  aborted = false;
  exit_signal = none;
  holder = none;
  count = λ i. 0;
  place = λ i. outside;
}
