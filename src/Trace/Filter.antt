-- ===== src/Trace/Filter.antt =====
-- trace.hpp: filters for unions of events, and for one event after the other.
use threadx_cpp.Prelude.{
  ℕ, ◌≡◌, refl, sym, ap, ◌∙◌, Bool, true, false, not, ◌&&◌, ◌||◌, List, [], ◌∷◌, M, ◌>>=◌, pure,
  bind-eq, returns, arith, bit, bit-bit_or,
}
use mathlib.Core.Logic.{∥∥₁_elim}
use mathlib.Core.Bool.{Bool-set}
use mathlib.Core.List.{Perm, Permᴰ}
use threadx_cpp.Common.{Error, success, to_error, to_error_of_zero}
use threadx_cpp.Trace.{TraceEvent, Values, union_with, event_filter, filter_event}
use threadx_cpp.Trace.Native.{TraceApi, TraceLaws}

-- `e | e1 | e2 …`, which the operators read from the left.
abbrev pub union_all : Values → ℕ → List TraceEvent → ℕ
union_all values mask [] = mask
union_all values mask (e ∷ es) = union_all values (union_with values mask e) es

-- Whether one of the events has the bit.
abbrev pub some_bit : Values → List TraceEvent → ℕ → Bool
some_bit values [] i = false
some_bit values (e ∷ es) i = bit (values e) i || some_bit values es i

or_false : (b : Bool) → b ≡ (b || false)
or_false true = refl
or_false false = refl

or_assoc : (a b c : Bool) → ((a || b) || c) ≡ (a || (b || c))
or_assoc true b c = refl
or_assoc false b c = refl

de_morgan : (t a b : Bool) → (t && not (a || b)) ≡ ((t && not a) && not b)
de_morgan true true b = refl
de_morgan true false b = refl
de_morgan false a b = refl

bit-union_all :
    (values : Values) (es : List TraceEvent) (mask i : ℕ)
    → bit (union_all values mask es) i ≡ (bit mask i || some_bit values es i)
bit-union_all values [] mask i = or_false _
bit-union_all values (e ∷ es) mask i =
    bit-union_all values es (union_with values mask e) i
    ∙ ap (λ b. b || some_bit values es i) (bit-bit_or mask (values e) i)
    ∙ or_assoc (bit mask i) (bit (values e) i) (some_bit values es i)

or_swap : (a b r : Bool) → (a || (b || r)) ≡ (b || (a || r))
or_swap true true r = refl
or_swap true false r = refl
or_swap false b r = refl

some_bit-Permᴰ :
    (values : Values) (i : ℕ) {es fs : List TraceEvent}
    → Permᴰ es fs
    → some_bit values es i ≡ some_bit values fs i
some_bit-Permᴰ values i Permᴰ.nil = refl
some_bit-Permᴰ values i (Permᴰ.cons {a = a} {l₂ = l} same p) =
    ap (λ b. bit (values a) i || b) (some_bit-Permᴰ values i p)
    ∙ ap (λ e. bit (values e) i || some_bit values l i) same
some_bit-Permᴰ values i (Permᴰ.swap {a = a} {b = b} {a' = a'} {l = l} first second) =
    or_swap (bit (values a) i) (bit (values b) i) (some_bit values l i)
    ∙ ap (λ e. bit (values e) i || (bit (values a) i || some_bit values l i)) second
    ∙ ap (λ e. bit (values a') i || (bit (values e) i || some_bit values l i)) first
some_bit-Permᴰ values i (Permᴰ.trans p q) = some_bit-Permᴰ values i p ∙ some_bit-Permᴰ values i q

-- The order of the events does not matter.
some_bit-Perm :
    (values : Values) (i : ℕ) {es fs : List TraceEvent}
    → Perm es fs
    → some_bit values es i ≡ some_bit values fs i
some_bit-Perm values i p = ∥∥₁_elim p (Bool-set _ _) (some_bit-Permᴰ values i)

module _ {K : Type 0} (values : Values) (api : TraceApi K) where
  -- `eventFilter(event)` for each event of a list, in order.
  unfoldable pub filter_each : List TraceEvent → M K (List Error)
  filter_each [] = pure []
  filter_each (e ∷ es) = do
    error ← filter_event values api e
    errors ← filter_each es
    pure (error ∷ errors)

-- All errors of a list are success.
abbrev pub AllSuccess : List Error → Type 0
AllSuccess [] = Unit {0}
AllSuccess (e ∷ es) = (e ≡ success) × AllSuccess es

module _ {K : Type 0} (values : Values) (api : TraceApi K) (laws : TraceLaws api) where
  open laws use {is_traced, filter_code, filter_done}

  filter_each_lem :
      (es : List TraceEvent) (k : K)
      → (errors : List Error) × (k' : K) × (filter_each values api es k ≡ returns (errors, k'))
        × AllSuccess errors
        × ((i : ℕ) → is_traced k' i ≡ (is_traced k i && not (some_bit values es i)))
  unfolding filter_each filter_event
  filter_each_lem [] k = ([], k, refl, tt, λ i. ground arith)
  filter_each_lem (e ∷ es) k =
      let k1 = (api.event_filter (values e) k).1 in
      let (errors, k', run, good, after) = filter_each_lem es k1 in
      (
        success ∷ errors,
        k',
        bind-eq (filter_each values api es)
              (λ xs. pure (to_error (api.event_filter (values e) k).0 ∷ xs)) k1 run
            ∙ ap (λ x. returns (x ∷ errors, k')) (to_error_of_zero _ (filter_code (values e) k)),
        (refl, good),
        λ i.
            after i
            ∙ ap (λ b. b && not (some_bit values es i)) (filter_done (values e) k i)
            ∙ sym (de_morgan (is_traced k i) (bit (values e) i) (some_bit values es i)),
      )

  -- A filter for a union of events stops the same kinds of event as the filters for the events one
  -- after the other, in any order, whatever the state; both succeed throughout.
  pub filter_union :
      (e : TraceEvent) (es fs : List TraceEvent) (k : K)
      → Perm (e ∷ es) fs
      → (errors : List Error) × (k' k'' : K) × (event_filter values api
            (union_all values (values e) es)
            k
          ≡ returns (success, k'))
        × (filter_each values api fs k ≡ returns (errors, k''))
        × AllSuccess errors
        × ((i : ℕ) → is_traced k' i ≡ is_traced k'' i)
  unfolding event_filter
  filter_union e es fs k order =
      let mask = union_all values (values e) es in
      let (errors, k'', run, good, after) = filter_each_lem fs k in
      (
        errors,
        (api.event_filter mask k).1,
        k'',
        ap (λ x. returns (x, (api.event_filter mask k).1))
            (to_error_of_zero _ (filter_code mask k)),
        run,
        good,
        λ i.
            filter_done mask k i
            ∙ ap (λ b. is_traced k i && not b)
                (bit-union_all values es (values e) i ∙ some_bit-Perm values i order)
            ∙ sym (after i),
      )
