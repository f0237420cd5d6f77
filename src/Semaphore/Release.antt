-- ===== src/Semaphore/Release.antt =====
-- semaphore.cpp, `release(count)`: the loop of puts against a closed form.
use threadx_cpp.Prelude.{
  ℕ, zero, suc, ◌+◌, ◌-◌, ◌≤◌, ◌<◌, ◌≡◌, ◌⊎◌, sym, ap, subst, ◌∙◌, min, true, returns, arith, leb,
  if◌then◌else◌, dec_lt,
}
use threadx_cpp.Common.{
  Platform, Error, success, ceiling_exceeded, to_underlying, is_success, is_success_of_zero,
  to_error_of,
}
use threadx_cpp.Semaphore.{CountingSemaphore, release}
use threadx_cpp.Semaphore.Native.{SemaphoreApi, SemaphoreLaws, NativeSemaphore, put_one}

-- A semaphore between two calls: no thread waits while there is an instance, and the count is
-- within a ceiling that is not 0.
pub record IsValid (ceiling : ℕ) (v : NativeSemaphore) : Type 0 where
  pub created : v.is_created ≡ true
  pub ceiling_pos : 0 < ceiling
  pub within : v.count ≤ ceiling
  pub no_idle_instance : (v.count ≡ 0) ⊎ (v.waiting ≡ 0)

-- How many instances can be put: one for each suspended thread, and up to the ceiling.
abbrev pub room : ℕ → NativeSemaphore → ℕ
room ceiling v = v.waiting + (ceiling - v.count)

-- The semaphore after n puts: the suspended threads are served first, the other instances are
-- counted up to the ceiling.
abbrev pub put_many : ℕ → ℕ → NativeSemaphore → NativeSemaphore
put_many ceiling n v = record v {
  waiting = v.waiting - n;
  count = min ceiling (v.count + (n - v.waiting));
}

-- What n puts report.
abbrev pub verdict : ℕ → ℕ → Error
verdict n r = if leb n r then success else ceiling_exceeded

verdict-suc : (n : ℕ) {r r' : ℕ} → r ≡ suc r' → verdict n r' ≡ verdict (suc n) r
verdict-suc n e = ground arith

verdict_no_room : (n : ℕ) {r : ℕ} → r ≡ 0 → verdict (suc n) r ≡ ceiling_exceeded
verdict_no_room n e = ground arith

put_one-IsValid :
    (ceiling : ℕ) (v : NativeSemaphore)
    → IsValid ceiling v
    → v.count < ceiling
    → IsValid ceiling (put_one v)
put_one-IsValid ceiling v h below = ground arith

put_many-put_one :
    (ceiling n : ℕ) (v : NativeSemaphore)
    → IsValid ceiling v
    → v.count < ceiling
    → put_many ceiling n (put_one v) ≡ put_many ceiling (suc n) v
put_many-put_one ceiling n v h below = ground arith

room-put_one :
    (ceiling : ℕ) (v : NativeSemaphore)
    → IsValid ceiling v
    → v.count < ceiling
    → room ceiling v ≡ suc (room ceiling (put_one v))
room-put_one ceiling v h below = ground arith

put_many_full :
    (ceiling n : ℕ) (v : NativeSemaphore)
    → IsValid ceiling v
    → ceiling ≤ v.count
    → (put_many ceiling n v ≡ v) × (room ceiling v ≡ 0)
put_many_full ceiling n v h full = ground arith

put_many_zero : (ceiling : ℕ) (v : NativeSemaphore) → IsValid ceiling v → put_many ceiling 0 v ≡ v
put_many_zero ceiling v h = ground arith

module _ {K : Type 0} (p : Platform) (api : SemaphoreApi K) (laws : SemaphoreLaws api) where
  open laws use {view, put_refused, put_done}

  -- `release(n)` returns, and serves the suspended threads before it counts: it succeeds exactly if
  -- all n instances find a suspended thread or room below the ceiling, and otherwise returns
  -- TX_CEILING_EXCEEDED with all the room used up. The semaphore is as after n puts in one go.
  pub release_lem :
      (self : CountingSemaphore K) (n : ℕ) (k : K)
      → IsValid self.ceiling (view k self.address)
      → (k' : K) × (release p api self n k
          ≡ returns (verdict n (room self.ceiling (view k self.address)), k'))
        × (view k' self.address ≡ put_many self.ceiling n (view k self.address))
  unfolding release is_success to_underlying
  release_lem self zero k h =
      let v = view k self.address in
      (k, ground arith, ground (arith, put_many_zero self.ceiling v h))
  release_lem self (suc n) k h = elim (dec_lt (view k self.address).count self.ceiling) [
    | yes below ↦
        let v = view k self.address in
        let (code, put) = put_done self.address self.ceiling k h.created below in
        let k1 = (api.ceiling_put self.address self.ceiling k).1 in
        let (k', run, after) =
          release_lem self n k1
            (subst (IsValid self.ceiling) (sym put) (put_one-IsValid self.ceiling v h below)) in
        let one_less : room self.ceiling v ≡ suc (room self.ceiling (view k1 self.address)) =
          rw put (room-put_one self.ceiling v h below) in
        (
          k',
          rw (is_success_of_zero _ code) (run ∙ ap (λ e. returns (e, k')) (verdict-suc n one_less)),
          after ∙ ap (put_many self.ceiling n) put ∙ put_many-put_one self.ceiling n v h below,
        )
    | no full ↦
        let v = view k self.address in
        let (same, no_room) = put_many_full self.ceiling (suc n) v h (omega arith) in
        let (code, kept) =
          put_refused self.address self.ceiling k h.created h.ceiling_pos (omega arith) in
        let reads = to_error_of _ ceiling_exceeded tt code in
        (
          (api.ceiling_put self.address self.ceiling k).1,
          rw reads (
              ap (λ e. returns (e, (api.ceiling_put self.address self.ceiling k).1))
                (sym (verdict_no_room n no_room))),
          kept ∙ sym same,
        )
  ]
