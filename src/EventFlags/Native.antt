-- ===== src/EventFlags/Native.antt =====
-- The event flags of ThreadX that eventFlags.hpp and eventFlags.cpp call: parameters of the model.
-- `EventFlagsLaws` states what the ThreadX manual says of them.
use threadx_cpp.Prelude.{ℕ, ◌≤◌, ◌<◌, ◌≡◌, String, Bool, true, false, not, ◌&&◌, ◌||◌, bit}
use threadx_cpp.Common.{no_events, to_underlying}

-- The services, over the state K of the kernel. A group is named by the address of its control
-- block. `get` is given the mask, the option, the content of the word for the flags, and the wait;
-- it gives its code, the content of that word after it, and the new state.
pub record EventFlagsApi (K : Type 0) : Type 0 where
  pub create : ℕ → String → K → ℕ × K
  pub set_notify : ℕ → K → ℕ × K
  pub delete : ℕ → K → ℕ × K
  pub set : ℕ → ℕ → ℕ → K → ℕ × K
  pub get : ℕ → ℕ → ℕ → ℕ → ℕ → K → ℕ × ℕ × K
  pub name : ℕ → K → String

-- What ThreadX keeps of a group: its flags. A group is idle when it is created and no thread is
-- suspended on it.
pub record NativeFlags : Type 0 where
  pub is_idle : Bool
  pub flag : ℕ → Bool

-- All flags of a mask, of a word of so many bits, are set.
abbrev pub AllSet : ℕ → (ℕ → Bool) → ℕ → Type 0
AllSet bits flag mask = (i : ℕ) → i < bits → bit mask i ≡ true → flag i ≡ true

-- On an idle group: `set` with TX_OR sets the flags of the mask, and with TX_AND keeps those of the
-- mask only. A `get` for all flags of a mask that are there succeeds, gives the flags, and clears
-- those of the mask if the option says so; a `get` without waiting for flags that are not all there
-- returns TX_NO_EVENTS and changes nothing. A `get` for any flag of a mask does so likewise for masks
-- of which a flag is there, and of which none is.
pub record EventFlagsLaws {K : Type 0} (bits : ℕ) (api : EventFlagsApi K) : Type 0 where
  pub view : K → ℕ → NativeFlags
  pub or_done :
      (a mask : ℕ) (k : K)
      → (view k a).is_idle ≡ true
      → ((api.set a mask 0 k).0 ≡ 0)
        × (view (api.set a mask 0 k).1 a
            ≡ record (view k a) { flag = λ i. (view k a).flag i || bit mask i })
  pub and_done :
      (a mask : ℕ) (k : K)
      → (view k a).is_idle ≡ true
      → ((api.set a mask 2 k).0 ≡ 0)
        × (view (api.set a mask 2 k).1 a
            ≡ record (view k a) { flag = λ i. (view k a).flag i && bit mask i })
  pub all_clear_done :
      (a mask word wait : ℕ) (k : K)
      → (view k a).is_idle ≡ true
      → 0 < mask
      → AllSet bits (view k a).flag mask
      → ((api.get a mask 3 word wait k).0 ≡ 0)
        × ((i : ℕ) → i < bits → bit (api.get a mask 3 word wait k).1 i ≡ (view k a).flag i)
        × (view (api.get a mask 3 word wait k).2 a
            ≡ record (view k a) { flag = λ i. (view k a).flag i && not (bit mask i) })
  pub all_done :
      (a mask word wait : ℕ) (k : K)
      → (view k a).is_idle ≡ true
      → 0 < mask
      → AllSet bits (view k a).flag mask
      → ((api.get a mask 2 word wait k).0 ≡ 0)
        × ((i : ℕ) → i < bits → bit (api.get a mask 2 word wait k).1 i ≡ (view k a).flag i)
        × (view (api.get a mask 2 word wait k).2 a ≡ view k a)
  pub all_refused :
      (a mask option word i : ℕ) (k : K)
      → (view k a).is_idle ≡ true
      → 2 ≤ option
      → option ≤ 3
      → i < bits
      → bit mask i ≡ true
      → (view k a).flag i ≡ false
      → ((api.get a mask option word 0 k).0 ≡ to_underlying no_events)
        × (view (api.get a mask option word 0 k).2 a ≡ view k a)
  pub any_clear_done :
      (a mask word wait i : ℕ) (k : K)
      → (view k a).is_idle ≡ true
      → i < bits
      → bit mask i ≡ true
      → (view k a).flag i ≡ true
      → ((api.get a mask 1 word wait k).0 ≡ 0)
        × ((i : ℕ) → i < bits → bit (api.get a mask 1 word wait k).1 i ≡ (view k a).flag i)
        × (view (api.get a mask 1 word wait k).2 a
            ≡ record (view k a) { flag = λ i. (view k a).flag i && not (bit mask i) })
  pub any_done :
      (a mask word wait i : ℕ) (k : K)
      → (view k a).is_idle ≡ true
      → i < bits
      → bit mask i ≡ true
      → (view k a).flag i ≡ true
      → ((api.get a mask 0 word wait k).0 ≡ 0)
        × ((i : ℕ) → i < bits → bit (api.get a mask 0 word wait k).1 i ≡ (view k a).flag i)
        × (view (api.get a mask 0 word wait k).2 a ≡ view k a)
  pub any_refused :
      (a mask option word : ℕ) (k : K)
      → (view k a).is_idle ≡ true
      → option < 2
      → 0 < mask
      → ((i : ℕ) → i < bits → bit mask i ≡ true → (view k a).flag i ≡ false)
      → ((api.get a mask option word 0 k).0 ≡ to_underlying no_events)
        × (view (api.get a mask option word 0 k).2 a ≡ view k a)
