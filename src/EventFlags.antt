-- ===== src/EventFlags.antt =====
-- eventFlags.hpp and eventFlags.cpp: the class EventFlags. The object does not change after its
-- construction; the kernel is the state.
pub mod Native
pub mod Masks
pub mod Sets
pub mod Run
pub mod Defaults
use threadx_cpp.Prelude.{
  ℕ, ◌-◌, Option, none, some, String, M, ◌>>=◌, ◌>>◌, pure, assert, returns, aborts,
}
use threadx_cpp.Common.{Platform, ulong_mod, Error, call, to_error, is_success}
use threadx_cpp.Ticks.{Duration, Clock, time_left, no_wait, wait_forever, ticks}
use Native.{EventFlagsApi}

pub data ClearOption : Type 0 where
  dont_clear clear : ClearOption

pub data FlagOption : Type 0 where
  any any_clear all all_clear : FlagOption

-- The names of two enumerators for `set` and `clear`.
abbrev pub or_into : FlagOption
or_into = any

abbrev pub and_into : FlagOption
and_into = all

abbrev pub flag_code : FlagOption → ℕ
flag_code any = 0
flag_code any_clear = 1
flag_code all = 2
flag_code all_clear = 3

-- `std::function<void(EventFlags &)>`: empty, or what a call does to the kernel.
abbrev pub NotifyCallback : Type 0 → Type 0
NotifyCallback K = Option (ℕ → K → K)

pub record EventFlags (K : Type 0) : Type 0 where
  pub address : ℕ
  pub set_notify_callback : NotifyCallback K

-- A Bitmask is the number below `ulong_mod` that `to_ulong` gives.
abbrev pub all_bits : Platform → ℕ
all_bits p = ulong_mod p - 1

-- `~bitMask`.
abbrev pub complement : Platform → ℕ → ℕ
complement p bit_mask = ulong_mod p - 1 - bit_mask

-- The choice of the flag option in `waitAllFor` and `waitAnyFor`.
abbrev pub all_option : ClearOption → FlagOption
all_option dont_clear = all
all_option clear = all_clear

abbrev pub any_option : ClearOption → FlagOption
any_option dont_clear = any
any_option clear = any_clear

module _ {K : Type 0} (p : Platform) (api : EventFlagsApi K) where
  unfoldable register : ℕ → NotifyCallback K → M K (Unit {0})
  register address none = pure tt
  register address (some _) = do error ← call (api.set_notify address); assert (is_success error)

  -- The constructor, with the address at which the object stands.
  unfoldable construct : ℕ → String → NotifyCallback K → M K (EventFlags K)
  unfolding register
  construct address name callback = do
    error ← call (api.create address name)
    assert (is_success error)
    register address callback
    pure (record { address = address; set_notify_callback = callback })

  unfoldable destruct : EventFlags K → M K (Unit {0})
  destruct self = do error ← call (api.delete self.address); assert (is_success error)

  unfoldable pub set_flags : EventFlags K → ℕ → M K Error
  set_flags self bit_mask = call (api.set self.address bit_mask (flag_code or_into))

  unfoldable pub clear_flags : EventFlags K → ℕ → M K Error
  clear_flags self bit_mask =
      call (api.set self.address (complement p bit_mask) (flag_code and_into))

  -- `actualFlags` is 0 before the call.
  unfoldable pub wait_for : EventFlags K → ℕ → Duration → FlagOption → M K (Error × ℕ)
  wait_for self bit_mask duration option k =
      let (code, actual_flags, k') =
        api.get self.address bit_mask (flag_code option) 0 (ticks p duration) k in
      returns ((to_error code, actual_flags), k')

  unfoldable pub wait_all_for : EventFlags K → ℕ → Duration → ClearOption → M K (Error × ℕ)
  unfolding wait_for
  wait_all_for self bit_mask duration option = wait_for self bit_mask duration (all_option option)

  unfoldable wait_all_until : EventFlags K → ℕ → Clock → ℕ → ℕ → ClearOption → M K (Error × ℕ)
  wait_all_until self bit_mask clock time now option =
      wait_all_for self bit_mask (time_left clock time now) option

  unfoldable pub wait_any_for : EventFlags K → ℕ → Duration → ClearOption → M K (Error × ℕ)
  unfolding wait_for
  wait_any_for self bit_mask duration option = wait_for self bit_mask duration (any_option option)

  unfoldable wait_any_until : EventFlags K → ℕ → Clock → ℕ → ℕ → ClearOption → M K (Error × ℕ)
  wait_any_until self bit_mask clock time now option =
      wait_any_for self bit_mask (time_left clock time now) option

  unfoldable pub get : EventFlags K → ℕ → ClearOption → M K (Error × ℕ)
  unfolding wait_all_for
  get self bit_mask option = wait_all_for self bit_mask (no_wait p) option

  -- `get()`, with the default arguments.
  unfoldable pub get_by_default : EventFlags K → M K (Error × ℕ)
  unfolding get
  get_by_default self = get self (all_bits p) clear

  unfoldable wait_all : EventFlags K → ℕ → ClearOption → M K (Error × ℕ)
  wait_all self bit_mask option = wait_all_for self bit_mask (wait_forever p) option

  unfoldable wait_any : EventFlags K → ℕ → ClearOption → M K (Error × ℕ)
  wait_any self bit_mask option = wait_any_for self bit_mask (wait_forever p) option

  unfoldable name : EventFlags K → K → String
  name self = api.name self.address

-- `setNotifyCallback`: the kernel calls it after flags are set. It is registered only where the
-- callback is set; an empty std::function throws.
unfoldable notify_set : {K : Type 0} → EventFlags K → M K (Unit {0})
notify_set self k = elim self.set_notify_callback [
  | some f ↦ returns (tt, f self.address k)
  | none ↦ aborts
]
