-- ===== src/Semaphore.antt =====
-- semaphore.hpp and semaphore.cpp: the classes CountingSemaphoreBase and CountingSemaphore. The
-- object does not change after its construction; the kernel is the state.
pub mod Native
pub mod Release
pub mod Acquire
use threadx_cpp.Prelude.{
  ℕ, zero, suc, Bool, not, Option, none, some, String, M, ◌>>=◌, ◌>>◌, pure, assert, returns,
  aborts, leb, if◌then◌else◌,
}
use threadx_cpp.Common.{Platform, Error, success, call, is_success}
use threadx_cpp.Ticks.{Duration, Clock, time_left, no_wait, wait_forever, ticks}
use Native.{SemaphoreApi}

-- `std::function<void(CountingSemaphore &)>`: empty, or what a call does to the kernel.
abbrev pub NotifyCallback : Type 0 → Type 0
NotifyCallback K = Option (ℕ → K → K)

pub record CountingSemaphore (K : Type 0) : Type 0 where
  pub address : ℕ
  pub ceiling : ℕ
  pub release_notify_callback : NotifyCallback K

-- The template argument of `BinarySemaphore`.
abbrev pub binary_ceiling : ℕ
binary_ceiling = 1

abbrev pub max : {K : Type 0} → CountingSemaphore K → ℕ
max self = self.ceiling

module _ {K : Type 0} (p : Platform) (api : SemaphoreApi K) where
  unfoldable pub register : ℕ → NotifyCallback K → M K (Unit {0})
  register address none = pure tt
  register address (some _) = do error ← call (api.put_notify address); assert (is_success error)

  -- The constructor, with the address at which the object stands and the template argument
  -- Ceiling.
  unfoldable pub construct : ℕ → ℕ → String → ℕ → NotifyCallback K → M K (CountingSemaphore K)
  unfolding register
  construct address ceiling name initial_count callback = do
    assert (leb initial_count ceiling)
    error ← call (api.create address name initial_count)
    assert (is_success error)
    register address callback
    pure (record { address = address; ceiling = ceiling; release_notify_callback = callback })

  unfoldable pub destruct : CountingSemaphore K → M K (Unit {0})
  destruct self = do error ← call (api.delete self.address); assert (is_success error)

  -- `while (count > 0)` puts one instance a round, and returns at the first error.
  unfoldable pub release : CountingSemaphore K → ℕ → M K Error
  release self zero = pure success
  release self (suc count) = do
    let rest = release self count
    error ← call (api.ceiling_put self.address self.ceiling)
    if not (is_success error) then pure error else rest

  unfoldable pub try_acquire_for : CountingSemaphore K → Duration → M K Error
  try_acquire_for self duration = call (api.take self.address (ticks p duration))

  unfoldable pub acquire : CountingSemaphore K → M K Error
  unfolding try_acquire_for
  acquire self = try_acquire_for self (wait_forever p)

  unfoldable pub try_acquire : CountingSemaphore K → M K Error
  unfolding try_acquire_for
  try_acquire self = try_acquire_for self (no_wait p)

  -- The clock's `now()` is an argument.
  unfoldable pub try_acquire_until : CountingSemaphore K → Clock → ℕ → ℕ → M K Error
  unfolding try_acquire_for
  try_acquire_until self clock time now = try_acquire_for self (time_left clock time now)

  unfoldable pub prioritise : CountingSemaphore K → M K Error
  prioritise self = call (api.prioritize self.address)

  unfoldable pub count : CountingSemaphore K → K → ℕ
  count self = api.count self.address

  unfoldable pub name : CountingSemaphore K → K → String
  name self = api.name self.address

-- `releaseNotifyCallback`: the kernel calls it after a put. It is registered only where the
-- callback is set; an empty std::function throws.
unfoldable pub notify_release : {K : Type 0} → CountingSemaphore K → M K (Unit {0})
notify_release self k = elim self.release_notify_callback [
  | some f ↦ returns (tt, f self.address k)
  | none ↦ aborts
]
