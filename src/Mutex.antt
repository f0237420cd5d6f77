-- ===== src/Mutex.antt =====
-- mutex.hpp and mutex.cpp: the class Mutex. The object has no members beside the control block, so
-- a method takes its address; the kernel is the state.
pub mod Native
pub mod Recursion
pub mod Guard
pub mod Exclusion
use threadx_cpp.Prelude.{ℕ, String, M, ◌>>=◌, ◌>>◌, pure, assert, returns, aborts}
use threadx_cpp.Common.{Platform, Error, call, is_success}
use threadx_cpp.Ticks.{Duration, Clock, time_left, no_wait, wait_forever, ticks}
use Native.{MutexApi}

pub data InheritMode : Type 0 where
  no_inherit inherit : InheritMode

abbrev pub inherit_code : InheritMode → ℕ
inherit_code no_inherit = 0
inherit_code inherit = 1

pub record Mutex : Type 0 where
  pub address : ℕ

module _ {K : Type 0} (p : Platform) (api : MutexApi K) where
  -- The constructors, with the address at which the object stands.
  unfoldable construct : ℕ → String → InheritMode → M K Mutex
  construct address name mode = do
    error ← call (api.create address name (inherit_code mode))
    assert (is_success error)
    pure (record { address = address })

  unfoldable construct_unnamed : ℕ → InheritMode → M K Mutex
  construct_unnamed address mode = construct address "mutex" mode

  unfoldable destruct : Mutex → M K (Unit {0})
  destruct self = do error ← call (api.delete self.address); assert (is_success error)

  unfoldable pub try_lock_for : Mutex → Duration → M K Error
  try_lock_for self duration = call (api.get self.address (ticks p duration))

  unfoldable try_lock_until : Mutex → Clock → ℕ → ℕ → M K Error
  try_lock_until self clock time now = try_lock_for self (time_left clock time now)

  unfoldable pub lock : Mutex → M K Error
  unfolding try_lock_for
  lock self = try_lock_for self (wait_forever p)

  unfoldable pub try_lock : Mutex → M K Error
  unfolding try_lock_for
  try_lock self = try_lock_for self (no_wait p)

  unfoldable pub unlock : Mutex → M K Error
  unlock self = call (api.put self.address)

  -- `LockGuard`: std::lock_guard calls `lock` and `unlock`, whose results it does not use.
  unfoldable pub construct_guard : Mutex → M K (Unit {0})
  unfolding lock
  construct_guard self = do _ ← lock self; pure tt

  unfoldable pub destruct_guard : Mutex → M K (Unit {0})
  unfolding unlock
  destruct_guard self = do _ ← unlock self; pure tt

  -- A section under a guard.
  unfoldable pub guarded : {A : Type 0} → Mutex → M K A → M K A
  unfolding construct_guard destruct_guard
  guarded self section = do construct_guard self; a ← section; destruct_guard self; pure a

  unfoldable prioritise : Mutex → M K Error
  prioritise self = call (api.prioritize self.address)

  unfoldable name : Mutex → K → String
  name self = api.name self.address

  unfoldable locking_thread_id : Mutex → K → ℕ
  locking_thread_id self = api.owner self.address
