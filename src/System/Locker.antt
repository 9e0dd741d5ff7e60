-- ===== src/System/Locker.antt =====
-- system/locker.go. `locked` is the one slot of the channel `ch`, `destroyed` the closed channel
-- `done`. What runs under `mu` is one step; `TryAcquire` is the steps between which others may run.
pub mod Exclusion
use daemon.Common.{ℕ, ◌≡◌, Bool, true, false, Option, none, some, if◌then◌else◌}

pub data LockError : Type 0 where
  locker_locked locker_destroyed : LockError

pub record Locker : Type 0 where
  pub locked : Bool
  pub destroyed : Bool

unfoldable pub new_locker : Locker
new_locker = record { locked = false; destroyed = false }

unfoldable pub is_locked : Locker → Bool
is_locked l = l.locked

-- `none` is a nil error.
unfoldable pub acquire : Locker → Locker × Option LockError
acquire l =
    if l.destroyed
    then (l, some locker_destroyed)
    else if l.locked
    then (l, some locker_locked)
    else (record l { locked = true }, none)

-- `Release`: a receive that does not block.
unfoldable pub release : Locker → Locker
release l = record l { locked = false }

unfoldable pub destroy : Locker → Locker
destroy l = if l.destroyed then l else record l { locked = false; destroyed = true }

-- `TryAcquire` up to its second `select`: `none` says that it goes on to wait.
unfoldable pub try_begin : Locker → Option LockError
try_begin l = if l.destroyed then some locker_destroyed else none

-- The case `l.ch <- true`: `none` while the slot is taken.
unfoldable pub try_send : Locker → Option Locker
try_send l = if l.locked then none else some (record l { locked = true })

-- The case `<-l.done`: `none` while the locker is not destroyed.
unfoldable pub try_done : Locker → Option LockError
try_done l = if l.destroyed then some locker_destroyed else none

-- What follows the send, under `mu`.
unfoldable pub try_confirm : Locker → Locker × Option LockError
try_confirm l =
    if l.destroyed then (record l { locked = false }, some locker_destroyed) else (l, none)

-- What `ctx.Err()` gives once the context is done.
pub data ContextError : Type 0 where
  deadline_exceeded canceled other_error : ContextError

-- The case `<-ctx.Done()`.
unfoldable pub try_timeout : Option ContextError → Option LockError
try_timeout (some deadline_exceeded) = some locker_locked
try_timeout (some canceled) = some locker_locked
try_timeout (some other_error) = none
try_timeout none = none
