-- ===== src/Server/Power.antt =====
-- server/power.go: what a power action does. The environment, the synchronisation with the Panel and
-- the file system act on a state of their own, which a parameter describes; `none` is a nil error.
pub mod Released
pub mod Booted
mod Examples
use daemon.Common.{
  ℕ, ◌≡◌, Bool, true, false, ◌&&◌, ◌||◌, not, Option, none, some, List, [], ◌∷◌, ◌++◌, ltb,
  if◌then◌else◌,
}
use daemon.System.Locker.{
  Locker, LockError, locker_destroyed, locker_locked, ContextError, acquire, release, try_begin,
  try_send, try_done, try_confirm, try_timeout,
}

-- `PowerAction`; `unknown` is any other text.
pub data PowerAction : Type 0 where
  start stop restart kill unknown : PowerAction

unfoldable pub is_valid : PowerAction → Bool
is_valid unknown = false
is_valid a = true

unfoldable pub is_start : PowerAction → Bool
is_start start = true
is_start restart = true
is_start a = false

pub data PowerError (E : Type 0) : Type 0 where
  is_restoring is_transferring is_installing is_running suspended unknown_action : PowerError E
  not_locked : LockError → PowerError E
  failed : E → PowerError E

-- What the server is busy with.
pub record Busy : Type 0 where
  pub installing : Bool
  pub transferring : Bool
  pub restoring : Bool

-- What a power action calls, on the state of all that is outside of this file.
pub record Machine (W : Type 0) (E : Type 0) : Type 0 where
  pub is_offline : W → Bool
  pub wait_for_stop : W → W × Option E
  pub start_process : W → W × Option E
  pub terminate : W → W × Option E
  pub sync : W → W × Option E
  pub is_suspended : W → Bool
  pub has_disk_limit : W → Bool
  -- `HasSpaceAvailable(true)`, and `HasSpaceErr(false)`.
  pub measure_disk : W → W
  pub check_disk : W → W × Option E
  pub update_files : W → W
  pub chown : W → W × Option E

-- The cases of the second `select` of `TryAcquire` that are ready in a state of the lock: any of
-- them may be the one that it takes. A send comes with what it leaves and with the lock as others
-- have left it by the time that `mu` is taken; a context that is done, with what `ctx.Err()` is.
pub data Arm (met : Locker) : Type 0 where
  sends : (sent found : Locker) → try_send met ≡ some sent → Arm met
  closes : (e : LockError) → try_done met ≡ some e → Arm met
  expires : Option ContextError → Arm met

unfoldable pub take_arm : {met : Locker} → Arm met → Locker × Option LockError
unfolding try_confirm try_timeout
take_arm (sends sent found h) = try_confirm found
take_arm {met} (closes e h) = (met, some e)
take_arm {met} (expires context) = (met, try_timeout context)

-- A wait: the lock as it is when the wait ends, and the case that it ends with.
pub record Wait : Type 0 where
  pub met : Locker
  pub arm : Arm met

-- `TryAcquire`, with the lock as it finds it first.
unfoldable pub try_acquire : Locker → Wait → Locker × Option LockError
unfolding try_begin take_arm
try_acquire l w = elim (try_begin l) [ some e ↦ (l, some e) | none ↦ take_arm w.arm ]

-- The lock behind the attempt of `HandlePowerAction`: whether the action holds it, or an error.
unfoldable pub take_lock : PowerAction → Option Wait → Locker → Locker × Bool × Option LockError
unfolding acquire try_acquire
take_lock kill wait l = elim (acquire l).1 [
  | none ↦ ((acquire l).0, true, none)
  | some locker_destroyed ↦ ((acquire l).0, false, some locker_destroyed)
  | some locker_locked ↦ ((acquire l).0, false, none)
]
take_lock a none l = elim (acquire l).1 [
  | none ↦ ((acquire l).0, true, none)
  | some e ↦ ((acquire l).0, false, some e)
]
take_lock a (some w) l = elim (try_acquire l w).1 [
  | none ↦ ((try_acquire l w).0, true, none)
  | some e ↦ ((try_acquire l w).0, false, some e)
]

unfoldable pub busy_error : {E : Type 0} → Busy → Option (PowerError E)
busy_error b =
    if b.installing || b.transferring || b.restoring
    then some (
        if b.restoring
        then is_restoring
        else if b.transferring
        then is_transferring
        else is_installing)
    else none

module _ {W : Type 0} {E : Type 0} (machine : Machine W E) (check_permissions : Bool) where
  -- The error of a call, or what comes behind it.
  abbrev pub behind : W × Option E → (W → W × Option (PowerError E)) → W × Option (PowerError E)
  behind (w, some e) go = (w, some (failed e))
  behind (w, none) go = go w

  -- `onBeforeStart` from the update of the files on.
  abbrev pub prepare_files : W → W × Option (PowerError E)
  prepare_files w =
      if check_permissions
      then behind (machine.chown (machine.update_files w)) (λ w'. (w', none))
      else (machine.update_files w, none)

  -- `onBeforeStart`
  unfoldable pub on_before_start : W → W × Option (PowerError E)
  on_before_start w = behind (machine.sync w) (λ w1.
      if machine.is_suspended w1
      then (w1, some suspended)
      else if machine.has_disk_limit w1
      then behind (machine.check_disk w1) prepare_files
      else prepare_files (machine.measure_disk w1))

  -- The preparation, and the start of the process if it succeeds.
  unfoldable pub boot : W → W × Option (PowerError E)
  unfolding on_before_start
  boot w = elim (on_before_start w).1 [
    | some e ↦ ((on_before_start w).0, some e)
    | none ↦ behind (machine.start_process (on_before_start w).0) (λ w'. (w', none))
  ]

  -- The switch of `HandlePowerAction`.
  unfoldable pub perform : PowerAction → W → W × Option (PowerError E)
  unfolding boot
  perform start w = if not (machine.is_offline w) then (w, some is_running) else boot w
  perform stop w = behind (machine.wait_for_stop w) (λ w'. (w', none))
  perform restart w = behind (machine.wait_for_stop w) boot
  perform kill w = behind (machine.terminate w) (λ w'. (w', none))
  perform unknown w = (w, some unknown_action)

  -- `HandlePowerAction`; the release is the deferred one.
  unfoldable pub handle_power_action :
      Busy → PowerAction → Option Wait → Locker → W → Locker × W × Option (PowerError E)
  unfolding busy_error take_lock perform release
  handle_power_action busy a wait l w = elim (busy_error busy) [
    | some e ↦ (l, w, some e)
    | none ↦
        let (l', held, refusal) = take_lock a wait l in
        let (w', e) = perform a w in
        elim refusal [
          | some r ↦ (l', w, some (not_locked r))
          | none ↦ (if held then release l' else l', w', e)
        ]
  ]
