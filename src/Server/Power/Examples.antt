-- ===== src/Server/Power/Examples.antt =====
-- Power actions on a machine that writes down what is called, and the theorems at concrete inputs.
use daemon.Common.{
  ◌≡◌, refl, ◌⊎◌, true, false, not, ◌||◌, if◌then◌else◌, Option, none, some, is_some, List, [], ◌∷◌,
  ◌++◌,
}
use daemon.System.Locker.{
  Locker, locker_locked, deadline_exceeded, acquire, release, try_begin, try_send, try_done,
  try_confirm, try_timeout, locker_destroyed,
}
use daemon.Server.Power.{
  start, restart, kill, not_locked, is_start, Busy, Machine, Wait, sends, closes, expires, take_arm,
  try_acquire, take_lock, busy_error, on_before_start, boot, perform, handle_power_action,
}
use daemon.Server.Power.Released.{
  is_performed, handle_power_action_released, handle_power_action_lem,
}
use daemon.Server.Power.Booted.{IsBooted, perform-IsBooted}

program : Unit {0}
unfolding acquire release try_begin try_send try_done try_confirm try_timeout is_start take_arm
    try_acquire take_lock busy_error on_before_start boot perform handle_power_action
program = tt

data Call : Type 0 where
  stopped started terminated synced measured checked updated owned : Call

abbrev called : Call → List Call → List Call × Option Call
called c w = (w ++ c ∷ [], none)

-- A machine that is offline, is not suspended, and has a limit on its disk.
abbrev machine : Machine (List Call) Call
machine = record {
  is_offline = λ w. true;
  wait_for_stop = called stopped;
  start_process = called started;
  terminate = called terminated;
  sync = called synced;
  is_suspended = λ w. false;
  has_disk_limit = λ w. true;
  measure_disk = λ w. w ++ measured ∷ [];
  check_disk = called checked;
  update_files = λ w. w ++ updated ∷ [];
  chown = called owned;
}

abbrev idle : Busy
idle = record { installing = false; transferring = false; restoring = false }

abbrev free : Locker
free = record { locked = false; destroyed = false }

abbrev taken : Locker
taken = record { locked = true; destroyed = false }

restarted :
    handle_power_action machine true idle restart none free []
    ≡ (free, stopped ∷ synced ∷ checked ∷ updated ∷ owned ∷ started ∷ [], none)
unfolding program
restarted = refl

kept_out :
    handle_power_action machine true idle start none taken []
    ≡ (taken, [], some (not_locked locker_locked))
unfolding program
kept_out = refl

killed : handle_power_action machine true idle kill none taken [] ≡ (taken, terminated ∷ [], none)
unfolding program
killed = refl

not_busy : busy_error {E = Call} idle ≡ none
unfolding program
not_busy = refl

-- A wait that ends with the slot, and one that its context ends.
abbrev wait : Option Wait
wait = some (record { met = free; arm = sends taken taken (unfold try_send in refl) })

abbrev in_vain : Option Wait
in_vain = some (record { met = taken; arm = expires (some deadline_exceeded) })

abbrev gone : Locker
gone = record { locked = true; destroyed = true }

late :
    handle_power_action machine true idle restart in_vain taken []
    ≡ (taken, [], some (not_locked locker_locked))
unfolding program
late = refl

destroyed_meanwhile :
    take_lock restart
      (some (record { met = gone; arm = closes locker_destroyed (unfold try_done in refl) }))
      taken
    ≡ (gone, false, some locker_destroyed)
unfolding program
destroyed_meanwhile = refl

handle_power_action_released_example :
    (handle_power_action machine true idle restart wait taken []).0.locked ≡ false
handle_power_action_released_example =
    handle_power_action_released machine true idle restart wait taken [] tt not_busy

handle_power_action_lem_example :
    ((handle_power_action machine true idle kill none taken []).1
      ≡ (if is_performed idle kill taken then (perform machine true kill []).0 else []))
    × (is_some (handle_power_action machine true idle kill none taken []).2
        ≡ (not (is_performed idle kill taken) || is_some (perform machine true kill []).1))
handle_power_action_lem_example = handle_power_action_lem machine true idle kill taken []

restart_starts : is_start restart ≡ true
unfolding program
restart_starts = refl

restart_succeeds : (perform machine true restart []).1 ≡ none
unfolding program
restart_succeeds = refl

perform-IsBooted_example :
    (w0 : List Call) × (((w0 ≡ []) × (true ≡ true)) ⊎ (called stopped [] ≡ (w0, none)))
    × IsBooted machine true w0 (perform machine true restart []).0
perform-IsBooted_example = perform-IsBooted machine true restart [] restart_starts restart_succeeds
