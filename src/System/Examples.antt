-- ===== src/System/Examples.antt =====
-- Runs of the rate limiter and the lock, and the theorems at concrete inputs.
use daemon.Common.{◌+◌, ◌≤◌, ◌≡◌, refl, true, false, some, [], ◌∷◌, arith}
use daemon.System.Rate.{Rate, try, reset}
use daemon.System.Rate.Window.{granted, granted-Between}
use daemon.System.Locker.{
  new_locker, is_locked, acquire, destroy, try_timeout, canceled, locker_locked,
}
use daemon.System.Locker.Exclusion.{
  Users, Reach, IsSafe, start, acquires, destroys, here, next, Reach-IsSafe, Step-destroyed,
}

-- Two a second, at 0.
abbrev two_per_second : Rate
two_per_second = record { limit = 2; duration = 1000; count = 0; last = 0 }

granted_five : granted two_per_second (100 ∷ 200 ∷ 300 ∷ 1100 ∷ 1200 ∷ []) ≡ 4
unfolding granted try
granted_five = refl

after_reset : granted (reset two_per_second 50) (60 ∷ []) ≡ 1
unfolding granted try reset
after_reset = refl

granted-Between_example : granted two_per_second (200 ∷ 300 ∷ 1100 ∷ 1200 ∷ []) + 0 ≤ 4
granted-Between_example =
    granted-Between two_per_second 200 (200 ∷ 300 ∷ 1100 ∷ 1200 ∷ []) (omega arith) (omega arith)

held : Reach (record start { lock = (acquire start.lock).0; holders = 1 })
unfolding start acquire new_locker
held = next here acquires

held_locked : is_locked (acquire new_locker).0 ≡ true
unfolding is_locked acquire new_locker
held_locked = refl

timeout : try_timeout (some canceled) ≡ some locker_locked
unfolding try_timeout
timeout = refl

Reach-IsSafe_example : IsSafe (record start { lock = (acquire start.lock).0; holders = 1 })
Reach-IsSafe_example = Reach-IsSafe held

abbrev gone : Users
gone = record {
  lock = record { locked = false; destroyed = true };
  waiting = 0;
  entered = 0;
  holders = 1;
}

Step-destroyed_example : ((destroy gone.lock).destroyed ≡ true) × (1 ≤ 1)
Step-destroyed_example = Step-destroyed {s = gone} destroys refl
