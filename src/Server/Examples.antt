-- ===== src/Server/Examples.antt =====
-- Runs of the file operations, and the theorems at concrete inputs.
use daemon.Common.{ℕ, ◌≡◌, refl, true, false, none, some, [], ◌∷◌, arith, ok}
use daemon.Common.Int.{pos}
use daemon.Server.Crash.{CrashHandler, CrashConfig, ExitState, handle_server_crash, too_frequent}
use daemon.Server.Crash.Spacing.{Call, AreSpaced, restarts, restarts-AreSpaced}
use daemon.Server.Operations.{
  FileOperation, Manager, canceled, add_bytes_processed, set_bytes_total, add_files_processed,
  request_cancel, new_manager, new_operation, start, finish, outcome, update, cancel, request_all,
  cancel_all, has, count,
}
use daemon.Server.Operations.Lifecycle.{
  Service, Reach, IsTracked, starts, finishes, sends, here, next, Reach-IsTracked,
}
use daemon.Server.Operations.Cancelled.{IsCancelled, cancel-IsCancelled}

program : Unit {0}
unfolding add_bytes_processed set_bytes_total add_files_processed request_cancel new_manager start
    finish outcome update cancel request_all cancel_all has count handle_server_crash restarts
program = tt

abbrev idle : Service ℕ
idle = record {
  manager = record { server = "web"; operations = [] };
  started = [];
  ending = [];
  results = [];
}

abbrev copying : FileOperation
copying = new_operation "web" "op" "copy" 5

-- The service once the operation is started.
abbrev busy : Service ℕ
busy = record idle {
  manager = record { server = "web"; operations = copying ∷ [] };
  started = "op" ∷ [];
}

-- And once it is cancelled.
abbrev stopping : Manager
stopping = record busy.manager {
  operations = record copying { cancelled = true; done = true } ∷ [];
}

started : start idle.manager "op" "copy" 5 ≡ (busy.manager, ok copying)
unfolding program
started = refl

stopped : cancel busy.manager "op" ≡ (stopping, true)
unfolding program
stopped = refl

unknown : cancel busy.manager "other" ≡ (busy.manager, false)
unfolding program
unknown = refl

wraps :
    (add_bytes_processed 18446744073709551615
      (record copying { bytes_processed = 3 })).bytes_processed
    ≡ 2
unfolding program
wraps = refl

late_end :
    outcome {E = ℕ} (finish stopping (record copying { cancelled = true; done = true })).1 none
    ≡ canceled
unfolding program
late_end = refl

gone : has (finish busy.manager copying).0 "op" ≡ false
unfolding program
gone = refl

none_left : count (cancel_all (new_manager "web")) ≡ 0
unfolding program
none_left = refl

idle-IsTracked : IsTracked idle
idle-IsTracked = record { limited = omega arith; once = λ id. omega arith; tracked = λ id. refl }

busy_reached : Reach idle busy
busy_reached = next here (starts "op" "copy" 5 busy.manager copying refl started)

Reach-IsTracked_example : IsTracked busy
Reach-IsTracked_example = Reach-IsTracked idle-IsTracked busy_reached

busy-IsTracked : IsTracked busy
busy-IsTracked = Reach-IsTracked idle-IsTracked busy_reached

after_stop :
    Reach
      (record busy { manager = (cancel busy.manager "op").0 })
      (record busy {
        manager = record stopping { operations = [] };
        results = ("op", canceled) ∷ [];
      })
unfolding program
after_stop =
    next (next here (finishes "op" (record copying { cancelled = true; done = true }) none refl))
      (sends [] [] ("op", canceled) refl)

cancel-IsCancelled_example :
    IsCancelled {E = ℕ} "op" (record busy {
      manager = record stopping { operations = [] };
      results = ("op", canceled) ∷ [];
    })
cancel-IsCancelled_example =
    cancel-IsCancelled busy-IsTracked "op" (unfold program in refl) after_stop

abbrev config : CrashConfig
config = record { enabled = true; detect_clean_exit = false; timeout = 60 }

abbrev killed : ExitState
killed = record { exit_code = pos 137; oom_killed = true }

abbrev crash_at : ℕ → Call ℕ
crash_at now = record { offline = true; exit = ok killed; now = now; later = now }

abbrev no_crash : CrashHandler
no_crash = record { last_crash = none }

second_refused :
    (handle_server_crash {E = ℕ} config
      (record { last_crash = some 100 })
      true
      (ok killed)
      130
      130).1
    ≡ too_frequent
unfolding program
second_refused = refl

two_restarts :
    restarts config no_crash (crash_at 100 ∷ crash_at 130 ∷ crash_at 160 ∷ []) ≡ 100 ∷ 160 ∷ []
unfolding program
two_restarts = refl

restarts-AreSpaced_example :
    AreSpaced 60 none (restarts config no_crash (crash_at 100 ∷ crash_at 130 ∷ crash_at 160 ∷ []))
restarts-AreSpaced_example =
    restarts-AreSpaced config no_crash (crash_at 100 ∷ crash_at 130 ∷ crash_at 160 ∷ [])
      (omega arith) (omega arith, (omega arith, (omega arith, tt)))
