-- ===== src/Server/Crash.antt =====
-- server/crash.go: what is done about a server that has stopped. The state of the environment, its
-- exit state and the configuration are arguments; times are seconds, and `none` the zero time.
pub mod Spacing
use daemon.Common.{
  ℕ, ◌+◌, Bool, true, false, ◌&&◌, ◌||◌, not, Option, none, some, ltb, ◌==◌, if◌then◌else◌, Result,
  ok, err,
}
use daemon.Common.Int.{ℤ, pos, eqb_ℤ}

-- `CrashHandler`
pub record CrashHandler : Type 0 where
  pub last_crash : Option ℕ

pub record CrashConfig : Type 0 where
  pub enabled : Bool
  pub detect_clean_exit : Bool
  pub timeout : ℕ

-- What `ExitState` returns.
pub record ExitState : Type 0 where
  pub exit_code : ℤ
  pub oom_killed : Bool

-- The outcomes of `handleServerCrash`; `restarting` calls `HandlePowerAction` with a start.
pub data CrashAction (E : Type 0) : Type 0 where
  ignored clean_exit too_frequent restarting : CrashAction E
  no_exit_state : E → CrashAction E

abbrev pub is_recent : CrashConfig → CrashHandler → ℕ → Bool
is_recent config h now = elim h.last_crash [
  | none ↦ false
  | some c ↦ not (config.timeout == 0) && ltb now (c + config.timeout)
]

-- `now` is the time of the test and `later` the one that is recorded.
unfoldable pub handle_server_crash :
    {E : Type 0}
    → CrashConfig
    → CrashHandler
    → Bool
    → Result E ExitState
    → ℕ
    → ℕ
    → CrashHandler × CrashAction E
handle_server_crash config h offline exit now later =
    if not offline || not config.enabled then (h, ignored) else elim exit [
      | err e ↦ (h, no_exit_state e)
      | ok s ↦
          if eqb_ℤ s.exit_code (pos 0) && not s.oom_killed && not config.detect_clean_exit
          then (h, clean_exit)
          else if is_recent config h now
          then (h, too_frequent)
          else (record h { last_crash = some later }, restarting)
    ]
