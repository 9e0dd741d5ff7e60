-- ===== src/Server/Crash/Spacing.antt =====
-- How far apart the automatic restarts are.
use mathlib.Core.Path.{subst}
use daemon.Common.{
  ℕ, ◌+◌, ◌≤◌, ◌≡◌, ◌⊎◌, refl, sym, inl, inr, Bool, true, false, Option, none, some, List, [], ◌∷◌,
  arith, All, Result, if◌then◌else◌,
}
use daemon.Server.Crash.{
  CrashHandler, CrashConfig, ExitState, CrashAction, restarting, ignored, clean_exit, too_frequent,
  no_exit_state, handle_server_crash, is_recent,
}

-- A call of the handler: the state of the environment and the two times.
pub record Call (E : Type 0) : Type 0 where
  pub offline : Bool
  pub exit : Result E ExitState
  pub now : ℕ
  pub later : ℕ

abbrev pub is_restart : {E : Type 0} → CrashAction E → Bool
is_restart restarting = true
is_restart ignored = false
is_restart clean_exit = false
is_restart too_frequent = false
is_restart (no_exit_state e) = false

-- The recorded times of the restarts of a list of calls.
unfoldable pub restarts : {E : Type 0} → CrashConfig → CrashHandler → List (Call E) → List ℕ
restarts config h [] = []
restarts config h (c ∷ cs) =
    let (h', action) = handle_server_crash config h c.offline c.exit c.now c.later in
    let rest = restarts config h' cs in if is_restart action then c.later ∷ rest else rest

-- Each time is at least the timeout after the one before, which is `last` for the first.
abbrev pub AreSpaced : ℕ → Option ℕ → List ℕ → Type 0
AreSpaced timeout last [] = Unit {0}
AreSpaced timeout none (t ∷ ts) = AreSpaced timeout (some t) ts
AreSpaced timeout (some s) (t ∷ ts) = (s + timeout ≤ t) × AreSpaced timeout (some t) ts

-- A call either leaves the handler as it is and does not restart, or restarts after the timeout.
handle_cases :
    {E : Type 0} (config : CrashConfig) (h : CrashHandler) (c : Call E)
    → c.now ≤ c.later
    → (((handle_server_crash config h c.offline c.exit c.now c.later).0 ≡ h)
        × (is_restart (handle_server_crash config h c.offline c.exit c.now c.later).1 ≡ false))
      ⊎ (((handle_server_crash config h c.offline c.exit c.now c.later).0
            ≡ record h { last_crash = some c.later })
          × (is_restart (handle_server_crash config h c.offline c.exit c.now c.later).1 ≡ true)
          × ((is_recent config h c.now) ≡ false))
unfolding handle_server_crash
handle_cases config h c le = ground arith

not_recent :
    (config : CrashConfig) (h : CrashHandler) (now s : ℕ)
    → is_recent config h now ≡ false
    → h.last_crash ≡ some s
    → 1 ≤ config.timeout
    → s + config.timeout ≤ now
not_recent config h now s r e t = ground arith

AreSpaced-cons :
    (timeout : ℕ) (last : Option ℕ) (t : ℕ) (ts : List ℕ)
    → ((s : ℕ) → last ≡ some s → s + timeout ≤ t)
    → AreSpaced timeout (some t) ts
    → AreSpaced timeout last (t ∷ ts)
AreSpaced-cons timeout none t ts far h = h
AreSpaced-cons timeout (some s) t ts far h = (far s refl, h)

-- Under a timeout that is not 0, and calls that do not record a time before the one they tested,
-- the recorded restarts of any list of calls are at least the timeout apart, the first one also
-- from the last crash that the handler knew.
pub restarts-AreSpaced :
    {E : Type 0} (config : CrashConfig) (h : CrashHandler) (cs : List (Call E))
    → 1 ≤ config.timeout
    → All (λ c. c.now ≤ c.later) cs
    → AreSpaced config.timeout h.last_crash (restarts config h cs)
unfolding restarts
restarts-AreSpaced config h [] t le = tt
restarts-AreSpaced config h (c ∷ cs) t (le, les) = elim (handle_cases config h c le) [
  | inl (same, no_restart) ↦ rw (no_restart, same) (restarts-AreSpaced config h cs t les)
  | inr (moved, restart, far) ↦ rw restart (
      AreSpaced-cons config.timeout h.last_crash c.later
        (restarts config (handle_server_crash config h c.offline c.exit c.now c.later).0 cs)
        (λ s e. omega (arith, le, not_recent config h c.now s far e t))
        (subst (λ k. AreSpaced config.timeout (some c.later) (restarts config k cs)) (sym moved)
          (restarts-AreSpaced config (record h { last_crash = some c.later }) cs t les)))
]
