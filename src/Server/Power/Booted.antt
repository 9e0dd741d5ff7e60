-- ===== src/Server/Power/Booted.antt =====
-- What leads up to the start of the process.
use mathlib.Core.Path.{subst}
use daemon.Common.{
  ◌≡◌, refl, sym, ap, ◌∙◌, inl, inr, ◌⊎◌, Bool, true, false, Option, none, some, if◌then◌else◌,
  Bool-cases, Option-cases, arith,
}
use daemon.Server.Power.{
  PowerAction, start, stop, restart, kill, unknown, suspended, PowerError, Machine, behind,
  prepare_files, on_before_start, boot, perform, is_start,
}

module _ {W : Type 0} {E : Type 0} (machine : Machine W E) (check_permissions : Bool) where
  -- The preparation of a start, from the state before to the one behind it: the Panel's state is the
  -- last one, the server is not suspended, its disk is not over a limit that it has, and its files
  -- are written, and owned where that is wanted.
  pub record IsPrepared (before ready : W) : Type 0 where
    pub synced : W
    pub checked : W
    pub sync : machine.sync before ≡ (synced, none)
    pub active : machine.is_suspended synced ≡ false
    pub disk :
        (if machine.has_disk_limit synced
          then machine.check_disk synced
          else (machine.measure_disk synced, none))
        ≡ (checked, none)
    pub files :
        (if check_permissions
          then machine.chown (machine.update_files checked)
          else (machine.update_files checked, none))
        ≡ (ready, none)

  -- What a call that is followed by others leaves, if all succeed.
  nothing_failed :
      (c : W × Option E) (go : W → W × Option (PowerError E))
      → (behind machine check_permissions c go).1 ≡ none
      → (c ≡ (c.0, none)) × (behind machine check_permissions c go ≡ go c.0)
  nothing_failed (w, some e) go h = absurd cc
  nothing_failed (w, none) go h = (refl, refl)

  -- The files, in the state that the check of the disk leaves.
  prepare_files-ready :
      (c : W)
      → (prepare_files machine check_permissions c).1 ≡ none
      → (if check_permissions
          then machine.chown (machine.update_files c)
          else (machine.update_files c, none))
        ≡ ((prepare_files machine check_permissions c).0, none)
  prepare_files-ready c h = elim (Bool-cases check_permissions) [
    | inr free ↦ ground (arith, free)
    | inl owned ↦ ground (arith, h, owned)
  ]

  -- From the check of the disk on.
  abbrev disk_part : W → W × Option (PowerError E)
  disk_part w1 =
      if machine.has_disk_limit w1
      then behind machine check_permissions (machine.check_disk w1)
          (prepare_files machine check_permissions)
      else prepare_files machine check_permissions (machine.measure_disk w1)

  disk_part-checked :
      (w1 : W)
      → (disk_part w1).1 ≡ none
      → (c : W) × ((if machine.has_disk_limit w1
            then machine.check_disk w1
            else (machine.measure_disk w1, none))
          ≡ (c, none))
        × (disk_part w1 ≡ prepare_files machine check_permissions c)
        × ((prepare_files machine check_permissions c).1 ≡ none)
  disk_part-checked w1 h = elim (Bool-cases (machine.has_disk_limit w1)) [
    | inr free ↦ (machine.measure_disk w1, rw free refl, rw free refl, ground (arith, h, free))
    | inl limited ↦
        let go = prepare_files machine check_permissions in
        let here : (behind machine check_permissions (machine.check_disk w1) go).1 ≡ none =
          ground (arith, h, limited) in
        let (done, rest) = nothing_failed (machine.check_disk w1) go here in
        (
          (machine.check_disk w1).0,
          rw limited done,
          rw limited rest,
          sym (ap (λ r. r.1) rest) ∙ here,
        )
  ]

  on_before_start-IsPrepared :
      (w : W)
      → (on_before_start machine check_permissions w).1 ≡ none
      → IsPrepared w (on_before_start machine check_permissions w).0
  unfolding on_before_start
  on_before_start-IsPrepared w h =
      let (synced, rest) =
        nothing_failed (machine.sync w)
          (λ w1. if machine.is_suspended w1 then (w1, some suspended) else disk_part w1) h in
      elim (Bool-cases (machine.is_suspended (machine.sync w).0)) [
        | inl stopped ↦ absurd (ground (arith, h, rest, stopped))
        | inr active ↦
            let all : on_before_start machine check_permissions w ≡ disk_part (machine.sync w).0 =
              rest ∙ rw active refl in
            let (c, disk, same, done) =
              disk_part-checked (machine.sync w).0 (sym (ap (λ r. r.1) all) ∙ h) in
            record {
              synced = (machine.sync w).0;
              checked = c;
              sync = synced;
              active = active;
              disk = disk;
              files =
                  subst
                    (λ r.
                      (if check_permissions
                        then machine.chown (machine.update_files c)
                        else (machine.update_files c, none))
                      ≡ (r, none))
                    (sym (ap (λ r. r.0) (all ∙ same))) (prepare_files-ready c done);
            }
      ]

  boot-started :
      (w : W)
      → (boot machine check_permissions w).1 ≡ none
      → ((on_before_start machine check_permissions w).1 ≡ none)
        × (machine.start_process (on_before_start machine check_permissions w).0
            ≡ ((boot machine check_permissions w).0, none))
  unfolding boot
  boot-started w h = elim (Option-cases (on_before_start machine check_permissions w).1) [
    | inr (e, failure) ↦ absurd (ground (arith, h, failure))
    | inl done ↦ (done, ground (arith, h, done))
  ]

  -- A process is started behind its preparation.
  abbrev pub IsBooted : W → W → Type 0
  IsBooted before after =
      (ready : W) × IsPrepared before ready × (machine.start_process ready ≡ (after, none))

  boot-IsBooted :
      (w : W)
      → (boot machine check_permissions w).1 ≡ none
      → IsBooted w (boot machine check_permissions w).0
  boot-IsBooted w h =
      let (done, started) = boot-started w h in
      ((on_before_start machine check_permissions w).0, on_before_start-IsPrepared w done, started)

  -- A start or restart that succeeds begins with an offline server or with a stop that succeeds.
  -- From there the server is synchronised with the Panel, and is then not suspended and not over a
  -- disk limit that it has; its files are written, and owned where that is wanted; and last the
  -- process is started, which leaves the state that the action ends in.
  pub perform-IsBooted :
      (a : PowerAction) (w : W)
      → is_start a ≡ true
      → (perform machine check_permissions a w).1 ≡ none
      → (w0 : W) × (((w0 ≡ w) × (machine.is_offline w ≡ true))
          ⊎ (machine.wait_for_stop w ≡ (w0, none)))
        × IsBooted w0 (perform machine check_permissions a w).0
  unfolding perform is_start
  perform-IsBooted start w starts h = elim (Bool-cases (machine.is_offline w)) [
    | inr running ↦ absurd (ground (arith, h, running))
    | inl offline ↦ rw offline (w, inl (refl, refl), boot-IsBooted w (ground (arith, h, offline)))
  ]
  perform-IsBooted restart w starts h =
      let (stopped, rest) =
        nothing_failed (machine.wait_for_stop w) (boot machine check_permissions) h in
      (
        (machine.wait_for_stop w).0,
        inr stopped,
        rw rest (boot-IsBooted (machine.wait_for_stop w).0 (sym (ap (λ r. r.1) rest) ∙ h)),
      )
  perform-IsBooted stop w starts h = absurd cc
  perform-IsBooted kill w starts h = absurd cc
  perform-IsBooted unknown w starts h = absurd cc
