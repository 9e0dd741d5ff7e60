-- ===== src/Server/Power/Released.antt =====
-- Power actions and their lock.
use daemon.Common.{
  ◌≡◌, ap, ◌∙◌, inl, inr, Bool, true, false, ◌&&◌, ◌||◌, not, Option, none, some, if◌then◌else◌,
  is_some, Option-cases, arith,
}
use daemon.System.Locker.{
  Locker, LockError, acquire, release, try_begin, try_send, try_done, try_confirm, try_timeout,
}
use daemon.Server.Power.{
  PowerAction, start, stop, restart, kill, unknown, Busy, Machine, Arm, sends, closes, expires,
  Wait, take_arm, try_acquire, take_lock, busy_error, perform, handle_power_action,
}

-- Whether the lock is taken when an attempt at it ends.
abbrev pub taken_at_end : PowerAction → Option Wait → Locker → Bool
taken_at_end kill wait l = l.locked
taken_at_end a none l = l.locked
taken_at_end a (some w) l = if l.destroyed then l.locked else w.met.locked

-- A wait that ends because its context is done: the context has an error that the locker knows, a
-- deadline or a cancellation.
abbrev pub IsKnown : {met : Locker} → Arm met → Type 0
IsKnown (expires context) = is_some (try_timeout context) ≡ true
IsKnown arm = Unit {0}

abbrev pub EndsKnown : Option Wait → Type 0
EndsKnown none = Unit {0}
EndsKnown (some w) = IsKnown w.arm

-- The lock behind an attempt and the release that follows it if it is held.
abbrev let_go : Locker × Bool × Option LockError → Locker
let_go (l, held, e) = if held then release l else l

-- What a wait leaves, and whether the lock is then held.
left_by_wait :
    (met : Locker) (arm : Arm met)
    → IsKnown arm
    → (is_some (take_arm arm).1 ≡ true → (take_arm arm).0.locked ≡ met.locked)
      × (is_some (take_arm arm).1 ≡ false → met.locked ≡ false)
unfolding take_arm try_send try_done try_confirm try_timeout
left_by_wait met (sends sent found h) k = ground arith
left_by_wait met (closes e h) k = ground arith
left_by_wait met (expires context) k = ground arith

given_back_wait :
    (l : Locker) (w : Wait)
    → IsKnown w.arm
    → (if is_some (try_acquire l w).1 then (try_acquire l w).0.locked else false)
      ≡ (if l.destroyed then l.locked else w.met.locked)
unfolding try_acquire try_begin
given_back_wait l w k = ground (arith, left_by_wait w.met w.arm k)

given_back :
    (a : PowerAction) (wait : Option Wait) (l : Locker)
    → EndsKnown wait
    → (let_go (take_lock a wait l)).locked ≡ taken_at_end a wait l
unfolding take_lock acquire release
given_back kill wait l k = ground arith
given_back start none l k = ground arith
given_back start (some w) l k = ground (arith, given_back_wait l w k)
given_back stop none l k = ground arith
given_back stop (some w) l k = ground (arith, given_back_wait l w k)
given_back restart none l k = ground arith
given_back restart (some w) l k = ground (arith, given_back_wait l w k)
given_back unknown none l k = ground arith
given_back unknown (some w) l k = ground (arith, given_back_wait l w k)

-- An attempt that fails takes nothing.
refused_lock :
    (a : PowerAction) (wait : Option Wait) (l : Locker) (e : LockError)
    → (take_lock a wait l).2 ≡ some e
    → (take_lock a wait l).1 ≡ false
unfolding take_lock acquire
refused_lock kill wait l e h = ground (arith, h)
refused_lock start none l e h = ground (arith, h)
refused_lock start (some w) l e h = ground (arith, h)
refused_lock stop none l e h = ground (arith, h)
refused_lock stop (some w) l e h = ground (arith, h)
refused_lock restart none l e h = ground (arith, h)
refused_lock restart (some w) l e h = ground (arith, h)
refused_lock unknown none l e h = ground (arith, h)
refused_lock unknown (some w) l e h = ground (arith, h)

abbrev pub is_kill : PowerAction → Bool
is_kill kill = true
is_kill a = false

-- When an action that does not wait is performed: the server is not busy, the lock is not destroyed,
-- and it is free, unless the action is to kill.
abbrev pub is_performed : Busy → PowerAction → Locker → Bool
is_performed busy a l =
    not (busy.installing || busy.transferring || busy.restoring)
    && not l.destroyed
    && (is_kill a || not l.locked)

lock_refusal :
    (a : PowerAction) (l : Locker)
    → is_some (take_lock a none l).2 ≡ (l.destroyed || (not (is_kill a) && l.locked))
unfolding take_lock acquire
lock_refusal kill l = ground arith
lock_refusal start l = ground arith
lock_refusal stop l = ground arith
lock_refusal restart l = ground arith
lock_refusal unknown l = ground arith

module _ {W : Type 0} {E : Type 0} (machine : Machine W E) (check_permissions : Bool) where
  -- A server that is not busy: whatever a power action does, whether or not it waits for the
  -- lock, and whichever ready case ends its wait, it leaves the lock as taken or free as the
  -- lock was when its attempt at it ended, provided that a context that ends the wait has an
  -- error that the lock knows.
  pub handle_power_action_released :
      (busy : Busy) (a : PowerAction) (wait : Option Wait) (l : Locker) (w : W)
      → EndsKnown wait
      → busy_error {E = E} busy ≡ none
      → (handle_power_action machine check_permissions busy a wait l w).0.locked
        ≡ taken_at_end a wait l
  unfolding handle_power_action busy_error
  handle_power_action_released busy a wait l w known idle =
      elim (Option-cases (take_lock a wait l).2) [
        | inl taken ↦
            let same : (handle_power_action machine check_permissions busy a wait l w).0
                ≡ let_go (take_lock a wait l) =
              ground (arith, idle, taken) in
            ap (λ (x : Locker). x.locked) same ∙ given_back a wait l known
        | inr (e, refusal) ↦
            let same : (handle_power_action machine check_permissions busy a wait l w).0
                ≡ let_go (take_lock a wait l) =
              ground (arith, idle, refusal, refused_lock a wait l e refusal) in
            ap (λ (x : Locker). x.locked) same ∙ given_back a wait l known
      ]

  -- A power action that does not wait does what its kind says if the server is not busy, the lock
  -- is not destroyed, and the lock is free or the action is to kill; otherwise it touches nothing,
  -- and it has an error exactly then or where what it does has one.
  pub handle_power_action_lem :
      (busy : Busy) (a : PowerAction) (l : Locker) (w : W)
      → ((handle_power_action machine check_permissions busy a none l w).1
          ≡ (if is_performed busy a l then (perform machine check_permissions a w).0 else w))
        × (is_some (handle_power_action machine check_permissions busy a none l w).2
            ≡ (not (is_performed busy a l) || is_some (perform machine check_permissions a w).1))
  unfolding handle_power_action busy_error
  handle_power_action_lem busy a l w = elim (Option-cases (take_lock a none l).2) [
    | inl taken ↦ (ground (arith, taken, lock_refusal a l), ground (arith, taken, lock_refusal a l))
    | inr (e, refusal) ↦
        (ground (arith, refusal, lock_refusal a l), ground (arith, refusal, lock_refusal a l))
  ]
