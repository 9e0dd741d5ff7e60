-- ===== src/System/Locker/Exclusion.antt =====
-- The power lock under any interleaving of its users.
use daemon.Common.{ℕ, suc, ◌+◌, ◌≤◌, ◌≡◌, true, false, Option, none, some, arith, if◌then◌else◌}
use daemon.System.Locker.{
  Locker, new_locker, acquire, release, destroy, try_begin, try_send, try_confirm,
}

-- The lock with its users: those at the second `select` of `TryAcquire`, those between the send and
-- the check under `mu`, and those that hold the lock.
pub record Users : Type 0 where
  pub lock : Locker
  pub waiting : ℕ
  pub entered : ℕ
  pub holders : ℕ

unfoldable pub start : Users
unfolding new_locker
start = record { lock = new_locker; waiting = 0; entered = 0; holders = 0 }

-- One more holder if the call returned nil.
abbrev pub grant {ℓ} : {E : Type ℓ} → Option E → ℕ → ℕ
grant none n = suc n
grant (some _) n = n

-- Only a user that holds the lock calls `Release`.
pub data Step (s : Users) : Users → Type 0 where
  acquires :
      Step s (record s { lock = (acquire s.lock).0; holders = grant (acquire s.lock).1 s.holders })
  begins : try_begin s.lock ≡ none → Step s (record s { waiting = suc s.waiting })
  sends :
      (k : ℕ) (l : Locker)
      → s.waiting ≡ suc k
      → try_send s.lock ≡ some l
      → Step s (record s { lock = l; waiting = k; entered = suc s.entered })
  gives_up : (k : ℕ) → s.waiting ≡ suc k → Step s (record s { waiting = k })
  confirms :
      (k : ℕ)
      → s.entered ≡ suc k
      → Step s (record s {
        lock = (try_confirm s.lock).0;
        entered = k;
        holders = grant (try_confirm s.lock).1 s.holders;
      })
  releases : (k : ℕ) → s.holders ≡ suc k → Step s (record s { lock = release s.lock; holders = k })
  destroys : Step s (record s { lock = destroy s.lock })

pub data Reach : Users → Type 0 where
  here : Reach start
  next : {s t : Users} → Reach s → Step s t → Reach t

-- The slot is taken exactly by the one user that holds or enters, until the locker is destroyed.
pub record IsSafe (s : Users) : Type 0 where
  pub one : s.holders ≤ 1
  pub slot : s.lock.destroyed ≡ false → s.holders + s.entered ≡ (if s.lock.locked then 1 else 0)

Step-IsSafe : {s t : Users} → Step s t → IsSafe s → IsSafe t
unfolding acquire release destroy try_begin try_send try_confirm
Step-IsSafe acquires v = ground arith
Step-IsSafe (begins h) v = ground arith
Step-IsSafe (sends k l h e) v = ground arith
Step-IsSafe (gives_up k h) v = ground arith
Step-IsSafe (confirms k h) v = ground arith
Step-IsSafe (releases k h) v = ground arith
Step-IsSafe destroys v = ground arith

-- Whatever the interleaving, at most one user holds the lock, and until it is destroyed the lock
-- reports that it is taken exactly when a user holds it or is about to.
pub Reach-IsSafe : {s : Users} → Reach s → IsSafe s
unfolding start
Reach-IsSafe here = ground arith
Reach-IsSafe (next r st) = Step-IsSafe st (Reach-IsSafe r)

-- Once the locker is destroyed it stays so, and no step adds a holder.
pub Step-destroyed :
    {s t : Users}
    → Step s t
    → s.lock.destroyed ≡ true
    → (t.lock.destroyed ≡ true) × (t.holders ≤ s.holders)
unfolding acquire release destroy try_begin try_send try_confirm
Step-destroyed acquires d = ground arith
Step-destroyed (begins h) d = ground arith
Step-destroyed (sends k l h e) d = ground arith
Step-destroyed (gives_up k h) d = ground arith
Step-destroyed (confirms k h) d = ground arith
Step-destroyed (releases k h) d = ground arith
Step-destroyed destroys d = ground arith
