-- ===== src/System/Rate.antt =====
-- system/rate.go: at most `limit` items in each `duration`. Times are readings of the monotonic
-- clock in nanoseconds; the mutex makes each call one step.
pub mod Window
use daemon.Common.{
  ℕ, ◌+◌, ◌%◌, ◌^◌, ◌≤◌, ◌<◌, ◌≡◌, Bool, true, false, List, [], ◌∷◌, arith, ltb, if◌then◌else◌,
}

pub record Rate : Type 0 where
  pub limit : ℕ  -- uint64
  pub duration : ℕ
  pub count : ℕ  -- uint64
  pub last : ℕ

pub new_rate : ℕ → ℕ → ℕ → Rate
new_rate limit duration now = record { limit = limit; duration = duration; count = 0; last = now }

-- The first `if` of `Try`.
roll : Rate → ℕ → Rate
roll r now = if ltb (r.last + r.duration) now then record r { count = 0; last = now } else r

-- `Try`, at the time `now`.
unfoldable pub try : Rate → ℕ → Rate × Bool
unfolding roll
try r now =
    let r' = roll r now in
    if ltb r'.limit ((r'.count + 1) % 2 ^ 64)
    then (r', false)
    else (record r' { count = (r'.count + 1) % 2 ^ 64 }, true)

unfoldable pub reset : Rate → ℕ → Rate
reset r now = record r { count = 0; last = now }

pub record IsValid (r : Rate) : Type 0 where
  pub within : r.count ≤ r.limit
  pub no_wrap : r.limit + 1 < 2 ^ 64

new_rate-IsValid :
    (limit duration now : ℕ) → limit + 1 < 2 ^ 64 → IsValid (new_rate limit duration now)
unfolding new_rate
new_rate-IsValid limit duration now h = ground arith

pub try-IsValid : (r : Rate) (now : ℕ) → IsValid r → IsValid (try r now).0
unfolding try
try-IsValid r now v = ground arith
