-- ===== src/System/Rate/Window.antt =====
-- How many calls of `Try` are granted over a stretch of time.
use daemon.Common.{
  ℕ, ◌+◌, ◌*◌, ◌≤◌, ◌<◌, ◌≡◌, List, [], ◌∷◌, inl, inr, le_or_lt, sym, All, arith, if◌then◌else◌,
}
use mathlib.Core.Path.{subst}
use daemon.System.Rate.{Rate, try, IsValid, try-IsValid}

-- The calls at the times `ts`, and how many of them return true.
unfoldable pub granted : Rate → List ℕ → ℕ
granted r [] = 0
granted r (t ∷ ts) = (if (try r t).1 then 1 else 0) + granted (try r t).0 ts

-- No time is later than `b`; every time is from `a` to `b`.
abbrev pub Until : ℕ → List ℕ → Type 0
Until b = All (λ t. t ≤ b)

abbrev pub Between : ℕ → ℕ → List ℕ → Type 0
Between a b = All (λ t. (a ≤ t) × (t ≤ b))

try_limits :
    (r : Rate) (t : ℕ) → ((try r t).0.limit ≡ r.limit) × ((try r t).0.duration ≡ r.duration)
unfolding try
try_limits r t = ground arith

Between-weaken : (a b : ℕ) (ts : List ℕ) → Between a b ts → Until b ts
Between-weaken a b [] h = tt
Between-weaken a b (t ∷ ts) h = (h.0.1, Between-weaken a b ts h.1)

-- Within the window each granted call is counted, and the window stays.
try_in_window :
    (r : Rate) (t : ℕ)
    → IsValid r
    → t ≤ r.last + r.duration
    → ((try r t).0.last ≡ r.last) × ((if (try r t).1 then 1 else 0) + r.count ≡ (try r t).0.count)
unfolding try
try_in_window r t v h = ground arith

-- After the window the count starts again at the call.
try_rolled :
    (r : Rate) (t : ℕ)
    → IsValid r
    → r.last + r.duration < t
    → ((try r t).0.last ≡ t) × ((if (try r t).1 then 1 else 0) ≡ (try r t).0.count)
unfolding try
try_rolled r t v h = ground arith

-- Calls that all come before the window ends fit in what is left of the limit.
pub granted-Until :
    (r : Rate) (b : ℕ) (ts : List ℕ)
    → IsValid r
    → b ≤ r.last + r.duration
    → Until b ts
    → granted r ts + r.count ≤ r.limit
unfolding granted
granted-Until r b [] v hb h = omega (arith, v.within)
granted-Until r b (t ∷ ts) v hb h =
    let (same, up) = try_in_window r t v (omega arith) in
    omega (
      arith,
      try_limits r t,
      granted-Until (try r t).0 b ts (try-IsValid r t v) (omega (arith, try_limits r t)) h.1,
    )

-- From a limiter whose count is within its limit, the calls in a stretch of time no longer than
-- the duration are granted at most twice the limit, less what was already counted.
pub granted-Between :
    (r : Rate) (a : ℕ) (ts : List ℕ)
    → IsValid r
    → Between a (a + r.duration) ts
    → granted r ts + r.count ≤ 2 * r.limit
unfolding granted
granted-Between r a [] v h = omega (arith, v.within)
granted-Between r a (t ∷ ts) v h = elim (le_or_lt t (r.last + r.duration)) [
  | inl early ↦
      let (same, up) = try_in_window r t v early in
      omega (
        arith,
        try_limits r t,
        granted-Between (try r t).0 a ts (try-IsValid r t v)
            (subst (λ d. Between a (a + d) ts) (sym (try_limits r t).1) h.1),
      )
  | inr late ↦
      let (moved, one) = try_rolled r t v late in
      omega (
        arith,
        try_limits r t,
        v.within,
        granted-Until (try r t).0 (a + r.duration) ts (try-IsValid r t v)
            (omega (arith, try_limits r t)) (Between-weaken a (a + r.duration) ts h.1),
      )
]
