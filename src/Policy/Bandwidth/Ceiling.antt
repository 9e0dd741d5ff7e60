-- ===== src/Policy/Bandwidth/Ceiling.antt =====
-- `Effective` and `Required` under ceilings, where 0 stands for no limit.
use daemon.Common.{◌≡◌, ◌⊎◌, ◌||◌, arith}
use daemon.Common.Int.{ℤ, pos, ltb_ℤ, ◌≤ℤ◌, ◌<ℤ◌}
use daemon.Policy.Types.{Policy, Bandwidth}
use daemon.Policy.Bandwidth.{cap_rate, effective, required}

-- A rate lies under a limit: the limit is 0, or the rate is positive and no greater.
abbrev pub Under : ℤ → ℤ → Type 0
Under limit rate = (limit ≡ pos 0) ⊎ ((pos 0 <ℤ rate) × (rate ≤ℤ limit))

-- The capped rate is the weakest that both limits allow.
pub record IsCapped (rate ceiling r : ℤ) : Type 0 where
  pub in_policy : Under rate r
  pub in_ceiling : Under ceiling r
  pub either : (r ≡ rate) ⊎ (r ≡ ceiling)

cap_rate-IsCapped :
    (rate ceiling : ℤ)
    → pos 0 ≤ℤ rate
    → pos 0 ≤ℤ ceiling
    → IsCapped rate ceiling (cap_rate rate ceiling)
unfolding cap_rate
cap_rate-IsCapped rate ceiling a b = ground arith

-- Rates and ceilings that are not negative are capped in both directions: the effective rate lies
-- under the policy's limit and under the ceiling, where 0 is no limit, and is one of the two.
pub effective-IsCapped :
    (p : Policy) (ceiling : Bandwidth)
    → pos 0 ≤ℤ p.body.bandwidth.upload
    → pos 0 ≤ℤ p.body.bandwidth.download
    → pos 0 ≤ℤ ceiling.upload
    → pos 0 ≤ℤ ceiling.download
    → IsCapped p.body.bandwidth.upload ceiling.upload (effective p ceiling).upload
      × IsCapped p.body.bandwidth.download ceiling.download (effective p ceiling).download
unfolding effective
effective-IsCapped p ceiling a b c d = (
  cap_rate-IsCapped p.body.bandwidth.upload ceiling.upload a c,
  cap_rate-IsCapped p.body.bandwidth.download ceiling.download b d,
)

-- Where the policy's rates are not negative, enforcement is required exactly when the firewall
-- is on or a direction has an effective limit.
pub required_iff :
    (p : Policy) (ceiling : Bandwidth)
    → pos 0 ≤ℤ p.body.bandwidth.upload
    → pos 0 ≤ℤ p.body.bandwidth.download
    → required p ceiling ≡ (
        p.body.firewall.enabled
        || ltb_ℤ (pos 0) (effective p ceiling).upload
        || ltb_ℤ (pos 0) (effective p ceiling).download)
unfolding required effective cap_rate
required_iff p ceiling a b = ground arith
