-- ===== src/Policy/Bandwidth.antt =====
-- Rates of internal/networkpolicy/policy.go: their validation and the administrator's ceilings.
pub mod Ceiling
use daemon.Common.{
  ℕ, ◌≡◌, Bool, true, false, ◌&&◌, ◌||◌, if◌then◌else◌, Result, ok, err, require, reject, ◌>>=◌,
  ◌>>◌, not,
}
use daemon.Common.Int.{ℤ, pos, ltb_ℤ, leb_ℤ, eqb_ℤ}
use daemon.Policy.Types.{Policy, Bandwidth, PolicyError, bandwidth_range, bandwidth_ceiling}

abbrev pub max_rate : ℤ
max_rate = pos 1000000000000

unfoldable pub valid_rate : ℤ → Bool
valid_rate rate = leb_ℤ (pos 0) rate && leb_ℤ rate max_rate

unfoldable pub validate_bandwidth : ℤ → ℤ → Result PolicyError (Unit {0})
unfolding valid_rate
validate_bandwidth rate ceiling = do
  reject (not (valid_rate rate) || not (valid_rate ceiling)) bandwidth_range
  reject (ltb_ℤ (pos 0) ceiling && ltb_ℤ ceiling rate) bandwidth_ceiling
  ok tt

-- One direction of `Effective`.
unfoldable pub cap_rate : ℤ → ℤ → ℤ
cap_rate rate ceiling =
    if ltb_ℤ (pos 0) ceiling && (eqb_ℤ rate (pos 0) || ltb_ℤ ceiling rate) then ceiling else rate

unfoldable pub effective : Policy → Bandwidth → Bandwidth
unfolding cap_rate
effective p ceiling =
    let b = p.body.bandwidth in
    record {
      upload = cap_rate b.upload ceiling.upload;
      download = cap_rate b.download ceiling.download;
    }

unfoldable pub required : Policy → Bandwidth → Bool
required p ceiling =
    p.body.firewall.enabled
    || ltb_ℤ (pos 0) p.body.bandwidth.upload
    || ltb_ℤ (pos 0) p.body.bandwidth.download
    || ltb_ℤ (pos 0) ceiling.upload
    || ltb_ℤ (pos 0) ceiling.download
