-- ===== src/Disk/Quota/Laws.antt =====
-- What `Add` and `CanFit` compute.
use daemon.Common.{◌≡◌, ◌⊎◌, ◌↔◌, true, ◌∙◌, arith, if◌then◌else◌}
use daemon.Common.Int.{ℤ, pos, ◌+ℤ◌, ◌≤ℤ◌, ◌<ℤ◌, ltb_ℤ}
use daemon.Disk.Quota.{Quota, max_int64, min_int64, add_commit, can_fit}

-- The sum in unbounded integers, held to the range from 0 to the largest int64.
abbrev pub clamp : ℤ → ℤ
clamp x = if ltb_ℤ x (pos 0) then pos 0 else if ltb_ℤ max_int64 x then max_int64 else x

-- From a usage that is known and any int64 amount, `Add` stores and returns the saturated sum.
pub add_commit-eq-clamp :
    (q : Quota) (i : ℤ)
    → pos 0 ≤ℤ q.usage
    → q.usage ≤ℤ max_int64
    → min_int64 ≤ℤ i
    → i ≤ℤ max_int64
    → add_commit q i ≡ (record q { usage = clamp (q.usage +ℤ i) }, clamp (q.usage +ℤ i))
unfolding add_commit ◌+ℤ◌
add_commit-eq-clamp q i a b c d = ground arith

-- Under a positive limit and a known usage, a size fits exactly if it is not positive or the usage
-- with it stays within the limit.
pub can_fit_iff :
    (q : Quota) (size : ℤ)
    → pos 0 <ℤ q.limit
    → pos 0 ≤ℤ q.usage
    → (can_fit q size ≡ true) ↔ ((size ≤ℤ pos 0) ⊎ (q.usage +ℤ size ≤ℤ q.limit))
unfolding can_fit ◌+ℤ◌
can_fit_iff q size h k = ground arith

-- An addition whose sum is in range stores and returns that sum.
pub add_commit_within :
    (q : Quota) (i : ℤ)
    → pos 0 ≤ℤ q.usage
    → q.usage ≤ℤ max_int64
    → min_int64 ≤ℤ i
    → i ≤ℤ max_int64
    → pos 0 ≤ℤ q.usage +ℤ i
    → q.usage +ℤ i ≤ℤ max_int64
    → add_commit q i ≡ (record q { usage = q.usage +ℤ i }, q.usage +ℤ i)
add_commit_within q i a b c d e f = add_commit-eq-clamp q i a b c d ∙ ground arith
