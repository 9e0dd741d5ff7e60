-- ===== src/Disk/Space/Effects.antt =====
-- The effect of a reservation and of a release under a positive limit.
use daemon.Common.{
  ℕ, ◌+◌, ◌≤◌, ◌≡◌, true, false, none, some, arith, inl, inr, Bool-cases, le_or_lt, if◌then◌else◌,
}
use daemon.Common.Int.{pos, ◌+ℤ◌, ◌-ℤ◌, ◌≤ℤ◌, ◌<ℤ◌, max_ℤ, pos_part, neg_part, +ℤ_parts, -ℤ_parts}
use daemon.Disk.Quota.{Quota, max_int64, can_fit}
use daemon.Disk.Quota.Laws.{add_commit_within, can_fit_iff}
use daemon.Disk.Space.{Filesystem, SpaceError, reserve_disk, release_disk}

-- What `CanFit` promises of a positive size.
fits_room :
    (q : Quota) (n : ℕ)
    → pos 0 <ℤ q.limit
    → pos 0 ≤ℤ q.usage
    → 1 ≤ n
    → can_fit q (pos n) ≡ true
    → q.usage +ℤ pos n ≤ℤ q.limit
fits_room q n l u p fits = elim ((can_fit_iff q (pos n) l u).0 fits) [
  | inl no_size ↦ absurd (omega arith)
  | inr fit ↦ fit
]

-- A reservation that is granted under a positive limit adds exactly its size, within the limit.
pub reserve_granted :
    (fs : Filesystem) (n : ℕ) (fs' : Filesystem)
    → pos 0 <ℤ fs.quota.limit
    → fs.quota.limit ≤ℤ max_int64
    → pos 0 ≤ℤ fs.quota.usage
    → 1 ≤ n
    → reserve_disk fs (pos n) ≡ (fs', none)
    → (fs' ≡ record fs {
      quota = record fs.quota { usage = fs.quota.usage +ℤ pos n };
      reserved = fs.reserved +ℤ pos n;
      walk_reserved = if fs.walking then fs.walk_reserved +ℤ pos n else fs.walk_reserved;
    })
      × (fs.quota.usage +ℤ pos n ≤ℤ fs.quota.limit)
unfolding reserve_disk
reserve_granted fs n fs' l m u p e = elim (Bool-cases (can_fit fs.quota (pos n))) [
  | inr full ↦ absurd (ground arith)
  | inl fits ↦
      let room = fits_room fs.quota n l u p fits in
      let sum = +ℤ_parts fs.quota.usage (pos n) in
      (
        ground (
          arith,
          fits,
          add_commit_within fs.quota (pos n) u (omega (arith, room, sum)) (omega arith)
              (omega (arith, room, sum)) (omega (arith, sum)) (omega (arith, room)),
        ),
        room,
      )
]

-- A release of a reservation that is part of the tracked usage, and no smaller than what was
-- used of it, takes the unused rest off the usage and the whole reservation off the counts, of
-- which the walk's is kept from falling below 0.
pub release_exact :
    (fs : Filesystem) (n used : ℕ)
    → fs.quota.usage ≤ℤ max_int64
    → pos n ≤ℤ fs.quota.usage
    → used ≤ n
    → release_disk fs (pos n) (pos used) ≡ record fs {
      reserved = fs.reserved -ℤ pos n;
      walk_reserved =
          if fs.walking then max_ℤ (fs.walk_reserved -ℤ pos n) (pos 0) else fs.walk_reserved;
      quota = record fs.quota { usage = fs.quota.usage +ℤ (pos used -ℤ pos n) };
    }
unfolding release_disk
release_exact fs n used m u p =
    let diff = -ℤ_parts (pos used) (pos n) in
    let sum = +ℤ_parts fs.quota.usage (pos used -ℤ pos n) in
    ground (
      arith,
      add_commit_within fs.quota (pos used -ℤ pos n) (omega arith) m (omega (arith, diff))
          (omega (arith, diff)) (omega (arith, diff, sum)) (omega (arith, diff, sum)),
    )

past_limit :
    (q : Quota) (n : ℕ)
    → pos 0 <ℤ q.limit
    → pos 0 ≤ℤ q.usage
    → can_fit q (pos n) ≡ false
    → q.limit <ℤ q.usage +ℤ pos n
past_limit q n l u no_room =
    let sum = q.usage +ℤ pos n in
    elim (le_or_lt (pos_part sum + neg_part q.limit) (pos_part q.limit + neg_part sum)) [
      | inl room ↦ absurd (cc ((can_fit_iff q (pos n) l u).1 (inr room)))
      | inr past ↦ past
    ]

-- Under a positive limit and a usage that is known, a reservation that is refused changes
-- nothing, and the usage with the size would have passed the limit.
pub reserve_refused :
    (fs : Filesystem) (n : ℕ) (fs' : Filesystem) (e : SpaceError)
    → pos 0 <ℤ fs.quota.limit
    → pos 0 ≤ℤ fs.quota.usage
    → reserve_disk fs (pos n) ≡ (fs', some e)
    → (fs' ≡ fs) × (fs.quota.limit <ℤ fs.quota.usage +ℤ pos n)
unfolding reserve_disk
reserve_refused fs n fs' e l u h = elim (Bool-cases (can_fit fs.quota (pos n))) [
  | inl fits ↦ absurd (ground arith)
  | inr no_room ↦ (ground arith, past_limit fs.quota n l u no_room)
]
