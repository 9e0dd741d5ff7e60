-- ===== src/Disk/Space/Writers.antt =====
-- Any number of writes that reserve and release space at the same time, and a walk of the disk
-- that begins and ends among them.
use daemon.Common.{
  ℕ, ◌+◌, ◌≤◌, ◌≡◌, sym, ap, ◌∙◌, Bool, true, false, none, List, [], ◌∷◌, ◌++◌, arith,
}
use mathlib.Core.Path.{subst}
use daemon.Common.Int.{pos, ◌-ℤ◌, ◌≤ℤ◌, ◌<ℤ◌, +ℤ_parts, -ℤ_parts, int_laws}
use daemon.Disk.Quota.{max_int64}
use daemon.Disk.Space.{Filesystem, reserve_disk, release_disk, walk_begin, walk_end}
use daemon.Disk.Space.Effects.{reserve_granted, release_exact}

abbrev pub total : List ℕ → ℕ
total [] = 0
total (n ∷ ns) = n + total ns

-- The filesystem and the reservations that are not yet released.
pub record Disk : Type 0 where
  pub fs : Filesystem
  pub pending : List ℕ

pub data Step (d : Disk) : Disk → Type 0 where
  reserves :
      (n : ℕ) (fs' : Filesystem)
      → 1 ≤ n
      → reserve_disk d.fs (pos n) ≡ (fs', none)
      → Step d (record { fs = fs'; pending = n ∷ d.pending })
  releases :
      (before after : List ℕ) (n used : ℕ)
      → d.pending ≡ before ++ n ∷ after
      → used ≤ n
      → Step d (record { fs = release_disk d.fs (pos n) (pos used); pending = before ++ after })
  walk_begins : d.fs.walking ≡ false → Step d (record { fs = walk_begin d.fs; pending = d.pending })
  walk_ends :
      (now size : ℕ) (failed : Bool)
      → d.fs.walking ≡ true
      → size + total d.pending ≤ 9223372036854775807
      → Step d (record { fs = (walk_end d.fs now (pos size) failed).0; pending = d.pending })

total-append : (xs ys : List ℕ) → total (xs ++ ys) ≡ total xs + total ys
total-append [] ys = omega arith
total-append (x ∷ xs) ys = omega (arith, total-append xs ys)

-- What a release leaves of the sum.
sub_of_sum : (a b c : ℕ) → a ≡ b + (c + 0) → pos a -ℤ pos b ≡ pos c
sub_of_sum a b c h = omega int_laws

-- Under a limit that is positive and within int64 (a disk without a limit grants more than its usage
-- can count): what is reserved is the sum of what is pending, it is part of the usage, which is
-- within int64, and a walk in progress will add exactly it.
pub record IsCounted (d : Disk) : Type 0 where
  pub limited : pos 0 <ℤ d.fs.quota.limit
  pub limit_fits : d.fs.quota.limit ≤ℤ max_int64
  pub usage_fits : d.fs.quota.usage ≤ℤ max_int64
  pub reserved_pending : d.fs.reserved ≡ pos (total d.pending)
  pub part : pos (total d.pending) ≤ℤ d.fs.quota.usage
  pub walked : d.fs.walking ≡ true → d.fs.walk_reserved ≡ pos (total d.pending)

reserve_counts :
    (d : Disk) (n : ℕ) (fs' : Filesystem)
    → 1 ≤ n
    → reserve_disk d.fs (pos n) ≡ (fs', none)
    → IsCounted d
    → IsCounted (record { fs = fs'; pending = n ∷ d.pending })
reserve_counts d n fs' p h v =
    let (same, room) =
      reserve_granted d.fs n fs' v.limited v.limit_fits (omega (arith, v.part)) p h in
    let sum = +ℤ_parts d.fs.quota.usage (pos n) in
    subst (λ f. IsCounted (record { fs = f; pending = n ∷ d.pending })) (sym same)
      (record {
        limited = v.limited;
        limit_fits = v.limit_fits;
        usage_fits = omega (arith, room, v.limit_fits);
        reserved_pending = rw v.reserved_pending (omega int_laws);
        part = omega (arith, v.part, sum);
        walked = λ w. rw (w, v.walked w) (omega int_laws);
      })

release_counts :
    (d : Disk) (before after : List ℕ) (n used : ℕ)
    → d.pending ≡ before ++ n ∷ after
    → used ≤ n
    → IsCounted d
    → IsCounted (record { fs = release_disk d.fs (pos n) (pos used); pending = before ++ after })
release_counts d before after n used h p v =
    let all = ap total h ∙ total-append before (n ∷ after) in
    let left = total-append before after in
    let diff = -ℤ_parts (pos used) (pos n) in
    let sum = +ℤ_parts d.fs.quota.usage (pos used -ℤ pos n) in
    rw (release_exact d.fs n used v.usage_fits (omega (arith, all, v.part)) p) (record {
      limited = v.limited;
      limit_fits = v.limit_fits;
      usage_fits = omega (arith, diff, sum, v.usage_fits);
      reserved_pending = rw v.reserved_pending (omega (int_laws, all, left));
      part = omega (arith, diff, sum, all, left, v.part);
      walked = λ w.
          rw
            (
              w,
              v.walked w,
              sub_of_sum (total d.pending) n (total (before ++ after)) (omega (arith, all, left)),
            )
            (ground arith);
    })

walk_begin_counts :
    (d : Disk) → IsCounted d → IsCounted (record { fs = walk_begin d.fs; pending = d.pending })
unfolding walk_begin
walk_begin_counts d v = record {
  limited = v.limited;
  limit_fits = v.limit_fits;
  usage_fits = v.usage_fits;
  reserved_pending = v.reserved_pending;
  part = v.part;
  walked = λ w. v.reserved_pending;
}

walk_end_counts :
    (d : Disk) (now size : ℕ) (failed : Bool)
    → d.fs.walking ≡ true
    → size + total d.pending ≤ 9223372036854775807
    → IsCounted d
    → IsCounted (record { fs = (walk_end d.fs now (pos size) failed).0; pending = d.pending })
unfolding walk_end
walk_end_counts d now size failed w h v =
    let sum = +ℤ_parts (pos size) (pos (total d.pending)) in
    record {
      limited = v.limited;
      limit_fits = v.limit_fits;
      usage_fits = rw (v.walked w) (ground (arith, sum, v.usage_fits));
      reserved_pending = v.reserved_pending;
      part = rw (v.walked w) (ground (arith, sum, v.part));
      walked = λ e. cc;
    }

pub Step-IsCounted : {d e : Disk} → Step d e → IsCounted d → IsCounted e
Step-IsCounted {d} (reserves n fs' p h) v = reserve_counts d n fs' p h v
Step-IsCounted {d} (releases before after n used h p) v = release_counts d before after n used h p v
Step-IsCounted {d} (walk_begins w) v = walk_begin_counts d v
Step-IsCounted {d} (walk_ends now size failed w h) v = walk_end_counts d now size failed w h v

pub data Reach (d : Disk) : Disk → Type 0 where
  here : Reach d d
  next : {e f : Disk} → Reach d e → Step e f → Reach d f

-- From a filesystem with a positive limit within int64 where this holds, and through any
-- interleaving of granted reservations, releases of at most what was reserved, and walks that
-- count within int64: the reserved count is the sum of the reservations in progress, which is
-- part of the tracked usage, and a walk in progress will add exactly that sum.
pub Reach-IsCounted : {d e : Disk} → IsCounted d → Reach d e → IsCounted e
Reach-IsCounted v here = v
Reach-IsCounted v (next r st) = Step-IsCounted st (Reach-IsCounted v r)
