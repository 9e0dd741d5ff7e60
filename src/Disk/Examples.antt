-- ===== src/Disk/Examples.antt =====
-- Runs of the disk accounting, and the theorems at concrete inputs.
use mathlib.Core.Path.{subst}
use daemon.Common.{ℕ, ◌≡◌, ap, ◌⊎◌, ◌↔◌, refl, true, false, none, some, [], ◌∷◌, ◌++◌, arith, ok}
use daemon.Common.Int.{pos, negsuc, ◌+ℤ◌, ◌-ℤ◌, neg_ℤ, ◌≤ℤ◌, ◌<ℤ◌}
use daemon.Disk.Quota.{
  FileInfo, add_next, add_commit, add_round, add, can_fit, freed_by, remove, unlinkat,
}
use daemon.Disk.Quota.Laws.{clamp, add_commit-eq-clamp, can_fit_iff}
use daemon.Disk.Space
use daemon.Disk.Space.{
  Filesystem, SpaceError, reserve_disk, release_positive, release_disk, adjust_disk, walk_begin,
  walk_end, has_space_for, disk_usage, has_space_available, cached,
}
use daemon.Disk.Space.Effects.{reserve_refused}
use daemon.Disk.Space.Writers.{Disk, IsCounted, Reach, here, next, reserves, Reach-IsCounted}
use daemon.Disk.File.{
  QuotaFile, quota_write_end, written_end, finish_write, write_at_locked, write, write_at,
  check_size, close,
}
use daemon.Disk.File.Shared.{Counts, write_at_locked-IsCounted}
use daemon.Disk.File.Growth.{alone, IsOpen, Outcome, write_at_locked-Outcome}

program : Unit {0}
unfolding add_next add_commit add_round add can_fit freed_by remove unlinkat ◌+ℤ◌ ◌-ℤ◌ neg_ℤ
    reserve_disk release_disk adjust_disk walk_begin walk_end has_space_for disk_usage
    has_space_available quota_write_end written_end finish_write write_at_locked write write_at
    check_size close
program = tt

abbrev half_full : Filesystem
half_full = record {
  quota = record { limit = pos 100; usage = pos 50 };
  reserved = pos 0;
  walking = false;
  walk_reserved = pos 0;
  last_lookup = 0;
  lookup_in_progress = false;
  check_interval = 150;
}

abbrev file : QuotaFile
file = record { fs = half_full; size = pos 20 }

-- Twenty bytes at 10, of which fifteen are written: the file grows by five.
short_write : (write {E = ℕ} file 20 (ok (pos 10)) alone (pos 15, some 5)).0.fs.quota.usage ≡ pos 55
unfolding program
short_write = refl

too_long : (write_at {E = ℕ} file 90 (pos 10) alone (pos 90, none)).1 ≡ pos 0
unfolding program
too_long = refl

closing : (close {E = ℕ} file (ok (pos 12)) none).0.fs.quota.usage ≡ pos 42
unfolding program
closing = refl

growing : check_size file (pos 71) ≡ some Space.disk_space
unfolding program
growing = refl

abbrev linked : FileInfo
linked = record { is_regular = true; links = some 2; size = pos 30 }

removing : (remove {E = ℕ} (ok linked) half_full.quota).0.usage ≡ pos 50
unfolding program
removing = refl

unlinking :
    (unlinkat {E = ℕ} 0 (ok (record linked { links = none })) none half_full.quota).0.usage ≡ pos 20
unfolding program
unlinking = refl

adjusting : (adjust_disk half_full (negsuc 9)).1 ≡ pos 40
unfolding program
adjusting = refl

looking : disk_usage half_full false 100 100 ≡ cached
unfolding program
looking = refl

room_left : has_space_available half_full (pos 100) ≡ true
unfolding program
room_left = refl

add_commit-eq-clamp_example :
    add_commit half_full.quota (negsuc 59)
    ≡ (record half_full.quota { usage = clamp (pos 50 +ℤ negsuc 59) }, clamp (pos 50 +ℤ negsuc 59))
add_commit-eq-clamp_example =
    add_commit-eq-clamp half_full.quota (negsuc 59) (omega arith) (omega arith) (omega arith)
      (omega arith)

half_full-IsOpen : IsOpen file
half_full-IsOpen = omega arith

write_at_locked-Outcome_example :
    Outcome {E = ℕ} file 20 10 20 15
      (some 5)
      (write_at_locked file 20 (pos 10) alone (pos 15, some 5))
write_at_locked-Outcome_example =
    write_at_locked-Outcome file 20 10 20 15 (some 5) half_full-IsOpen refl (omega arith)
      (omega arith) (omega arith)

abbrev idle : Disk
idle = record { fs = half_full; pending = [] }

idle-IsCounted : IsCounted idle
idle-IsCounted = record {
  limited = omega arith;
  limit_fits = omega arith;
  usage_fits = omega arith;
  reserved_pending = refl;
  part = omega arith;
  walked = λ e. cc;
}

reserved_once : Reach idle (record { fs = (reserve_disk half_full (pos 30)).0; pending = 30 ∷ [] })
unfolding program
reserved_once = next here (reserves 30 _ (omega arith) refl)

Reach-IsCounted_example :
    IsCounted (record { fs = (reserve_disk half_full (pos 30)).0; pending = 30 ∷ [] })
Reach-IsCounted_example = Reach-IsCounted idle-IsCounted reserved_once

can_fit_iff_example :
    (can_fit half_full.quota (pos 51) ≡ true) ↔ ((pos 51 ≤ℤ pos 0) ⊎ (pos 50 +ℤ pos 51 ≤ℤ pos 100))
can_fit_iff_example = can_fit_iff half_full.quota (pos 51) (omega arith) (omega arith)

refused : reserve_disk half_full (pos 51) ≡ (half_full, some Space.disk_space)
unfolding program
refused = refl

reserve_refused_example : (half_full ≡ half_full) × (pos 100 <ℤ pos 50 +ℤ pos 51)
reserve_refused_example =
    reserve_refused half_full 51 half_full Space.disk_space (omega arith) (omega arith) refused

-- While the write runs, another caller reserves 10 bytes.
abbrev reserve_ten : Filesystem → Filesystem
reserve_ten fs = record fs {
  quota = record fs.quota { usage = fs.quota.usage +ℤ pos 10 };
  reserved = fs.reserved +ℤ pos 10;
}

others_reserve :
    (fs : Filesystem)
    → reserve_disk half_full (pos 10) ≡ (fs, none)
    → Reach
        (record { fs = fs; pending = 10 ∷ [] })
        (record { fs = reserve_ten fs; pending = (10 ∷ []) ++ 10 ∷ [] })
unfolding program
others_reserve fs h =
    subst
      (λ x.
        Reach (record { fs = x; pending = 10 ∷ [] })
          (record { fs = reserve_ten x; pending = 10 ∷ 10 ∷ [] }))
      (ap (λ r. r.0) h) (next here (reserves 10 _ (omega arith) refl))

write_at_locked-IsCounted_example :
    Counts {E = ℕ} file 20 10 20 15
      (some 5)
      (10 ∷ [])
      (write_at_locked file 20 (pos 10) reserve_ten (pos 15, some 5))
write_at_locked-IsCounted_example =
    write_at_locked-IsCounted file 20 10 20 15 (some 5) [] (10 ∷ []) [] reserve_ten idle-IsCounted
      refl (omega arith) (omega arith) (omega arith) others_reserve
