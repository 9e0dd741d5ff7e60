-- ===== src/Disk/Space.antt =====
-- server/filesystem/disk_space.go: reservations of space by writes in progress, the walk that
-- counts the files, and the cached usage. `fs.mu` makes each reservation and release one step, and
-- a walk two: its begin and its end, between which other callers run. Times are seconds.
pub mod Effects
pub mod Writers
use daemon.Common.{
  ℕ, ◌+◌, ◌≡◌, Bool, true, false, Option, none, some, [], ltb, ◌==◌, if◌then◌else◌, not,
}
use daemon.Common.Int.{ℤ, pos, negsuc, ◌+ℤ◌, ◌-ℤ◌, ltb_ℤ, leb_ℤ, eqb_ℤ, max_ℤ}
use daemon.Disk.Quota.{Quota, add, add_commit, add_alone, can_fit}

-- The fields of `Filesystem` that count; `quota` is its `unixFS`.
pub record Filesystem : Type 0 where
  pub quota : Quota
  pub reserved : ℤ
  pub walking : Bool
  pub walk_reserved : ℤ
  pub last_lookup : ℕ
  pub lookup_in_progress : Bool
  pub check_interval : ℕ

pub data SpaceError : Type 0 where
  disk_space : SpaceError

unfoldable pub has_space_for : Filesystem → ℤ → Option SpaceError
has_space_for fs size = if can_fit fs.quota size then none else some disk_space

unfoldable pub reserve_disk : Filesystem → ℤ → Filesystem × Option SpaceError
unfolding has_space_for add
reserve_disk fs size = if leb_ℤ size (pos 0) then (fs, none) else elim (has_space_for fs size) [
  | some e ↦ (fs, some e)
  | none ↦ (
    record fs {
      quota = add_alone fs.quota size;
      reserved = fs.reserved +ℤ size;
      walk_reserved = if fs.walking then fs.walk_reserved +ℤ size else fs.walk_reserved;
    },
    none,
  )
]

unfoldable pub release_positive : Filesystem → ℤ → ℤ → Filesystem
unfolding add
release_positive fs reserved used = record fs {
  reserved = fs.reserved -ℤ reserved;
  walk_reserved =
      if fs.walking then max_ℤ (fs.walk_reserved -ℤ reserved) (pos 0) else fs.walk_reserved;
  quota = add_alone fs.quota (used -ℤ reserved);
}

-- Its first statement raises a negative reservation to 0.
unfoldable pub release_disk : Filesystem → ℤ → ℤ → Filesystem
unfolding release_positive
release_disk fs reserved used =
    release_positive fs (if ltb_ℤ reserved (pos 0) then pos 0 else reserved) used

unfoldable pub adjust_disk : Filesystem → ℤ → Filesystem × ℤ
unfolding add
adjust_disk fs size =
    if eqb_ℤ size (pos 0)
    then (fs, fs.quota.usage)
    else let (q, usage) = add [] fs.quota size in (record fs { quota = q }, usage)

-- `walkDiskUsage` up to `DirectorySize`.
unfoldable pub walk_begin : Filesystem → Filesystem
walk_begin fs = record fs { lookup_in_progress = true; walking = true; walk_reserved = fs.reserved }

-- The rest, at the time `now`, with the size that `DirectorySize` counted and whether it failed.
unfoldable pub walk_end : Filesystem → ℕ → ℤ → Bool → Filesystem × ℤ
walk_end fs now size failed =
    let counted = size +ℤ fs.walk_reserved in
    let usage = if failed then max_ℤ counted fs.quota.usage else counted in
    (
      record fs {
        quota = record fs.quota { usage = usage };
        walking = false;
        last_lookup = now;
        lookup_in_progress = false;
      },
      usage,
    )

-- `!lastLookupTime.After(now - interval)`.
abbrev pub expired : Filesystem → ℕ → Bool
expired fs now = not (ltb now (fs.last_lookup + fs.check_interval))

-- What `DiskUsage` does: answers with a value, walks the disk in the caller (`refreshDiskUsage`,
-- whose second look at the clock is at `later`), or starts a walk and answers with the cached value.
pub data Lookup : Type 0 where
  disabled cached walk : Lookup
  background : Filesystem → Lookup

unfoldable pub disk_usage : Filesystem → Bool → ℕ → ℕ → Lookup
disk_usage fs allow_stale now later =
    if fs.check_interval == 0
    then disabled
    else if not (expired fs now)
    then cached
    else if not allow_stale
    then (if expired fs later then walk else cached)
    else if fs.lookup_in_progress
    then cached
    else background (record fs { lookup_in_progress = true })

-- `HasSpaceAvailable` on the size that `DiskUsage` returned.
unfoldable pub has_space_available : Filesystem → ℤ → Bool
has_space_available fs size =
    if eqb_ℤ fs.quota.limit (pos 0) then true else leb_ℤ size fs.quota.limit
