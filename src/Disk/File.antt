-- ===== src/Disk/File.antt =====
-- server/filesystem/quota_file.go: a file whose growth is reserved before it is written. What the
-- underlying `ufs.File` returns is an argument. `f.mu` keeps other calls on the file out for the
-- whole of a write, but `fs.mu` is held for the reservation and for the release only: what other
-- callers do to the filesystem while the write itself runs is an argument, `meanwhile`.
mod Reserved
pub mod Growth
pub mod Shared
use daemon.Common.{
  ℕ, ◌+◌, ◌-◌, ◌≡◌, Bool, true, false, Option, none, some, ltb, ◌==◌, ◌||◌, if◌then◌else◌, Result,
  ok, err,
}
use daemon.Common.Int.{ℤ, pos, ◌+ℤ◌, ◌-ℤ◌, ltb_ℤ, leb_ℤ}
use daemon.Disk.Quota.{max_int64}
use daemon.Disk.Space.{
  Filesystem, reserve_disk, release_disk, adjust_disk, has_space_for, SpaceError,
}

pub record QuotaFile : Type 0 where
  pub fs : Filesystem
  pub size : ℤ

-- The error of a write: no space, or what the underlying file returned.
pub data WriteError (E : Type 0) : Type 0 where
  full : WriteError E
  underlying : E → WriteError E

abbrev pub from_file : {E : Type 0} → Option E → Option (WriteError E)
from_file none = none
from_file (some e) = some (underlying e)

-- `none` is the source's `false`.
unfoldable pub quota_write_end : ℤ → ℤ → Option ℤ
unfolding ◌-ℤ◌ ◌+ℤ◌
quota_write_end off size =
    if ltb_ℤ size (pos 0) || ltb_ℤ (max_int64 -ℤ size) off then none else some (off +ℤ size)

-- `writtenEnd`, after a write that returned `n`.
unfoldable pub written_end : ℤ → ℤ → ℤ → ℤ
written_end previous off n =
    if ltb_ℤ (pos 0) n
    then elim (quota_write_end off n) [ none ↦ pos 0 | some end ↦ end ]
    else previous

-- From the return of the write on, with the space reserved for it. The filesystem is the one that
-- other callers have left by then.
unfoldable pub finish_write :
    {E : Type 0} → QuotaFile → ℤ → ℤ → ℤ × Option E → QuotaFile × ℤ × Option (WriteError E)
finish_write f off reserved (n, e) =
    let end = written_end f.size off n in
    let grown = ltb_ℤ f.size end in
    let size = if grown then end else f.size in
    let actual = if grown then end -ℤ f.size else pos 0 in
    (
      record {
        fs = if ltb_ℤ (pos 0) reserved then release_disk f.fs reserved actual else f.fs;
        size = size;
      },
      n,
      from_file e,
    )

-- `writeAtLocked` of `len` bytes at `off`, whose write returns `result`.
unfoldable pub write_at_locked :
    {E : Type 0}
    → QuotaFile
    → ℕ
    → ℤ
    → (Filesystem → Filesystem)
    → ℤ × Option E
    → QuotaFile × ℤ × Option (WriteError E)
write_at_locked f len off meanwhile result = elim (quota_write_end off (pos len)) [
  | none ↦ (f, pos 0, some full)
  | some end ↦
      let reserved = end -ℤ f.size in
      let (fs, refused) =
        if ltb_ℤ (pos 0) reserved then reserve_disk f.fs reserved else (f.fs, none) in
      elim refused [
        | some e ↦ (f, pos 0, some full)
        | none ↦ finish_write (record f { fs = meanwhile fs }) off reserved result
      ]
]

-- `Write`, with what `Seek` returns.
unfoldable pub write :
    {E : Type 0}
    → QuotaFile
    → ℕ
    → Result E ℤ
    → (Filesystem → Filesystem)
    → ℤ × Option E
    → QuotaFile × ℤ × Option (WriteError E)
write f len seek meanwhile result =
    if len == 0 then (f, result.0, from_file result.1) else elim seek [
      | err e ↦ (f, pos 0, some (underlying e))
      | ok off ↦ write_at_locked f len off meanwhile result
    ]

unfoldable pub write_at :
    {E : Type 0}
    → QuotaFile
    → ℕ
    → ℤ
    → (Filesystem → Filesystem)
    → ℤ × Option E
    → QuotaFile × ℤ × Option (WriteError E)
write_at f len off meanwhile result =
    if ltb_ℤ off (pos 0) || len == 0
    then (f, result.0, from_file result.1)
    else write_at_locked f len off meanwhile result

unfoldable pub check_size : QuotaFile → ℤ → Option SpaceError
check_size f size = if leb_ℤ size f.size then none else has_space_for f.fs (size -ℤ f.size)

-- `Close`, with the size that `Stat` returns and the error of the underlying `Close`.
unfoldable pub close : {E : Type 0} → QuotaFile → Result E ℤ → Option E → QuotaFile × Option E
close f (err e) closed = (f, some e)
close f (ok size) closed = (record f { fs = (adjust_disk f.fs (size -ℤ f.size)).0 }, closed)
