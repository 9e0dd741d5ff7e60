-- ===== src/Disk/File/Shared.antt =====
-- `writeAtLocked` among other callers of the filesystem.
use daemon.Common.{
  ℕ, ◌+◌, ◌-◌, ◌≤◌, ◌<◌, ◌≡◌, ◌⊎◌, refl, inl, inr, Option, none, some, List, ◌∷◌, ◌++◌, arith,
}
use daemon.Common.Int.{ℤ, pos, ◌+ℤ◌, ◌<ℤ◌}
use daemon.Disk.Space.{Filesystem, SpaceError, reserve_disk}
use daemon.Disk.Space.Effects.{reserve_refused}
use daemon.Disk.Space.Writers.{
  reserves, releases, Reach, IsCounted, Step-IsCounted, Reach-IsCounted,
}
use daemon.Disk.File.{QuotaFile, WriteError, full, from_file, write_at_locked}
use daemon.Disk.File.Reserved.{reach, finish_reserved, write_granted, write_refused}

-- The write is refused, with nothing changed, because the file would grow past the limit; or it is
-- done, and the counts are right for the reservations of the others.
abbrev pub Counts :
    {E : Type 0}
    → QuotaFile
    → ℕ
    → ℕ
    → ℕ
    → ℕ
    → Option E
    → List ℕ
    → QuotaFile × ℤ × Option (WriteError E)
    → Type 0
Counts f s off len n e pending (f', count, e') =
    ((f' ≡ f)
      × (count ≡ pos 0)
      × (e' ≡ some full)
      × (f.fs.quota.limit <ℤ f.fs.quota.usage +ℤ pos (off + len - s)))
    ⊎ ((f'.size ≡ pos (reach s off n))
        × (count ≡ pos n)
        × (e' ≡ from_file e)
        × IsCounted (record { fs = f'.fs; pending = pending }))

module _ {E : Type 0} (f : QuotaFile) (s off len n : ℕ) (e : Option E)
    (pending before after : List ℕ) (meanwhile : Filesystem → Filesystem) where
  granted_or_refused :
      (fs : Filesystem) (refused : Option SpaceError)
      → reserve_disk f.fs (pos (off + len - s)) ≡ (fs, refused)
      → IsCounted (record { fs = f.fs; pending = pending })
      → f.size ≡ pos s
      → s < off + len
      → off + len ≤ 9223372036854775807
      → n ≤ len
      → ((reserve_disk f.fs (pos (off + len - s)) ≡ (fs, none))
          → Reach
              (record { fs = fs; pending = (off + len - s) ∷ pending })
              (record { fs = meanwhile fs; pending = before ++ (off + len - s) ∷ after }))
      → Counts f s off len n e
          (before ++ after)
          (write_at_locked f len (pos off) meanwhile (pos n, e))
  granted_or_refused fs (some x) h v hs g m p others =
      rw (write_refused f s off len meanwhile (pos n, e) hs m fs x g h) (
        inl (
          refl,
          refl,
          refl,
          (reserve_refused f.fs (off + len - s) fs x v.limited (omega (arith, v.part)) h).1,
        ))
  granted_or_refused fs none h v hs g m p others =
      let r = off + len - s in
      let held = Reach-IsCounted (Step-IsCounted (reserves r fs (omega arith) h) v) (others h) in
      let grown : reach s off n - s ≤ r = ground arith in
      rw
        (
          write_granted f s off len meanwhile (pos n, e) hs m fs g h,
          finish_reserved (record f { fs = meanwhile fs }) s off n r e hs (omega arith)
              (omega arith) (omega arith),
        )
        (inr (
          refl,
          refl,
          refl,
          Step-IsCounted (releases before after r (reach s off n - s) refl grown) held,
        ))

  -- A write within int64 that may grow a file of known size, of at most the bytes it was
  -- given, on a disk with a positive limit within int64 whose counts are right, and while
  -- which other callers reserve, release and walk in any order and leave the reservation of
  -- the write in place: either it is refused and changes nothing, since the file would grow
  -- past the limit, or it raises the size as far as it reached, and the counts are then right
  -- for the reservations of the others.
  pub write_at_locked-IsCounted :
      IsCounted (record { fs = f.fs; pending = pending })
      → f.size ≡ pos s
      → s < off + len
      → off + len ≤ 9223372036854775807
      → n ≤ len
      → ((fs : Filesystem)
          → reserve_disk f.fs (pos (off + len - s)) ≡ (fs, none)
          → Reach
              (record { fs = fs; pending = (off + len - s) ∷ pending })
              (record { fs = meanwhile fs; pending = before ++ (off + len - s) ∷ after }))
      → Counts f s off len n e
          (before ++ after)
          (write_at_locked f len (pos off) meanwhile (pos n, e))
  write_at_locked-IsCounted v hs g m p others =
      granted_or_refused (reserve_disk f.fs (pos (off + len - s))).0
        (reserve_disk f.fs (pos (off + len - s))).1 refl v hs g m p
        (others (reserve_disk f.fs (pos (off + len - s))).0)
