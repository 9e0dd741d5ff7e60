-- ===== src/Disk/File/Reserved.antt =====
-- The two ways through `writeAtLocked` where space is needed, and what the release is called with.
use Prim.Native.Nat.{max}
use daemon.Common.{
  ℕ, ◌+◌, ◌-◌, ◌≤◌, ◌<◌, ◌≡◌, Option, none, some, arith, inl, inr, le_or_lt, ltb, if◌then◌else◌,
}
use daemon.Common.Int.{ℤ, pos, ◌+ℤ◌, ◌-ℤ◌, int_laws}
use daemon.Disk.Space.{Filesystem, SpaceError, reserve_disk, release_disk}
use daemon.Disk.File.{
  QuotaFile, from_file, full, quota_write_end, written_end, finish_write, write_at_locked,
}

pub end_sum :
    (off len : ℕ)
    → off + len ≤ 9223372036854775807
    → quota_write_end (pos off) (pos len) ≡ some (pos (off + len))
unfolding quota_write_end ◌+ℤ◌ ◌-ℤ◌
end_sum off len h = ground arith

pub written_sum :
    (s off n : ℕ)
    → off + n ≤ 9223372036854775807
    → written_end (pos s) (pos off) (pos n) ≡ pos (if ltb 0 n then off + n else s)
unfolding written_end
written_sum s off n h = ground (arith, end_sum off n h)

pub pos_sub : (a b : ℕ) → b ≤ a → pos a -ℤ pos b ≡ pos (a - b)
pos_sub a b h = omega int_laws

-- How far a write reaches: the old size, or the end of what was written if that is further.
abbrev pub reach : ℕ → ℕ → ℕ → ℕ
reach s off n = max s (if ltb 0 n then off + n else s)

-- The write itself and the release, once `r` bytes of growth are reserved.
pub finish_reserved :
    {E : Type 0} (f : QuotaFile) (s off n r : ℕ) (e : Option E)
    → f.size ≡ pos s
    → 1 ≤ r
    → off + n ≤ s + r
    → s + r ≤ 9223372036854775807
    → finish_write f (pos off) (pos r) (pos n, e) ≡ (
      record {
        fs = release_disk f.fs (pos r) (pos (reach s off n - s));
        size = pos (reach s off n);
      },
      pos n,
      from_file e,
    )
unfolding finish_write
finish_reserved f s off n r e hs p q m =
    let w : ℕ = if ltb 0 n then off + n else s in
    rw (hs, written_sum s off n (omega arith))
      (elim (le_or_lt w s) [
        | inl short ↦ ground arith
        | inr long ↦ ground (arith, pos_sub w s (omega arith))
      ])

module _ {E : Type 0} (f : QuotaFile) (s off len : ℕ) (meanwhile : Filesystem → Filesystem)
    (result : ℤ × Option E) (hs : f.size ≡ pos s) (m : off + len ≤ 9223372036854775807) where
  -- The two ways through a `writeAtLocked` that needs space.
  pub write_granted :
      (fs : Filesystem)
      → s < off + len
      → reserve_disk f.fs (pos (off + len - s)) ≡ (fs, none)
      → write_at_locked f len (pos off) meanwhile result
        ≡ finish_write (record f { fs = meanwhile fs }) (pos off) (pos (off + len - s)) result
  unfolding write_at_locked
  write_granted fs h e =
      ground (arith, end_sum off len m, pos_sub (off + len) s (omega arith), e, hs)

  pub write_refused :
      (fs : Filesystem) (x : SpaceError)
      → s < off + len
      → reserve_disk f.fs (pos (off + len - s)) ≡ (fs, some x)
      → write_at_locked f len (pos off) meanwhile result ≡ (f, pos 0, some full)
  unfolding write_at_locked
  write_refused fs x h e =
      ground (arith, end_sum off len m, pos_sub (off + len) s (omega arith), e, hs)
