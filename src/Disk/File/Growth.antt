-- ===== src/Disk/File/Growth.antt =====
-- `writeAtLocked` against the growth of the file.
use daemon.Common.{
  ℕ, ◌+◌, ◌-◌, ◌≤◌, ◌<◌, ◌≡◌, ◌⊎◌, refl, sym, ap, ◌∙◌, false, Option, none, some, arith, inl, inr,
  le_or_lt, if◌then◌else◌,
}
use daemon.Common.Int.{ℤ, pos, ◌+ℤ◌, ◌-ℤ◌, ◌≤ℤ◌, ◌<ℤ◌, max_ℤ, +ℤ_parts, -ℤ_parts, int_laws, ltb_ℤ}
use daemon.Disk.Quota.{max_int64}
use daemon.Disk.Space.{Filesystem, SpaceError, reserve_disk, release_disk}
use daemon.Disk.Space.Effects.{reserve_granted, release_exact, reserve_refused}
use daemon.Disk.File.{QuotaFile, WriteError, from_file, full, finish_write, write_at_locked}
use daemon.Disk.File.Reserved.{
  end_sum, written_sum, reach, finish_reserved, write_granted, write_refused,
}

-- The counts that a write relies on.
pub record IsOpen (f : QuotaFile) : Type 0 where
  pub limited : pos 0 <ℤ f.fs.quota.limit
  pub limit_fits : f.fs.quota.limit ≤ℤ max_int64
  pub known : pos 0 ≤ℤ f.fs.quota.usage
  pub usage_fits : f.fs.quota.usage ≤ℤ max_int64
  pub walked : pos 0 ≤ℤ f.fs.walk_reserved

-- The outcome of a write of `n` of `len` bytes: refused, with nothing changed, because the file
-- would grow past the limit; or done, with the usage raised by the growth and no space held back.
abbrev pub Outcome :
    {E : Type 0}
    → QuotaFile
    → ℕ
    → ℕ
    → ℕ
    → ℕ
    → Option E
    → QuotaFile × ℤ × Option (WriteError E)
    → Type 0
Outcome f s off len n e (f', count, e') =
    ((f' ≡ f)
      × (count ≡ pos 0)
      × (e' ≡ some full)
      × (f.fs.quota.limit <ℤ f.fs.quota.usage +ℤ pos (off + len - s)))
    ⊎ ((f'.size ≡ pos (reach s off n))
        × (f'.fs.quota.usage ≡ f.fs.quota.usage +ℤ pos (reach s off n - s))
        × (f'.fs.reserved ≡ f.fs.reserved)
        × (f'.fs.walk_reserved ≡ f.fs.walk_reserved)
        × (count ≡ pos n)
        × (e' ≡ from_file e))

undo : (a b : ℤ) → a +ℤ b -ℤ b ≡ a
undo a b = omega int_laws

-- The filesystem while `r` bytes are reserved for the write.
abbrev holding : Filesystem → ℕ → Filesystem
holding fs r = record fs {
  quota = record fs.quota { usage = fs.quota.usage +ℤ pos r };
  reserved = fs.reserved +ℤ pos r;
  walk_reserved = if fs.walking then fs.walk_reserved +ℤ pos r else fs.walk_reserved;
}

-- The release gives back what the write did not use.
released :
    (fs : Filesystem) (r used : ℕ)
    → fs.quota.usage +ℤ pos r ≤ℤ max_int64
    → pos 0 ≤ℤ fs.quota.usage
    → pos 0 ≤ℤ fs.walk_reserved
    → used ≤ r
    → let fs' = release_disk (holding fs r) (pos r) (pos used) in
      (fs'.quota.usage ≡ fs.quota.usage +ℤ pos used)
      × (fs'.reserved ≡ fs.reserved)
      × (fs'.walk_reserved ≡ fs.walk_reserved)
released fs r used m k w p =
    rw (release_exact (holding fs r) r used m (omega (arith, +ℤ_parts fs.quota.usage (pos r))) p)
      (omega int_laws, omega int_laws, walk_back)
  where
    walk_back :
        (if fs.walking
          then max_ℤ
              ((if fs.walking then fs.walk_reserved +ℤ pos r else fs.walk_reserved) -ℤ pos r)
              (pos 0)
          else (if fs.walking then fs.walk_reserved +ℤ pos r else fs.walk_reserved))
        ≡ fs.walk_reserved
    walk_back = ground (arith, undo fs.walk_reserved (pos r))

no_growth : (a b : ℕ) → a ≤ b → ltb_ℤ (pos 0) (pos a -ℤ pos b) ≡ false
no_growth a b h = ground (arith, -ℤ_parts (pos a) (pos b))

finish_within :
    {E : Type 0} (f : QuotaFile) (s off n : ℕ) (r : ℤ) (e : Option E)
    → f.size ≡ pos s
    → ltb_ℤ (pos 0) r ≡ false
    → off + n ≤ s
    → s ≤ 9223372036854775807
    → finish_write f (pos off) r (pos n, e) ≡ (f, pos n, from_file e)
unfolding finish_write
finish_within f s off n r e hs hr h m = ground (arith, written_sum s off n (omega arith))

-- No other caller changes the filesystem while the write runs.
abbrev pub alone : Filesystem → Filesystem
alone fs = fs

-- A write into the file as it is needs no space.
write_within :
    {E : Type 0} (f : QuotaFile) (s off len n : ℕ) (e : Option E)
    → f.size ≡ pos s
    → s ≤ 9223372036854775807
    → off + len ≤ s
    → n ≤ len
    → write_at_locked f len (pos off) alone (pos n, e) ≡ (f, pos n, from_file e)
unfolding write_at_locked
write_within f s off len n e hs m h p = ground (
  arith,
  end_sum off len (omega arith),
  hs,
  no_growth (off + len) s h,
  finish_within f s off n (pos (off + len) -ℤ pos s) e hs (no_growth (off + len) s h) (omega arith)
      m,
)

reach_within : (s off n : ℕ) → off + n ≤ s → reach s off n ≡ s
reach_within s off n h = ground arith

add_nothing : (a : ℤ) → a +ℤ pos 0 ≡ a
add_nothing a = omega int_laws

-- By what the reservation answers, where space is needed.
write_reserving :
    {E : Type 0} (f : QuotaFile) (s off len n : ℕ) (e : Option E) (fs : Filesystem)
    (refused : Option SpaceError)
    → reserve_disk f.fs (pos (off + len - s)) ≡ (fs, refused)
    → IsOpen f
    → f.size ≡ pos s
    → s < off + len
    → off + len ≤ 9223372036854775807
    → n ≤ len
    → Outcome f s off len n e (write_at_locked f len (pos off) alone (pos n, e))
write_reserving f s off len n e fs (some x) h v hs g m p =
    let past = (reserve_refused f.fs (off + len - s) fs x v.limited v.known h).1 in
    rw (write_refused f s off len alone (pos n, e) hs m fs x g h) (inl (refl, refl, refl, past))
write_reserving f s off len n e fs none h v hs g m p =
    let r = off + len - s in
    let (same, room) = reserve_granted f.fs r fs v.limited v.limit_fits v.known (omega arith) h in
    let back =
      released f.fs r (reach s off n - s) (omega (arith, room, v.limit_fits)) v.known v.walked
        (ground arith) in
    rw
      (
        write_granted f s off len alone (pos n, e) hs m fs g h,
        same,
        finish_reserved (record { fs = holding f.fs r; size = f.size }) s off n r e hs (omega arith)
            (omega arith) (omega arith),
      )
      (inr (refl, back.0, back.1, back.2, refl, refl))

-- A write within int64 that puts down at most the bytes it was given, to a file of known size on
-- a disk with a positive limit and a known usage, and while which no other caller changes the
-- filesystem, has one of two outcomes: it is refused and changes nothing, since the file would
-- grow past the limit, or the usage rises by exactly what the file grew and no reservation is
-- left behind.
pub write_at_locked-Outcome :
    {E : Type 0} (f : QuotaFile) (s off len n : ℕ) (e : Option E)
    → IsOpen f
    → f.size ≡ pos s
    → s ≤ 9223372036854775807
    → off + len ≤ 9223372036854775807
    → n ≤ len
    → Outcome f s off len n e (write_at_locked f len (pos off) alone (pos n, e))
write_at_locked-Outcome f s off len n e v hs k m p = elim (le_or_lt (off + len) s) [
  | inl short ↦ rw (write_within f s off len n e hs k short p) (
      let same = reach_within s off n (omega arith) in
      inr (
        hs ∙ ap pos (sym same),
        sym (
            ap (λ k. f.fs.quota.usage +ℤ pos k) (omega (arith, same))
            ∙ add_nothing f.fs.quota.usage),
        refl,
        refl,
        refl,
        refl,
      ))
  | inr long ↦
      write_reserving f s off len n e (reserve_disk f.fs (pos (off + len - s))).0
        (reserve_disk f.fs (pos (off + len - s))).1 refl v hs long m p
]
