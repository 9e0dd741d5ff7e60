-- ===== src/Disk/Quota.antt =====
-- internal/ufs/fs_quota.go: the tracked usage of a filesystem and its limit. Both are int64 values.
pub mod Laws
pub mod Callers
mod Examples
use daemon.Common.{
  ℕ, ◌+◌, ◌-◌, ◌^◌, ◌<◌, ◌≡◌, Bool, true, false, Option, none, some, List, [], ◌∷◌, ltb,
  if◌then◌else◌, Result, ok, err,
}
use daemon.Common.Int.{ℤ, pos, negsuc, ◌+ℤ◌, ◌-ℤ◌, neg_ℤ, ltb_ℤ, leb_ℤ, eqb_ℤ}

pub record Quota : Type 0 where
  pub limit : ℤ
  pub usage : ℤ

abbrev pub max_int64 : ℤ
max_int64 = pos (2 ^ 63 - 1)

abbrev pub min_int64 : ℤ
min_int64 = negsuc (2 ^ 63 - 1)

-- The `switch` of `Add`: `none` is its `default`, which returns the usage as it is.
unfoldable pub add_next : ℤ → ℤ → Option ℤ
unfolding ◌+ℤ◌ ◌-ℤ◌ neg_ℤ
add_next usage i =
    if ltb_ℤ (pos 0) i
    then some (if ltb_ℤ (max_int64 -ℤ i) usage then max_int64 else usage +ℤ i)
    else if ltb_ℤ i (pos 0)
    then some
        (if eqb_ℤ i min_int64 then pos 0 else if leb_ℤ usage (neg_ℤ i) then pos 0 else usage +ℤ i)
    else none

-- One round in which the swap succeeds: the new state and the result.
unfoldable pub add_commit : Quota → ℤ → Quota × ℤ
unfolding add_next
add_commit q i = elim (add_next q.usage i) [
  | none ↦ (q, q.usage)
  | some next ↦ (record q { usage = next }, next)
]

-- One round of the loop, from the usage that was read to the compare-and-swap, which finds the quota
-- as it is then: `none` is another round.
unfoldable pub add_round : Quota → ℤ → ℤ → Quota × Option ℤ
unfolding add_next
add_round q seen i = elim (add_next seen i) [
  | none ↦ (q, some seen)
  | some next ↦ if eqb_ℤ q.usage seen then (record q { usage = next }, some next) else (q, none)
]

-- `Add`. The list holds the usage that each compare-and-swap meets, for as long as other callers
-- interfere; where it is the usage that was read, the swap succeeds.
unfoldable pub add : List ℤ → Quota → ℤ → Quota × ℤ
unfolding add_round
add [] q i = add_commit q i
add (seen ∷ later) q i =
    let again = add later (record q { usage = seen }) i in
    let (q', done) = add_round (record q { usage = seen }) q.usage i in
    elim done [ some usage ↦ (q', usage) | none ↦ again ]

-- `Add` where no other caller interferes.
abbrev pub add_alone : Quota → ℤ → Quota
add_alone q i = (add [] q i).0

unfoldable pub can_fit : Quota → ℤ → Bool
unfolding ◌-ℤ◌
can_fit q size =
    if eqb_ℤ q.limit (negsuc 0)
    then false
    else if eqb_ℤ q.limit (pos 0)
    then true
    else if eqb_ℤ q.usage (negsuc 0)
    then true
    else if leb_ℤ size (pos 0)
    then true
    else if leb_ℤ q.limit q.usage
    then false
    else leb_ℤ size (q.limit -ℤ q.usage)

-- What `freedBy` reads of a `FileInfo`; `links` is there if `Sys()` is a `Stat_t`.
pub record FileInfo : Type 0 where
  pub is_regular : Bool
  pub links : Option ℕ
  pub size : ℤ

unfoldable pub freed_by : FileInfo → ℤ
freed_by s =
    if s.is_regular
    then elim s.links [ none ↦ s.size | some n ↦ if ltb 1 n then pos 0 else s.size ]
    else pos 0

-- `Remove`, after what `RemoveStat` of the underlying filesystem returns.
unfoldable pub remove {ℓ} : {E : Type ℓ} → Result E FileInfo → Quota → Quota × Option E
unfolding add add_commit freed_by neg_ℤ
remove (err e) q = (q, some e)
remove (ok s) q = (add_alone q (neg_ℤ (freed_by s)), none)

-- `unlinkat`, with what `Lstatat` and the underlying `unlinkat` return.
unfoldable pub unlinkat {ℓ} :
    {E : Type ℓ} → ℕ → Result E FileInfo → Option E → Quota → Quota × Option E
unfolding add add_commit freed_by neg_ℤ
unlinkat flags stat removed q = (
  if ltb 0 flags then q else elim stat [ err e ↦ q | ok s ↦ add_alone q (neg_ℤ (freed_by s)) ],
  removed,
)
