-- ===== src/History/Store/Paid.antt =====
-- Tables whose payloads are not empty, and the loops of pruning on them.
use daemon.Common.{
  ℕ, zero, suc, ◌≤◌, ◌<◌, ◌≡◌, inl, inr, ◌⊎◌, Bool, false, not, List, [], ◌∷◌, keep, length, All,
  arith, ◌==◌, leb, Bool-cases,
}
use daemon.History.Table.{Row, in_chain, delete_rows, payload_sum}
use daemon.History.Table.Chains.{All-keep}
use daemon.History.Prune.{drop_chain, drop_until}

-- Every row has a payload of at least one byte.
abbrev pub ArePaid : List Row → Type 0
ArePaid = All (λ r. 0 < length r.payload)

-- A loop whose every round either drops a row and frees bytes, or finds nothing to drop.
pub drop_until-ends :
    (Stuck : List Row → Type 0) (size : List Row → ℕ) (budget : ℕ) (drop : List Row → List Row × ℕ)
    → ((rows : List Row)
        → ArePaid rows
        → (ArePaid (drop rows).0 × (length (drop rows).0 < length rows) × (0 < (drop rows).1))
          ⊎ (Stuck rows × (drop rows ≡ (rows, 0))))
    → (n : ℕ) (rows : List Row) → length rows < n
    → ArePaid rows
    → (size (drop_until n size budget drop rows) ≤ budget)
      ⊎ Stuck (drop_until n size budget drop rows)
unfolding drop_until
drop_until-ends Stuck size budget drop step zero rows lt h = absurd (omega arith)
drop_until-ends Stuck size budget drop step (suc n) rows lt h =
    elim (Bool-cases (leb (size rows) budget)) [
      | inl fits ↦ rw fits (inl (ground (arith, fits)))
      | inr over ↦ elim (step rows h) [
        | inl (paid, fewer, freed) ↦
            let freed' : ((drop rows).1 == 0) ≡ false = ground (arith, freed) in
            rw (over, freed')
              (drop_until-ends Stuck size budget drop step n (drop rows).0 (omega arith) paid)
        | inr (stuck, e) ↦ rw (over, e) (inr stuck)
      ]
    ]

length-delete_rows : (p : Row → Bool) (rows : List Row) → length (delete_rows p rows) ≤ length rows
length-delete_rows p [] = omega arith
length-delete_rows p (r ∷ rs) = ground (arith, length-delete_rows p rs)

-- Where bytes are freed, there are fewer rows.
delete_rows-fewer :
    (p : Row → Bool) (rows : List Row)
    → 0 < payload_sum p rows
    → length (delete_rows p rows) < length rows
delete_rows-fewer p [] h = absurd (omega arith)
delete_rows-fewer p (r ∷ rs) h = ground (arith, length-delete_rows p rs, delete_rows-fewer p rs)

pub All-imp :
    {A : Type 0} (P Q : A → Type 0) (xs : List A) → ((x : A) → P x → Q x) → All P xs → All Q xs
All-imp P Q [] f h = tt
All-imp P Q (x ∷ xs) f (h, hs) = (f x h, All-imp P Q xs f hs)

-- The bytes of the chain of a row.
abbrev pub chain_bytes : List Row → Row → ℕ
chain_bytes rows r = payload_sum (in_chain r.file_id r.chain_id) rows

pub chain_bytes-paid : (rows : List Row) → ArePaid rows → All (λ r. 0 < chain_bytes rows r) rows
chain_bytes-paid [] h = tt
chain_bytes-paid (r ∷ rs) (h, hs) = (
  ground (arith, h),
  All-imp (λ s. 0 < chain_bytes rs s) (λ s. 0 < chain_bytes (r ∷ rs) s) rs (λ s k. omega arith)
      (chain_bytes-paid rs hs),
)

pub ArePaid-drop_chain :
    (file chain : ℕ) (rows : List Row)
    → ArePaid rows
    → 0 < payload_sum (in_chain file chain) rows
    → ArePaid (drop_chain file chain rows).0
      × (length (drop_chain file chain rows).0 < length rows)
      × (0 < (drop_chain file chain rows).1)
ArePaid-drop_chain file chain rows h freed = (
  All-keep (λ r. 0 < length r.payload) (λ r. not (in_chain file chain r)) rows h,
  delete_rows-fewer (in_chain file chain) rows freed,
  freed,
)

pub keep_nil : (p : Row → Bool) (rows : List Row) → keep p rows ≡ [] → All (λ r. p r ≡ false) rows
keep_nil p [] e = tt
keep_nil p (r ∷ rs) e = (ground (arith, e), keep_nil p rs (ground (arith, e)))
