-- ===== src/History/Table/Chains.antt =====
-- What inserting rows, and deleting those of whole chains, does to lookups and counts.
use mathlib.Core.Path.{subst}
use daemon.Common.{
  ℕ, suc, ◌<◌, ◌≡◌, refl, inl, inr, Bool, true, some, List, [], ◌∷◌, keep, All, arith, ◌==◌,
  Bool-cases,
}
use daemon.History.Table.{Bytes, same_bytes, Row, find_row, max_id, chain_length}

pub same_bytes-eq : (xs ys : Bytes) → same_bytes xs ys ≡ true → xs ≡ ys
same_bytes-eq [] [] h = refl
same_bytes-eq [] (y ∷ ys) h = cc
same_bytes-eq (x ∷ xs) [] h = cc
same_bytes-eq (x ∷ xs) (y ∷ ys) h = ground (arith, same_bytes-eq xs ys)

pub same_bytes_refl : (xs : Bytes) → same_bytes xs xs ≡ true
same_bytes_refl [] = refl
same_bytes_refl (x ∷ xs) = ground (arith, same_bytes_refl xs)

-- Rows are kept or deleted by their file and their chain.
abbrev pub keep_chains : (ℕ → ℕ → Bool) → List Row → List Row
keep_chains p = keep (λ r. p r.file_id r.chain_id)

pub All-keep {ℓ} :
    {A : Type ℓ} (P : A → Type 0) (q : A → Bool) (xs : List A) → All P xs → All P (keep q xs)
All-keep P q [] h = tt
All-keep P q (x ∷ xs) (h, hs) = elim (Bool-cases (q x)) [
  | inl kept ↦ rw kept (h, All-keep P q xs hs)
  | inr gone ↦ rw gone (All-keep P q xs hs)
]

pub find_row-keep_chains :
    (p : ℕ → ℕ → Bool) (id : ℕ) (rows : List Row) (r : Row)
    → find_row id rows ≡ some r
    → p r.file_id r.chain_id ≡ true
    → find_row id (keep_chains p rows) ≡ some r
find_row-keep_chains p id [] r h k = cc
find_row-keep_chains p id (x ∷ rows) r h k = ground (arith, find_row-keep_chains p id rows r)

pub find_row-id : (id : ℕ) (rows : List Row) (r : Row) → find_row id rows ≡ some r → r.id ≡ id
find_row-id id [] r h = cc
find_row-id id (x ∷ rows) r h = ground (arith, find_row-id id rows r)

pub chain_length-keep_chains :
    (p : ℕ → ℕ → Bool) (file chain : ℕ) (rows : List Row)
    → p file chain ≡ true
    → chain_length file chain (keep_chains p rows) ≡ chain_length file chain rows
unfolding chain_length
chain_length-keep_chains p file chain [] k = refl
chain_length-keep_chains p file chain (x ∷ rows) k =
    ground (arith, chain_length-keep_chains p file chain rows)

-- A row that is found has an id below those of newer rows.
pub find_row-lt :
    (n id : ℕ) (rows : List Row) (r : Row)
    → All (λ s. s.id < n) rows
    → find_row id rows ≡ some r
    → id < n
find_row-lt n id [] r h e = cc
find_row-lt n id (x ∷ rows) r (h, hs) e = ground (arith, find_row-lt n id rows r hs)

pub find_row-insert :
    (x : Row) (rows : List Row) (id : ℕ) (r : Row)
    → All (λ s. s.id < x.id) rows
    → find_row id rows ≡ some r
    → find_row id (x ∷ rows) ≡ some r
find_row-insert x rows id r fresh f = ground (arith, find_row-lt x.id id rows r fresh f)

pub All-max_id : (rows : List Row) → All (λ s. s.id < suc (max_id rows)) rows
All-max_id rows = All-below rows (suc (max_id rows)) (omega arith)
  where
    All-below : (rows : List Row) (n : ℕ) → max_id rows < n → All (λ s. s.id < n) rows
    All-below [] n h = tt
    All-below (x ∷ rows) n h = (omega arith, All-below rows n (omega arith))

-- What holds of all rows holds of one that is found.
pub find_row-All :
    (P : Row → Type 0) (id : ℕ) (rows : List Row) (r : Row)
    → All P rows
    → find_row id rows ≡ some r
    → P r
find_row-All P id [] r h f = absurd cc
find_row-All P id (x ∷ rows) r (h, hs) f = elim (Bool-cases (x.id == id)) [
  | inl own ↦ let same : x ≡ r = ground (arith, own, f) in subst P same h
  | inr other ↦ find_row-All P id rows r hs (ground (arith, other, f))
]
