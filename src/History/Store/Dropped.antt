-- ===== src/History/Store/Dropped.antt =====
-- What the limits of one file delete.
use mathlib.Core.Path.{subst}
use daemon.Common.{
  ℕ, zero, suc, ◌≤◌, ◌≡◌, refl, sym, ap, ◌∙◌, inl, inr, Bool, true, false, ◌&&◌, not, some, List,
  [], ◌∷◌, keep, take, length, All, arith, ◌==◌, ==_iff, leb, ltb, Bool-cases, Option-cases,
}
use daemon.History.Table.{Row, chains_of, insert_chain}
use daemon.History.Table.Chains.{keep_chains}
use daemon.History.Prune.{
  max_uint64, last_of, prune_old_chains, oldest_chain, drop_chain, drop_oldest,
}

-- The second rows are the first ones without some whole chains, other than the given one.
abbrev pub Prunes : ℕ → ℕ → List Row → List Row → Type 0
Prunes file chain rows rows' =
    (p : ℕ → ℕ → Bool) × (p file chain ≡ true) × (rows' ≡ keep_chains p rows)

-- Every chain of the file is at most the given one.
abbrev pub Tops : ℕ → ℕ → List Row → Type 0
Tops file chain = All (λ s. s.file_id ≡ file → s.chain_id ≤ chain)

keep-keep :
    {A : Type 0} (p q : A → Bool) (xs : List A) → keep q (keep p xs) ≡ keep (λ x. p x && q x) xs
keep-keep p q [] = refl
keep-keep p q (x ∷ xs) = elim (Bool-cases (p x)) [
  | inl kept ↦ elim (Bool-cases (q x)) [
    | inl too ↦ rw (kept, too) (ap (λ l. x ∷ l) (keep-keep p q xs))
    | inr gone ↦ rw (kept, gone) (keep-keep p q xs)
  ]
  | inr gone ↦ rw gone (keep-keep p q xs)
]

keep_all : {A : Type 0} (xs : List A) → keep (λ x. true) xs ≡ xs
keep_all [] = refl
keep_all (x ∷ xs) = ap (λ l. x ∷ l) (keep_all xs)

pub Prunes-refl : (file chain : ℕ) (rows : List Row) → Prunes file chain rows rows
Prunes-refl file chain rows = (λ f d. true, refl, sym (keep_all rows))

pub Prunes-trans :
    (file chain : ℕ) (a b d : List Row)
    → Prunes file chain a b
    → Prunes file chain b d
    → Prunes file chain a d
Prunes-trans file chain a b d (p, kp, e) (q, kq, e') = (
  λ f x. p f x && q f x,
  rw (kp, kq) refl,
  e'
      ∙ ap (keep_chains q) e
      ∙ keep-keep (λ (r : Row). p r.file_id r.chain_id) (λ (r : Row). q r.file_id r.chain_id) a,
)

-- Deleting another chain.
pub Prunes-drop_chain :
    (file chain f d : ℕ) (rows : List Row)
    → (file == f && chain == d) ≡ false
    → Prunes file chain rows (drop_chain f d rows).0
Prunes-drop_chain file chain f d rows apart = (λ x y. not (x == f && y == d), rw apart refl, refl)

-- What `last_of` finds is in the list.
pub All-last_of : (P : ℕ → Type 0) (xs : List ℕ) (x : ℕ) → All P xs → last_of xs ≡ some x → P x
All-last_of P [] x h e = absurd cc
All-last_of P (y ∷ []) x (h, _) e = let same : y ≡ x = cc in subst P same h
All-last_of P (y ∷ z ∷ ys) x (h, hs) e = All-last_of P (z ∷ ys) x hs e

pub All-take : (P : ℕ → Type 0) (n : ℕ) (xs : List ℕ) → All P xs → All P (take n xs)
All-take P zero xs h = tt
All-take P (suc n) [] h = tt
All-take P (suc n) (x ∷ xs) (h, hs) = (h, All-take P n xs hs)

pub All-kept : (p : ℕ → Bool) (xs : List ℕ) → All (λ x. p x ≡ true) (keep p xs)
All-kept p [] = tt
All-kept p (x ∷ xs) = elim (Bool-cases (p x)) [
  | inl kept ↦ rw kept (kept, All-kept p xs)
  | inr gone ↦ rw gone (All-kept p xs)
]

pub All-insert_chain :
    (P : ℕ → Type 0) (x : ℕ) (xs : List ℕ) → P x → All P xs → All P (insert_chain x xs)
All-insert_chain P x [] h hs = (h, tt)
All-insert_chain P x (y ∷ ys) h (k, ks) = elim (Bool-cases (x == y)) [
  | inl same ↦ rw same (k, ks)
  | inr other ↦ elim (Bool-cases (ltb y x)) [
    | inl before ↦ rw (other, before) (h, (k, ks))
    | inr after ↦ rw (other, after) (k, All-insert_chain P x ys h ks)
  ]
]

All-chains_of :
    (file chain : ℕ) (rows : List Row)
    → Tops file chain rows
    → All (λ x. x ≤ chain) (chains_of file rows)
unfolding chains_of
All-chains_of file chain [] h = tt
All-chains_of file chain (r ∷ rs) (h, hs) = elim (Bool-cases (r.file_id == file)) [
  | inl own ↦ rw own (
      All-insert_chain (λ x. x ≤ chain) r.chain_id (chains_of file rs)
        (h ((==_iff r.file_id file).0 own)) (All-chains_of file chain rs hs))
  | inr other ↦ rw other (All-chains_of file chain rs hs)
]

pub Prunes-prune_old_chains :
    (file chain n : ℕ) (rows : List Row)
    → Tops file chain rows
    → Prunes file chain rows (prune_old_chains file n rows)
unfolding prune_old_chains
Prunes-prune_old_chains file chain n rows tops =
    elim (Bool-cases (ltb (length (take n (chains_of file rows))) n)) [
      | inl few ↦ rw few (Prunes-refl file chain rows)
      | inr many ↦ elim (Option-cases (last_of (take n (chains_of file rows)))) [
        | inl none_left ↦ rw (many, none_left) (Prunes-refl file chain rows)
        | inr (d, found) ↦
            let le : d ≤ chain =
              All-last_of (λ x. x ≤ chain) (take n (chains_of file rows)) d
                (All-take (λ x. x ≤ chain) n (chains_of file rows)
                  (All-chains_of file chain rows tops))
                found in
            rw (many, found) (λ f x. not (f == file && ltb x d), ground (arith, le), refl)
      ]
    ]

pub Prunes-drop_oldest :
    (file chain n : ℕ) (rows : List Row)
    → Prunes file chain rows (drop_oldest file (some chain) n rows).0
unfolding drop_oldest
Prunes-drop_oldest file chain n rows =
    elim (Bool-cases (leb (length (chains_of file rows)) (max_uint64 n 1))) [
      | inl few ↦ rw few (Prunes-refl file chain rows)
      | inr many ↦ elim (Option-cases (oldest_chain file (some chain) rows)) [
        | inl none_left ↦ rw (many, none_left) (Prunes-refl file chain rows)
        | inr (d, found) ↦
            let passes : not (d == chain) ≡ true =
              All-last_of (λ x. not (x == chain) ≡ true)
                (keep (λ x. not (x == chain)) (chains_of file rows)) d
                (All-kept (λ x. not (x == chain)) (chains_of file rows)) found in
            rw (many, found) (Prunes-drop_chain file chain file d rows (ground (arith, passes)))
      ]
    ]
