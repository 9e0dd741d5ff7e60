-- ===== src/Disk/Quota/Callers.antt =====
-- Calls of `Add` on one quota, whose loads and swaps meet in any order.
use daemon.Common.{
  ◌≡◌, refl, ap, ◌∙◌, inl, inr, true, Option, none, some, List, [], ◌∷◌, ◌++◌, arith, Bool-cases,
  Option-cases, All,
}
use mathlib.Core.Path.{subst}
use daemon.Common.Int.{ℤ, pos, negsuc, ◌+ℤ◌, ◌≤ℤ◌, eqb_ℤ}
use daemon.Disk.Quota.{Quota, max_int64, min_int64, add_next, add_commit, add_round}
use daemon.Disk.Quota.Laws.{clamp, add_commit-eq-clamp}

-- A call in progress: its amount, and the usage that it has read in this round.
pub record Caller : Type 0 where
  pub amount : ℤ
  pub seen : Option ℤ

-- The quota, the calls in progress, and the amounts of the calls that have returned, the last first.
pub record Callers : Type 0 where
  pub quota : Quota
  pub calls : List Caller
  pub returned : List ℤ

pub data Step (s : Callers) : Callers → Type 0 where
  calls :
      (i : ℤ)
      → min_int64 ≤ℤ i
      → i ≤ℤ max_int64
      → Step s (record s { calls = record { amount = i; seen = none } ∷ s.calls })
  loads :
      (before after : List Caller) (i : ℤ)
      → s.calls ≡ before ++ record { amount = i; seen = none } ∷ after
      → Step s
          (record s { calls = before ++ record { amount = i; seen = some s.quota.usage } ∷ after })
  retries :
      (before after : List Caller) (i seen : ℤ) (q : Quota)
      → s.calls ≡ before ++ record { amount = i; seen = some seen } ∷ after
      → add_round s.quota seen i ≡ (q, none)
      → Step s
          (record s { quota = q; calls = before ++ record { amount = i; seen = none } ∷ after })
  returns :
      (before after : List Caller) (i seen usage : ℤ) (q : Quota)
      → s.calls ≡ before ++ record { amount = i; seen = some seen } ∷ after
      → add_round s.quota seen i ≡ (q, some usage)
      → Step s (record { quota = q; calls = before ++ after; returned = i ∷ s.returned })

pub data Reach (s : Callers) : Callers → Type 0 where
  here : Reach s s
  next : {t u : Callers} → Reach s t → Step t u → Reach s u

-- The amounts added one after the other, the last of the list first, each sum saturated.
abbrev pub summed : ℤ → List ℤ → ℤ
summed usage [] = usage
summed usage (i ∷ is) = clamp (summed usage is +ℤ i)

abbrev pub InRange : ℤ → Type 0
InRange i = (min_int64 ≤ℤ i) × (i ≤ℤ max_int64)

-- The usage is what the calls that have returned add up to, one after the other.
pub record IsSummed (q : Quota) (s : Callers) : Type 0 where
  pub known : pos 0 ≤ℤ s.quota.usage
  pub fits : s.quota.usage ≤ℤ max_int64
  pub amounts : All (λ (c : Caller). InRange c.amount) s.calls
  pub limit : s.quota.limit ≡ q.limit
  pub sum : s.quota.usage ≡ summed q.usage s.returned

All-drop {ℓ κ} :
    {A : Type ℓ} (P : A → Type κ) (xs ys : List A) (x : A)
    → All P (xs ++ x ∷ ys)
    → P x × All P (xs ++ ys)
All-drop P [] ys x h = h
All-drop P (y ∷ xs) ys x (p, h) = let (q, r) = All-drop P xs ys x h in (q, (p, r))

All-put {ℓ κ} :
    {A : Type ℓ} (P : A → Type κ) (xs ys : List A) (x : A)
    → P x
    → All P (xs ++ ys)
    → All P (xs ++ x ∷ ys)
All-put P [] ys x p h = (p, h)
All-put P (y ∷ xs) ys x p (q, h) = (q, All-put P xs ys x p h)

eqb_ℤ_eq : (a b : ℤ) → eqb_ℤ a b ≡ true → a ≡ b
eqb_ℤ_eq (pos m) (pos n) h = ground (arith, h)
eqb_ℤ_eq (pos m) (negsuc n) h = absurd (ground (arith, h))
eqb_ℤ_eq (negsuc m) (pos n) h = absurd (ground (arith, h))
eqb_ℤ_eq (negsuc m) (negsuc n) h = ground (arith, h)

-- The amount alone decides whether there is anything to add.
still : (a b i : ℤ) → add_next a i ≡ none → add_next b i ≡ none
unfolding add_next
still a b i h = ground (arith, h)

-- A round that returns did what a round without interference does to the usage that is then there.
add_round-commit :
    (q q' : Quota) (seen i usage : ℤ)
    → add_round q seen i ≡ (q', some usage)
    → q' ≡ (add_commit q i).0
unfolding add_round add_commit
add_round-commit q q' seen i usage h = elim (Option-cases (add_next seen i)) [
  | inl nothing ↦ ground (arith, h, nothing, still seen q.usage i nothing)
  | inr (sum, adds) ↦ elim (Bool-cases (eqb_ℤ q.usage seen)) [
    | inr changed ↦ absurd (ground (arith, h, adds, changed))
    | inl same ↦
        let here : add_next q.usage i ≡ some sum =
          ap (λ u. add_next u i) (eqb_ℤ_eq q.usage seen same) ∙ adds in
        ground (arith, h, adds, same, here)
  ]
]

add_round-retry : (q q' : Quota) (seen i : ℤ) → add_round q seen i ≡ (q', none) → q' ≡ q
unfolding add_round
add_round-retry q q' seen i h = elim (Option-cases (add_next seen i)) [
  | inl nothing ↦ absurd (ground (arith, h, nothing))
  | inr (sum, adds) ↦ ground (arith, h, adds)
]

clamp_range : (x : ℤ) → (pos 0 ≤ℤ clamp x) × (clamp x ≤ℤ max_int64)
clamp_range x = ground arith

Step-IsSummed : {q : Quota} {s t : Callers} → Step s t → IsSummed q s → IsSummed q t
Step-IsSummed (calls i a b) v = record {
  known = v.known;
  fits = v.fits;
  amounts = ((a, b), v.amounts);
  limit = v.limit;
  sum = v.sum;
}
Step-IsSummed {q} {s} (loads before after i h) v =
    let (p, rest) =
      All-drop (λ (c : Caller). InRange c.amount) before after (record { amount = i; seen = none })
        (subst (All (λ (c : Caller). InRange c.amount)) h v.amounts) in
    record {
      known = v.known;
      fits = v.fits;
      amounts =
          All-put (λ (c : Caller). InRange c.amount) before after
            (record { amount = i; seen = some s.quota.usage }) p rest;
      limit = v.limit;
      sum = v.sum;
    }
Step-IsSummed {q} {s} (retries before after i seen q' h e) v =
    let (p, rest) =
      All-drop (λ (c : Caller). InRange c.amount) before after
        (record { amount = i; seen = some seen })
        (subst (All (λ (c : Caller). InRange c.amount)) h v.amounts) in
    rw (add_round-retry s.quota q' seen i e) (record {
      known = v.known;
      fits = v.fits;
      amounts =
          All-put (λ (c : Caller). InRange c.amount) before after
            (record { amount = i; seen = none }) p rest;
      limit = v.limit;
      sum = v.sum;
    })
Step-IsSummed {q} {s} (returns before after i seen usage q' h e) v =
    let (p, rest) =
      All-drop (λ (c : Caller). InRange c.amount) before after
        (record { amount = i; seen = some seen })
        (subst (All (λ (c : Caller). InRange c.amount)) h v.amounts) in
    let (low, high) = clamp_range (s.quota.usage +ℤ i) in
    let added : q' ≡ record s.quota { usage = clamp (s.quota.usage +ℤ i) } =
      add_round-commit s.quota q' seen i usage e
      ∙ ap (λ r. r.0) (add_commit-eq-clamp s.quota i v.known v.fits p.0 p.1) in
    rw added (record {
      known = low;
      fits = high;
      amounts = rest;
      limit = v.limit;
      sum = ap (λ u. clamp (u +ℤ i)) v.sum;
    })

-- From a usage that is known and no call in progress, and through any interleaving of the loads and
-- swaps of calls of `Add` with int64 amounts: the usage is always the one at the beginning with the
-- amounts of the calls that have returned added to it one after the other, in the order in which
-- they returned, each sum saturated.
pub Reach-IsSummed :
    (q : Quota) {t : Callers}
    → pos 0 ≤ℤ q.usage
    → q.usage ≤ℤ max_int64
    → Reach (record { quota = q; calls = []; returned = [] }) t
    → IsSummed q t
Reach-IsSummed q k f here = record { known = k; fits = f; amounts = tt; limit = refl; sum = refl }
Reach-IsSummed q k f (next r st) = Step-IsSummed st (Reach-IsSummed q k f r)
