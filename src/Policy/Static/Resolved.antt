-- ===== src/Policy/Static/Resolved.antt =====
-- The allocations of resolved groups that `validateResolvedGroups` accepts.
use daemon.Common.{
  ◌≡◌, refl, true, false, ◌&&◌, ◌||◌, not, some, List, [], ◌∷◌, keep, length, String, str_eq, ok,
  arith, All, inl, inr, Option-cases, Result-cases,
}
use daemon.Common.Int.{ℤ, eqb_ℤ}
use daemon.Policy.Types.{Allocation, ResolvedGroup, Group, items}
use daemon.Policy.Net.{Netip}
use daemon.Policy.Select.{has_id, add_id, has_allocation_id, select_listed, selected_allocations}
use daemon.Policy.Static.{
  find_allocation, find_group, same_allocation, match_expected, check_resolved_group,
}

same_id : (x y : ℤ) (xs : List ℤ) → eqb_ℤ x y ≡ true → has_id x xs ≡ has_id y xs
same_id x y [] e = refl
same_id x y (z ∷ zs) e = ground (arith, same_id x y zs)

same_allocation_id :
    (x y : ℤ) (l : List Allocation)
    → eqb_ℤ x y ≡ true
    → has_allocation_id x l ≡ has_allocation_id y l
same_allocation_id x y [] e = refl
same_allocation_id x y (a ∷ l) e = ground (arith, same_allocation_id x y l)

has_id-add_id : (x y : ℤ) (xs : List ℤ) → has_id x (add_id y xs) ≡ (eqb_ℤ x y || has_id x xs)
unfolding add_id
has_id-add_id x y xs = ground (arith, same_id x y xs)

has_id-keep :
    (x y : ℤ) (xs : List ℤ)
    → has_id x (keep (λ id. not (eqb_ℤ y id)) xs) ≡ (has_id x xs && not (eqb_ℤ x y))
has_id-keep x y [] = refl
has_id-keep x y (z ∷ zs) = ground (arith, has_id-keep x y zs)

no_id : (xs : List ℤ) (x : ℤ) → length xs ≡ 0 → has_id x xs ≡ false
no_id [] x h = refl
no_id (y ∷ ys) x h = absurd (omega arith)

-- The loop of the mode `allocations` ends with the ids that were selected before and those
-- listed ones that the policy has an allocation for.
pub has_id-select_listed :
    (all : List Allocation) (selected ids : List ℤ) (x : ℤ)
    → has_id x (select_listed all selected ids)
      ≡ (has_id x selected || (has_id x ids && has_allocation_id x all))
unfolding select_listed
has_id-select_listed all selected [] x = ground arith
has_id-select_listed all selected (id ∷ ids) x = ground (
  arith,
  has_id-select_listed all selected ids x,
  has_id-select_listed all (add_id id selected) ids x,
  has_id-add_id x id selected,
  same_allocation_id x id all,
)

module _ (net : Netip) (all : List Allocation) where
  -- What the loop takes off the expected ids is what the allocations name, all of it expected.
  match_expected-left :
      (expected : List ℤ) (l : List Allocation) (left : List ℤ) (x : ℤ)
      → match_expected net all expected l ≡ ok left
      → (has_id x left ≡ (has_id x expected && not (has_allocation_id x l)))
        × (has_allocation_id x l ≡ (has_allocation_id x l && has_id x expected))
  unfolding match_expected
  match_expected-left expected [] left x h = ground arith
  match_expected-left expected (a ∷ rest) left x h = ground (
    arith,
    match_expected-left (keep (λ id. not (eqb_ℤ a.id id)) expected) rest left x,
    has_id-keep x a.id expected,
    same_id x a.id expected,
  )

  -- Each of them is the policy's allocation of that id, with the same address and port.
  abbrev pub IsOwn : Allocation → Type 0
  IsOwn a =
      (own : Allocation) × (find_allocation a.id all ≡ some own) × (same_allocation own a ≡ true)

  match_expected_round :
      (expected : List ℤ) (a : Allocation) (rest : List Allocation) (left : List ℤ)
      → match_expected net all expected (a ∷ rest) ≡ ok left
      → IsOwn a
        × (match_expected net all (keep (λ id. not (eqb_ℤ a.id id)) expected) rest ≡ ok left)
  unfolding match_expected
  match_expected_round expected a rest left h = elim (Option-cases (find_allocation a.id all)) [
    | inl missing ↦ absurd (ground arith)
    | inr (own, e) ↦ ((own, e, ground arith), ground arith)
  ]

  match_expected-IsOwn :
      (expected : List ℤ) (l : List Allocation) (left : List ℤ)
      → match_expected net all expected l ≡ ok left
      → All IsOwn l
  match_expected-IsOwn expected [] left h = tt
  match_expected-IsOwn expected (a ∷ rest) left h =
      let (own, more) = match_expected_round expected a rest left h in
      (own, match_expected-IsOwn (keep (λ id. not (eqb_ℤ a.id id)) expected) rest left more)

  check_resolved_group_steps :
      (groups : List Group) (seen : List String) (r : ResolvedGroup)
      → check_resolved_group net groups all seen r ≡ ok tt
      → (g : Group) × (expected : List ℤ) × (left : List ℤ) × (find_group r.id groups ≡ some g)
        × (str_eq r.protocol g.protocol ≡ true)
        × (selected_allocations net g all ≡ ok expected)
        × (match_expected net all expected (items r.allocations) ≡ ok left)
        × (length left ≡ 0)
  unfolding check_resolved_group
  check_resolved_group_steps groups seen r h = elim (Option-cases (find_group r.id groups)) [
    | inl missing ↦ absurd (ground arith)
    | inr (g, e) ↦ elim (Result-cases (selected_allocations net g all)) [
      | inr (x, f) ↦ absurd (ground arith)
      | inl (expected, f) ↦
          elim (Result-cases (match_expected net all expected (items r.allocations))) [
            | inr (x, m) ↦ absurd (ground arith)
            | inl (left, m) ↦ (g, expected, left, e, ground arith, f, m, ground arith)
          ]
    ]
  ]

  exact :
      (expected left : List ℤ) (l : List Allocation) (x : ℤ)
      → match_expected net all expected l ≡ ok left
      → length left ≡ 0
      → has_allocation_id x l ≡ has_id x expected
  exact expected left l x h z =
      ground (arith, match_expected-left expected l left x h, no_id left x z)

  -- A resolved group that is accepted names a group of its protocol, has exactly the ids that the
  -- group selects, and each of its allocations is the policy's one of that id, with the same
  -- address and port.
  pub check_resolved_group-exact :
      (groups : List Group) (seen : List String) (r : ResolvedGroup)
      → check_resolved_group net groups all seen r ≡ ok tt
      → (g : Group) × (expected : List ℤ) × (find_group r.id groups ≡ some g)
        × (str_eq r.protocol g.protocol ≡ true)
        × (selected_allocations net g all ≡ ok expected)
        × ((x : ℤ) → has_allocation_id x (items r.allocations) ≡ has_id x expected)
        × All IsOwn (items r.allocations)
  check_resolved_group-exact groups seen r h =
      let (g, expected, left, e, same, f, m, z) = check_resolved_group_steps groups seen r h in
      (
        g,
        expected,
        e,
        same,
        f,
        λ x. exact expected left (items r.allocations) x m z,
        match_expected-IsOwn expected (items r.allocations) left m,
      )
