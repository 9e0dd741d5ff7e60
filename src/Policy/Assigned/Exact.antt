-- ===== src/Policy/Assigned/Exact.antt =====
-- The allocations of policies that `Validate` of internal/networkpolicy/policy.go accepts.
use daemon.Common.{
  ◌≤◌, ◌<◌, ◌≡◌, refl, sym, ap, ◌∙◌, inl, inr, Bool, true, false, ◌||◌, not, List, [], ◌∷◌, keep,
  length, String, str_eq, str_eq_iff, Result, ok, err, suc, arith, Bool-cases, All,
}
use daemon.Common.Int.{ℤ}
use daemon.Policy.Types.{Allocation, Policy, Bandwidth, PolicyError, items}
use daemon.Policy.Net.{Netip, allocation_key}
use daemon.Policy.Static.{mem, check_allocations, validate_static}
use daemon.Policy.Assigned.{Assignment, is_empty, assigned_allocations, check_owned, validate}

-- No element is among the later ones.
abbrev pub Distinct : List String → Type 0
Distinct [] = Unit {0}
Distinct (x ∷ xs) = (mem x xs ≡ false) × Distinct xs

abbrev without : String → List String → List String
without x = keep (λ y. not (str_eq y x))

mem-without :
    (k x : String) (ys : List String)
    → mem k ys ≡ true
    → str_eq k x ≡ false
    → mem k (without x ys) ≡ true
mem-without k x [] h e = cc
mem-without k x (y ∷ ys) h e =
    ground (arith, str_eq_iff k y, str_eq_iff y x, str_eq_iff k x, mem-without k x ys)

length-without-le : (x : String) (ys : List String) → length (without x ys) ≤ length ys
length-without-le x [] = omega arith
length-without-le x (y ∷ ys) = ground (arith, length-without-le x ys)

length-without :
    (x : String) (ys : List String) → mem x ys ≡ true → length (without x ys) < length ys
length-without x [] h = cc
length-without x (y ∷ ys) h =
    ground (arith, str_eq_iff x y, str_eq_iff y x, length-without x ys, length-without-le x ys)

All-without :
    (x : String) (xs ys : List String)
    → mem x xs ≡ false
    → All (λ k. mem k ys ≡ true) xs
    → All (λ k. mem k (without x ys) ≡ true) xs
All-without x [] ys h a = tt
All-without x (k ∷ ks) ys h (m, a) = (
  mem-without k x ys m (ground (arith, str_eq_iff x k, str_eq_iff k x)),
  All-without x ks ys (ground arith) a,
)

-- Distinct elements of a list that is no longer are all its elements.
pigeonhole :
    (xs ys : List String) (k : String)
    → Distinct xs
    → All (λ x. mem x ys ≡ true) xs
    → length ys ≤ length xs
    → mem k ys ≡ true
    → mem k xs ≡ true
pigeonhole [] [] k d a h m = m
pigeonhole [] (y ∷ ys) k d a h m = absurd (omega arith)
pigeonhole (x ∷ xs) ys k (n, d) (i, a) h m = elim (Bool-cases (str_eq k x)) [
  | inl same ↦ rw same
  | inr other ↦ rw (
    other,
    pigeonhole xs (without x ys) k d (All-without x xs ys n a)
        (omega (arith, length-without x ys i)) (mem-without k x ys m other),
  )
]

mem_of_All :
    (k : String) (ys xs : List String)
    → All (λ x. mem x ys ≡ true) xs
    → mem k xs ≡ true
    → mem k ys ≡ true
mem_of_All k ys [] a h = cc
mem_of_All k ys (x ∷ xs) (m, a) h = ground (arith, str_eq_iff k x, mem_of_All k ys xs a)

mem_iff :
    (k : String) (xs ys : List String)
    → (mem k ys ≡ true → mem k xs ≡ true)
    → (mem k xs ≡ true → mem k ys ≡ true)
    → mem k xs ≡ mem k ys
mem_iff k xs ys f g = ground arith

module _ (net : Netip) where
  -- Whether some allocation has the key.
  unfoldable pub names_key : String → List Allocation → Bool
  names_key key [] = false
  names_key key (a ∷ rest) =
      elim (allocation_key net a.ip a.port) [ ok k ↦ str_eq key k | err e ↦ false ]
      || names_key key rest

  -- The keys of the allocations, in their order.
  abbrev KeyedBy : List Allocation → List String → Type 0
  KeyedBy [] [] = Unit {0}
  KeyedBy [] (k ∷ ks) = ⊥
  KeyedBy (a ∷ rest) [] = ⊥
  KeyedBy (a ∷ rest) (k ∷ ks) = (allocation_key net a.ip a.port ≡ ok k) × KeyedBy rest ks

  names_key-KeyedBy :
      (key : String) (l : List Allocation) (ks : List String)
      → KeyedBy l ks
      → names_key key l ≡ mem key ks
  unfolding names_key
  names_key-KeyedBy key [] [] h = refl
  names_key-KeyedBy key [] (k ∷ ks) h = absurd h
  names_key-KeyedBy key (a ∷ l) [] h = absurd h
  names_key-KeyedBy key (a ∷ l) (k ∷ ks) (e, h) = rw (e, names_key-KeyedBy key l ks h)

  length-KeyedBy : (l : List Allocation) (ks : List String) → KeyedBy l ks → length ks ≡ length l
  length-KeyedBy [] [] h = refl
  length-KeyedBy [] (k ∷ ks) h = absurd h
  length-KeyedBy (a ∷ l) [] h = absurd h
  length-KeyedBy (a ∷ l) (k ∷ ks) (e, h) = ap suc (length-KeyedBy l ks h)

  weaken :
      (k : String) (keys ks : List String)
      → All (λ j. mem j (k ∷ keys) ≡ false) ks
      → (mem k ks ≡ false) × All (λ j. mem j keys ≡ false) ks
  weaken k keys [] h = (refl, tt)
  weaken k keys (j ∷ ks) (m, h) =
      let (n, rest) = weaken k keys ks h in
      (ground (arith, str_eq_iff k j, str_eq_iff j k), (ground arith, rest))

  -- What one accepted round has checked.
  check_allocations_round :
      (ids : List ℤ) (keys : List String) (a : Allocation) (rest : List Allocation)
      → check_allocations net ids keys (a ∷ rest) ≡ ok tt
      → (key : String) × (allocation_key net a.ip a.port ≡ ok key)
        × (mem key keys ≡ false)
        × (check_allocations net (a.id ∷ ids) (key ∷ keys) rest ≡ ok tt)
  unfolding check_allocations
  check_allocations_round ids keys a rest h = ground arith

  -- Accepted allocations have distinct keys.
  check_allocations-keys :
      (ids : List ℤ) (keys : List String) (l : List Allocation)
      → check_allocations net ids keys l ≡ ok tt
      → (ks : List String) × KeyedBy l ks × Distinct ks × All (λ k. mem k keys ≡ false) ks
  check_allocations-keys ids keys [] h = ([], tt, tt, tt)
  check_allocations-keys ids keys (a ∷ rest) h =
      let (key, e, fresh, more) = check_allocations_round ids keys a rest h in
      let (ks, by, d, new) = check_allocations-keys (a.id ∷ ids) (key ∷ keys) rest more in
      let (n, old) = weaken key keys ks new in (key ∷ ks, (e, by), (n, d), (fresh, old))

  check_owned_round :
      (owned : List String) (a : Allocation) (l : List Allocation) (k : String)
      → check_owned net owned (a ∷ l) ≡ ok tt
      → allocation_key net a.ip a.port ≡ ok k
      → (mem k owned ≡ true) × (check_owned net owned l ≡ ok tt)
  unfolding check_owned
  check_owned_round owned a l k h e = ground arith

  check_owned-keys :
      (owned : List String) (l : List Allocation) (ks : List String)
      → check_owned net owned l ≡ ok tt
      → KeyedBy l ks
      → All (λ k. mem k owned ≡ true) ks
  check_owned-keys owned [] [] h b = tt
  check_owned-keys owned [] (k ∷ ks) h b = absurd b
  check_owned-keys owned (a ∷ l) [] h b = absurd b
  check_owned-keys owned (a ∷ l) (k ∷ ks) h (e, b) =
      let (m, more) = check_owned_round owned a l k h e in (m, check_owned-keys owned l ks more b)

  module _ (calculated_hash : Policy → Result PolicyError String) (p : Policy)
      (assigned : Assignment) (ceiling : Bandwidth) where
    validate_static_allocations :
        validate_static net calculated_hash p ≡ ok tt
        → check_allocations net [] [] (items p.allocations) ≡ ok tt
    unfolding validate_static
    validate_static_allocations h = ground arith

    validate_checks :
        is_empty p ≡ false
        → validate net calculated_hash p assigned ceiling ≡ ok tt
        → (owned : List String) × (assigned_allocations net assigned ≡ ok owned)
          × (validate_static net calculated_hash p ≡ ok tt)
          × (length owned ≡ length (items p.allocations))
          × (check_owned net owned (items p.allocations) ≡ ok tt)
    unfolding validate
    validate_checks e h = ground arith

    -- `Validate` accepts a policy that is not empty only if its allocations and the server's
    -- assigned ones have the same keys, where a key is an address with its port.
    pub validate-exact :
        is_empty p ≡ false
        → validate net calculated_hash p assigned ceiling ≡ ok tt
        → (owned : List String) × (assigned_allocations net assigned ≡ ok owned)
          × ((key : String) → mem key owned ≡ names_key key (items p.allocations))
    validate-exact e h =
        let (owned, is_owned, static, same, all) = validate_checks e h in
        let (ks, by, d, _) =
          check_allocations-keys [] [] (items p.allocations) (validate_static_allocations static) in
        let inside = check_owned-keys owned (items p.allocations) ks all by in
        let size = length-KeyedBy (items p.allocations) ks by in
        (
          owned,
          is_owned,
          λ key.
              mem_iff key owned ks (mem_of_All key owned ks inside)
                (pigeonhole ks owned key d inside (omega (arith, size, same)))
              ∙ sym (names_key-KeyedBy key (items p.allocations) ks by),
        )
