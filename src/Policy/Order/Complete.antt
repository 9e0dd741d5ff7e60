-- ===== src/Policy/Order/Complete.antt =====
-- How often `OrderedRules` lists a rule.
use daemon.Common.{
  ℕ, ◌+◌, ◌≡◌, refl, sym, ◌∙◌, Bool, true, false, ◌&&◌, ◌||◌, Option, none, some, List, [], ◌∷◌,
  ◌++◌, keep, any, length, length-append, if◌then◌else◌, String, str_eq, str_eq_iff, arith,
  Bool-cases, inl, inr,
}
use daemon.Policy.Types.{Policy, Chain, Rule, items}
use daemon.Policy.Order.{in_chain, in_no_chain, chain_rules, ordered_rules}

-- How many of the elements pass a test.
abbrev pub count {ℓ} : {A : Type ℓ} → (A → Bool) → List A → ℕ
count p xs = length (keep p xs)

keep-append {ℓ} :
    {A : Type ℓ} (p : A → Bool) (xs ys : List A) → keep p (xs ++ ys) ≡ keep p xs ++ keep p ys
keep-append p [] ys = refl
keep-append p (x ∷ xs) ys = elim (Bool-cases (p x)) [
  | inl h ↦ rw (h, keep-append p xs ys)
  | inr h ↦ rw (h, keep-append p xs ys)
]

count-append {ℓ} :
    {A : Type ℓ} (p : A → Bool) (xs ys : List A) → count p (xs ++ ys) ≡ count p xs + count p ys
count-append p xs ys = rw (keep-append p xs ys) (length-append (keep p xs) (keep p ys))

count-keep {ℓ} :
    {A : Type ℓ} (p q : A → Bool) (xs : List A) → count p (keep q xs) ≡ count (λ x. q x && p x) xs
count-keep p q [] = refl
count-keep p q (x ∷ xs) = ground (arith, count-keep p q xs)

-- No chain's id is that of a later one.
abbrev pub Distinct : List Chain → Type 0
Distinct [] = Unit {0}
Distinct (c ∷ cs) = (any (λ d. str_eq d.id c.id) cs ≡ false) × Distinct cs

-- Whether some enabled chain has the id.
abbrev pub enabled_chain : List Chain → String → Bool
enabled_chain cs id = any (λ c. c.enabled && str_eq id c.id) cs

-- A rule that is in force: enabled, and in no chain or in an enabled one.
abbrev pub is_active : List Chain → Rule → Bool
is_active cs rule = rule.enabled && elim rule.chain_id [ none ↦ true | some c ↦ enabled_chain cs c ]

-- A rule in an enabled chain of the list.
abbrev in_some_chain : List Chain → Rule → Bool
in_some_chain cs rule =
    rule.enabled && elim rule.chain_id [ none ↦ false | some c ↦ enabled_chain cs c ]

-- Two tests that exclude each other count together as their disjunction.
count-or {ℓ} :
    {A : Type ℓ} (p q r : A → Bool) (xs : List A)
    → ((x : A) → (p x && q x) ≡ false)
    → ((x : A) → r x ≡ (p x || q x))
    → count p xs + count q xs ≡ count r xs
count-or p q r [] h e = omega arith
count-or p q r (x ∷ xs) h e = ground (arith, h x, e x, count-or p q r xs h e)

count_none {ℓ} :
    {A : Type ℓ} (p : A → Bool) (xs : List A) → ((x : A) → p x ≡ false) → count p xs ≡ 0
count_none p [] h = refl
count_none p (x ∷ xs) h = ground (arith, h x, count_none p xs h)

-- One round of the outer loop.
count_enabled :
    (e : Bool) (id : String) (p : Rule → Bool) (rules : List Rule)
    → count p (if e then keep (in_chain id) rules else [])
      ≡ count (λ r. (e && in_chain id r) && p r) rules
count_enabled true id p rules = count-keep p (in_chain id) rules
count_enabled false id p rules = sym (count_none _ rules (λ r. refl))

clash :
    (cs : List Chain) (k id : String)
    → enabled_chain cs k ≡ true
    → str_eq k id ≡ true
    → any (λ d. str_eq d.id id) cs ≡ true
clash [] k id h e = cc
clash (c ∷ cs) k id h e =
    ground (arith, str_eq_iff k id, str_eq_iff k c.id, str_eq_iff c.id id, clash cs k id)

module _ (p : Rule → Bool) (c : Chain) (cs : List Chain) where
  abbrev in_first : Rule → Bool
  in_first r = (c.enabled && in_chain c.id r) && p r

  abbrev in_rest : Rule → Bool
  in_rest r = in_some_chain cs r && p r

  first_or_rest_disjoint :
      any (λ d. str_eq d.id c.id) cs ≡ false → (r : Rule) → (in_first r && in_rest r) ≡ false
  first_or_rest_disjoint h r = split r.chain_id r.enabled
    where
      split :
          (k : Option String) (e : Bool)
          → (((c.enabled && elim k [ none ↦ false | some i ↦ e && str_eq i c.id ]) && p r)
              && ((e && elim k [ none ↦ false | some i ↦ enabled_chain cs i ]) && p r))
            ≡ false
      split none e = ground arith
      split (some k) e = ground (arith, clash cs k c.id)

  first_or_rest : (r : Rule) → (in_some_chain (c ∷ cs) r && p r) ≡ (in_first r || in_rest r)
  first_or_rest r = ground arith

count-chain_rules :
    (p : Rule → Bool) (cs : List Chain) (rules : List Rule)
    → Distinct cs
    → count p (chain_rules cs rules) ≡ count (λ r. in_some_chain cs r && p r) rules
unfolding chain_rules
count-chain_rules p [] rules h = sym (count_none _ rules (λ r. ground arith))
count-chain_rules p (c ∷ cs) rules (h, d) =
    count-append p (if c.enabled then keep (in_chain c.id) rules else []) (chain_rules cs rules)
    ∙ omega (
      arith,
      count_enabled c.enabled c.id p rules,
      count-chain_rules p cs rules d,
      count-or (in_first p c cs) (in_rest p c cs) (λ r. in_some_chain (c ∷ cs) r && p r) rules
          (first_or_rest_disjoint p c cs h) (first_or_rest p c cs),
    )

chained_or_free_disjoint :
    (p : Rule → Bool) (cs : List Chain) (r : Rule)
    → ((in_some_chain cs r && p r) && (in_no_chain r && p r)) ≡ false
chained_or_free_disjoint p cs r = ground arith

chained_or_free :
    (p : Rule → Bool) (cs : List Chain) (r : Rule)
    → (is_active cs r && p r) ≡ ((in_some_chain cs r && p r) || (in_no_chain r && p r))
chained_or_free p cs r = ground arith

-- Where the ids of the chains are distinct, every test is passed by as many ordered rules as by
-- given rules that are in force, which are the enabled ones in no chain or in an enabled one: no
-- rule is lost, doubled or added.
pub count-ordered_rules :
    (p : Rule → Bool) (pol : Policy)
    → Distinct (items pol.body.firewall.chains)
    → count p (ordered_rules pol)
      ≡ count
          (λ r. is_active (items pol.body.firewall.chains) r && p r)
          (items pol.body.firewall.rules)
unfolding ordered_rules
count-ordered_rules p pol d =
    let cs = items pol.body.firewall.chains in
    let rules = items pol.body.firewall.rules in
    count-append p (chain_rules cs rules) (keep in_no_chain rules)
    ∙ omega (
      arith,
      count-chain_rules p cs rules d,
      count-keep p in_no_chain rules,
      count-or (λ r. in_some_chain cs r && p r) (λ r. in_no_chain r && p r)
          (λ r. is_active cs r && p r) rules (chained_or_free_disjoint p cs) (chained_or_free p cs),
    )
