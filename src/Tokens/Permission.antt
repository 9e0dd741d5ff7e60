-- ===== src/Tokens/Permission.antt =====
-- `HasPermission` against the permissions that a token lists.
use mathlib.Core.List.{Memᴰ}
use daemon.Common.{
  ℕ, ◌≡◌, ◌⊎◌, ◌↔◌, refl, sym, ap, ◌∙◌, inl, inr, Bool, true, false, ◌&&◌, ◌||◌, not, List, [], ◌∷◌,
  ◌++◌, arith, any, String, str_eq, str_eq_iff, Bool-cases,
}
use daemon.Policy.Names.{codes}
use daemon.Tokens.{
  Denylist, Payload, is_denylisted, has_prefix, grants, permission_loop, has_permission,
}

-- The text begins with the prefix.
abbrev pub Begins : List ℕ → List ℕ → Type 0
Begins s prefix = (rest : List ℕ) × (s ≡ prefix ++ rest)

has_prefix-Begins : (s prefix : List ℕ) → has_prefix s prefix ≡ true → Begins s prefix
has_prefix-Begins s [] h = (s, refl)
has_prefix-Begins [] (c ∷ prefix) h = absurd cc
has_prefix-Begins (d ∷ s) (c ∷ prefix) h =
    let (rest, e) = has_prefix-Begins s prefix (ground arith) in
    let same : d ≡ c = ground arith in (rest, cc)

has_prefix-append : (prefix rest : List ℕ) → has_prefix (prefix ++ rest) prefix ≡ true
has_prefix-append [] rest = refl
has_prefix-append (c ∷ prefix) rest = ground (arith, has_prefix-append prefix rest)

any_Memᴰ : (x : String) (ks : List String) → any (λ k. str_eq k x) ks ≡ true → Memᴰ x ks
any_Memᴰ x [] h = absurd cc
any_Memᴰ x (k ∷ ks) h = elim (Bool-cases (str_eq k x)) [
  | inl same ↦ Memᴰ.head (sym ((str_eq_iff k x).0 same))
  | inr apart ↦ Memᴰ.tail (any_Memᴰ x ks (ground (arith, apart, h)))
]

Memᴰ_any : (x : String) (ks : List String) → Memᴰ x ks → any (λ k. str_eq k x) ks ≡ true
Memᴰ_any x [] m = elim m [ ]
Memᴰ_any x (k ∷ ks) (Memᴰ.head e) = ground (arith, (str_eq_iff k x).1 (sym e))
Memᴰ_any x (k ∷ ks) (Memᴰ.tail m) = ground (arith, Memᴰ_any x ks m)

distribute :
    (a b c x y : Bool) → ((a || (b && c)) || (x || (b && y))) ≡ ((a || x) || (b && (c || y)))
distribute true b c x y = refl
distribute false true c true y = ground arith
distribute false true c false y = refl
distribute false false c x y = ground arith

-- Whether the list has the permission, or the star for one that does not begin with "admin".
abbrev listed : String → List String → Bool
listed permission ks =
    any (λ k. str_eq k permission) ks
    || (not (has_prefix (codes permission) (codes "admin")) && any (λ k. str_eq k "*") ks)

any-grants :
    (permission : String) (ks : List String) → any (grants permission) ks ≡ listed permission ks
unfolding grants
any-grants permission [] = ground arith
any-grants permission (k ∷ ks) =
    ap (λ r. grants permission k || r) (any-grants permission ks)
    ∙ distribute (str_eq k permission) (not (has_prefix (codes permission) (codes "admin")))
        (str_eq k "*") (any (λ k. str_eq k permission) ks) (any (λ k. str_eq k "*") ks)

permission_loop-any :
    (d : Denylist) (p : Payload) (permission : String) (ks : List String)
    → permission_loop d p permission ks ≡ (any (grants permission) ks && not (is_denylisted d p))
unfolding permission_loop
permission_loop-any d p permission [] = refl
permission_loop-any d p permission (k ∷ ks) = elim (Bool-cases (grants permission k)) [
  | inl granted ↦ rw granted refl
  | inr pass ↦ rw pass (permission_loop-any d p permission ks)
]

-- Where a permission is listed.
abbrev Lists : String → List String → Type 0
Lists permission ks =
    Memᴰ permission ks ⊎ ((¬ Begins (codes permission) (codes "admin")) × Memᴰ "*" ks)

listed-Lists :
    (permission : String) (ks : List String) → listed permission ks ≡ true → Lists permission ks
listed-Lists permission ks h = elim (Bool-cases (any (λ k. str_eq k permission) ks)) [
  | inl own ↦ inl (any_Memᴰ permission ks own)
  | inr other ↦ inr (
    λ (rest, e).
        cc (ap (λ s. has_prefix s (codes "admin")) e ∙ has_prefix-append (codes "admin") rest),
    any_Memᴰ "*" ks (ground (arith, h, other)),
  )
]

Lists-listed :
    (permission : String) (ks : List String) → Lists permission ks → listed permission ks ≡ true
Lists-listed permission ks (inl own) = rw (Memᴰ_any permission ks own) refl
Lists-listed permission ks (inr (plain, star)) =
    elim (Bool-cases (has_prefix (codes permission) (codes "admin"))) [
      | inl admin ↦ absurd (plain (has_prefix-Begins (codes permission) (codes "admin") admin))
      | inr other ↦ rw (Memᴰ_any "*" ks star, other) (ground arith)
    ]

both : (a b : Bool) → ((a && not b) ≡ true) ↔ ((b ≡ false) × (a ≡ true))
both a b = ground arith

-- A token has a permission exactly when it is not denied and lists the permission itself, or lists
-- the star and the permission does not begin with "admin".
pub has_permission_lem :
    (d : Denylist) (p : Payload) (permission : String)
    → (has_permission d p permission ≡ true) ↔ (
        (is_denylisted d p ≡ false)
        × (Memᴰ permission p.permissions
            ⊎ ((¬ Begins (codes permission) (codes "admin")) × Memᴰ "*" p.permissions)))
unfolding has_permission
has_permission_lem d p permission =
    let loop =
      permission_loop-any d p permission p.permissions
      ∙ ap (λ r. r && not (is_denylisted d p)) (any-grants permission p.permissions) in
    let (forth, back) = both (listed permission p.permissions) (is_denylisted d p) in
    (
      λ h.
          let (live, found) = forth (sym loop ∙ h) in
          (live, listed-Lists permission p.permissions found),
      λ (live, found). loop ∙ back (live, Lists-listed permission p.permissions found),
    )
