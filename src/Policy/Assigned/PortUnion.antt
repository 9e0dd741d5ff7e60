-- ===== src/Policy/Assigned/PortUnion.antt =====
-- The ports that `Ports` of internal/networkpolicy/policy.go returns, and their order.
use daemon.Common.{
  ◌≡◌, refl, ap, ◌∙◌, Bool, true, false, ◌&&◌, ◌||◌, List, [], ◌∷◌, any, String, arith, All,
}
use daemon.Common.Int.{ℤ, ◌<ℤ◌, eqb_ℤ}
use daemon.Policy.Types.{Allocation, ResolvedGroup, Policy, items}
use daemon.Policy.Net.{Netip}
use daemon.Policy.Select.{has_id, add_id}
use daemon.Policy.Assigned.{
  Assignment, has_port, insert_sorted, sort_ints, has_allocation, add_ports, wants_group,
  group_ports, ports_of,
}

abbrev pub IsAscending : List ℤ → Type 0
IsAscending [] = Unit {0}
IsAscending (x ∷ xs) = All (λ y. x <ℤ y) xs × IsAscending xs

-- The keys of a map: no id is among the later ones.
abbrev IsKeys : List ℤ → Type 0
IsKeys [] = Unit {0}
IsKeys (x ∷ xs) = (has_id x xs ≡ false) × IsKeys xs

add_id-IsKeys : (x : ℤ) (xs : List ℤ) → IsKeys xs → IsKeys (add_id x xs)
unfolding add_id
add_id-IsKeys x xs k = ground arith

same_port : (x y : ℤ) (xs : List ℤ) → eqb_ℤ x y ≡ true → has_port x xs ≡ has_port y xs
same_port x y [] e = refl
same_port x y (z ∷ zs) e = ground (arith, same_port x y zs)

has_port-add_id : (x y : ℤ) (xs : List ℤ) → has_port x (add_id y xs) ≡ (eqb_ℤ x y || has_port x xs)
unfolding add_id
has_port-add_id x y xs = ground (arith, same_port x y xs)

has_port-insert_sorted :
    (x y : ℤ) (xs : List ℤ) → has_port x (insert_sorted y xs) ≡ (eqb_ℤ x y || has_port x xs)
unfolding insert_sorted
has_port-insert_sorted x y [] = refl
has_port-insert_sorted x y (z ∷ zs) = ground (arith, has_port-insert_sorted x y zs)

has_port-sort_ints : (x : ℤ) (xs : List ℤ) → has_port x (sort_ints xs) ≡ has_port x xs
unfolding sort_ints
has_port-sort_ints x [] = refl
has_port-sort_ints x (y ∷ ys) =
    has_port-insert_sorted x y (sort_ints ys) ∙ ap (λ b. eqb_ℤ x y || b) (has_port-sort_ints x ys)

All-insert_sorted :
    (x y : ℤ) (xs : List ℤ) → x <ℤ y → All (λ z. x <ℤ z) xs → All (λ z. x <ℤ z) (insert_sorted y xs)
unfolding insert_sorted
All-insert_sorted x y [] h a = (h, tt)
All-insert_sorted x y (z ∷ zs) h (b, a) = ground (arith, All-insert_sorted x y zs)

above : (y z : ℤ) (zs : List ℤ) → y <ℤ z → All (λ w. z <ℤ w) zs → All (λ w. y <ℤ w) zs
above y z [] h a = tt
above y z (w ∷ ws) h (b, a) = (omega arith, above y z ws h a)

insert_sorted-IsAscending :
    (y : ℤ) (xs : List ℤ)
    → has_port y xs ≡ false
    → IsAscending xs
    → IsAscending (insert_sorted y xs)
unfolding insert_sorted
insert_sorted-IsAscending y [] n a = (tt, tt)
insert_sorted-IsAscending y (z ∷ zs) n (b, a) =
    ground (arith, All-insert_sorted z y zs, above y z zs, insert_sorted-IsAscending y zs)

sort_ints-IsAscending : (xs : List ℤ) → IsKeys xs → IsAscending (sort_ints xs)
unfolding sort_ints
sort_ints-IsAscending [] k = tt
sort_ints-IsAscending (x ∷ xs) (n, k) =
    insert_sorted-IsAscending x (sort_ints xs) (has_port-sort_ints x xs ∙ n)
      (sort_ints-IsAscending xs k)

module _ (net : Netip) (names : List String) (proto : String) (assigned : Assignment) where
  -- Whether an allocation gives the port, and whether some resolved group does.
  abbrev gives : ℤ → Allocation → Bool
  gives port a = has_allocation net assigned a && eqb_ℤ port a.port

  abbrev pub is_selected : ℤ → List ResolvedGroup → Bool
  is_selected port = any (λ g. wants_group names proto g && any (gives port) (items g.allocations))

  has_port-add_ports :
      (x : ℤ) (ports : List ℤ) (l : List Allocation)
      → has_port x (add_ports net assigned ports l) ≡ (has_port x ports || any (gives x) l)
  unfolding add_ports
  has_port-add_ports x ports [] = ground arith
  has_port-add_ports x ports (a ∷ rest) = ground (
    arith,
    has_port-add_ports x ports rest,
    has_port-add_ports x (add_id a.port ports) rest,
    has_port-add_id x a.port ports,
  )

  add_ports-IsKeys :
      (ports : List ℤ) (l : List Allocation)
      → IsKeys ports
      → IsKeys (add_ports net assigned ports l)
  unfolding add_ports
  add_ports-IsKeys ports [] k = k
  add_ports-IsKeys ports (a ∷ rest) k = ground (
    arith,
    add_ports-IsKeys ports rest,
    add_ports-IsKeys (add_id a.port ports) rest,
    add_id-IsKeys a.port ports,
  )

  has_port-group_ports :
      (x : ℤ) (ports : List ℤ) (l : List ResolvedGroup)
      → has_port x (group_ports net names proto assigned ports l)
        ≡ (has_port x ports || is_selected x l)
  unfolding group_ports
  has_port-group_ports x ports [] = ground arith
  has_port-group_ports x ports (g ∷ rest) = ground (
    arith,
    has_port-group_ports x ports rest,
    has_port-group_ports x (add_ports net assigned ports (items g.allocations)) rest,
    has_port-add_ports x ports (items g.allocations),
  )

  group_ports-IsKeys :
      (ports : List ℤ) (l : List ResolvedGroup)
      → IsKeys ports
      → IsKeys (group_ports net names proto assigned ports l)
  unfolding group_ports
  group_ports-IsKeys ports [] k = k
  group_ports-IsKeys ports (g ∷ rest) k = ground (
    arith,
    group_ports-IsKeys ports rest,
    group_ports-IsKeys (add_ports net assigned ports (items g.allocations)) rest,
    add_ports-IsKeys ports (items g.allocations),
  )

  -- `Ports` is strictly ascending, and has exactly the ports of the assigned allocations of the
  -- named resolved groups whose protocol is "both" or the given one.
  pub ports_of_lem :
      (p : Policy)
      → IsAscending (ports_of net p names proto assigned)
        × ((port : ℤ)
            → has_port port (ports_of net p names proto assigned)
              ≡ is_selected port (items p.resolved_groups))
  unfolding ports_of
  ports_of_lem p =
      let found = group_ports net names proto assigned [] (items p.resolved_groups) in
      (
        sort_ints-IsAscending found (group_ports-IsKeys [] (items p.resolved_groups) tt),
        λ port.
            has_port-sort_ints port found ∙ has_port-group_ports port [] (items p.resolved_groups),
      )
