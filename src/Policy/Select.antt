-- ===== src/Policy/Select.antt =====
-- `selectedAllocations` of internal/networkpolicy/policy.go. A map to true is the list of its keys.
use daemon.Common.{
  Bool, true, false, ◌||◌, Option, none, some, List, [], ◌∷◌, any, str_eq, if◌then◌else◌, Result,
  ok, ◌>>=◌,
}
use daemon.Common.Int.{ℤ, ltb_ℤ, eqb_ℤ}
use daemon.Policy.Types.{Allocation, Group, PolicyError, items}
use daemon.Policy.Net.{Netip, parse_ip}

abbrev pub has_id : ℤ → List ℤ → Bool
has_id id = any (eqb_ℤ id)

-- `m[id] = true`.
unfoldable pub add_id : ℤ → List ℤ → List ℤ
add_id id ids = if has_id id ids then ids else id ∷ ids

abbrev pub has_allocation_id : ℤ → List Allocation → Bool
has_allocation_id id = any (λ a. eqb_ℤ id a.id)

-- The mode "allocations": the listed ids that are there.
unfoldable pub select_listed : List Allocation → List ℤ → List ℤ → List ℤ
unfolding add_id
select_listed allocations selected [] = selected
select_listed allocations selected (id ∷ ids) =
    select_listed allocations
      (if has_allocation_id id allocations then add_id id selected else selected) ids

module _ (net : Netip) where
  open net use {Addr, addr_eq}

  -- Whether the loop of the other mode selects an allocation.
  unfoldable pub in_range : Group → Option Addr → Allocation → Result PolicyError Bool
  in_range group match_ip a =
      if ltb_ℤ a.port group.port_start || ltb_ℤ group.port_end a.port
      then ok false
      else elim match_ip [
        | none ↦ ok true
        | some wanted ↦ do ip ← parse_ip net a.ip; ok (addr_eq ip wanted)
      ]

  unfoldable pub select_range :
      Group → Option Addr → List ℤ → List Allocation → Result PolicyError (List ℤ)
  unfolding add_id
  select_range group match_ip selected [] = ok selected
  select_range group match_ip selected (a ∷ rest) = do
    chosen ← in_range group match_ip a
    select_range group match_ip (if chosen then add_id a.id selected else selected) rest

  unfoldable pub selected_allocations : Group → List Allocation → Result PolicyError (List ℤ)
  selected_allocations group allocations =
      if str_eq group.mode "allocations"
      then ok (select_listed allocations [] (items group.allocation_ids))
      else elim group.ip [
        | none ↦ select_range group none [] allocations
        | some value ↦ do
          match_ip ← parse_ip net value
          select_range group (some match_ip) [] allocations
      ]
