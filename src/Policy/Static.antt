-- ===== src/Policy/Static.antt =====
-- `validateStatic` of internal/networkpolicy/policy.go and what it calls. The maps that it builds
-- hold every element that its loops have passed, so they are the lists of those.
pub mod Resolved
use daemon.Common.{
  ℕ, Bool, true, false, ◌&&◌, ◌||◌, not, Option, none, some, List, [], ◌∷◌, any, keep, find?,
  length, String, str_eq, ltb, ◌==◌, if◌then◌else◌, Result, ok, err, ◌>>=◌, ◌>>◌, require, reject,
  each, is_some,
}
use daemon.Common.Int.{ℤ, pos, ltb_ℤ, leb_ℤ, eqb_ℤ}
use daemon.Policy.Types
use daemon.Policy.Types.{
  Allocation, ResolvedGroup, Group, Chain, Rule, Firewall, Policy, PolicyError, items,
}
use daemon.Policy.Names.{id_pattern, hash_pattern, valid_protocol, valid_action, valid_name}
use daemon.Policy.Bandwidth.{validate_bandwidth}
use daemon.Policy.Net.{Netip, parse_ip, allocation_key, peer}
use daemon.Policy.Select.{selected_allocations, has_id}

abbrev pub mem : String → List String → Bool
mem s = any (str_eq s)

-- `original == allocation`, on the structs.
unfoldable pub same_allocation : Allocation → Allocation → Bool
same_allocation a b = eqb_ℤ a.id b.id && str_eq a.ip b.ip && eqb_ℤ a.port b.port

abbrev pub find_allocation : ℤ → List Allocation → Option Allocation
find_allocation id = find? (λ a. eqb_ℤ id a.id)

abbrev pub find_group : String → List Group → Option Group
find_group id = find? (λ g. str_eq id g.id)

module _ (net : Netip) where
  -- The loop over the allocations, with the ids and the keys of those before.
  unfoldable pub check_allocations :
      List ℤ → List String → List Allocation → Result PolicyError (Unit {0})
  check_allocations ids keys [] = ok tt
  check_allocations ids keys (a ∷ rest) = do
    reject (leb_ℤ a.id (pos 0) || ltb_ℤ a.port (pos 1) || ltb_ℤ (pos 65535) a.port)
        Types.bad_allocation
    reject (has_id a.id ids) Types.duplicate_allocation
    key ← allocation_key net a.ip a.port
    reject (mem key keys) Types.ambiguous_allocation
    check_allocations (a.id ∷ ids) (key ∷ keys) rest

  check_group_ip : Option String → Result PolicyError (Unit {0})
  check_group_ip none = ok tt
  check_group_ip (some value) = elim (parse_ip net value) [
    | ok ip ↦ ok tt
    | err e ↦ err Types.bad_group_ip
  ]

  -- One round of the loop over the groups.
  unfoldable pub check_group : List String → Group → Result PolicyError (Unit {0})
  unfolding check_group_ip
  check_group seen g = do
    require (id_pattern g.id) Types.bad_group_id
    reject (mem g.id seen) Types.duplicate_group
    require (valid_name g.name) Types.bad_group_name
    require (str_eq g.mode "allocations" || str_eq g.mode "range") Types.bad_group_mode
    require (valid_protocol g.protocol) Types.bad_group_protocol
    reject (not (is_some g.allocation_ids) || ltb 1000 (length (items g.allocation_ids)))
        Types.bad_group_allocations
    reject
        (ltb_ℤ g.port_start (pos 1)
          || ltb_ℤ (pos 65535) g.port_end
          || ltb_ℤ g.port_end g.port_start)
        Types.bad_group_ports
    check_group_ip g.ip
    reject (any (λ id. leb_ℤ id (pos 0)) (items g.allocation_ids)) Types.bad_group_allocation_id
    ok tt

  unfoldable pub check_groups : List String → List Group → Result PolicyError (Unit {0})
  check_groups seen [] = ok tt
  check_groups seen (g ∷ rest) = do check_group seen g; check_groups (g.id ∷ seen) rest

  -- The loop over a resolved group's allocations: what is left of the expected ids.
  unfoldable pub match_expected :
      List Allocation → List ℤ → List Allocation → Result PolicyError (List ℤ)
  match_expected all expected [] = ok expected
  match_expected all expected (a ∷ rest) = elim (find_allocation a.id all) [
    | none ↦ err Types.resolved_outside
    | some original ↦
        if not (same_allocation original a) || not (has_id a.id expected)
        then err Types.resolved_outside
        else match_expected all (keep (λ id. not (eqb_ℤ a.id id)) expected) rest
  ]

  -- One round of the loop of `validateResolvedGroups`.
  unfoldable pub check_resolved_group :
      List Group → List Allocation → List String → ResolvedGroup → Result PolicyError (Unit {0})
  check_resolved_group groups all seen r = elim (find_group r.id groups) [
    | none ↦ err Types.unknown_resolved
    | some g ↦ do
      reject (mem r.id seen) Types.unknown_resolved
      require (str_eq r.protocol g.protocol) Types.resolved_protocol
      require (is_some r.allocations) Types.resolved_null
      expected ← selected_allocations net g all
      require (length (items r.allocations) == length expected) Types.resolved_not_exact
      left ← match_expected all expected (items r.allocations)
      require (length left == 0) Types.resolved_omits
  ]

  unfoldable pub check_resolved :
      List Group
      → List Allocation
      → List String
      → List ResolvedGroup
      → Result PolicyError (Unit {0})
  check_resolved groups all seen [] = ok tt
  check_resolved groups all seen (r ∷ rest) = do
    check_resolved_group groups all seen r
    check_resolved groups all (r.id ∷ seen) rest

  unfoldable pub validate_resolved_groups :
      List Group → List Allocation → List ResolvedGroup → Result PolicyError (Unit {0})
  validate_resolved_groups groups all resolved = do
    require (length resolved == length groups) Types.resolved_count
    check_resolved groups all [] resolved

-- The loop over the chains.
unfoldable pub check_chains : List String → List Chain → Result PolicyError (Unit {0})
check_chains seen [] = ok tt
check_chains seen (c ∷ rest) = do
  require (id_pattern c.id && valid_name c.name) Types.bad_chain
  reject (mem c.id seen) Types.duplicate_chain
  check_chains (c.id ∷ seen) rest

abbrev pub chain_known : List Chain → Option String → Bool
chain_known chains none = true
chain_known chains (some id) = any (λ c. str_eq id c.id) chains

-- A rule's group is there and their protocols overlap.
unfoldable pub check_rule_group : List Group → Rule → Result PolicyError (Unit {0})
check_rule_group groups r = elim r.group_id [
  | none ↦ ok tt
  | some id ↦ elim (find_group id groups) [
    | none ↦ err Types.unknown_group
    | some g ↦
        reject
          (not (str_eq r.protocol "both")
            && not (str_eq g.protocol "both")
            && not (str_eq r.protocol g.protocol))
          Types.protocols_disjoint
  ]
]

module _ (net : Netip) where
  unfoldable pub check_cidr : Option String → Result PolicyError (Unit {0})
  check_cidr none = ok tt
  check_cidr (some value) = elim (peer net value) [ ok p ↦ ok tt | err e ↦ err Types.bad_cidr ]

  -- One round of the loop over the rules.
  unfoldable pub check_rule :
      List Group → List Chain → List String → Rule → Result PolicyError (Unit {0})
  check_rule groups chains seen r = do
    require (id_pattern r.id && valid_name r.name) Types.bad_rule
    reject (mem r.id seen) Types.duplicate_rule
    require (str_eq r.direction "inbound" || str_eq r.direction "outbound") Types.bad_direction
    require (valid_action r.action && valid_protocol r.protocol) Types.bad_rule_action
    require (chain_known chains r.chain_id) Types.unknown_chain
    check_rule_group groups r
    check_cidr r.cidr

  unfoldable pub check_rules :
      List Group → List Chain → List String → List Rule → Result PolicyError (Unit {0})
  check_rules groups chains seen [] = ok tt
  check_rules groups chains seen (r ∷ rest) = do
    check_rule groups chains seen r
    check_rules groups chains (r.id ∷ seen) rest

  unfoldable pub validate_firewall : List Group → Firewall → Result PolicyError (Unit {0})
  validate_firewall groups f = do
    require (valid_action f.default_inbound && valid_action f.default_outbound) Types.bad_defaults
    check_chains [] (items f.chains)
    check_rules groups (items f.chains) [] (items f.rules)

  -- `calculated_hash` is the SHA-256 of the canonical JSON of the document.
  unfoldable pub validate_static :
      (Policy → Result PolicyError String) → Policy → Result PolicyError (Unit {0})
  validate_static calculated_hash p = do
    require (eqb_ℤ p.api_version (pos 1)) Types.bad_api_version
    reject (p.revision == 0) Types.bad_revision
    require (hash_pattern p.policy_hash) Types.bad_hash
    require
        (is_some p.allocations
          && is_some p.resolved_groups
          && is_some p.body.groups
          && is_some p.body.firewall.chains
          && is_some p.body.firewall.rules)
        Types.null_arrays
    reject (ltb 50 (length (items p.body.groups))) Types.too_many_groups
    reject (ltb 25 (length (items p.body.firewall.chains))) Types.too_many_chains
    reject (ltb 100 (length (items p.body.firewall.rules))) Types.too_many_rules
    check_allocations net [] [] (items p.allocations)
    check_groups net [] (items p.body.groups)
    validate_resolved_groups net (items p.body.groups) (items p.allocations)
        (items p.resolved_groups)
    validate_firewall (items p.body.groups) p.body.firewall
    validate_bandwidth p.body.bandwidth.upload (pos 0)
    validate_bandwidth p.body.bandwidth.download (pos 0)
    hash ← calculated_hash p
    require (str_eq p.policy_hash hash) Types.hash_mismatch
