-- ===== src/Policy/Assigned.antt =====
-- The server's assigned allocations in internal/networkpolicy/policy.go: `Validate`,
-- `assignedAllocations`, `hasAllocation` and `Ports`. The map of the assignment is a list of hosts
-- with their ports, in the order that `range` meets them.
pub mod Exact
pub mod PortUnion
use daemon.Common.{
  ℕ, Bool, true, false, ◌&&◌, ◌||◌, not, Option, none, some, List, [], ◌∷◌, ◌++◌, any, length,
  String, str_eq, ◌==◌, if◌then◌else◌, Result, ok, err, ◌>>=◌, ◌>>◌, require, reject, is_some,
}
use daemon.Common.Int.{ℤ, pos, ltb_ℤ, leb_ℤ, eqb_ℤ}
use daemon.Policy.Types
use daemon.Policy.Types.{Allocation, ResolvedGroup, Policy, Bandwidth, PolicyError, items}
use daemon.Policy.Bandwidth.{validate_bandwidth}
use daemon.Policy.Net.{Netip, allocation_key}
use daemon.Policy.Select.{add_id}
use daemon.Policy.Static.{mem, validate_static}

abbrev pub Assignment : Type 0
Assignment = List (String × List ℤ)

-- `reflect.DeepEqual(p, Policy{})`.
unfoldable pub is_empty : Policy → Bool
is_empty p =
    eqb_ℤ p.api_version (pos 0)
    && p.revision == 0
    && str_eq p.policy_hash ""
    && not (is_some p.allocations)
    && not (is_some p.resolved_groups)
    && not (is_some p.body.groups)
    && not p.body.firewall.enabled
    && str_eq p.body.firewall.default_inbound ""
    && str_eq p.body.firewall.default_outbound ""
    && not (is_some p.body.firewall.chains)
    && not (is_some p.body.firewall.rules)
    && eqb_ℤ p.body.bandwidth.upload (pos 0)
    && eqb_ℤ p.body.bandwidth.download (pos 0)

-- `slices.Contains` on ports.
abbrev pub has_port : ℤ → List ℤ → Bool
has_port port = any (eqb_ℤ port)

-- `sort.Ints`.
unfoldable pub insert_sorted : ℤ → List ℤ → List ℤ
insert_sorted port [] = port ∷ []
insert_sorted port (q ∷ qs) = if ltb_ℤ q port then q ∷ insert_sorted port qs else port ∷ q ∷ qs

unfoldable pub sort_ints : List ℤ → List ℤ
unfolding insert_sorted
sort_ints [] = []
sort_ints (p ∷ ps) = insert_sorted p (sort_ints ps)

-- Whether `Ports` goes into a group.
abbrev pub wants_group : List String → String → ResolvedGroup → Bool
wants_group names proto g = mem g.id names && (str_eq g.protocol "both" || str_eq g.protocol proto)

-- An address of the assignment that does not parse has an error of its own.
abbrev pub key_of : Result PolicyError String → Result PolicyError String
key_of (ok key) = ok key
key_of (err e) = err Types.assigned_ip

module _ (net : Netip) where
  -- The inner loop of `assignedAllocations`: the keys owned so far and those of a host's ports.
  unfoldable pub own_ports : String → List String → List ℤ → Result PolicyError (List String)
  own_ports host owned [] = ok owned
  own_ports host owned (port ∷ rest) = do
    reject (ltb_ℤ port (pos 1) || ltb_ℤ (pos 65535) port) Types.assigned_port
    key ← key_of (allocation_key net host port)
    reject (mem key owned) Types.assigned_twice
    own_ports host (key ∷ owned) rest

  unfoldable pub own_hosts : List String → Assignment → Result PolicyError (List String)
  own_hosts owned [] = ok owned
  own_hosts owned ((host, ports) ∷ rest) = do
    owned' ← own_ports host owned ports
    own_hosts owned' rest

  unfoldable pub assigned_allocations : Assignment → Result PolicyError (List String)
  assigned_allocations assigned = own_hosts [] assigned

  -- The last loop of `Validate`.
  unfoldable pub check_owned : List String → List Allocation → Result PolicyError (Unit {0})
  check_owned owned [] = ok tt
  check_owned owned (a ∷ rest) = do
    key ← allocation_key net a.ip a.port
    require (mem key owned) Types.not_assigned
    check_owned owned rest

  unfoldable pub validate :
      (Policy → Result PolicyError String)
      → Policy
      → Assignment
      → Bandwidth
      → Result PolicyError (Unit {0})
  validate calculated_hash p assigned ceiling =
      if is_empty p
      then (do
        validate_bandwidth (pos 0) ceiling.upload
        validate_bandwidth (pos 0) ceiling.download)
      else (do
        validate_static net calculated_hash p
        validate_bandwidth p.body.bandwidth.upload ceiling.upload
        validate_bandwidth p.body.bandwidth.download ceiling.download
        owned ← assigned_allocations assigned
        require (length owned == length (items p.allocations)) Types.allocations_differ
        check_owned owned (items p.allocations))

  -- The loop of `hasAllocation` for the wanted key.
  host_has : String → ℤ → Assignment → Bool
  host_has wanted port [] = false
  host_has wanted port ((host, ports) ∷ rest) =
      (has_port port ports
        && elim (allocation_key net host port) [ ok key ↦ str_eq key wanted | err e ↦ false ])
      || host_has wanted port rest

  unfoldable pub has_allocation : Assignment → Allocation → Bool
  unfolding host_has
  has_allocation assigned a = elim (allocation_key net a.ip a.port) [
    | err e ↦ false
    | ok wanted ↦ host_has wanted a.port assigned
  ]

  -- The inner loop of `Ports`; `ports[port] = true` on the list of the keys.
  unfoldable pub add_ports : Assignment → List ℤ → List Allocation → List ℤ
  unfolding add_id
  add_ports assigned ports [] = ports
  add_ports assigned ports (a ∷ rest) =
      add_ports assigned (if has_allocation assigned a then add_id a.port ports else ports) rest

  unfoldable pub group_ports :
      List String → String → Assignment → List ℤ → List ResolvedGroup → List ℤ
  group_ports names proto assigned ports [] = ports
  group_ports names proto assigned ports (g ∷ rest) =
      group_ports names proto assigned
        (if wants_group names proto g
          then add_ports assigned ports (items g.allocations)
          else ports)
        rest

  unfoldable pub ports_of : Policy → List String → String → Assignment → List ℤ
  ports_of p names proto assigned =
      sort_ints (group_ports names proto assigned [] (items p.resolved_groups))
