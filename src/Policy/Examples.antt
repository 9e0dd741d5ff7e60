-- ===== src/Policy/Examples.antt =====
-- A policy with one group and three rules, an address library to run it with, and the theorems at
-- these inputs.
use Prim.Native.String.{◌++◌ as str_append}
use daemon.Common.{
  ◌≡◌, refl, true, false, ◌&&◌, ◌||◌, none, some, List, [], ◌∷◌, String, str_eq, Result, ok, err,
  arith, All, if◌then◌else◌, ◌==◌,
}
use daemon.Common.Int.{ℤ, pos, ltb_ℤ}
use daemon.Policy.Types
use daemon.Policy.Types.{
  Allocation, ResolvedGroup, Group, Chain, Rule, Policy, Bandwidth, PolicyError, items,
}
use daemon.Policy.Net.{Netip, to_uint16, parse_ip, allocation_key, peer}
use daemon.Policy.Names.{
  is_id_char, id_pattern, is_hash_char, hash_pattern, valid_protocol, valid_action, valid_name,
}
use daemon.Policy.Bandwidth.{valid_rate, validate_bandwidth, cap_rate, effective, required}
use daemon.Policy.Bandwidth.Ceiling.{IsCapped, effective-IsCapped, required_iff}
use daemon.Policy.Order.{chain_rules, ordered_rules}
use daemon.Policy.Order.Complete.{count, is_active, count-ordered_rules}
use daemon.Policy.Select.{
  add_id, has_id, has_allocation_id, select_listed, in_range, select_range, selected_allocations,
}
use daemon.Policy.Static.{
  mem, find_group, same_allocation, check_allocations, check_group, check_groups, match_expected,
  check_resolved_group, check_resolved, validate_resolved_groups, check_chains, check_rule_group,
  check_cidr, check_rule, check_rules, validate_firewall, validate_static,
}
use daemon.Policy.Static.Resolved.{IsOwn, check_resolved_group-exact}
use daemon.Policy.Assigned.{
  Assignment, has_port, is_empty, insert_sorted, sort_ints, own_ports, own_hosts,
  assigned_allocations, check_owned, validate, has_allocation, add_ports, group_ports, ports_of,
}
use daemon.Policy.Assigned.Exact.{names_key, validate-exact}
use daemon.Policy.Assigned.PortUnion.{IsAscending, is_selected, ports_of_lem}

-- Every text but the empty one is an address.
abbrev plain : Netip
plain = record {
  Addr = String;
  addr_eq = str_eq;
  parse_addr = λ s. if str_eq s "" then none else some s;
  zone = λ a. "";
  is_4in6 = λ a. false;
  is_6 = λ a. false;
  addr_string = λ a. a;
  addr_port = λ a n. str_append a (if n == 80 then ":80" else ":other");
  Prefix = String;
  parse_prefix = λ s. none;
  prefix_addr = λ p. p;
  full_prefix = λ a. a;
  masked = λ p. p;
}

program : Unit {0}
unfolding to_uint16 parse_ip allocation_key peer is_id_char id_pattern is_hash_char hash_pattern
    valid_protocol valid_action valid_name valid_rate validate_bandwidth cap_rate effective required
    chain_rules ordered_rules add_id select_listed in_range select_range selected_allocations
    same_allocation check_allocations check_group check_groups match_expected check_resolved_group
    check_resolved validate_resolved_groups check_chains check_rule_group check_cidr check_rule
    check_rules validate_firewall validate_static is_empty insert_sorted sort_ints own_ports
    own_hosts assigned_allocations check_owned validate has_allocation add_ports group_ports
    ports_of
program = tt

abbrev digest : String
digest = "0123456789abcdef0123456789abcdef0123456789abcdef0123456789abcdef"

abbrev web : Allocation
web = record { id = pos 1; ip = "10.0.0.1"; port = pos 80 }

abbrev query : Allocation
query = record { id = pos 2; ip = "10.0.0.1"; port = pos 81 }

abbrev low : Group
low = record {
  id = "low";
  name = "Low ports";
  mode = "range";
  protocol = "tcp";
  allocation_ids = some [];
  port_start = pos 1;
  port_end = pos 80;
  ip = some "10.0.0.1";
}

abbrev low_resolved : ResolvedGroup
low_resolved = record { id = "low"; protocol = "tcp"; allocations = some (web ∷ []) }

abbrev extra : Chain
extra = record { id = "extra"; name = "Extra"; enabled = true }

abbrev open_web : Rule
open_web = record {
  id = "open-web";
  name = "Open";
  enabled = true;
  chain_id = none;
  direction = "inbound";
  action = "allow";
  protocol = "both";
  group_id = some "low";
  cidr = none;
}

abbrev block : Rule
block = record open_web {
  id = "block";
  chain_id = some "extra";
  action = "drop";
  group_id = none;
  cidr = some "192.0.2.1";
}

abbrev unused : Rule
unused = record open_web { id = "unused"; enabled = false }

abbrev sample : Policy
sample = record {
  api_version = pos 1;
  revision = 7;
  policy_hash = digest;
  allocations = some (web ∷ query ∷ []);
  resolved_groups = some (low_resolved ∷ []);
  body = record {
    groups = some (low ∷ []);
    firewall = record {
      enabled = true;
      default_inbound = "drop";
      default_outbound = "allow";
      chains = some (extra ∷ []);
      rules = some (open_web ∷ unused ∷ block ∷ []);
    };
    bandwidth = record { upload = pos 0; download = pos 5000 };
  };
}

abbrev ceiling : Bandwidth
ceiling = record { upload = pos 1000; download = pos 9000 }

abbrev assigned : Assignment
assigned = ("10.0.0.1", pos 81 ∷ pos 80 ∷ []) ∷ []

abbrev hash_of : Policy → Result PolicyError String
hash_of p = ok digest

accepted : validate plain hash_of sample assigned ceiling ≡ ok tt
unfolding program
accepted = refl

-- One more assigned port, and the policy is out of date.
refused :
    validate plain hash_of sample (("10.0.0.2", pos 80 ∷ []) ∷ assigned) ceiling
    ≡ err Types.allocations_differ
unfolding program
refused = refl

in_order : ordered_rules sample ≡ block ∷ open_web ∷ []
unfolding program
in_order = refl

upload_capped : (effective sample ceiling).upload ≡ pos 1000
unfolding program
upload_capped = refl

ports : ports_of plain sample ("low" ∷ []) "tcp" assigned ≡ pos 80 ∷ []
unfolding program
ports = refl

effective-IsCapped_example :
    IsCapped (pos 0) (pos 1000) (effective sample ceiling).upload
    × IsCapped (pos 5000) (pos 9000) (effective sample ceiling).download
effective-IsCapped_example =
    effective-IsCapped sample ceiling (omega arith) (omega arith) (omega arith) (omega arith)

required_iff_example : required sample ceiling ≡ (
    true
    || ltb_ℤ (pos 0) (effective sample ceiling).upload
    || ltb_ℤ (pos 0) (effective sample ceiling).download)
required_iff_example = required_iff sample ceiling (omega arith) (omega arith)

count-ordered_rules_example :
    count (λ r. str_eq r.action "drop") (ordered_rules sample)
    ≡ count
        (λ r. is_active (extra ∷ []) r && str_eq r.action "drop")
        (open_web ∷ unused ∷ block ∷ [])
count-ordered_rules_example = count-ordered_rules (λ r. str_eq r.action "drop") sample (refl, tt)

not_empty : is_empty sample ≡ false
unfolding program
not_empty = refl

validate-exact_example :
    (owned : List String) × (assigned_allocations plain assigned ≡ ok owned)
    × ((key : String) → mem key owned ≡ names_key plain key (web ∷ query ∷ []))
validate-exact_example = validate-exact plain hash_of sample assigned ceiling not_empty accepted

ports_of_lem_example :
    IsAscending (ports_of plain sample ("low" ∷ []) "tcp" assigned)
    × ((port : ℤ)
        → has_port port (ports_of plain sample ("low" ∷ []) "tcp" assigned)
          ≡ is_selected plain ("low" ∷ []) "tcp" assigned port (low_resolved ∷ []))
ports_of_lem_example = ports_of_lem plain ("low" ∷ []) "tcp" assigned sample

low_accepted : check_resolved_group plain (low ∷ []) (web ∷ query ∷ []) [] low_resolved ≡ ok tt
unfolding program
low_accepted = refl

check_resolved_group-exact_example :
    (g : Group) × (expected : List ℤ) × (find_group "low" (low ∷ []) ≡ some g)
    × (str_eq "tcp" g.protocol ≡ true)
    × (selected_allocations plain g (web ∷ query ∷ []) ≡ ok expected)
    × ((x : ℤ) → has_allocation_id x (web ∷ []) ≡ has_id x expected)
    × All (IsOwn plain (web ∷ query ∷ [])) (web ∷ [])
check_resolved_group-exact_example =
    check_resolved_group-exact plain (web ∷ query ∷ []) (low ∷ []) [] low_resolved low_accepted
