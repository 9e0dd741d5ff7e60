-- ===== src/Policy/Types.antt =====
-- The documents of internal/networkpolicy/policy.go. A slice that JSON may leave nil is an `Option`,
-- a pointer too; numbers of type int and int64 are integers.
use daemon.Common.{ℕ, Bool, Option, none, some, List, [], String}
use daemon.Common.Int.{ℤ}

pub record Allocation : Type 0 where
  pub id : ℤ
  pub ip : String
  pub port : ℤ

pub record ResolvedGroup : Type 0 where
  pub id : String
  pub protocol : String
  pub allocations : Option (List Allocation)

pub record Group : Type 0 where
  pub id : String
  pub name : String
  pub mode : String
  pub protocol : String
  pub allocation_ids : Option (List ℤ)
  pub port_start : ℤ
  pub port_end : ℤ
  pub ip : Option String

pub record Chain : Type 0 where
  pub id : String
  pub name : String
  pub enabled : Bool

pub record Rule : Type 0 where
  pub id : String
  pub name : String
  pub enabled : Bool
  pub chain_id : Option String
  pub direction : String
  pub action : String
  pub protocol : String
  pub group_id : Option String
  pub cidr : Option String

pub record Firewall : Type 0 where
  pub enabled : Bool
  pub default_inbound : String
  pub default_outbound : String
  pub chains : Option (List Chain)
  pub rules : Option (List Rule)

-- Bits per second.
pub record Bandwidth : Type 0 where
  pub upload : ℤ
  pub download : ℤ

pub record Rules : Type 0 where
  pub groups : Option (List Group)
  pub firewall : Firewall
  pub bandwidth : Bandwidth

pub record Policy : Type 0 where
  pub api_version : ℤ
  pub revision : ℕ  -- uint64
  pub policy_hash : String
  pub allocations : Option (List Allocation)
  pub resolved_groups : Option (List ResolvedGroup)
  pub body : Rules

-- What `range` goes over: nothing, if the slice is nil.
abbrev pub items {ℓ} : {A : Type ℓ} → Option (List A) → List A
items none = []
items (some xs) = xs

-- The errors of the package, one for each message.
pub data PolicyError : Type 0 where
  bandwidth_range bandwidth_ceiling bad_address : PolicyError
  bad_api_version bad_revision bad_hash null_arrays : PolicyError
  too_many_groups too_many_chains too_many_rules : PolicyError
  bad_allocation duplicate_allocation ambiguous_allocation : PolicyError
  bad_group_id duplicate_group bad_group_name bad_group_mode bad_group_protocol : PolicyError
  bad_group_allocations bad_group_ports bad_group_ip bad_group_allocation_id : PolicyError
  resolved_count unknown_resolved resolved_protocol resolved_null : PolicyError
  resolved_not_exact resolved_outside resolved_omits : PolicyError
  bad_defaults bad_chain duplicate_chain bad_rule duplicate_rule bad_direction : PolicyError
  bad_rule_action unknown_chain unknown_group protocols_disjoint bad_cidr : PolicyError
  hash_mismatch hash_failed : PolicyError
  assigned_port assigned_ip assigned_twice allocations_differ not_assigned : PolicyError
