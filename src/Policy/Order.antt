-- ===== src/Policy/Order.antt =====
-- `OrderedRules` of internal/networkpolicy/policy.go: the rules of the enabled chains in the order
-- of the chains, then those in no chain.
pub mod Complete
use daemon.Common.{
  Bool, true, false, ◌&&◌, Option, none, some, List, [], ◌∷◌, ◌++◌, keep, if◌then◌else◌, String,
  str_eq,
}
use daemon.Policy.Types.{Policy, Chain, Rule, items}

-- The test of the inner loop.
abbrev pub in_chain : String → Rule → Bool
in_chain id rule = elim rule.chain_id [ none ↦ false | some c ↦ rule.enabled && str_eq c id ]

abbrev pub in_no_chain : Rule → Bool
in_no_chain rule = elim rule.chain_id [ none ↦ rule.enabled | some c ↦ false ]

unfoldable pub chain_rules : List Chain → List Rule → List Rule
chain_rules [] rules = []
chain_rules (c ∷ cs) rules =
    (if c.enabled then keep (in_chain c.id) rules else []) ++ chain_rules cs rules

unfoldable pub ordered_rules : Policy → List Rule
unfolding chain_rules
ordered_rules p =
    let rules = items p.body.firewall.rules in
    chain_rules (items p.body.firewall.chains) rules ++ keep in_no_chain rules
