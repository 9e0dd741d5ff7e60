-- ===== src/Policy/Net.antt =====
-- What internal/networkpolicy/policy.go uses of the package net/netip, and its functions on
-- addresses.
use daemon.Common.{
  ℕ, ◌-◌, ◌%◌, Bool, ◌||◌, not, Option, none, some, String, str_eq, if◌then◌else◌, Result, ok, err,
  ◌>>=◌,
}
use daemon.Common.Int.{ℤ, pos, negsuc}
use daemon.Policy.Types.{PolicyError, bad_address, bad_cidr}

-- `addr_port a n` is `AddrPortFrom(a, n).String()`, `full_prefix a` is `PrefixFrom(a, a.BitLen())`.
pub record Netip : Type 1 where
  pub Addr : Type 0
  pub addr_eq : Addr → Addr → Bool
  pub parse_addr : String → Option Addr
  pub zone : Addr → String
  pub is_4in6 : Addr → Bool
  pub is_6 : Addr → Bool
  pub addr_string : Addr → String
  pub addr_port : Addr → ℕ → String
  pub Prefix : Type 0
  pub parse_prefix : String → Option Prefix
  pub prefix_addr : Prefix → Addr
  pub full_prefix : Addr → Prefix
  pub masked : Prefix → Prefix

-- The conversion `uint16(n)`.
unfoldable pub to_uint16 : ℤ → ℕ
to_uint16 (pos n) = n % 65536
to_uint16 (negsuc n) = 65535 - n % 65536

module _ (net : Netip) where
  open net use {
    Addr, parse_addr, zone, is_4in6, addr_port, Prefix, parse_prefix, prefix_addr, full_prefix,
    masked,
  }

  unfoldable pub parse_ip : String → Result PolicyError Addr
  parse_ip value = elim (parse_addr value) [
    | none ↦ err bad_address
    | some ip ↦ if not (str_eq (zone ip) "") || is_4in6 ip then err bad_address else ok ip
  ]

  unfoldable pub allocation_key : String → ℤ → Result PolicyError String
  allocation_key value port = do ip ← parse_ip value; ok (addr_port ip (to_uint16 port))

  -- `Peer`, after the address has not parsed.
  parse_peer_prefix : String → Result PolicyError Prefix
  parse_peer_prefix value = elim (parse_prefix value) [
    | none ↦ err bad_cidr
    | some p ↦
        if not (str_eq (zone (prefix_addr p)) "") || is_4in6 (prefix_addr p)
        then err bad_cidr
        else ok (masked p)
  ]

  unfoldable pub peer : String → Result PolicyError Prefix
  unfolding parse_peer_prefix
  peer value = elim (parse_ip value) [
    | ok ip ↦ ok (full_prefix ip)
    | err e ↦ parse_peer_prefix value
  ]
