-- ===== src/Config/Proxies.antt =====
-- src/config.rs: `TrustedProxy`. `IpAddr::from_str` is the parameter `parse_ip`.
use ait.Base.{
  ℕ, ◌≡◌, Bool, false, Option, none, some, Text, Result, ok, err, leb, if◌then◌else◌, arith,
}
use ait.Ssrf.Addr.{IpAddr, ip_in_prefix}
use ait.Ssrf.Cidr.{split_once, parse_u8, family_max, ip_in_cidr}

pub data TrustedProxy : Type 0 where
  ip : IpAddr → TrustedProxy
  cidr : IpAddr → ℕ → TrustedProxy

-- The text of each failure; `entry` is quoted in it.
pub data ParseError : Type 0 where
  not_address : Text → ParseError
  prefix_not_number : Text → ParseError
  prefix_too_long : Text → ℕ → ParseError

unfoldable pub contains : TrustedProxy → IpAddr → Bool
unfolding family_max
contains (TrustedProxy.ip addr) peer = ip_in_prefix peer addr (family_max addr)
contains (TrustedProxy.cidr addr len) peer = ip_in_prefix peer addr len

module _ (parse_ip : Text → Option IpAddr) where
  unfoldable pub parse_cidr : Text → Text → Text → Result TrustedProxy ParseError
  unfolding family_max
  parse_cidr entry addr prefix = elim (parse_ip addr) [
    | none ↦ err (not_address entry)
    | some found ↦ elim (parse_u8 prefix) [
      | none ↦ err (prefix_not_number entry)
      | some len ↦
          if leb len (family_max found)
          then ok (TrustedProxy.cidr found len)
          else err (prefix_too_long entry (family_max found))
    ]
  ]

  unfoldable pub parse : Text → Result TrustedProxy ParseError
  unfolding parse_cidr
  parse entry = elim (split_once b'/' entry) [
    | none ↦ elim (parse_ip entry) [
      | none ↦ err (not_address entry)
      | some found ↦ ok (TrustedProxy.ip found)
    ]
    | some (addr, prefix) ↦ parse_cidr entry addr prefix
  ]

  -- What an entry matches is what `ip_in_cidr` matches for the same text.
  pub contains-parse :
      (entry : Text) (proxy : TrustedProxy) (peer : IpAddr)
      → parse entry ≡ ok proxy
      → contains proxy peer ≡ ip_in_cidr parse_ip peer entry
  unfolding parse contains ip_in_cidr
  contains-parse entry proxy peer h = ground arith

  -- An entry that startup refuses would have matched nothing in an allow list.
  pub parse-err :
      (entry : Text) (e : ParseError) (peer : IpAddr)
      → parse entry ≡ err e
      → ip_in_cidr parse_ip peer entry ≡ false
  unfolding parse ip_in_cidr
  parse-err entry e peer h = ground arith
