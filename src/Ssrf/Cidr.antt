-- ===== src/Ssrf/Cidr.antt =====
-- src/ssrf.rs: CIDR entries in text, and the address check of a provider request.
-- `IpAddr::from_str` is the parameter `parse_ip`: no statement depends on which texts it accepts.
use mathlib.Core.Option
use ait.Base.{
  ℕ, ◌+◌, ◌-◌, ◌*◌, Bool, true, false, not, ◌&&◌, Option, none, some, List, [], ◌∷◌, Text, any, leb,
  ◌==◌, if◌then◌else◌,
}
use ait.Ssrf.Addr.{IpAddr, v4, v6, normalize_ip, is_blocked_ip, ip_in_prefix}

-- `str::split_once` at one character.
unfoldable pub split_once : ℕ → Text → Option (Text × Text)
split_once sep [] = none
split_once sep (c ∷ s) =
    let rest = Option.map (λ (p : Text × Text). (c ∷ p.0, p.1)) (split_once sep s) in
    if c == sep then some ([], s) else rest

-- The digit loop of `u8::from_str`: a character that is no digit and a value over 255 are errors.
unfoldable pub u8_digits : ℕ → Text → Option ℕ
u8_digits acc [] = some acc
u8_digits acc (c ∷ s) =
    let rest = u8_digits (acc * 10 + (c - 48)) s in
    if leb 48 c && leb c 57 && leb (acc * 10 + (c - 48)) 255 then rest else none

-- `str::parse::<u8>`: one leading plus sign is accepted, the empty text is not.
unfoldable pub parse_u8 : Text → Option ℕ
unfolding u8_digits
parse_u8 [] = none
parse_u8 (c ∷ []) = u8_digits 0 (c ∷ [])
parse_u8 (c ∷ d ∷ s) = if c == b'+' then u8_digits 0 (d ∷ s) else u8_digits 0 (c ∷ d ∷ s)

-- The longest prefix of the address's own family.
unfoldable pub family_max : IpAddr → ℕ
family_max (v4 _) = 32
family_max (v6 _) = 128

module _ (parse_ip : Text → Option IpAddr) where
  -- The address and the prefix length that an entry stands for; `none` is an early `return false`.
  unfoldable pub cidr_of : Text → Option Text → Option (IpAddr × ℕ)
  unfolding family_max parse_u8
  cidr_of addr_str prefix_len = elim (parse_ip addr_str) [
    | none ↦ none
    | some cidr_addr ↦ elim prefix_len [
      | none ↦ some (cidr_addr, family_max cidr_addr)
      | some p ↦ elim (parse_u8 p) [
        | none ↦ none
        | some len ↦ if leb len (family_max cidr_addr) then some (cidr_addr, len) else none
      ]
    ]
  ]

  unfoldable pub split_cidr : Text → Text × Option Text
  unfolding split_once
  split_cidr cidr_str = elim (split_once b'/' cidr_str) [
    | some (a, p) ↦ (a, some p)
    | none ↦ (cidr_str, none)
  ]

  unfoldable pub ip_in_cidr : IpAddr → Text → Bool
  unfolding cidr_of split_cidr
  ip_in_cidr ip cidr_str = elim (cidr_of (split_cidr cidr_str).0 (split_cidr cidr_str).1) [
    | none ↦ false
    | some (cidr_addr, len) ↦ ip_in_prefix ip cidr_addr len
  ]

  -- The loop over `allowed_cidrs` returns true at the first entry that matches.
  unfoldable pub is_allowed : IpAddr → List Text → Bool
  unfolding ip_in_cidr
  is_allowed ip allowed_cidrs =
      if any (ip_in_cidr (normalize_ip ip)) allowed_cidrs
      then true
      else not (is_blocked_ip (normalize_ip ip))
