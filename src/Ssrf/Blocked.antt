-- ===== src/Ssrf/Blocked.antt =====
-- src/ssrf.rs: the block list as a list of networks, and the IPv6 forms that embed an IPv4 address.
use ait.Base.{
  ℕ, ◌+◌, ◌*◌, ◌/◌, ◌%◌, ◌<◌, bit_and, ◌≡◌, refl, sym, ◌∙◌, ap, false, not, Option, List, [], ◌∷◌,
  Text, arith, any, ◌==◌, leb, ◌&&◌, ◌||◌, Bool-cases, inl, inr, ◌⊎◌,
}
use ait.Base.Bits.{bit_and_low_mask, bit_and_high_mask}
use ait.Ssrf.Addr.{
  Ipv4Addr, Ipv6Addr, IpAddr, v4, v6, IsV4, IsV6, IsIp, ipv4, ipv6, u32_from, u128_from, has_ipv4,
  is_nat64, normalize_v6, normalize_ip, is_blocked_v4, is_blocked_v6, is_blocked_ip, ipv4_in_prefix,
  ipv6_in_prefix, ip_in_prefix,
}
use ait.Ssrf.Cidr.{is_allowed}
use ait.Ssrf.Prefix.{ipv4_in_prefix-eq, ipv6_in_prefix-eq}

-- The networks that the comments and arms of the source name.
abbrev pub blocked_v4 : List (Ipv4Addr × ℕ)
blocked_v4 =
    (ipv4 0 0 0 0, 8)
    ∷ (ipv4 10 0 0 0, 8)
    ∷ (ipv4 127 0 0 0, 8)
    ∷ (ipv4 169 254 0 0, 16)
    ∷ (ipv4 172 16 0 0, 12)
    ∷ (ipv4 192 168 0 0, 16)
    ∷ (ipv4 100 64 0 0, 10)
    ∷ (ipv4 198 18 0 0, 16)
    ∷ []

ipv4-IsV4 : (a b : ℕ) → a < 256 → b < 256 → IsV4 (ipv4 a b 0 0)
ipv4-IsV4 a b ha hb = record { a = ha; b = hb; c = omega arith; d = omega arith }

module _ (ip : Ipv4Addr) (h : IsV4 ip) where
  net_8 : (a : ℕ) → a < 256 → ipv4_in_prefix ip (ipv4 a 0 0 0) 8 ≡ (ip.a == a)
  unfolding u32_from
  net_8 a ha =
      ipv4_in_prefix-eq ip (ipv4 a 0 0 0) 8 h (ipv4-IsV4 a 0 ha (omega arith)) (omega arith)
      ∙ ground arith

  net_16 :
      (a b : ℕ) → a < 256 → b < 256 → ipv4_in_prefix ip (ipv4 a b 0 0) 16 ≡ (ip.a == a && ip.b == b)
  unfolding u32_from
  net_16 a b ha hb =
      ipv4_in_prefix-eq ip (ipv4 a b 0 0) 16 h (ipv4-IsV4 a b ha hb) (omega arith) ∙ ground arith

  net_172 : ipv4_in_prefix ip (ipv4 172 16 0 0) 12 ≡ (ip.a == 172 && (leb 16 ip.b && leb ip.b 31))
  unfolding u32_from
  net_172 = ipv4_in_prefix-eq ip (ipv4 172 16 0 0) 12 h (omega arith) (omega arith) ∙ ground arith

  net_100 : ipv4_in_prefix ip (ipv4 100 64 0 0) 10 ≡ (ip.a == 100 && (leb 64 ip.b && leb ip.b 127))
  unfolding u32_from
  net_100 = ipv4_in_prefix-eq ip (ipv4 100 64 0 0) 10 h (omega arith) (omega arith) ∙ ground arith

  -- The octet table blocks exactly the addresses of these networks.
  pub is_blocked_v4-eq : is_blocked_v4 ip ≡ any (λ n. ipv4_in_prefix ip n.0 n.1) blocked_v4
  unfolding is_blocked_v4
  is_blocked_v4-eq =
      rw
        (
          net_8 0 (omega arith),
          net_8 10 (omega arith),
          net_8 127 (omega arith),
          net_16 169 254 (omega arith) (omega arith),
          net_172,
          net_16 192 168 (omega arith) (omega arith),
          net_100,
          net_16 198 18 (omega arith) (omega arith),
        )
        (ground arith)

abbrev unique_local : Ipv6Addr
unique_local = ipv6 0xfc00 0 0 0 0 0 0 0

abbrev link_local : Ipv6Addr
link_local = ipv6 0xfe80 0 0 0 0 0 0 0

module _ (ip : Ipv6Addr) (h : IsV6 ip) where
  net_7 : ipv6_in_prefix ip unique_local 7 ≡ (ip.s0 / 512 == 126)
  unfolding u128_from
  net_7 = ipv6_in_prefix-eq ip unique_local 7 h (omega arith) (omega arith) ∙ ground arith

  net_10 : ipv6_in_prefix ip link_local 10 ≡ (ip.s0 / 64 == 1018)
  unfolding u128_from
  net_10 = ipv6_in_prefix-eq ip link_local 10 h (omega arith) (omega arith) ∙ ground arith

  -- The two masks on the first segment are the networks fc00::/7 and fe80::/10.
  pub is_blocked_v6-eq :
      is_blocked_v6 ip ≡ (ipv6_in_prefix ip unique_local 7 || ipv6_in_prefix ip link_local 10)
  unfolding is_blocked_v6
  is_blocked_v6-eq =
      rw (net_7, net_10)
        (ground (arith, bit_and_high_mask 7 9 ip.s0 h.s0, bit_and_high_mask 10 6 ip.s0 h.s0))

-- Every network that is blocked, of both families.
abbrev pub blocked_networks : List (IpAddr × ℕ)
blocked_networks =
    (v4 (ipv4 0 0 0 0), 8)
    ∷ (v4 (ipv4 10 0 0 0), 8)
    ∷ (v4 (ipv4 127 0 0 0), 8)
    ∷ (v4 (ipv4 169 254 0 0), 16)
    ∷ (v4 (ipv4 172 16 0 0), 12)
    ∷ (v4 (ipv4 192 168 0 0), 16)
    ∷ (v4 (ipv4 100 64 0 0), 10)
    ∷ (v4 (ipv4 198 18 0 0), 16)
    ∷ (v6 unique_local, 7)
    ∷ (v6 link_local, 10)
    ∷ []

-- The IPv6 notations under which an IPv4 address is reached.
pub data Form : Type 0 where
  mapped compatible nat64 : Form

abbrev pub embed : Form → Ipv4Addr → Ipv6Addr
embed mapped ip = ipv6 0 0 0 0 0 0xffff (ip.a * 256 + ip.b) (ip.c * 256 + ip.d)
embed compatible ip = ipv6 0 0 0 0 0 0 (ip.a * 256 + ip.b) (ip.c * 256 + ip.d)
embed nat64 ip = ipv6 0x64 0xff9b 0 0 0 0 (ip.a * 256 + ip.b) (ip.c * 256 + ip.d)

normalize-v4 : (ip : Ipv4Addr) → normalize_ip (v4 ip) ≡ v4 ip
unfolding normalize_ip
normalize-v4 ip = refl

normalize-embed : (f : Form) (ip : Ipv4Addr) → IsV4 ip → normalize_ip (v6 (embed f ip)) ≡ v4 ip
unfolding normalize_ip
normalize-embed mapped ip h = ground arith
normalize-embed compatible ip h = ground arith
normalize-embed nat64 ip h =
    ground (arith, bit_and_low_mask 8 (ip.a * 256 + ip.b), bit_and_low_mask 8 (ip.c * 256 + ip.d))

abbrev embedded : Ipv6Addr → Ipv4Addr
embedded ip = ipv4 (ip.s6 / 256) (ip.s6 % 256) (ip.s7 / 256) (ip.s7 % 256)

abbrev translated : Ipv6Addr → Ipv4Addr
translated ip =
    ipv4 (ip.s6 / 256 % 256) (bit_and ip.s6 0xff % 256) (ip.s7 / 256 % 256)
      (bit_and ip.s7 0xff % 256)

-- What `normalize_ip` returns: an IPv4 address, or an IPv6 address that embeds none.
normalize_v6-cases :
    (ip : Ipv6Addr)
    → IsV6 ip
    → ((found : Ipv4Addr) × (normalize_v6 ip ≡ v4 found) × IsV4 found)
      ⊎ ((normalize_v6 ip ≡ v6 ip) × (has_ipv4 ip ≡ false) × (is_nat64 ip ≡ false))
unfolding normalize_v6
normalize_v6-cases ip h = elim (Bool-cases (has_ipv4 ip)) [
  | inl yes_v4 ↦ inl (embedded ip, ground arith, omega arith)
  | inr no_v4 ↦ elim (Bool-cases (is_nat64 ip)) [
    | inl yes_64 ↦ inl (translated ip, ground arith, omega arith)
    | inr no_64 ↦ inr (ground arith, no_v4, no_64)
  ]
]

-- A canonical address is compared with each network in the network's own family.
v4-networks :
    (ip : Ipv4Addr)
    → any (λ n. ip_in_prefix (v4 ip) n.0 n.1) blocked_networks
      ≡ any (λ n. ipv4_in_prefix ip n.0 n.1) blocked_v4
unfolding ip_in_prefix normalize_ip
v4-networks ip = ground arith

v6-networks :
    (ip : Ipv6Addr)
    → normalize_ip (v6 ip) ≡ v6 ip
    → any (λ n. ip_in_prefix (v6 ip) n.0 n.1) blocked_networks
      ≡ (ipv6_in_prefix ip unique_local 7 || ipv6_in_prefix ip link_local 10)
unfolding ip_in_prefix
v6-networks ip e = rw e (simp normalize-v4 (ground arith))

is_blocked_ip-v4 :
    (ip : Ipv4Addr)
    → IsV4 ip
    → is_blocked_ip (v4 ip) ≡ any (λ n. ip_in_prefix (v4 ip) n.0 n.1) blocked_networks
unfolding is_blocked_ip
is_blocked_ip-v4 ip h = is_blocked_v4-eq ip h ∙ sym (v4-networks ip)

is_blocked_ip-v6 :
    (ip : Ipv6Addr)
    → IsV6 ip
    → normalize_ip (v6 ip) ≡ v6 ip
    → is_blocked_ip (v6 ip) ≡ any (λ n. ip_in_prefix (v6 ip) n.0 n.1) blocked_networks
unfolding is_blocked_ip
is_blocked_ip-v6 ip h e = is_blocked_v6-eq ip h ∙ sym (v6-networks ip e)

is_blocked-normalize :
    (ip : IpAddr)
    → IsIp ip
    → is_blocked_ip (normalize_ip ip)
      ≡ any (λ n. ip_in_prefix (normalize_ip ip) n.0 n.1) blocked_networks
unfolding normalize_ip
is_blocked-normalize (v4 ip) h = is_blocked_ip-v4 ip h
is_blocked-normalize (v6 ip) h = elim (normalize_v6-cases ip h) [
  | inl (found, e, ok) ↦ rw e (is_blocked_ip-v4 found ok)
  | inr (e, _, _) ↦ rw e (is_blocked_ip-v6 ip h e)
]

module _ (parse_ip : Text → Option IpAddr) where
  -- With an empty allow list, an address is allowed exactly when its canonical form lies in none
  -- of the blocked networks.
  pub is_allowed-eq :
      (ip : IpAddr)
      → IsIp ip
      → is_allowed parse_ip ip []
        ≡ not (any (λ n. ip_in_prefix (normalize_ip ip) n.0 n.1) blocked_networks)
  unfolding is_allowed
  is_allowed-eq ip h = ap not (is_blocked-normalize ip h)

  -- An IPv6 address that embeds an IPv4 address, in any of the three notations, is allowed exactly
  -- when that IPv4 address is, whatever the allow list.
  pub is_allowed-embed :
      (f : Form) (ip : Ipv4Addr) (allowed_cidrs : List Text)
      → IsV4 ip
      → is_allowed parse_ip (v6 (embed f ip)) allowed_cidrs
        ≡ is_allowed parse_ip (v4 ip) allowed_cidrs
  unfolding is_allowed
  is_allowed-embed f ip allowed_cidrs h = rw (normalize-embed f ip h, normalize-v4)
