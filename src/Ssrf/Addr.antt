-- ===== src/Ssrf/Addr.antt =====
-- src/ssrf.rs: IP addresses, their canonical form, the block list and prefix matching.
-- The types are those of `std::net`: an IPv4 address by its octets, an IPv6 address by its
-- segments, with the conversions that the source calls.
use ait.Base.{
  ℕ, ◌+◌, ◌-◌, ◌*◌, ◌/◌, ◌%◌, ◌^◌, ◌<◌, min, bit_and, Bool, true, false, ◌&&◌, ◌||◌, Option, none,
  some, leb, ◌==◌, if◌then◌else◌,
}

pub record Ipv4Addr : Type 0 where
  pub a : ℕ
  pub b : ℕ
  pub c : ℕ
  pub d : ℕ

pub record Ipv6Addr : Type 0 where
  pub s0 : ℕ
  pub s1 : ℕ
  pub s2 : ℕ
  pub s3 : ℕ
  pub s4 : ℕ
  pub s5 : ℕ
  pub s6 : ℕ
  pub s7 : ℕ

pub data IpAddr : Type 0 where
  v4 : Ipv4Addr → IpAddr
  v6 : Ipv6Addr → IpAddr

-- Octets are `u8`, segments are `u16`.
pub record IsV4 (ip : Ipv4Addr) : Type 0 where
  pub a : ip.a < 256
  pub b : ip.b < 256
  pub c : ip.c < 256
  pub d : ip.d < 256

pub record IsV6 (ip : Ipv6Addr) : Type 0 where
  pub s0 : ip.s0 < 65536
  pub s1 : ip.s1 < 65536
  pub s2 : ip.s2 < 65536
  pub s3 : ip.s3 < 65536
  pub s4 : ip.s4 < 65536
  pub s5 : ip.s5 < 65536
  pub s6 : ip.s6 < 65536
  pub s7 : ip.s7 < 65536

abbrev pub IsIp : IpAddr → Type 0
IsIp (v4 ip) = IsV4 ip
IsIp (v6 ip) = IsV6 ip

abbrev pub ipv4 : ℕ → ℕ → ℕ → ℕ → Ipv4Addr
ipv4 a b c d = record { a = a; b = b; c = c; d = d }

abbrev pub ipv6 : ℕ → ℕ → ℕ → ℕ → ℕ → ℕ → ℕ → ℕ → Ipv6Addr
ipv6 s0 s1 s2 s3 s4 s5 s6 s7 = record {
  s0 = s0;
  s1 = s1;
  s2 = s2;
  s3 = s3;
  s4 = s4;
  s5 = s5;
  s6 = s6;
  s7 = s7;
}

-- `u32::from` and `u128::from`.
unfoldable pub u32_from : Ipv4Addr → ℕ
u32_from ip = ip.a * 2 ^ 24 + ip.b * 2 ^ 16 + ip.c * 2 ^ 8 + ip.d

unfoldable pub u128_from : Ipv6Addr → ℕ
u128_from ip =
    ip.s0 * 2 ^ 112
    + ip.s1 * 2 ^ 96
    + ip.s2 * 2 ^ 80
    + ip.s3 * 2 ^ 64
    + ip.s4 * 2 ^ 48
    + ip.s5 * 2 ^ 32
    + ip.s6 * 2 ^ 16
    + ip.s7

-- `Ipv6Addr::to_ipv4`: `::ffff:a.b.c.d` and `::a.b.c.d`.
unfoldable pub has_ipv4 : Ipv6Addr → Bool
has_ipv4 ip =
    ip.s0 == 0
    && ip.s1 == 0
    && ip.s2 == 0
    && ip.s3 == 0
    && ip.s4 == 0
    && (ip.s5 == 0 || ip.s5 == 0xffff)

unfoldable pub to_ipv4 : Ipv6Addr → Option Ipv4Addr
to_ipv4 ip =
    if has_ipv4 ip
    then some (ipv4 (ip.s6 / 2 ^ 8) (ip.s6 % 2 ^ 8) (ip.s7 / 2 ^ 8) (ip.s7 % 2 ^ 8))
    else none

-- The test for `64:ff9b::/96`, as the source writes it.
unfoldable pub is_nat64 : Ipv6Addr → Bool
is_nat64 ip = ip.s0 == 0x64 && ip.s1 == 0xff9b && ip.s2 == 0 && ip.s3 == 0

unfoldable pub normalize_v6 : Ipv6Addr → IpAddr
unfolding to_ipv4
normalize_v6 ip = elim (to_ipv4 ip) [
  | some found ↦ v4 found
  | none ↦
      if is_nat64 ip
      then v4 (
          ipv4 (ip.s6 / 2 ^ 8 % 2 ^ 8) (bit_and ip.s6 0xff % 2 ^ 8) (ip.s7 / 2 ^ 8 % 2 ^ 8)
            (bit_and ip.s7 0xff % 2 ^ 8))
      else v6 ip
]

unfoldable pub normalize_ip : IpAddr → IpAddr
unfolding normalize_v6 has_ipv4 is_nat64
normalize_ip (v4 ip) = v4 ip
normalize_ip (v6 ip) = normalize_v6 ip

-- The arms of the match on the first octet, in order; an arm with a guard that fails falls through.
unfoldable pub is_blocked_v4 : Ipv4Addr → Bool
is_blocked_v4 ip =
    if ip.a == 0
    then true
    else if ip.a == 10
    then true
    else if ip.a == 127
    then true
    else if ip.a == 169 && ip.b == 254
    then true
    else if ip.a == 172 && (leb 16 ip.b && leb ip.b 31)
    then true
    else if ip.a == 192 && ip.b == 168
    then true
    else if ip.a == 100 && (leb 64 ip.b && leb ip.b 127)
    then true
    else if ip.a == 198 && ip.b == 18
    then true
    else false

unfoldable pub is_blocked_v6 : Ipv6Addr → Bool
is_blocked_v6 ip =
    if bit_and ip.s0 0xfe00 == 0xfc00
    then true
    else if bit_and ip.s0 0xffc0 == 0xfe80
    then true
    else false

unfoldable pub is_blocked_ip : IpAddr → Bool
unfolding is_blocked_v4 is_blocked_v6
is_blocked_ip (v4 ip) = is_blocked_v4 ip
is_blocked_ip (v6 ip) = is_blocked_v6 ip

-- `!0 << (width - len)` on a word of `width` bits.
abbrev pub mask : ℕ → ℕ → ℕ
mask width len = ((2 ^ width - 1) * 2 ^ (width - len)) % 2 ^ width

unfoldable pub ipv4_in_prefix : Ipv4Addr → Ipv4Addr → ℕ → Bool
ipv4_in_prefix ip prefix len =
    if len == 0
    then true
    else bit_and (u32_from ip) (mask 32 len) == bit_and (u32_from prefix) (mask 32 len)

unfoldable pub ipv6_in_prefix : Ipv6Addr → Ipv6Addr → ℕ → Bool
ipv6_in_prefix ip prefix len =
    if len == 0
    then true
    else bit_and (u128_from ip) (mask 128 len) == bit_and (u128_from prefix) (mask 128 len)

-- The inner match of `ip_in_prefix`, on canonical addresses.
unfoldable pub same_family_in_prefix : IpAddr → IpAddr → ℕ → Bool
same_family_in_prefix (v4 ip) (v4 prefix) len = ipv4_in_prefix ip prefix (min len 32)
same_family_in_prefix (v6 ip) (v6 prefix) len = ipv6_in_prefix ip prefix (min len 128)
same_family_in_prefix _ _ len = false

unfoldable pub ip_in_prefix : IpAddr → IpAddr → ℕ → Bool
unfolding same_family_in_prefix
ip_in_prefix (v4 ip) (v4 prefix) len = ipv4_in_prefix ip prefix (min len 32)
ip_in_prefix (v6 ip) (v6 prefix) len = ipv6_in_prefix ip prefix (min len 128)
ip_in_prefix (v4 ip) (v6 prefix) len =
    same_family_in_prefix (normalize_ip (v4 ip)) (normalize_ip (v6 prefix)) len
ip_in_prefix (v6 ip) (v4 prefix) len =
    same_family_in_prefix (normalize_ip (v6 ip)) (normalize_ip (v4 prefix)) len
