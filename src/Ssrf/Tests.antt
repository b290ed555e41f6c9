-- ===== src/Ssrf/Tests.antt =====
-- src/ssrf.rs: runs of the checks on concrete addresses.
use ait.Base.{
  ◌≡◌, refl, not, Option, none, some, List, [], ◌∷◌, Text, codes, Result, ok, err, any, arith,
  text_eq, if◌then◌else◌,
}
use ait.Base.Table.{get, insert}
use ait.Error
use ait.Error.{upstream_error, into_response}
use ait.Ssrf.Addr.{
  IpAddr, v4, v6, Ipv4Addr, Ipv6Addr, IsV4, IsV6, ipv4, ipv6, ip_in_prefix, normalize_ip,
  ipv4_in_prefix, ipv6_in_prefix, u32_from, u128_from,
}
use ait.Ssrf.Cidr.{is_allowed}
use ait.Ssrf.Blocked.{is_allowed-eq, is_allowed-embed, blocked_networks, nat64, embed}
use ait.Ssrf.Check.{bare_host, resolve_and_check, check_ssrf}
use ait.Ssrf.CacheLaws.{IsChecked, IsSafeCache, resolve_and_check_sound}

abbrev parse_ip : Text → Option IpAddr
parse_ip s = if text_eq s (codes "8.8.8.8") then some (v4 (ipv4 8 8 8 8)) else none

abbrev metadata : Ipv4Addr
metadata = ipv4 169 254 169 254

abbrev public_dns : Ipv4Addr
public_dns = ipv4 8 8 8 8

metadata-IsV4 : IsV4 metadata
metadata-IsV4 = record { a = omega arith; b = omega arith; c = omega arith; d = omega arith }

public_dns-IsV4 : IsV4 public_dns
public_dns-IsV4 = record { a = omega arith; b = omega arith; c = omega arith; d = omega arith }

abbrev documentation : Ipv6Addr
documentation = ipv6 0x2001 0xdb8 0 0 0 0 0 1

documentation-IsV6 : IsV6 documentation
documentation-IsV6 = record {
  s0 = omega arith;
  s1 = omega arith;
  s2 = omega arith;
  s3 = omega arith;
  s4 = omega arith;
  s5 = omega arith;
  s6 = omega arith;
  s7 = omega arith;
}

is_allowed-eq_example :
    is_allowed parse_ip (v4 metadata) []
    ≡ not (any (λ n. ip_in_prefix (normalize_ip (v4 metadata)) n.0 n.1) blocked_networks)
is_allowed-eq_example = is_allowed-eq parse_ip (v4 metadata) metadata-IsV4

is_allowed-embed_example :
    is_allowed parse_ip (v6 (embed nat64 metadata)) (codes "8.8.8.8" ∷ [])
    ≡ is_allowed parse_ip (v4 metadata) (codes "8.8.8.8" ∷ [])
is_allowed-embed_example =
    is_allowed-embed parse_ip nat64 metadata (codes "8.8.8.8" ∷ []) metadata-IsV4

abbrev to_public : Text → Result (List IpAddr) Text
to_public host = ok (v4 public_dns ∷ [])

abbrev to_metadata : Text → Result (List IpAddr) Text
to_metadata host = ok (v4 metadata ∷ [])

public_run :
    (resolve_and_check parse_ip [] [] 5 6 to_public (some (codes "api"))).0
    ≡ ok (v4 public_dns ∷ [])
unfolding resolve_and_check ait.Ssrf.Cidr.is_allowed ait.Ssrf.Addr.normalize_ip
    ait.Ssrf.Addr.is_blocked_ip ait.Ssrf.Addr.is_blocked_v4 get
public_run = refl

resolve_and_check_sound_example :
    IsChecked parse_ip [] (v4 public_dns ∷ [])
    × ((h : Text) × (some (codes "api") ≡ some h)
        × ((resolve_and_check parse_ip [] [] 5 6 to_public (some (codes "api"))).1
            ≡ insert [] (bare_host h) (v4 public_dns ∷ [], 6)))
resolve_and_check_sound_example =
    resolve_and_check_sound parse_ip [] [] 5 6 to_public (some (codes "api")) (v4 public_dns ∷ [])
      public_run

empty-IsSafeCache : IsSafeCache parse_ip [] []
unfolding get
empty-IsSafeCache = record { checked = λ k ips t e. absurd (ground arith) }

abbrev denied : Error.Response
denied = into_response none (upstream_error 502 (codes "upstream request failed"))

ssrf_run : (check_ssrf parse_ip [] [] 5 6 to_metadata none (some (codes "api"))).0 ≡ err denied
unfolding check_ssrf resolve_and_check ait.Ssrf.Cidr.is_allowed ait.Ssrf.Addr.normalize_ip
    ait.Ssrf.Addr.is_blocked_ip ait.Ssrf.Addr.is_blocked_v4 get
ssrf_run = refl

ssrf_run_no_host : (check_ssrf parse_ip [] [] 5 6 to_public none none).0 ≡ err denied
unfolding check_ssrf resolve_and_check
ssrf_run_no_host = refl
