-- ===== src/Ssrf/Check.antt =====
-- src/ssrf.rs: the pre-request check, its DNS cache, and the errors that callers see.
-- The resolver (`tokio::net::lookup_host`) is the argument `lookup`, its answer to this call. `now`
-- is the clock when the cache is read and `later` when it is written: the lookup lies between.
use ait.Base.{
  ℕ, Option, none, some, List, [], ◌∷◌, Text, codes, Result, ok, err, ltb, ◌==◌, all, if◌then◌else◌,
}
use ait.Base.Table.{Table, get, insert}
use ait.Cache.{Instant, elapsed, cache_ttl}
use ait.Error
use ait.Error.{AitError, bad_request, upstream_error, into_response}
use ait.Ssrf.Addr.{IpAddr}
use ait.Ssrf.Cidr.{is_allowed}

pub data SsrfDeny : Type 0 where
  no_host : SsrfDeny
  dns_failed : Text → SsrfDeny
  blocked : SsrfDeny

abbrev pub DnsCache : Type 0
DnsCache = Table (List IpAddr × Instant)

-- `str::trim_start_matches` and `str::trim_end_matches` at one character.
unfoldable pub trim_start_matches : ℕ → Text → Text
trim_start_matches ch [] = []
trim_start_matches ch (c ∷ s) =
    let rest = trim_start_matches ch s in if c == ch then rest else c ∷ s

unfoldable pub trim_end_matches : ℕ → Text → Text
trim_end_matches ch [] = []
trim_end_matches ch (c ∷ s) = elim (trim_end_matches ch s) [
  | [] ↦ if c == ch then [] else c ∷ []
  | d ∷ rest ↦ c ∷ d ∷ rest
]

-- The form of a host under which the cache and the pinned client know it.
unfoldable pub bare_host : Text → Text
unfolding trim_start_matches trim_end_matches
bare_host host = trim_end_matches b']' (trim_start_matches b'[' host)

unfoldable pub resolve_with_cache :
    DnsCache → Instant → (Text → Result (List IpAddr) Text) → Text → Result (List IpAddr) Text
resolve_with_cache cache now lookup host = elim (get cache host) [
  | none ↦ lookup host
  | some (ips, t) ↦ if ltb (elapsed now t) cache_ttl then ok ips else lookup host
]

module _ (parse_ip : Text → Option IpAddr) (allowed_cidrs : List Text) where
  -- The loop over the addresses, and the write to the cache after it.
  unfoldable pub check_ips :
      DnsCache → Instant → Text → List IpAddr → Result (List IpAddr) SsrfDeny × DnsCache
  check_ips cache later host ips =
      if all (λ ip. is_allowed parse_ip ip allowed_cidrs) ips
      then (ok ips, insert cache host (ips, later))
      else (err blocked, cache)

  unfoldable pub check_host :
      DnsCache
      → Instant
      → Instant
      → (Text → Result (List IpAddr) Text)
      → Text
      → Result (List IpAddr) SsrfDeny × DnsCache
  unfolding check_ips resolve_with_cache
  check_host cache now later lookup host = elim (resolve_with_cache cache now lookup host) [
    | err e ↦ (err (dns_failed e), cache)
    | ok ips ↦ check_ips cache later host ips
  ]

  unfoldable pub resolve_and_check :
      DnsCache
      → Instant
      → Instant
      → (Text → Result (List IpAddr) Text)
      → Option Text
      → Result (List IpAddr) SsrfDeny × DnsCache
  unfolding check_host
  resolve_and_check cache now later lookup none = (err no_host, cache)
  resolve_and_check cache now later lookup (some host) =
      check_host cache now later lookup (bare_host host)

  -- The proxy path: every denial is the same 502.
  unfoldable pub check_ssrf :
      DnsCache
      → Instant
      → Instant
      → (Text → Result (List IpAddr) Text)
      → Option Text
      → Option Text
      → Result (List IpAddr) Error.Response × DnsCache
  check_ssrf cache now later lookup request_id host =
      let (r, cache') = resolve_and_check cache now later lookup host in
      elim r [
        | ok ips ↦ (ok ips, cache')
        | err _ ↦ (
          err (into_response request_id (upstream_error 502 (codes "upstream request failed"))),
          cache',
        )
      ]

  -- The configuration path: a 400 that says which check failed.
  unfoldable pub config_error : SsrfDeny → AitError
  config_error no_host = bad_request (codes "base_url must include a host")
  config_error (dns_failed e) = bad_request (codes "base_url host could not be resolved")
  config_error blocked = bad_request (codes "base_url resolves to a blocked address")

  unfoldable pub check_ssrf_config :
      DnsCache
      → Instant
      → Instant
      → (Text → Result (List IpAddr) Text)
      → Option Text
      → Result Unit AitError × DnsCache
  unfolding config_error
  check_ssrf_config cache now later lookup host =
      let (r, cache') = resolve_and_check cache now later lookup host in
      elim r [ ok _ ↦ (ok tt, cache') | err e ↦ (err (config_error e), cache') ]
