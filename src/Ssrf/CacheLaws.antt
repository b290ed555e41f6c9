-- ===== src/Ssrf/CacheLaws.antt =====
-- src/ssrf.rs: what the check lets through, and what the DNS cache may hold.
use ait.Base.{
  ◌<◌, ◌≡◌, refl, sym, ◌∙◌, subst, Bool, true, Option, none, some, List, [], ◌∷◌, Text, Result, ok,
  err, all, All, arith, Bool-cases, Result-cases, inl, inr, text_eq,
}
use ait.Base.Table.{get, insert, get-insert}
use ait.Cache.{Instant, elapsed, cache_ttl}
use ait.Error
use ait.Error.{into_response, upstream_error}
use ait.Ssrf.Addr.{IpAddr}
use ait.Ssrf.Cidr.{is_allowed}
use ait.Ssrf.Check.{
  SsrfDeny, dns_failed, DnsCache, bare_host, resolve_with_cache, check_ips, check_host,
  resolve_and_check, check_ssrf,
}

all-All {ℓ} : {A : Type ℓ} (p : A → Bool) (xs : List A) → all p xs ≡ true → All (λ x. p x ≡ true) xs
all-All p [] h = tt
all-All p (x ∷ xs) h = (ground arith, all-All p xs (ground arith))

resolve_with_cache-fresh :
    (cache : DnsCache) (now : Instant) (lookup : Text → Result (List IpAddr) Text) (host : Text)
    (ips : List IpAddr) (t : Instant)
    → get cache host ≡ some (ips, t)
    → elapsed now t < cache_ttl
    → resolve_with_cache cache now lookup host ≡ ok ips
unfolding resolve_with_cache
resolve_with_cache-fresh cache now lookup host ips t h fresh = ground arith

module _ (parse_ip : Text → Option IpAddr) (allowed_cidrs : List Text) where
  abbrev pub IsChecked : List IpAddr → Type 0
  IsChecked ips = All (λ ip. is_allowed parse_ip ip allowed_cidrs ≡ true) ips

  -- The cache holds no address that the check would reject.
  pub record IsSafeCache (cache : DnsCache) : Type 0 where
    pub checked :
        (k : Text) (ips : List IpAddr) (t : Instant) → get cache k ≡ some (ips, t) → IsChecked ips

  check_host-hit :
      (cache : DnsCache) (now later : Instant) (lookup : Text → Result (List IpAddr) Text)
      (host : Text) (ips : List IpAddr)
      → resolve_with_cache cache now lookup host ≡ ok ips
      → check_host parse_ip allowed_cidrs cache now later lookup host
        ≡ check_ips parse_ip allowed_cidrs cache later host ips
  unfolding check_host
  check_host-hit cache now later lookup host ips e = rw (e, check_host)

  module _ (cache : DnsCache) (now later : Instant)
      (lookup : Text → Result (List IpAddr) Text) where
    check_ips_sound :
        (host : Text) (ips found : List IpAddr)
        → (check_ips parse_ip allowed_cidrs cache later host ips).0 ≡ ok found
        → IsChecked found
          × ((check_ips parse_ip allowed_cidrs cache later host ips).1
              ≡ insert cache host (found, later))
    unfolding check_ips
    check_ips_sound host ips found h =
        elim (Bool-cases (all (λ ip. is_allowed parse_ip ip allowed_cidrs) ips)) [
          | inl passed ↦
              let same : ips ≡ found = ground arith in
              (subst IsChecked same (all-All _ ips passed), ground arith)
          | inr failed ↦ absurd (ground arith)
        ]

    check_host-found :
        (host : Text) (ips : List IpAddr)
        → resolve_with_cache cache now lookup host ≡ ok ips
        → check_host parse_ip allowed_cidrs cache now later lookup host
          ≡ check_ips parse_ip allowed_cidrs cache later host ips
    check_host-found host ips e = check_host-hit cache now later lookup host ips e

    check_host-failed :
        (host e : Text)
        → resolve_with_cache cache now lookup host ≡ err e
        → check_host parse_ip allowed_cidrs cache now later lookup host
          ≡ (err (dns_failed e), cache)
    unfolding check_host
    check_host-failed host e h = rw (h, check_host)

    check_host_sound :
        (host : Text) (found : List IpAddr)
        → (check_host parse_ip allowed_cidrs cache now later lookup host).0 ≡ ok found
        → IsChecked found
          × ((check_host parse_ip allowed_cidrs cache now later lookup host).1
              ≡ insert cache host (found, later))
    check_host_sound host found h = elim (Result-cases (resolve_with_cache cache now lookup host)) [
      | inl (ips, e) ↦
          let step = check_host-found host ips e in
          rw step (check_ips_sound host ips found (rw step at h))
      | inr (e, failed) ↦ absurd (ground (arith, check_host-failed host e failed))
    ]

    check_host-err :
        (host : Text) (d : SsrfDeny)
        → (check_host parse_ip allowed_cidrs cache now later lookup host).0 ≡ err d
        → (check_host parse_ip allowed_cidrs cache now later lookup host).1 ≡ cache
    unfolding check_host
    check_host-err host d h = ground arith

    -- What the check returns it has checked, whether the addresses came from the cache or from the
    -- resolver, and they are what the cache now holds for the host.
    pub resolve_and_check_sound :
        (host : Option Text) (found : List IpAddr)
        → (resolve_and_check parse_ip allowed_cidrs cache now later lookup host).0 ≡ ok found
        → IsChecked found
          × ((h : Text) × (host ≡ some h)
              × ((resolve_and_check parse_ip allowed_cidrs cache now later lookup host).1
                  ≡ insert cache (bare_host h) (found, later)))
    unfolding resolve_and_check
    resolve_and_check_sound none found h = cc h
    resolve_and_check_sound (some host) found h =
        let (a, b) = check_host_sound (bare_host host) found h in (a, (host, refl, b))

    -- A denial caches nothing: the host is resolved again by the next request.
    pub resolve_and_check-err :
        (host : Option Text) (d : SsrfDeny)
        → (resolve_and_check parse_ip allowed_cidrs cache now later lookup host).0 ≡ err d
        → (resolve_and_check parse_ip allowed_cidrs cache now later lookup host).1 ≡ cache
    unfolding resolve_and_check
    resolve_and_check-err none d h = refl
    resolve_and_check-err (some host) d h = check_host-err (bare_host host) d h

    -- While the entry of a host is fresh, the resolver's answer has no influence on the check.
    pub resolve_and_check-fresh :
        (host : Text) (ips : List IpAddr) (t : Instant) (lookup' : Text → Result (List IpAddr) Text)
        → get cache (bare_host host) ≡ some (ips, t)
        → elapsed now t < cache_ttl
        → resolve_and_check parse_ip allowed_cidrs cache now later lookup (some host)
          ≡ resolve_and_check parse_ip allowed_cidrs cache now later lookup' (some host)
    unfolding resolve_and_check
    resolve_and_check-fresh host ips t lookup' h fresh =
        let hit = resolve_with_cache-fresh cache now lookup (bare_host host) ips t h fresh in
        let hit' = resolve_with_cache-fresh cache now lookup' (bare_host host) ips t h fresh in
        check_host-found (bare_host host) ips hit
        ∙ sym (check_host-hit cache now later lookup' (bare_host host) ips hit')

    insert-IsSafeCache :
        (host : Text) (ips : List IpAddr)
        → IsChecked ips
        → IsSafeCache cache
        → IsSafeCache (insert cache host (ips, later))
    insert-IsSafeCache host ips ok_ips safe = record {
      checked = λ k found t e. elim (Bool-cases (text_eq host k)) [
        | inl same ↦
            let eq : ips ≡ found = ground (arith, get-insert cache host k (ips, later)) in
            subst IsChecked eq ok_ips
        | inr other ↦ safe.checked k found t (ground (arith, get-insert cache host k (ips, later)))
      ];
    }

    -- A cache that holds only checked addresses stays so.
    resolve_and_check-IsSafeCache :
        (host : Option Text)
        → IsSafeCache cache
        → IsSafeCache (resolve_and_check parse_ip allowed_cidrs cache now later lookup host).1
    resolve_and_check-IsSafeCache host safe =
        elim (Result-cases
          (resolve_and_check parse_ip allowed_cidrs cache now later lookup host).0) [
            | inl (ips, e) ↦
                let (ok_ips, (h, _, same)) = resolve_and_check_sound host ips e in
                rw same (insert-IsSafeCache (bare_host h) ips ok_ips safe)
            | inr (d, e) ↦ rw (resolve_and_check-err host d e) safe
          ]

  -- On the proxy path the client cannot tell why a request was denied: every denial is the same
  -- response.
  pub check_ssrf-opaque :
      (cache cache' : DnsCache) (now later now' later' : Instant)
      (lookup lookup' : Text → Result (List IpAddr) Text) (request_id : Option Text)
      (host host' : Option Text) (e e' : Error.Response)
      → (check_ssrf parse_ip allowed_cidrs cache now later lookup request_id host).0 ≡ err e
      → (check_ssrf parse_ip allowed_cidrs cache' now' later' lookup' request_id host').0 ≡ err e'
      → (e ≡ e') × (e.0 ≡ 502)
  unfolding check_ssrf into_response upstream_error
  check_ssrf-opaque cache cache' now later now' later' lookup lookup' request_id host host' e e' h
        h' =
      ground arith
