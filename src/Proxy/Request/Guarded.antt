-- ===== src/Proxy/Request/Guarded.antt =====
-- src/handlers/proxy/mod.rs: what a request has passed from the resolution of its model to its client.
use ait.Base.{
  ℕ, ◌≡◌, subst, Bool, true, Option, some, List, Text, Result, ok, err, Result-cases, Option-cases,
  Bool-cases, arith, inl, inr, text_eq_refl,
}
use ait.Base.Table.{get, get-insert}
use ait.Db.{Provider, Model, supports_endpoint}
use ait.Dlp.{DlpScanner}
use ait.Error
use ait.Error.{into_response, bad_request, plain_error}
use ait.Json.{Value}
use ait.Ssrf.Addr.{IpAddr}
use ait.Cache.{Instant}
use ait.Ssrf.Check.{DnsCache, bare_host, check_ssrf, resolve_and_check}
use ait.Ssrf.CacheLaws.{IsChecked, resolve_and_check_sound}
use ait.Ssrf.Pinned.{Target, Http, port_of, pinned_client, IsPinned, IsFor, pinned_client_sound}
use ait.Proxy.Resolve.{Lookup, resolve_model_and_provider, cached_upstream}
use ait.Proxy.Request.{
  Settings, Incoming, Store, Dispatch, Times, pin_request, check_request, with_model, model_name_of,
  resolve_request, wants_stream,
}

check_ssrf_sound :
    (parse_ip : Text → Option IpAddr) (cidrs : List Text) (cache : DnsCache) (now later : Instant)
    (resolver : Text → Result (List IpAddr) Text) (id host : Option Text) (ips : List IpAddr)
    → (check_ssrf parse_ip cidrs cache now later resolver id host).0 ≡ ok ips
    → IsChecked parse_ip cidrs ips
      × ((h : Text) × (host ≡ some h)
          × (get (check_ssrf parse_ip cidrs cache now later resolver id host).1 (bare_host h)
              ≡ some (ips, later)))
unfolding check_ssrf
check_ssrf_sound parse_ip cidrs cache now later resolver id host ips h =
    elim (Result-cases (resolve_and_check parse_ip cidrs cache now later resolver host).0) [
      | inl (found, e) ↦
          let same : found ≡ ips = ground arith in
          let (checked, (name, named, written)) =
            resolve_and_check_sound parse_ip cidrs cache now later resolver host found e in
          (
            subst (IsChecked parse_ip cidrs) same checked,
            (
              name,
              named,
              ground (
                arith,
                written,
                get-insert cache (bare_host name) (bare_host name) (found, later),
                text_eq_refl (bare_host name),
              ),
            ),
          )
      | inr (d, e) ↦ absurd (ground arith)
    ]

module _ {Upstream Req : Type 0} (create_provider : Provider → Upstream) (max_entries : ℕ)
    (build_request : Upstream → Value → Bool → Text → Text → Result Req Text)
    (url_of : Req → Target) (http : Http) (parse_ip : Text → Option IpAddr) (config : Settings)
    (dlp : DlpScanner) (t : Times) (r : Incoming)
    (resolver : Text → Result (List IpAddr) Text) where
  -- The host of a request has been checked, and the client is for it and its addresses.
  pub record IsGuarded (d : Dispatch Upstream Req) (s : Store Upstream) (host : Text) : Type 0 where
    pub host_str : (url_of d.request).host_str ≡ some host
    pub checked : IsChecked parse_ip config.ssrf_allowed_cidrs d.verified_ips
    pub resolved : get s.ssrf_dns_cache (bare_host host) ≡ some (d.verified_ips, t.dns_write)
    pub pinned :
        IsFor http
          (record {
            host = bare_host host;
            port = port_of (url_of d.request);
            ips = d.verified_ips;
          })
          d.client
    pub clients : IsPinned http s.pinned_clients

  -- What a result has passed, when it is a request to send.
  abbrev pub IsServed : Result (Dispatch Upstream Req) Error.Response × Store Upstream → Type 0
  IsServed (err e, s) = Unit
  IsServed (ok d, s) =
      (supports_endpoint d.provider.provider_type r.upstream_path ≡ true)
      × (build_request d.upstream r.body d.stream d.model.upstream_model r.upstream_path
          ≡ ok d.request)
      × ((host : Text) × IsGuarded d s host)

  pin_request-IsServed :
      (m : Model) (p : Provider) (upstream : Upstream) (request : Req) (host : Text)
      (ips : List IpAddr) (s : Store Upstream)
      → supports_endpoint p.provider_type r.upstream_path ≡ true
      → build_request upstream r.body (wants_stream config r.body) m.upstream_model r.upstream_path
        ≡ ok request
      → (url_of request).host_str ≡ some host
      → IsChecked parse_ip config.ssrf_allowed_cidrs ips
      → get s.ssrf_dns_cache (bare_host host) ≡ some (ips, t.dns_write)
      → IsPinned http s.pinned_clients
      → IsServed (
          pin_request create_provider max_entries build_request url_of http parse_ip config dlp t r
            (m, p)
            upstream
            request
            ips
            s)
  unfolding pin_request
  pin_request-IsServed m p upstream request host ips s serves built named checked resolved pinned =
      let run =
        pinned_client http s.pinned_clients t.pin_read t.pin_write (some r.request_id)
          (url_of request) ips in
      elim (Result-cases run.0) [
        | inr (e, h) ↦ rw (h, pin_request) tt
        | inl (c, h) ↦
            let (a, b) =
              pinned_client_sound http s.pinned_clients t.pin_read t.pin_write (some r.request_id)
                (url_of request) host ips c pinned named h in
            rw (h, pin_request)
              (
                serves,
                built,
                (
                  host,
                  record {
                    host_str = named;
                    checked = checked;
                    resolved = resolved;
                    pinned = a;
                    clients = b;
                  },
                ),
              )
      ]

  check_request-IsServed :
      (m : Model) (p : Provider) (upstream : Upstream) (request : Req) (s : Store Upstream)
      → supports_endpoint p.provider_type r.upstream_path ≡ true
      → build_request upstream r.body (wants_stream config r.body) m.upstream_model r.upstream_path
        ≡ ok request
      → IsPinned http s.pinned_clients
      → IsServed (
          check_request create_provider max_entries build_request url_of http parse_ip config dlp t
            r resolver
            (m, p)
            upstream
            request
            s)
  unfolding check_request
  check_request-IsServed m p upstream request s serves built pinned =
      let host = (url_of request).host_str in
      let check =
        check_ssrf parse_ip config.ssrf_allowed_cidrs s.ssrf_dns_cache t.dns_read t.dns_write
          resolver (some r.request_id) host in
      elim (Result-cases check.0) [
        | inr (f, e) ↦ rw (e, check_request) tt
        | inl (ips, e) ↦
            let (checked, (name, named, resolved)) =
              check_ssrf_sound parse_ip config.ssrf_allowed_cidrs s.ssrf_dns_cache t.dns_read
                t.dns_write resolver (some r.request_id) host ips e in
            rw (e, check_request)
              (pin_request-IsServed m p upstream request name ips
                (record s { ssrf_dns_cache = check.1 }) serves built named checked resolved pinned)
      ]

  with_model-IsServed :
      (mp : Model × Provider) (s : Store Upstream)
      → IsPinned http s.pinned_clients
      → IsServed (
          with_model create_provider max_entries build_request url_of http parse_ip config dlp t r
            resolver mp s)
  unfolding with_model
  with_model-IsServed (m, p) s pinned =
      let (upstream, caches) =
        cached_upstream create_provider max_entries s.caches t.upstream_read t.upstream_write p in
      elim (Bool-cases (supports_endpoint p.provider_type r.upstream_path)) [
        | inr h ↦ rw h tt
        | inl h ↦
            elim (Result-cases (
              build_request upstream r.body (wants_stream config r.body) m.upstream_model
                r.upstream_path)) [
                  | inl (request, e) ↦
                      rw (h, e)
                        (check_request-IsServed m p upstream request (record s { caches = caches })
                          h e pinned)
                  | inr (msg, e) ↦ rw (h, e) tt
                ]
      ]

  pub resolve_request-IsServed :
      (lookup : Lookup) (s : Store Upstream)
      → IsPinned http s.pinned_clients
      → IsServed (
          resolve_request create_provider max_entries build_request url_of http parse_ip config dlp
            t r lookup resolver s)
  unfolding resolve_request
  resolve_request-IsServed lookup s pinned = elim (Option-cases (model_name_of r.body)) [
    | inl e ↦ rw (e, resolve_request) tt
    | inr (name, e) ↦
        let resolved =
          resolve_model_and_provider create_provider max_entries s.caches t.resolve
            (some r.request_id) name lookup in
        elim (Result-cases resolved.0) [
          | inl (mp, f) ↦
              rw (e, resolve_request)
                (rw f (with_model-IsServed mp (record s { caches = resolved.1 }) pinned))
          | inr (response, f) ↦ rw (e, resolve_request) (rw f tt)
        ]
  ]
