-- ===== src/Proxy/Request.antt =====
-- src/handlers/proxy/mod.rs: `proxy_request`, from the parsed body to the request that is sent.
-- The provider's `build_request`, the URL of a built request, the resolver's answer and the
-- database's answer are parameters; the clocks are those of the caches' reads and writes.
pub mod Guarded
pub mod Gate
mod Tests
use ait.Base.{
  ℕ, zero, ◌+◌, ◌-◌, ◌/◌, Bool, true, false, ◌&&◌, not, Option, none, some, List, [], ◌∷◌, ◌++◌,
  Text, codes, length, take, drop, Result, ok, err, leb, ltb, ◌==◌, and_then, if◌then◌else◌,
}
use ait.Base.Int.{ℤ, pos}
use ait.Cache.{Instant}
use ait.Db.{Provider, Model, ProxyEvent, DateTime, to_db, supports_endpoint}
use ait.Dlp.{DlpScanner, scan}
use ait.Error
use ait.Error.{bad_request, into_response}
use ait.Json.{Value, get, as_str, as_bool}
use ait.Ssrf.Addr.{IpAddr}
use ait.Ssrf.Check.{DnsCache, check_ssrf}
use ait.Ssrf.Pinned.{Target, Client, Http, PinnedClients, pinned_client}
use ait.Proxy.Resolve.{Caches, Clock, Lookup, resolve_model_and_provider, cached_upstream}

-- src/utils.rs
unfoldable pub mask_sensitive_value : Text → ℕ → ℕ → Text
mask_sensitive_value value prefix_len suffix_len =
    if leb (length value) (prefix_len + suffix_len)
    then codes "******"
    else take prefix_len value ++ (codes "******" ++ drop (length value - suffix_len) value)

unfoldable pub mask_api_key : Text → Text
unfolding mask_sensitive_value
mask_api_key key = mask_sensitive_value key 6 3

-- The estimate from the body's size; the quotient of two counts.
unfoldable pub count_prompt_tokens : ℕ → ℕ → Option ℤ
count_prompt_tokens body_len divisor =
    if body_len == 0 then none else some (pos (body_len / divisor))

pub record Settings : Type 0 where
  pub max_request_body_bytes : ℕ
  pub stream : Bool
  pub prompt_token_divisor : ℕ
  pub ssrf_allowed_cidrs : List Text

-- Who asks, and for what.
pub record Incoming : Type 0 where
  pub request_id : Text
  pub api_key_name : Option Text
  pub client_ip : Option Text
  pub body : Value
  pub body_len : ℕ
  pub upstream_path : Text

pub record Store (Upstream : Type 0) : Type 0 where
  pub caches : Caches Upstream
  pub ssrf_dns_cache : DnsCache
  pub pinned_clients : PinnedClients
  pub log : List ProxyEvent

-- What is sent: the built request, the addresses that were checked, and the client pinned to them.
pub record Dispatch (Upstream Req : Type 0) : Type 0 where
  pub model : Model
  pub provider : Provider
  pub upstream : Upstream
  pub request : Req
  pub stream : Bool
  pub prompt_tokens : Option ℤ
  pub verified_ips : List IpAddr
  pub client : Client

unfoldable pub model_name_of : Value → Option Text
model_name_of body = and_then (get body (codes "model")) as_str

abbrev pub or_default {ℓ} : {A : Type ℓ} → A → Option A → A
or_default a none = a
or_default a (some b) = b

-- The record of a blocked request.
unfoldable pub dlp_event : DateTime → ℕ → Incoming → Text → ProxyEvent
unfolding mask_sensitive_value model_name_of
dlp_event utc_now elapsed_ms r matched = record {
  timestamp = utc_now;
  request_id = r.request_id;
  api_key_name = r.api_key_name;
  model_name = or_default (codes "blocked") (model_name_of r.body);
  provider_name = codes "unknown";
  prompt_tokens = none;
  completion_tokens = none;
  total_tokens = none;
  cached_tokens = none;
  latency_ms = elapsed_ms;
  status = codes "400";
  endpoint = r.upstream_path;
  is_streaming = false;
  time_to_first_token_ms = none;
  upstream_model = codes "blocked";
  provider_type = codes "unknown";
  response_body_size = none;
  error_message = some (
      codes "blocked by DLP: sensitive value '"
      ++ (mask_sensitive_value matched 3 2 ++ codes "' matched"));
  client_ip = r.client_ip;
}

abbrev pub rejected : Incoming → Text → Error.Response
rejected r msg = into_response (some r.request_id) (bad_request msg)

unfoldable pub wants_stream : Settings → Value → Bool
wants_stream config body =
    or_default false (and_then (get body (codes "stream")) as_bool) && config.stream

-- The readings of the clocks in one request.
pub record Times : Type 0 where
  pub utc_now : DateTime
  pub elapsed_ms : ℕ
  pub resolve : Clock
  pub upstream_read : Instant
  pub upstream_write : Instant
  pub dns_read : Instant
  pub dns_write : Instant
  pub pin_read : Instant
  pub pin_write : Instant

module _ {Upstream Req : Type 0} (create_provider : Provider → Upstream) (max_entries : ℕ)
    (build_request : Upstream → Value → Bool → Text → Text → Result Req Text)
    (url_of : Req → Target) (http : Http) (parse_ip : Text → Option IpAddr) (config : Settings)
    (dlp : DlpScanner) (t : Times) (r : Incoming) where
  -- The last step: the client that is pinned to the checked addresses.
  unfoldable pub pin_request :
      Model × Provider
      → Upstream
      → Req
      → List IpAddr
      → Store Upstream
      → Result (Dispatch Upstream Req) Error.Response × Store Upstream
  pin_request (model, provider) upstream request verified_ips s =
      let (pinned, clients) =
        pinned_client http s.pinned_clients t.pin_read t.pin_write (some r.request_id)
          (url_of request) verified_ips in
      let s' = record s { pinned_clients = clients } in
      elim pinned [
        | err e ↦ (err e, s')
        | ok client ↦ (
          ok (record {
            model = model;
            provider = provider;
            upstream = upstream;
            request = request;
            stream = wants_stream config r.body;
            prompt_tokens = count_prompt_tokens r.body_len config.prompt_token_divisor;
            verified_ips = verified_ips;
            client = client;
          }),
          s',
        )
      ]

  -- The check of the built request's host.
  unfoldable pub check_request :
      (Text → Result (List IpAddr) Text)
      → Model × Provider
      → Upstream
      → Req
      → Store Upstream
      → Result (Dispatch Upstream Req) Error.Response × Store Upstream
  unfolding pin_request
  check_request resolver mp upstream request s =
      let (verified, cache) =
        check_ssrf parse_ip config.ssrf_allowed_cidrs s.ssrf_dns_cache t.dns_read t.dns_write
          resolver (some r.request_id) (url_of request).host_str in
      let s' = record s { ssrf_dns_cache = cache } in
      elim verified [ err e ↦ (err e, s') | ok ips ↦ pin_request mp upstream request ips s' ]

  unfoldable pub with_model :
      (Text → Result (List IpAddr) Text)
      → Model × Provider
      → Store Upstream
      → Result (Dispatch Upstream Req) Error.Response × Store Upstream
  unfolding check_request
  with_model resolver (model, provider) s =
      let (upstream, caches) =
        cached_upstream create_provider max_entries s.caches t.upstream_read t.upstream_write
          provider in
      let s' = record s { caches = caches } in
      let built =
        build_request upstream r.body (wants_stream config r.body) model.upstream_model
          r.upstream_path in
      if not (supports_endpoint provider.provider_type r.upstream_path)
      then (
        err (
            rejected r (
              codes "provider type '"
              ++ (to_db provider.provider_type
                  ++ (codes "' does not support endpoint '" ++ (r.upstream_path ++ codes "'"))))),
        s,
      )
      else elim built [
        | err e ↦ (err (rejected r e), s')
        | ok request ↦ check_request resolver (model, provider) upstream request s'
      ]

  unfoldable pub resolve_request :
      Lookup
      → (Text → Result (List IpAddr) Text)
      → Store Upstream
      → Result (Dispatch Upstream Req) Error.Response × Store Upstream
  unfolding with_model
  resolve_request lookup resolver s = elim (model_name_of r.body) [
    | none ↦ (err (rejected r (codes "Missing 'model' field in request body")), s)
    | some model_name ↦
        let (found, caches) =
          resolve_model_and_provider create_provider max_entries s.caches t.resolve
            (some r.request_id) model_name lookup in
        let s' = record s { caches = caches } in
        elim found [ err e ↦ (err e, s') | ok mp ↦ with_model resolver mp s' ]
  ]

  unfoldable pub too_large : Bool
  too_large = ltb 0 config.max_request_body_bytes && ltb config.max_request_body_bytes r.body_len

  unfoldable pub matched_rule : Option Text
  matched_rule = if dlp.enabled then scan dlp r.body else none

  unfoldable pub proxy_request :
      Lookup
      → (Text → Result (List IpAddr) Text)
      → Store Upstream
      → Result (Dispatch Upstream Req) Error.Response × Store Upstream
  unfolding resolve_request too_large matched_rule
  proxy_request lookup resolver s =
      if too_large
      then (err (rejected r (codes "request body exceeds max allowed size")), s)
      else elim matched_rule [
        | some matched ↦ (
          err (rejected r (codes "request blocked by sensitive data rule")),
          record s { log = s.log ++ (dlp_event t.utc_now t.elapsed_ms r matched ∷ []) },
        )
        | none ↦ resolve_request lookup resolver s
      ]
