-- ===== src/Proxy/Request/Tests.antt =====
-- src/handlers/proxy/mod.rs and resolve.rs: runs of one request.
use ait.Base.{
  ℕ, ◌≡◌, ◌≢◌, ◌≤◌, ◌++◌, refl, Bool, true, false, Option, none, some, List, [], ◌∷◌, Text, codes,
  length, Result, ok, err, arith,
}
use ait.Base.Int.{pos}
use ait.Base.Table.{get}
use ait.Cache.{Instant, elapsed, negative_cache_ttl, sliding_get}
use ait.Db.{ProxyEvent, Provider, Model, ollama}
use ait.Dlp.{DlpScanner}
use ait.Json.{Value}
use ait.Json.Value.{string, object}
use ait.Json.Fields.{end, field}
use ait.Ssrf.Addr.{IpAddr, v4, ipv4}
use ait.Proxy.Resolve.{
  Caches, Clock, Lookup, Blocking, done, failed, no_model, known_unknown,
  resolve_model_and_provider,
}
use ait.Proxy.Request.{
  Settings, Incoming, Store, Dispatch, Times, proxy_request, too_large, matched_rule, dlp_event,
  rejected,
}
use ait.Proxy.Request.Gate.{proxy_request-refused}
use ait.Ssrf.Pinned.{Target, Client, Http}
use ait.Dlp.Leaves.{reported, IsInRange}
use ait.Error
use ait.Base.{All}

abbrev create_provider : Provider → Text
create_provider p = p.name

abbrev caches : Caches Text
caches = record { negative_model_cache = []; model_cache = []; provider_cache = [] }

abbrev clock : Clock
clock = record { at_negative = 5; at_cached = 5; at_provider = 6; at_model = 6; at_unknown = 6 }

abbrev later : Clock
later = record { at_negative = 9; at_cached = 9; at_provider = 9; at_model = 9; at_unknown = 9 }

abbrev unknown : Lookup
unknown = done (ok none)

unknown_run :
    (resolve_model_and_provider create_provider 10 caches clock none (codes "m") unknown).0
    ≡ err (no_model none (codes "m"))
unfolding resolve_model_and_provider sliding_get get
unknown_run = refl

not_known_unknown : known_unknown caches 5 (codes "m") ≡ false
unfolding known_unknown get
not_known_unknown = refl

not_cached : (sliding_get caches.model_cache (codes "m") 5).0 ≡ none
unfolding sliding_get get
not_cached = refl

abbrev provider : Provider
provider = record {
  id = codes "p";
  name = codes "local";
  provider_type = ollama;
  base_url = codes "http://host";
  api_key = none;
  enabled = true;
  created_at = pos 0;
  updated_at = pos 0;
}

abbrev model : Model
model = record {
  id = codes "m1";
  name = codes "m";
  provider_id = codes "p";
  upstream_model = codes "u";
  enabled = true;
  created_at = pos 0;
  updated_at = pos 0;
}

abbrev found : Lookup
found = done (ok (some (model, provider)))

abbrev build_request : Text → Value → Bool → Text → Text → Result Text Text
build_request upstream body stream name path = ok (codes "host")

abbrev url_of : Text → Target
url_of request = record { host_str = some request; port_or_known_default = some 443 }

abbrev in_order : List IpAddr → List IpAddr
in_order ips = ips

abbrev ip_to_string : IpAddr → Text
ip_to_string ip = codes "8.8.8.8"

abbrev decimal : ℕ → Text
decimal n = codes "443"

abbrev builds : Client → Bool
builds client = true

abbrev http : Http
http = record {
  sort_unstable = in_order;
  ip_to_string = ip_to_string;
  decimal = decimal;
  builds = builds;
}

abbrev parse_ip : Text → Option IpAddr
parse_ip s = none

abbrev resolver : Text → Result (List IpAddr) Text
resolver host = ok (v4 (ipv4 8 8 8 8) ∷ [])

abbrev settings : Settings
settings = record {
  max_request_body_bytes = 100;
  stream = true;
  prompt_token_divisor = 3;
  ssrf_allowed_cidrs = [];
}

abbrev quiet_dlp : DlpScanner
quiet_dlp = record { enabled = false; rules = []; matcher = none; scan_numbers = false }

abbrev strict_dlp : DlpScanner
strict_dlp = record {
  enabled = true;
  rules = codes "m" ∷ [];
  matcher = some (λ text. 0 ∷ []);
  scan_numbers = false;
}

abbrev times : Times
times = record {
  utc_now = pos 7;
  elapsed_ms = 0;
  resolve = clock;
  upstream_read = 6;
  upstream_write = 6;
  dns_read = 7;
  dns_write = 8;
  pin_read = 8;
  pin_write = 9;
}

abbrev incoming : Incoming
incoming = record {
  request_id = codes "r";
  api_key_name = none;
  client_ip = none;
  body = object (field (codes "model") (string (codes "m")) end);
  body_len = 13;
  upstream_path = codes "/chat/completions";
}

abbrev store : Store Text
store = record { caches = caches; ssrf_dns_cache = []; pinned_clients = []; log = [] }

abbrev dispatch : Dispatch Text Text
dispatch = record {
  model = model;
  provider = provider;
  upstream = codes "local";
  request = codes "host";
  stream = false;
  prompt_tokens = some (pos 4);
  verified_ips = v4 (ipv4 8 8 8 8) ∷ [];
  client = record { host = codes "host"; port = 443; ips = v4 (ipv4 8 8 8 8) ∷ [] };
}

abbrev find_first : Text → List ℕ
find_first text = 0 ∷ []

find_first-IsInRange : IsInRange 1 find_first
find_first-IsInRange text = (omega arith, tt)

something : reported find_first false incoming.body ≢ []
unfolding reported
something e = ground arith

proxy_request-refused_example :
    (e : Error.Response) × (log : List ProxyEvent) × (proxy_request create_provider 10 build_request
        url_of http parse_ip settings strict_dlp times incoming found resolver store
      ≡ (err e, record store { log = [] ++ log }))
    × (e.0 ≡ 400)
    × (length log ≤ 1)
    × All (λ event. event.status ≡ codes "400") log
proxy_request-refused_example =
    proxy_request-refused create_provider 10 build_request url_of http parse_ip settings strict_dlp
      times incoming resolver found store find_first refl refl find_first-IsInRange something
