-- ===== src/Middleware/Tests.antt =====
-- src/middleware.rs: runs of the client address, of authentication and of the key cache.
use ait.Base.{
  ℕ, ◌++◌, ◌∷◌, [], ◌≡◌, ◌<◌, ◌↔◌, refl, Bool, true, false, Option, none, some, List, Text, codes,
  Result, ok, err, length, arith, text_eq, if◌then◌else◌,
}
use ait.Base.Split.{split}
use ait.Base.Int.{pos}
use ait.Base.Table.{get}
use ait.Cache.{Instant, elapsed, cache_ttl}
use ait.Db.{ApiKeyInfo}
use ait.Ssrf.Addr.{IpAddr, v4, ipv4}
use ait.Config.Proxies.{TrustedProxy}
use ait.Middleware.ClientIp.{Request, get_client_ip, is_trusted_proxy}
use ait.Middleware.Forwarded.{
  get_client_ip-forged, HasNoComma, forwarded_by, get_client_ip-forwarded_by,
}
use ait.Base.Split.{trim}
use ait.Config.Proxies.{contains}
use ait.Base.{All}
use ait.Middleware.Auth.{AuthState, answered, verify_key, begin, try_cache}
use ait.Middleware.Access.{IsGood, begin-IsGood}
use ait.Middleware.Race.{World, Step, update, reading, idle, resting, Reach, start}
use ait.Middleware.Race.Invariant.{Unevicted, unevicted, IsCoherent}
use ait.Middleware.Race.Coherence.{QuietRun, stay, then_step, QuietRun-cached}
use ait.Middleware.Race.Revoked.{revoked_key_accepted}

abbrev proxy : IpAddr
proxy = v4 (ipv4 10 0 0 1)

abbrev parse_ip : Text → Option IpAddr
parse_ip s = if text_eq s (codes "203.0.113.7") then some (v4 (ipv4 203 0 113 7)) else none

abbrev forwarded_request : Request
forwarded_request = record { peer = some proxy; x_forwarded_for = none; x_real_ip = none }

one_entry : length (split b',' (codes "203.0.113.7")) ≡ 1
unfolding split
one_entry = refl

get_client_ip-forged_example :
    get_client_ip parse_ip
      (record forwarded_request {
        x_forwarded_for = some (codes "1.1.1.1" ++ b',' ∷ codes "203.0.113.7");
      })
      (TrustedProxy.ip proxy ∷ [])
      1
    ≡ get_client_ip parse_ip
        (record forwarded_request { x_forwarded_for = some (codes "203.0.113.7") })
        (TrustedProxy.ip proxy ∷ [])
        1
get_client_ip-forged_example =
    get_client_ip-forged parse_ip forwarded_request (codes "1.1.1.1") (codes "203.0.113.7")
      (TrustedProxy.ip proxy ∷ []) 1 (omega (arith, one_entry))

proxy-trusted : is_trusted_proxy proxy (TrustedProxy.ip proxy ∷ []) ≡ true
unfolding is_trusted_proxy contains ait.Ssrf.Addr.ip_in_prefix ait.Ssrf.Addr.ipv4_in_prefix
    ait.Ssrf.Addr.u32_from
proxy-trusted = refl

seen-HasNoComma : All HasNoComma (codes "203.0.113.7" ∷ codes " 10.0.0.2" ∷ [])
seen-HasNoComma = (refl, (refl, tt))

client_parsed : parse_ip (trim (codes "203.0.113.7")) ≡ some (v4 (ipv4 203 0 113 7))
unfolding trim text_eq
client_parsed = refl

get_client_ip-forwarded_by_example :
    get_client_ip parse_ip
      (record forwarded_request {
        x_forwarded_for =
            some (forwarded_by (codes "1.1.1.1") (codes "203.0.113.7" ∷ codes " 10.0.0.2" ∷ []));
      })
      (TrustedProxy.ip proxy ∷ [])
      2
    ≡ some (v4 (ipv4 203 0 113 7))
get_client_ip-forwarded_by_example =
    get_client_ip-forwarded_by parse_ip forwarded_request (codes "1.1.1.1") (codes "203.0.113.7")
      (codes " 10.0.0.2" ∷ []) (TrustedProxy.ip proxy ∷ []) proxy (v4 (ipv4 203 0 113 7)) refl
      proxy-trusted seen-HasNoComma client_parsed

abbrev key : ApiKeyInfo
key = record {
  id = codes "k";
  name = codes "ci";
  enabled = true;
  expires_at = some (pos 100);
  created_at = pos 0;
}

abbrev auth : AuthState
auth = record {
  api_key_cache = (codes "h", (key, 3)) ∷ [];
  negative_key_cache = [];
  key_revision = 0;
}

abbrev hash_key : Text → Text
hash_key token = codes "h"

begin_run :
    (begin hash_key true none (pos 7) auth 5 (some (codes "Bearer t"))).0
    ≡ answered (ok (some (codes "ci")))
unfolding begin ait.Middleware.Auth.extract_bearer_token ait.Base.strip_prefix
    ait.Middleware.Auth.known_invalid get try_cache text_eq verify_key
begin_run = refl

begin-IsGood_example :
    (token : Text) × (info : ApiKeyInfo) × (t : Instant) × (some (codes "Bearer t")
      ≡ some (codes "Bearer " ++ token))
    × (get auth.api_key_cache (hash_key token) ≡ some (info, t))
    × (elapsed 5 t < cache_ttl)
    × IsGood (pos 7) info
    × (some (codes "ci") ≡ some info.name)
begin-IsGood_example =
    begin-IsGood hash_key none (pos 7) auth 5 (some (codes "Bearer t")) (some (codes "ci"))
      begin_run

abbrev rows : Text → Option ApiKeyInfo
rows hash = if text_eq (codes "h") hash then some key else none

abbrev world : World
world = record { auth = auth; rows = rows; lookups = λ _. idle; changes = λ _. resting }

cached_row :
    (hash : Text) (info : ApiKeyInfo) (t : Instant)
    → get auth.api_key_cache hash ≡ some (info, t)
    → rows hash ≡ some info
unfolding get
cached_row hash info t e = ground arith

world-IsCoherent : IsCoherent world
world-IsCoherent = record {
  started = λ i hash r e. absurd (ground arith);
  bounded = λ i hash r row e. absurd (ground arith);
  fresh = λ i hash r row e d. absurd (ground arith);
  confirmed = λ i hash row e. absurd (ground arith);
  cached = λ hash info t e. ait.Base.inl (cached_row hash info t e);
}

no_changes : ¬ (Unevicted (λ _. resting) (codes "h"))
no_changes (unevicted j u e) = ground arith

key_cached : get auth.api_key_cache (codes "h") ≡ some (key, 3)
unfolding get text_eq
key_cached = refl

abbrev begun : World
begun = record world { lookups = update world.lookups 0 (reading (codes "h") 0) }

first_step : Step world begun
first_step = start 0 (codes "h") refl

one_step : QuietRun world begun
unfolding first_step
one_step = then_step stay first_step tt

QuietRun-cached_example : rows (codes "h") ≡ some key
QuietRun-cached_example =
    QuietRun-cached (codes "h") key 3 world-IsCoherent one_step no_changes key_cached

key_row : rows (codes "h") ≡ some key
unfolding text_eq
key_row = refl

key_verified : verify_key none (pos 7) key ≡ ok (some (codes "ci"))
unfolding verify_key
key_verified = refl

revoked_key_accepted_example :
    (w' : World) × Reach world w'
    × (w'.rows (codes "h") ≡ none)
    × (w'.lookups 0 ≡ idle)
    × (w'.changes 0 ≡ resting)
    × ((try_cache none (pos 7) w'.auth 9 (codes "h")).0 ≡ answered (ok (some (codes "ci"))))
revoked_key_accepted_example =
    revoked_key_accepted world (codes "h") key 100 5 9 none (pos 7) (some (codes "ci")) refl refl
      key_row key_verified (omega arith)
