-- ===== src/Ssrf/Pinned.antt =====
-- src/ssrf.rs: `pinned_client`, the HTTP clients whose DNS is pinned to checked addresses. Sorting
-- and printing of addresses and numbers, and whether reqwest builds a client, are the record `Http`.
use ait.Base.{
  ℕ, ◌≡◌, ◌≢◌, refl, sym, Bool, true, false, Option, none, some, List, [], ◌∷◌, ◌++◌, map, Text,
  codes, Result, ok, err, ltb, text_eq, text_eq_iff, arith, if◌then◌else◌, Bool-cases, Option-cases,
  inl, inr,
}
use ait.Base.Table.{Table, get, insert, get-insert}
use ait.Cache.{Instant, elapsed, cache_ttl}
use ait.Error
use ait.Error.{upstream_error, into_response}
use ait.Ssrf.Addr.{IpAddr}
use ait.Ssrf.Check.{bare_host}

-- The host and the port of a URL, the port with the default of its scheme.
pub record Target : Type 0 where
  pub host_str : Option Text
  pub port_or_known_default : Option ℕ

-- A client, by the host and port that it resolves itself and the addresses for them.
pub record Client : Type 0 where
  pub host : Text
  pub port : ℕ
  pub ips : List IpAddr

pub record Http : Type 0 where
  pub sort_unstable : List IpAddr → List IpAddr
  pub ip_to_string : IpAddr → Text
  pub decimal : ℕ → Text
  pub builds : Client → Bool

abbrev pub PinnedClients : Type 0
PinnedClients = Table (Client × Instant)

abbrev pub port_of : Target → ℕ
port_of url = elim url.port_or_known_default [ none ↦ 80 | some port ↦ port ]

unfoldable pub join : Text → List Text → Text
join sep [] = []
join sep (x ∷ []) = x
join sep (x ∷ y ∷ xs) = x ++ (sep ++ join sep (y ∷ xs))

abbrev pub is_empty : List IpAddr → Bool
is_empty [] = true
is_empty (ip ∷ ips) = false

abbrev pub opaque_error : Option Text → Error.Response
opaque_error request_id =
    into_response request_id (upstream_error 502 (codes "upstream request failed"))

not_empty : (ips : List IpAddr) → is_empty ips ≡ false → ips ≢ []
not_empty [] h e = ground arith
not_empty (ip ∷ ips) h e = ground arith

module _ (http : Http) where
  unfoldable pub cache_key : Text → ℕ → List IpAddr → Text
  unfolding join
  cache_key host port verified_ips =
      host
      ++ (codes ":"
          ++ (http.decimal port
              ++ (codes ":"
                  ++ join (codes ",") (map http.ip_to_string (http.sort_unstable verified_ips)))))

  -- No client is made without addresses.
  unfoldable pub build_client :
      PinnedClients → Instant → Option Text → Client → Result Client Error.Response × PinnedClients
  unfolding cache_key
  build_client clients later request_id client =
      if is_empty client.ips
      then (err (opaque_error request_id), clients)
      else if http.builds client
      then (
        ok client,
        insert clients (cache_key client.host client.port client.ips) (client, later),
      )
      else (err (opaque_error request_id), clients)

  unfoldable pub reuse_or_build :
      PinnedClients
      → Instant
      → Instant
      → Option Text
      → Client
      → Result Client Error.Response × PinnedClients
  unfolding build_client
  reuse_or_build clients now later request_id client =
      let built = build_client clients later request_id client in
      elim (get clients (cache_key client.host client.port client.ips)) [
        | none ↦ built
        | some (cached, t) ↦ if ltb (elapsed now t) cache_ttl then (ok cached, clients) else built
      ]

  unfoldable pub pinned_client :
      PinnedClients
      → Instant
      → Instant
      → Option Text
      → Target
      → List IpAddr
      → Result Client Error.Response × PinnedClients
  unfolding reuse_or_build
  pinned_client clients now later request_id url verified_ips = elim url.host_str [
    | none ↦ (err (opaque_error request_id), clients)
    | some host ↦
        reuse_or_build clients now later request_id
          (record { host = bare_host host; port = port_of url; ips = verified_ips })
  ]

  -- Every client is under the key of its own host, port and addresses, and has some address.
  pub record IsPinned (clients : PinnedClients) : Type 0 where
    pub keyed :
        (k : Text) (c : Client) (t : Instant)
        → get clients k ≡ some (c, t)
        → (k ≡ cache_key c.host c.port c.ips) × (c.ips ≢ [])

  pub empty-IsPinned : IsPinned []
  unfolding get
  empty-IsPinned = record { keyed = λ k c t e. absurd (ground arith) }

  insert-IsPinned :
      (clients : PinnedClients) (client : Client) (later : Instant)
      → client.ips ≢ []
      → IsPinned clients
      → IsPinned (insert clients (cache_key client.host client.port client.ips) (client, later))
  insert-IsPinned clients client later some_ip pinned =
      let key = cache_key client.host client.port client.ips in
      record {
        keyed = λ k c t e. elim (Bool-cases (text_eq key k)) [
          | inl same ↦
              let ec : client ≡ c = ground (arith, get-insert clients key k (client, later)) in
              rw (← ec, ← (text_eq_iff key k).0 same) (refl, some_ip)
          | inr other ↦
              pinned.keyed k c t (ground (arith, get-insert clients key k (client, later)))
        ];
      }

  -- What a served client is: pinned under the same key as the addresses wanted, which are some.
  abbrev pub IsFor : Client → Client → Type 0
  IsFor wanted c =
      (cache_key c.host c.port c.ips ≡ cache_key wanted.host wanted.port wanted.ips) × (c.ips ≢ [])

  build_client_sound :
      (clients : PinnedClients) (later : Instant) (request_id : Option Text) (wanted c : Client)
      → IsPinned clients
      → (build_client clients later request_id wanted).0 ≡ ok c
      → IsFor wanted c × IsPinned (build_client clients later request_id wanted).1
  unfolding build_client
  build_client_sound clients later request_id wanted c pinned h =
      elim (Bool-cases (is_empty wanted.ips)) [
        | inl none_left ↦ absurd (ground arith)
        | inr some_left ↦ elim (Bool-cases (http.builds wanted)) [
          | inr fails ↦ absurd (ground arith)
          | inl works ↦
              let some_ip = not_empty wanted.ips some_left in
              let same : wanted ≡ c = ground arith in
              rw (some_left, works, ← same)
                ((refl, some_ip), insert-IsPinned clients wanted later some_ip pinned)
        ]
      ]

  reuse_or_build_sound :
      (clients : PinnedClients) (now later : Instant) (request_id : Option Text) (wanted c : Client)
      → IsPinned clients
      → (reuse_or_build clients now later request_id wanted).0 ≡ ok c
      → IsFor wanted c × IsPinned (reuse_or_build clients now later request_id wanted).1
  unfolding reuse_or_build
  reuse_or_build_sound clients now later request_id wanted c pinned h =
      let key = cache_key wanted.host wanted.port wanted.ips in
      let build = build_client_sound clients later request_id wanted c pinned in
      elim (Option-cases (get clients key)) [
        | inl absent ↦ rw (absent, reuse_or_build) (build (rw (absent, reuse_or_build) at h))
        | inr ((cached, t), e) ↦ elim (Bool-cases (ltb (elapsed now t) cache_ttl)) [
          | inl fresh ↦
              let same : cached ≡ c = ground arith in
              let (a, b) = pinned.keyed key cached t e in
              rw (e, reuse_or_build) (rw (fresh, ← same) ((sym a, b), pinned))
          | inr stale ↦ rw (e, reuse_or_build) (rw stale (build (ground arith)))
        ]
      ]

  -- A client that is served is pinned under the key of the wanted host, port and addresses.
  pub pinned_client_sound :
      (clients : PinnedClients) (now later : Instant) (request_id : Option Text) (url : Target)
      (host : Text) (verified_ips : List IpAddr) (c : Client)
      → IsPinned clients
      → url.host_str ≡ some host
      → (pinned_client clients now later request_id url verified_ips).0 ≡ ok c
      → IsFor (record { host = bare_host host; port = port_of url; ips = verified_ips }) c
        × IsPinned (pinned_client clients now later request_id url verified_ips).1
  unfolding pinned_client
  pinned_client_sound clients now later request_id url host verified_ips c pinned e h =
      rw (e, pinned_client)
        (reuse_or_build_sound clients now later request_id
          (record { host = bare_host host; port = port_of url; ips = verified_ips }) c pinned
          (ground arith))
