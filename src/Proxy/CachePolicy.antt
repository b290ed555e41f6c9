-- ===== src/Proxy/CachePolicy.antt =====
-- src/handlers/proxy/resolve.rs: the bounds of the three caches, and what a failed or repeated
-- resolution does to them.
use ait.Base.{
  ℕ, ◌≤◌, ◌<◌, ◌≡◌, ◌≢◌, refl, ap, ◌∙◌, true, false, Option, none, some, Text, ok, err, length,
  arith, Bool-cases, Option-cases, inl, inr, lt→ltb,
}
use ait.Base.Table.{Table, get, length-insert_old, contains-of-get}
use ait.Cache.{Instant, elapsed, negative_cache_ttl, sliding_get}
use ait.Cache.Bounds.{insert_capped-le, insert_capped-get_self}
use ait.Db.{Model, Provider}
use ait.Error
use ait.Error.{DbError}
use ait.Proxy.Resolve.{
  Caches, done, failed, no_model, Lookup, Clock, on_lookup, known_unknown,
  resolve_model_and_provider,
}

length-sliding_get {ℓ} :
    {A : Type ℓ} (m : Table (A × Instant)) (k : Text) (now : Instant)
    → length (sliding_get m k now).1 ≤ length m
unfolding sliding_get
length-sliding_get m k now = elim (Option-cases (get m k)) [
  | inl missing ↦ ground arith
  | inr ((a, t), hit) ↦
      ground (arith, length-insert_old m k (a, now) (contains-of-get m k (a, t) hit))
]

sliding_get-miss {ℓ} :
    {A : Type ℓ} (m : Table (A × Instant)) (k : Text) (now : Instant)
    → (sliding_get m k now).0 ≡ none
    → (sliding_get m k now).1 ≡ m
unfolding sliding_get
sliding_get-miss m k now h = ground arith

module _ {Upstream : Type 0} (create_provider : Provider → Upstream) (max_entries : ℕ) where
  -- Each of the three caches is within its cap.
  pub record IsBounded (s : Caches Upstream) : Type 0 where
    pub negative : length s.negative_model_cache ≤ max_entries
    pub model : length s.model_cache ≤ max_entries
    pub provider : length s.provider_cache ≤ max_entries

  on_lookup-IsBounded :
      (s : Caches Upstream) (t : Clock) (request_id : Option Text) (name : Text) (lookup : Lookup)
      → IsBounded s
      → IsBounded (on_lookup create_provider max_entries s t request_id name lookup).1
  unfolding on_lookup
  on_lookup-IsBounded s t request_id name (done (ok (some (m, p)))) h = record {
    negative = h.negative;
    model = insert_capped-le _ s.model_cache name _ max_entries h.model;
    provider = insert_capped-le _ s.provider_cache p.id _ max_entries h.provider;
  }
  on_lookup-IsBounded s t request_id name (done (ok none)) h = record {
    negative = insert_capped-le _ s.negative_model_cache name _ max_entries h.negative;
    model = h.model;
    provider = h.provider;
  }
  on_lookup-IsBounded s t request_id name (done (err e)) h = h
  on_lookup-IsBounded s t request_id name failed h = h

  slid : Caches Upstream → Instant → Text → Caches Upstream
  slid s now name = record s { model_cache = (sliding_get s.model_cache name now).1 }

  slid-IsBounded :
      (s : Caches Upstream) (now : Instant) (name : Text)
      → IsBounded s
      → IsBounded (slid s now name)
  unfolding slid
  slid-IsBounded s now name h = record {
    negative = h.negative;
    model = ground (arith, length-sliding_get s.model_cache name now, h.model);
    provider = h.provider;
  }

  slid-miss :
      (s : Caches Upstream) (now : Instant) (name : Text)
      → (sliding_get s.model_cache name now).1 ≡ s.model_cache
      → (slid s now name).model_cache ≡ s.model_cache
  unfolding slid
  slid-miss s now name h = h

  provider_cache-slid :
      (s : Caches Upstream) (now : Instant) (name : Text)
      → (slid s now name).provider_cache ≡ s.provider_cache
  unfolding slid
  provider_cache-slid s now name = refl

  on_lookup-err :
      (s : Caches Upstream) (t : Clock) (request_id : Option Text) (name : Text) (lookup : Lookup)
      (e : Error.Response)
      → (on_lookup create_provider max_entries s t request_id name lookup).0 ≡ err e
      → ((on_lookup create_provider max_entries s t request_id name lookup).1.model_cache
          ≡ s.model_cache)
        × ((on_lookup create_provider max_entries s t request_id name lookup).1.provider_cache
            ≡ s.provider_cache)
  unfolding on_lookup
  on_lookup-err s t request_id name (done (ok (some (m, p)))) e h = cc h
  on_lookup-err s t request_id name (done (ok none)) e h = (refl, refl)
  on_lookup-err s t request_id name (done (err d)) e h = (refl, refl)
  on_lookup-err s t request_id name failed e h = (refl, refl)

  known-on_lookup :
      (s : Caches Upstream) (t : Clock) (request_id : Option Text) (name : Text) (now : Instant)
      → max_entries ≢ 0
      → elapsed now t.at_unknown < negative_cache_ttl
      → known_unknown
          (on_lookup create_provider max_entries s t request_id name (done (ok none))).1
          now
          name
        ≡ true
  unfolding on_lookup known_unknown
  known-on_lookup s t request_id name now cap fresh =
      rw (insert_capped-get_self _ s.negative_model_cache name t.at_unknown max_entries cap)
        (lt→ltb _ _ fresh)

  module _ (s : Caches Upstream) (t : Clock) (request_id : Option Text) (name : Text)
      (lookup : Lookup) where
    -- The three ways through a resolution.
    resolve-known :
        known_unknown s t.at_negative name ≡ true
        → resolve_model_and_provider create_provider max_entries s t request_id name lookup
          ≡ (err (no_model request_id name), s)
    unfolding resolve_model_and_provider
    resolve-known h = rw (h, resolve_model_and_provider)

    resolve-hit :
        (found : Model × Provider)
        → known_unknown s t.at_negative name ≡ false
        → (sliding_get s.model_cache name t.at_cached).0 ≡ some found
        → resolve_model_and_provider create_provider max_entries s t request_id name lookup
          ≡ (ok found, slid s t.at_cached name)
    unfolding resolve_model_and_provider slid
    resolve-hit found h hit = rw (h, resolve_model_and_provider) (rw hit)

    resolve-miss :
        known_unknown s t.at_negative name ≡ false
        → (sliding_get s.model_cache name t.at_cached).0 ≡ none
        → resolve_model_and_provider create_provider max_entries s t request_id name lookup
          ≡ on_lookup create_provider max_entries (slid s t.at_cached name) t request_id name lookup
    unfolding resolve_model_and_provider slid
    resolve-miss h miss = rw (h, resolve_model_and_provider) (rw miss)

    -- A resolution that no other one meets, whatever the database answers, takes no cache past the cap.
    -- For two that meet, see Cache/Race.
    resolve_model_and_provider-IsBounded :
        IsBounded s
        → IsBounded
            (resolve_model_and_provider create_provider max_entries s t request_id name lookup).1
    resolve_model_and_provider-IsBounded h =
        elim (Bool-cases (known_unknown s t.at_negative name)) [
          | inl known ↦ rw (resolve-known known) h
          | inr unknown ↦ elim (Option-cases (sliding_get s.model_cache name t.at_cached).0) [
            | inl miss ↦ rw (resolve-miss unknown miss) (
                on_lookup-IsBounded (slid s t.at_cached name) t request_id name lookup
                  (slid-IsBounded s t.at_cached name h))
            | inr (found, hit) ↦
                rw (resolve-hit found unknown hit) (slid-IsBounded s t.at_cached name h)
          ]
        ]

    -- A request that is refused, for an unknown model or for a database error, leaves the caches of
    -- models and providers exactly as they were: bogus names cannot evict useful entries.
    pub resolve_model_and_provider-err :
        (e : Error.Response)
        → (resolve_model_and_provider create_provider max_entries s t request_id name lookup).0
          ≡ err e
        → ((resolve_model_and_provider create_provider max_entries s t request_id name
              lookup).1.model_cache
            ≡ s.model_cache)
          × ((resolve_model_and_provider create_provider max_entries s t request_id name
                lookup).1.provider_cache
              ≡ s.provider_cache)
    resolve_model_and_provider-err e h = elim (Bool-cases (known_unknown s t.at_negative name)) [
      | inl known ↦ rw (resolve-known known) (refl, refl)
      | inr unknown ↦ elim (Option-cases (sliding_get s.model_cache name t.at_cached).0) [
        | inl miss ↦
            let same = sliding_get-miss s.model_cache name t.at_cached miss in
            let step = resolve-miss unknown miss in
            let (a, b) =
              on_lookup-err (slid s t.at_cached name) t request_id name lookup e (rw step at h) in
            rw step
              (a ∙ slid-miss s t.at_cached name same, b ∙ provider_cache-slid s t.at_cached name)
        | inr (found, hit) ↦ absurd (ground (arith, resolve-hit found unknown hit))
      ]
    ]

  -- After the database has not known a name, the name is refused without asking it again for
  -- `NEGATIVE_CACHE_TTL`, whatever the database says by then.
  pub negative_hit :
      (s : Caches Upstream) (t t' : Clock) (request_id : Option Text) (name : Text)
      (lookup : Lookup)
      → max_entries ≢ 0
      → known_unknown s t.at_negative name ≡ false
      → (sliding_get s.model_cache name t.at_cached).0 ≡ none
      → elapsed t'.at_negative t.at_unknown < negative_cache_ttl
      → (resolve_model_and_provider create_provider max_entries
          (resolve_model_and_provider create_provider max_entries s t request_id name
            (done (ok none))).1
          t'
          request_id
          name
          lookup).0
        ≡ err (no_model request_id name)
  negative_hit s t t' request_id name lookup cap unknown miss fresh =
      rw (resolve-miss s t request_id name (done (ok none)) unknown miss) (
        ap (λ r. r.0)
          (resolve-known _ t' request_id name lookup
            (known-on_lookup (slid s t.at_cached name) t request_id name t'.at_negative cap fresh)))
