-- ===== src/Handlers/Coherent/Resolving.antt =====
-- src/handlers/proxy/resolve.rs over coherent caches: what is resolved is what the tables hold.
use ait.Base.{
  ℕ, ◌≡◌, refl, sym, ap, subst, ◌⊎◌, inl, inr, true, Option, none, some, Text, All, arith,
  Bool-cases, Option-cases, Result, ok, err, ltb,
}
use ait.Base.Table.{Table, get, insert}
use ait.Error
use ait.Cache.{Instant, elapsed, cache_ttl, sliding_get}
use ait.Db.{Model, Provider}
use ait.Store.Rows.{select}
use ait.Store.Schema.{Chrono, Engine, to_storage}
use ait.Store.Models.{resolve_model}
use ait.Store.Providers.{provider_id}
use ait.Proxy.Resolve.{
  Caches, Clock, done, Lookup, no_model, known_unknown, on_lookup, resolve_model_and_provider,
}
use ait.Handlers.Console.{Console}
use ait.Handlers.Coherent.{found, upstream_in, IsCoherent}
use ait.Handlers.Coherent.Entries.{All-insert_capped, All-insert, get-All, found-some}

-- What an uncached lookup answers.
unfoldable pub answer :
    Option Text → Text → Option (Model × Provider) → Result (Model × Provider) Error.Response
answer request_id name none = err (no_model request_id name)
answer request_id name (some pair) = ok pair

module _ {A : Type 0} (P : Text × (A × Instant) → Type 0)
    (timeless : (k : Text) (a : A) (t u : Instant) → P (k, (a, t)) → P (k, (a, u))) where
  sliding_get-cases :
      (m : Table (A × Instant)) (k : Text) (now : Instant)
      → (sliding_get m k now ≡ (none, m))
        ⊎ ((a : A) × (t : Instant) × (get m k ≡ some (a, t))
            × (sliding_get m k now ≡ (some a, insert m k (a, now))))
  unfolding sliding_get
  sliding_get-cases m k now = elim (Option-cases (get m k)) [
    | inl nothing ↦ inl (ground arith)
    | inr ((a, t), there) ↦ elim (Bool-cases (ltb (elapsed now t) cache_ttl)) [
      | inl young ↦ inr (a, t, there, ground arith)
      | inr old ↦ inl (ground arith)
    ]
  ]

  -- A hit has the property at its key, and moves its timestamp only.
  pub All-sliding_get :
      (m : Table (A × Instant)) (k : Text) (now : Instant) → All P m → All P (sliding_get m k now).1
  All-sliding_get m k now h = elim (sliding_get-cases m k now) [
    | inl miss ↦ subst (λ (r : Option A × Table (A × Instant)). All P r.1) (sym miss) h
    | inr (a, t, there, hit) ↦
        subst (λ (r : Option A × Table (A × Instant)). All P r.1) (sym hit)
          (All-insert P m k (a, now) h (timeless k a t now (get-All P m k (a, t) h there)))
  ]

  pub sliding_get-some :
      (m : Table (A × Instant)) (k : Text) (now : Instant) (a : A)
      → All P m
      → (sliding_get m k now).0 ≡ some a
      → P (k, (a, now))
  sliding_get-some m k now a h e = elim (sliding_get-cases m k now) [
    | inl miss ↦ ground arith
    | inr (b, t, there, hit) ↦
        let same : b ≡ a = ground arith in
        subst (λ x. P (k, (x, now))) same (timeless k b t now (get-All P m k (b, t) h there))
  ]

module _ {Upstream : Type 0} (c : Chrono) (create_provider : Provider → Upstream) (max_entries : ℕ)
    (s : Console Upstream) (h : IsCoherent c create_provider s) (t : Clock)
    (request_id : Option Text) (name : Text) where
  abbrev resolved : Lookup → Result (Model × Provider) Error.Response × Caches Upstream
  resolved lookup =
      resolve_model_and_provider create_provider max_entries s.caches t request_id name lookup

  -- The three parts of a coherent state that a resolution may change.
  abbrev Keeps : Caches Upstream → Type 0
  Keeps caches = IsCoherent c create_provider (record s { caches = caches })

  upstream_found :
      (m : Model) (p : Provider)
      → found c s.tables name ≡ some (m, p)
      → upstream_in c create_provider (select provider_id s.tables.providers p.id)
        ≡ some (create_provider p)
  unfolding upstream_in
  upstream_found m p there =
      let (row, is_model, owner, (prow, is_provider, same)) =
        found-some c s.tables name m p h.stored there in
      rw is_provider (ap (λ q. some (create_provider q)) same)

  -- Behind a miss: the answer of the database, which a lookup may fail to give.
  on_lookup-coherent :
      (caches : Caches Upstream) (o : Option (Model × Provider))
      → Keeps caches
      → found c s.tables name ≡ o
      → Keeps (on_lookup create_provider max_entries caches t request_id name (done (ok o))).1
  unfolding on_lookup
  on_lookup-coherent caches none k e = record {
    stored = k.stored;
    models = k.models;
    unknown =
        All-insert_capped _ (λ e. e) caches.negative_model_cache name t.at_unknown max_entries
          k.unknown e;
    upstreams = k.upstreams;
  }
  on_lookup-coherent caches (some (m, p)) k e = record {
    stored = k.stored;
    models =
        All-insert_capped _ (λ e. e.1) caches.model_cache name ((m, p), t.at_model) max_entries
          k.models e;
    unknown = k.unknown;
    upstreams =
        All-insert_capped _ (λ e. e.1) caches.provider_cache p.id (create_provider p, t.at_provider)
          max_entries k.upstreams (upstream_found m p e);
  }

  on_lookup-answer :
      (caches : Caches Upstream) (o : Option (Model × Provider))
      → (on_lookup create_provider max_entries caches t request_id name (done (ok o))).0
        ≡ answer request_id name o
  unfolding on_lookup answer
  on_lookup-answer caches none = refl
  on_lookup-answer caches (some (m, p)) = refl

  slid :
      Keeps
        (record s.caches { model_cache = (sliding_get s.caches.model_cache name t.at_cached).1 })
  slid = record {
    stored = h.stored;
    models =
        All-sliding_get (λ e. found c s.tables e.0 ≡ some e.1.0) (λ k a x y p. p)
          s.caches.model_cache name t.at_cached h.models;
    unknown = h.unknown;
    upstreams = h.upstreams;
  }

  known_unknown-none :
      known_unknown s.caches t.at_negative name ≡ true → found c s.tables name ≡ none
  unfolding known_unknown
  known_unknown-none e = elim (Option-cases (get s.caches.negative_model_cache name)) [
    | inl nothing ↦ ground arith
    | inr (seen, there) ↦
        get-All (λ (e : Text × Instant). found c s.tables e.0 ≡ none) s.caches.negative_model_cache
          name seen h.unknown there
  ]

  on_lookup-keeps :
      (caches : Caches Upstream) (engine : Engine)
      → Keeps caches
      → Keeps
          (on_lookup create_provider max_entries caches t request_id name
            (done (resolve_model c engine s.tables name))).1
  unfolding on_lookup resolve_model to_storage found
  on_lookup-keeps caches engine k = elim (Option-cases engine.query) [
    | inl fine ↦ rw fine (on_lookup-coherent caches (found c s.tables name) k refl)
    | inr (e, broken) ↦ rw broken k
  ]

  -- A resolution, with whatever SQLite answers, keeps the caches coherent.
  pub resolve_model_and_provider-keeps :
      (engine : Engine) → Keeps (resolved (done (resolve_model c engine s.tables name))).1
  unfolding resolve_model_and_provider
  resolve_model_and_provider-keeps engine =
      elim (Bool-cases (known_unknown s.caches t.at_negative name)) [
        | inl unknown ↦ rw unknown h
        | inr open_case ↦
            rw open_case
              (elim (Option-cases (sliding_get s.caches.model_cache name t.at_cached).0) [
                | inl miss ↦ rw miss (on_lookup-keeps _ engine slid)
                | inr (pair, hit) ↦ rw hit slid
              ])
      ]

  -- Over coherent caches the answer to a request is that of a lookup in the database: where SQLite
  -- does not fail, a name resolves to the pair that the join finds for it, and is unknown exactly
  -- when the join finds nothing, whatever the caches hold and whatever the clock shows.
  pub resolve_model_and_provider-eq :
      (engine : Engine)
      → engine.query ≡ none
      → (resolved (done (resolve_model c engine s.tables name))).0
        ≡ answer request_id name (found c s.tables name)
  unfolding resolve_model_and_provider answer resolve_model to_storage found
  resolve_model_and_provider-eq engine fine =
      elim (Bool-cases (known_unknown s.caches t.at_negative name)) [
        | inl unknown ↦ rw (unknown, known_unknown-none unknown) refl
        | inr open_case ↦
            rw open_case
              (elim (Option-cases (sliding_get s.caches.model_cache name t.at_cached).0) [
                | inl miss ↦ rw (miss, fine) (on_lookup-answer _ (found c s.tables name))
                | inr (pair, hit) ↦
                    let there =
                      sliding_get-some (λ e. found c s.tables e.0 ≡ some e.1.0) (λ k a x y p. p)
                        s.caches.model_cache name t.at_cached pair h.models hit in
                    rw (hit, there) refl
              ])
      ]
