-- ===== src/Proxy/Resolve.antt =====
-- src/handlers/proxy/resolve.rs: the model a request names, and the upstream that serves it.
-- `UpstreamProvider` is a type parameter with `create_provider` as its constructor. The database's
-- answer to `resolve_model` is an argument; `failed` is a blocking task that timed out or panicked.
use ait.Base.{
  ℕ, Bool, Option, none, some, ◌++◌, Text, codes, Result, ok, err, ltb, is_some_and, if◌then◌else◌,
}
use ait.Base.Table.{Table, get}
use ait.Cache.{Instant, elapsed, negative_cache_ttl, insert_capped, sliding_get}
use ait.Db.{Model, Provider}
use ait.Error
use ait.Error.{DbError, into_response, from_db_error, not_found, internal_error}

pub record Caches (Upstream : Type 0) : Type 0 where
  pub negative_model_cache : Table Instant
  pub model_cache : Table ((Model × Provider) × Instant)
  pub provider_cache : Table (Upstream × Instant)

-- What `run_blocking` returns.
pub data Blocking (A : Type 0) : Type 0 where
  done : A → Blocking A
  failed : Blocking A

abbrev pub no_model : Option Text → Text → Error.Response
no_model request_id model_name =
    not_found request_id (codes "Model '" ++ (model_name ++ codes "' not found or disabled"))

abbrev pub Lookup : Type 0
Lookup = Blocking (Result (Option (Model × Provider)) DbError)

-- The clock at each of its reads in one call.
pub record Clock : Type 0 where
  pub at_negative : Instant
  pub at_cached : Instant
  pub at_provider : Instant
  pub at_model : Instant
  pub at_unknown : Instant

unfoldable pub known_unknown : {Upstream : Type 0} → Caches Upstream → Instant → Text → Bool
known_unknown s now model_name =
    is_some_and (get s.negative_model_cache model_name)
      (λ seen. ltb (elapsed now seen) negative_cache_ttl)

module _ {Upstream : Type 0} (create_provider : Provider → Upstream) (max_entries : ℕ) where
  unfoldable pub on_lookup :
      Caches Upstream
      → Clock
      → Option Text
      → Text
      → Lookup
      → Result (Model × Provider) Error.Response × Caches Upstream
  on_lookup s t request_id model_name (done (ok (some (m, p)))) = (
    ok (m, p),
    record s {
      provider_cache =
          insert_capped (λ e. e.1) s.provider_cache p.id (create_provider p, t.at_provider)
            max_entries;
      model_cache =
          insert_capped (λ e. e.1) s.model_cache model_name ((m, p), t.at_model) max_entries;
    },
  )
  on_lookup s t request_id model_name (done (ok none)) = (
    err (no_model request_id model_name),
    record s {
      negative_model_cache =
          insert_capped (λ e. e) s.negative_model_cache model_name t.at_unknown max_entries;
    },
  )
  on_lookup s t request_id model_name (done (err e)) =
      (err (into_response request_id (from_db_error e)), s)
  on_lookup s t request_id model_name failed = (err (internal_error request_id), s)

  unfoldable pub resolve_model_and_provider :
      Caches Upstream
      → Clock
      → Option Text
      → Text
      → Lookup
      → Result (Model × Provider) Error.Response × Caches Upstream
  unfolding on_lookup known_unknown
  resolve_model_and_provider s t request_id model_name lookup =
      if known_unknown s t.at_negative model_name
      then (err (no_model request_id model_name), s)
      else (let (cached, model_cache) = sliding_get s.model_cache model_name t.at_cached in
          let s' = record s { model_cache = model_cache } in
          elim cached [
            | some found ↦ (ok found, s')
            | none ↦ on_lookup s' t request_id model_name lookup
          ])

  unfoldable pub cached_upstream :
      Caches Upstream → Instant → Instant → Provider → Upstream × Caches Upstream
  cached_upstream s now later provider =
      let (cached, provider_cache) = sliding_get s.provider_cache provider.id now in
      elim cached [
        | some upstream ↦ (upstream, record s { provider_cache = provider_cache })
        | none ↦ (
          create_provider provider,
          record s {
            provider_cache =
                insert_capped (λ e. e.1) provider_cache provider.id
                  (create_provider provider, later) max_entries;
          },
        )
      ]
