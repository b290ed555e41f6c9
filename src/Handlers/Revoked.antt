-- ===== src/Handlers/Revoked.antt =====
-- src/handlers/apikeys.rs and src/middleware.rs together: requests with a key whose deletion the
-- console has answered, when no lookup is in flight. Middleware/Race has the other interleavings.
use ait.Base.{
  ◌≡◌, refl, ◌∙◌, inl, inr, Bool-cases, true, Option, none, some, Text, text_eq_iff, ok, err, arith,
}
use ait.Base.Table.{get, get-remove}
use ait.Db.{DateTime}
use ait.Cache.{Instant}
use ait.Handlers.Console.{Console, Platform, Call, settled, on_database, log_audit}
use ait.Handlers.ApiKeys.{delete_api_key, on_deleted}
use ait.Middleware.Auth.{
  AuthState, Begun, answered, look_up, invalid, known_invalid, begin, try_cache,
  extract_bearer_token, evict_deleted, bump_revision,
}
use ait.Store.ApiKeys
use ait.Store.ApiKeys.{key_id, get_api_key_by_raw}
use ait.Store.Rows.{select}
use ait.Store.Schema.{Engine, Tables, ApiKeyRow, attempt}
use ait.Store.Stored.{IsStored}
use ait.Store.Trips.{delete_api_key-get}

module _ {Upstream : Type 0} (platform : Platform) (call : Call) (s : Console Upstream) (key : Text)
    (row : ApiKeyRow) where
  -- A deletion that succeeded found a row under the id, and then the key cache has nothing under the
  -- row's hash.
  delete_api_key-uncached :
      select key_id s.tables.api_keys key ≡ some row
      → (delete_api_key platform call s key).0 ≡ ok tt
      → get (delete_api_key platform call s key).1.auth.api_key_cache row.key_hash ≡ none
  unfolding delete_api_key on_database settled on_deleted ApiKeys.delete_api_key attempt log_audit
      evict_deleted bump_revision
  delete_api_key-uncached found h = ground (
    arith,
    get-remove s.auth.api_key_cache row.key_hash row.key_hash,
    text_eq_iff row.key_hash row.key_hash,
  )

  -- And the store reported that row's hash.
  delete_api_key-reported :
      select key_id s.tables.api_keys key ≡ some row
      → (delete_api_key platform call s key).0 ≡ ok tt
      → ApiKeys.delete_api_key platform.chrono call.engine s.tables key
        ≡ ((delete_api_key platform call s key).1.tables, ok row.key_hash)
  unfolding delete_api_key on_database settled on_deleted ApiKeys.delete_api_key attempt log_audit
      evict_deleted bump_revision
  delete_api_key-reported found h = ground arith

-- The middleware refuses a token: at once, or after a lookup that finds no key.
abbrev pub Refuses :
    (Text → Text) → Platform → Engine → Tables → Option Text → Text → Begun → Type 0
Refuses hash_key platform reader db request_id token (answered r) = r ≡ err (invalid request_id)
Refuses hash_key platform reader db request_id token (look_up hash revision) =
    get_api_key_by_raw hash_key platform.chrono reader db token ≡ ok none

module _ (hash_key : Text → Text) (platform : Platform) (reader : Engine) where
  begin-Refuses :
      (db : Tables) (request_id : Option Text) (utc_now : DateTime) (s : AuthState) (now : Instant)
      (authorization : Option Text) (token : Text)
      → extract_bearer_token authorization ≡ some token
      → get s.api_key_cache (hash_key token) ≡ none
      → get_api_key_by_raw hash_key platform.chrono reader db token ≡ ok none
      → Refuses hash_key platform reader db request_id token
          (begin hash_key true request_id utc_now s now authorization).0
  unfolding begin try_cache
  begin-Refuses db request_id utc_now s now authorization token bearer uncached gone =
      rw bearer (elim (Bool-cases (known_invalid s now (hash_key token))) [
        | inl known ↦ rw known refl
        | inr unknown ↦ rw (unknown, uncached, try_cache) gone
      ])

  -- When the tables are stored ones with a row under an id, and the handler of a deletion of that id
  -- reports success, then on the state that it left `auth_middleware`, with authentication enabled,
  -- refuses every token of the row's hash: it answers 401 from the caches, or it looks the token up,
  -- and a query that does not fail finds no key.
  pub delete_api_key-Refuses :
      {Upstream : Type 0}
      → (call : Call) (s : Console Upstream) (key : Text) (row : ApiKeyRow)
        (request_id : Option Text) (utc_now : DateTime) (now : Instant)
        (authorization : Option Text) (token : Text)
      → reader.query ≡ none
      → IsStored s.tables
      → select key_id s.tables.api_keys key ≡ some row
      → (delete_api_key platform call s key).0 ≡ ok tt
      → extract_bearer_token authorization ≡ some token
      → hash_key token ≡ row.key_hash
      → Refuses hash_key platform reader
          (delete_api_key platform call s key).1.tables
          request_id
          token
          (begin hash_key true request_id utc_now
            (delete_api_key platform call s key).1.auth
            now
            authorization).0
  delete_api_key-Refuses call s key row request_id utc_now now authorization token healthy stored
        found h bearer same =
      let after = (delete_api_key platform call s key).1 in
      begin-Refuses after.tables request_id utc_now after.auth now authorization token bearer
        (rw same (delete_api_key-uncached platform call s key row found h))
        (delete_api_key-get hash_key platform.chrono call.engine reader healthy s.tables
            after.tables key row.key_hash token stored
            (delete_api_key-reported platform call s key row found h)
          ∙ ground (arith, text_eq_iff row.key_hash (hash_key token)))
