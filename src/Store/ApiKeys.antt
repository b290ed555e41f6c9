-- ===== src/Store/ApiKeys.antt =====
-- src/db/store/apikeys.rs: the rows of API keys. `hash_key` (SHA-256), the random numbers, the new
-- id and the clock are arguments.
use ait.Base.{
  ℕ, zero, true, Option, none, some, List, [], ◌∷◌, ◌++◌, map, Text, codes, Result, ok, err, ◌||◌,
  if◌then◌else◌, get_elem?,
}
use ait.Base.Int.{ℤ, pos, leb_ℤ}
use ait.Error.{DbError, not_found_error, storage}
use ait.Db.{DateTime, ApiKey, ApiKeyInfo, ApiKeyUpdate}
use ait.Proxy.Request.{mask_api_key}
use ait.Store.Rows.{select, exists, update_where, delete_where, order_by}
use ait.Store.Schema.{
  Chrono, Engine, Tables, ApiKeyRow, to_storage, attempt, patched, as_i32, row_to_api_key,
  row_to_api_key_info,
}

abbrev pub key_id : ApiKeyRow → Text
key_id row = row.id

abbrev pub key_hash : ApiKeyRow → Text
key_hash row = row.key_hash

abbrev pub chars : Text
chars = codes "abcdefghijklmnopqrstuvwxyzABCDEFGHIJKLMNOPQRSTUVWXYZ0123456789"

-- `rng.random_range(0..CHARS.len())`, one draw for each character.
unfoldable pub generate_random_string : List ℕ → Text
generate_random_string [] = []
generate_random_string (draw ∷ draws) = elim (get_elem? chars draw) [
  | none ↦ generate_random_string draws
  | some c ↦ c ∷ generate_random_string draws
]

unfoldable pub generate_api_key : List ℕ → Text
unfolding generate_random_string
generate_api_key draws = codes "sk-" ++ generate_random_string draws

abbrev pub no_api_key : DbError
no_api_key = not_found_error (codes "API key not found")

-- `None` keeps the stored expiry, the epoch clears it.
unfoldable pub patch_expires_at : Chrono → Option DateTime → Option DateTime → Option DateTime
patch_expires_at c none stored = stored
patch_expires_at c (some at) stored = elim (c.timestamp at) [ pos zero ↦ none | _ ↦ some at ]

abbrev pub opt_timestamp : Chrono → Option DateTime → Option ℤ
opt_timestamp c none = none
opt_timestamp c (some at) = some (c.timestamp at)

unfoldable pub patch_key : Chrono → ApiKeyUpdate → DateTime → ApiKey → ApiKey
unfolding patch_expires_at
patch_key c updates now k = record k {
  name = patched updates.name k.name;
  enabled = patched updates.enabled k.enabled;
  expires_at = patch_expires_at c updates.expires_at k.expires_at;
  updated_at = now;
}

-- The columns that the UPDATE sets.
unfoldable pub set_key : Chrono → ApiKey → ApiKeyRow → ApiKeyRow
set_key c k row = record row {
  name = k.name;
  enabled = as_i32 k.enabled;
  expires_at = opt_timestamp c k.expires_at;
  updated_at = c.timestamp k.updated_at;
}

module _ (hash_key : Text → Text) where
  unfoldable pub new_key : Text → Text → DateTime → Text → Option DateTime → ApiKey
  new_key raw_key uuid now name expires_at = record {
    id = uuid;
    key = hash_key raw_key;
    display = mask_api_key raw_key;
    name = name;
    created_at = now;
    updated_at = now;
    enabled = true;
    expires_at = expires_at;
  }

-- The values that the INSERT binds.
unfoldable pub key_row : Chrono → ApiKey → ApiKeyRow
key_row c k = record {
  id = k.id;
  key_hash = k.key;
  display = k.display;
  name = k.name;
  enabled = 1;
  created_at = c.timestamp k.created_at;
  updated_at = c.timestamp k.updated_at;
  expires_at = opt_timestamp c k.expires_at;
}

module _ (hash_key : Text → Text) (c : Chrono) (engine : Engine) where
  unfoldable pub insert_api_key :
      List ℕ
      → Text
      → DateTime
      → Tables
      → Text
      → Option DateTime
      → Tables × Result (ApiKey × Text) DbError
  unfolding attempt
  insert_api_key draws uuid now db name expires_at =
      let raw_key = generate_api_key draws in
      let k = new_key hash_key raw_key uuid now name expires_at in
      attempt engine.begin db (
        attempt engine.execute db (
          if exists key_id db.api_keys k.id || exists key_hash db.api_keys k.key
          then (db, err (storage engine.constraint))
          else attempt engine.commit db
              (record db { api_keys = db.api_keys ++ key_row c k ∷ [] }, ok (k, raw_key))))

  unfoldable pub get_api_key_by_raw : Tables → Text → Result (Option ApiKeyInfo) DbError
  unfolding to_storage
  get_api_key_by_raw db api_key = to_storage engine.query (
      ok (elim (select key_hash db.api_keys (hash_key api_key)) [
        | none ↦ none
        | some row ↦ some (row_to_api_key_info c row)
      ]))

module _ (c : Chrono) (engine : Engine) where
  unfoldable pub list_api_keys : Tables → Result (List ApiKey) DbError
  unfolding to_storage order_by
  list_api_keys db =
      to_storage engine.query (
        ok (map (row_to_api_key c) (order_by (λ a b. leb_ℤ a.created_at b.created_at) db.api_keys)))

  -- Two statements without a transaction.
  unfoldable pub delete_api_key : Tables → Text → Tables × Result Text DbError
  unfolding attempt
  delete_api_key db id = attempt engine.query db (elim (select key_id db.api_keys id) [
    | none ↦ (db, err no_api_key)
    | some row ↦
        attempt engine.execute db
          (record db { api_keys = delete_where key_id db.api_keys id }, ok row.key_hash)
  ])

  unfoldable pub write_key : Tables → ApiKey → Tables × Result (ApiKey × Text) DbError
  unfolding attempt
  write_key db k = attempt engine.execute db (
      attempt engine.commit db (
        record db { api_keys = update_where key_id db.api_keys k.id (set_key c k) },
        ok (k, k.key),
      ))

  unfoldable pub update_api_key :
      DateTime → Tables → ApiKeyUpdate → Tables × Result (ApiKey × Text) DbError
  unfolding attempt
  update_api_key now db updates = attempt engine.begin db (
      attempt engine.query db (elim (select key_id db.api_keys updates.id) [
        | none ↦ (db, err no_api_key)
        | some row ↦ write_key db (patch_key c updates now (row_to_api_key c row))
      ]))
