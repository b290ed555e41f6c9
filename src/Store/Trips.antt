-- ===== src/Store/Trips.antt =====
-- What the operations of src/db/store/ write is what they read back.
use ait.Base.{
  ℕ, ◌≡◌, refl, inl, inr, Bool, true, false, Option, none, some, List, [], ◌∷◌, ◌++◌, arith, ◌||◌,
  if◌then◌else◌, Bool-cases, Option-cases, Text, text_eq, text_eq_iff, ok,
}
use ait.Db.{
  DateTime, ProviderType, Provider, ApiKey, ApiKeyInfo, to_db, from_db, openai_compat, deepseek,
  zhipu, ollama, llamacpp,
}
use ait.Store.Rows.{select, exists, delete_where}
use ait.Store.Laws.{select-append, select-delete_other, select_unique, select-column}
use ait.Store.Schema.{
  Chrono, Engine, Tables, ApiKeyRow, attempt, to_storage, ts, opt_ts, provider_row, row_to_provider,
  row_to_api_key_info, as_i32, is_nonzero,
}
use ait.Store.Providers.{provider_id, new_provider, insert_provider, get_provider}
use ait.Store.ApiKeys
use ait.Store.ApiKeys.{
  key_id, key_row, opt_timestamp, new_key, generate_api_key, insert_api_key, get_api_key_by_raw,
  delete_api_key,
}
use ait.Store.Stored.{IsStored}

pub from_db-to_db : (t : ProviderType) → from_db (to_db t) ≡ t
unfolding from_db to_db
from_db-to_db openai_compat = refl
from_db-to_db deepseek = refl
from_db-to_db zhipu = refl
from_db-to_db ollama = refl
from_db-to_db llamacpp = refl

pub is_nonzero-as_i32 : (b : Bool) → is_nonzero (as_i32 b) ≡ b
is_nonzero-as_i32 true = refl
is_nonzero-as_i32 false = refl

-- A provider with its instants cut to what a column of seconds keeps.
abbrev pub in_seconds : Chrono → Provider → Provider
in_seconds c p = record p {
  created_at = ts c (c.timestamp p.created_at);
  updated_at = ts c (c.timestamp p.updated_at);
}

row_to_provider-provider_row :
    (c : Chrono) (p : Provider) → row_to_provider c (provider_row c p) ≡ in_seconds c p
unfolding row_to_provider provider_row
row_to_provider-provider_row c p =
    rw (from_db-to_db p.provider_type, is_nonzero-as_i32 p.enabled) refl

-- A success has appended the row, and its id was not taken.
insert_provider-ok :
    (c : Chrono) (engine : Engine) (uuid : Text) (now : DateTime) (db after : Tables)
    (given p : Provider)
    → insert_provider c engine uuid now db given ≡ (after, ok p)
    → (after.providers ≡ db.providers ++ provider_row c p ∷ [])
      × (exists provider_id db.providers (provider_row c p).id ≡ false)
unfolding insert_provider attempt provider_row
insert_provider-ok c engine uuid now db after given p h = elim (Option-cases engine.execute) [
  | inr (e, failed) ↦ ground arith
  | inl fine ↦
      elim (Bool-cases (exists provider_id db.providers (new_provider uuid now given).id)) [
        | inl taken ↦ ground arith
        | inr free ↦ ground arith
      ]
]

module _ (c : Chrono) (engine reader : Engine) (healthy : reader.query ≡ none) where
  -- When `insert_provider` reports a provider, then `get_provider` on the tables it left, in a query
  -- that does not fail, reads that provider under its id, field by field, with the two instants cut
  -- to seconds, and reads under every other id what it read before.
  pub insert_provider-get :
      (uuid : Text) (now : DateTime) (db after : Tables) (given p : Provider) (id : Text)
      → insert_provider c engine uuid now db given ≡ (after, ok p)
      → get_provider c reader after id
        ≡ (if text_eq p.id id then ok (some (in_seconds c p)) else get_provider c reader db id)
  unfolding get_provider to_storage provider_row
  insert_provider-get uuid now db after given p id h =
      let (written, free) = insert_provider-ok c engine uuid now db after given p h in
      rw (healthy, written, select-append provider_id db.providers (provider_row c p) id free)
        (elim (Bool-cases (text_eq p.id id)) [
          | inl same ↦ rw same (rw (row_to_provider-provider_row c p) refl)
          | inr other ↦ rw other refl
        ])

-- What a lookup is told about a new key.
abbrev pub info_of : Chrono → ApiKey → ApiKeyInfo
info_of c k = record {
  id = k.id;
  name = k.name;
  enabled = true;
  expires_at = opt_ts c (opt_timestamp c k.expires_at);
  created_at = ts c (c.timestamp k.created_at);
}

row_to_api_key_info-key_row :
    (c : Chrono) (k : ApiKey) → row_to_api_key_info c (key_row c k) ≡ info_of c k
unfolding row_to_api_key_info key_row
row_to_api_key_info-key_row c k = refl

module _ (hash_key : Text → Text) (c : Chrono) (engine : Engine) where
  -- A success has appended the row of the raw key's hash, which was not taken.
  insert_api_key-ok :
      (draws : List ℕ) (uuid : Text) (now : DateTime) (db after : Tables) (name : Text)
      (expires_at : Option DateTime) (k : ApiKey) (raw : Text)
      → insert_api_key hash_key c engine draws uuid now db name expires_at ≡ (after, ok (k, raw))
      → (after.api_keys ≡ db.api_keys ++ key_row c k ∷ [])
        × (exists ApiKeys.key_hash db.api_keys (key_row c k).key_hash ≡ false)
        × ((key_row c k).key_hash ≡ hash_key raw)
  unfolding insert_api_key attempt key_row new_key
  insert_api_key-ok draws uuid now db after name expires_at k raw h =
      let new = new_key hash_key (generate_api_key draws) uuid now name expires_at in
      let taken = exists key_id db.api_keys new.id || exists ApiKeys.key_hash db.api_keys new.key in
      elim (Option-cases engine.begin) [
        | inr (e, failed) ↦ ground arith
        | inl begun ↦ elim (Option-cases engine.execute) [
          | inr (e, failed) ↦ ground arith
          | inl fine ↦ elim (Option-cases engine.commit) [
            | inr (e, failed) ↦ ground arith
            | inl committed ↦ ground arith
          ]
        ]
      ]

  delete_api_key-ok :
      (db after : Tables) (id hash : Text)
      → delete_api_key c engine db id ≡ (after, ok hash)
      → (row : ApiKeyRow) × (select key_id db.api_keys id ≡ some row)
        × (row.key_hash ≡ hash)
        × (after.api_keys ≡ delete_where key_id db.api_keys id)
  unfolding delete_api_key attempt
  delete_api_key-ok db after id hash h = elim (Option-cases (select key_id db.api_keys id)) [
    | inl absent ↦ ground arith
    | inr (row, found) ↦ (row, ground arith, ground arith, ground arith)
  ]

module _ (hash_key : Text → Text) (c : Chrono) (engine reader : Engine)
    (healthy : reader.query ≡ none) where
  -- When `insert_api_key` reports a key and its raw text, then `get_api_key_by_raw` on the tables it
  -- left, in a query that does not fail, finds that key, enabled and with its expiry in seconds, for
  -- every token with the hash of the raw text, and answers for every other token as before.
  pub insert_api_key-get :
      (draws : List ℕ) (uuid : Text) (now : DateTime) (db after : Tables) (name : Text)
      (expires_at : Option DateTime) (k : ApiKey) (raw token : Text)
      → insert_api_key hash_key c engine draws uuid now db name expires_at ≡ (after, ok (k, raw))
      → get_api_key_by_raw hash_key c reader after token ≡ (
          if text_eq (hash_key raw) (hash_key token)
          then ok (some (info_of c k))
          else get_api_key_by_raw hash_key c reader db token)
  unfolding get_api_key_by_raw to_storage row_to_api_key_info opt_ts ts
  insert_api_key-get draws uuid now db after name expires_at k raw token h =
      let (written, free, same_hash) =
        insert_api_key-ok hash_key c engine draws uuid now db after name expires_at k raw h in
      rw
        (
          healthy,
          written,
          select-append ApiKeys.key_hash db.api_keys (key_row c k) (hash_key token) free,
          same_hash,
        )
        (elim (Bool-cases (text_eq (hash_key raw) (hash_key token))) [
          | inl same ↦ rw same (rw (row_to_api_key_info-key_row c k) refl)
          | inr other ↦ rw other refl
        ])

  -- In stored tables, when `delete_api_key` reports the hash of the key that it deleted, then
  -- `get_api_key_by_raw` on the tables it left, in a query that does not fail, finds no key for any
  -- token with that hash, and answers for every other token as before.
  pub delete_api_key-get :
      (db after : Tables) (id hash token : Text)
      → IsStored db
      → delete_api_key c engine db id ≡ (after, ok hash)
      → get_api_key_by_raw hash_key c reader after token ≡ (
          if text_eq hash (hash_key token)
          then ok none
          else get_api_key_by_raw hash_key c reader db token)
  unfolding get_api_key_by_raw to_storage
  delete_api_key-get db after id hash token (_, _, (ids, hashes)) h =
      let (row, found, is_hash, written) = delete_api_key-ok hash_key c engine db after id hash h in
      let here = select_unique key_id ApiKeys.key_hash db.api_keys id row hashes found in
      rw
        (
          healthy,
          written,
          select-delete_other key_id ApiKeys.key_hash db.api_keys id (hash_key token) hashes,
        )
        (elim (Option-cases (select ApiKeys.key_hash db.api_keys (hash_key token))) [
          | inl nothing ↦ ground arith
          | inr (other, there) ↦ ground (
            arith,
            here,
            is_hash,
            text_eq_iff hash (hash_key token),
            text_eq_iff other.id id,
            select-column key_id db.api_keys id row found,
            select-column ApiKeys.key_hash db.api_keys (hash_key token) other there,
            select_unique ApiKeys.key_hash key_id db.api_keys (hash_key token) other ids there,
          )
        ])
