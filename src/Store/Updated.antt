-- ===== src/Store/Updated.antt =====
-- src/db/store/apikeys.rs, update_api_key: which columns an update changes, as the lookup of
-- src/middleware.rs reads them.
use ait.Base.{
  ◌≡◌, refl, inl, inr, Option, none, some, List, [], ◌∷◌, arith, if◌then◌else◌, Option-cases, Text,
  text_eq, text_eq_iff, ok, zero,
}
use ait.Base.Int.{pos}
use ait.Db.{DateTime, ApiKey, ApiKeyInfo, ApiKeyUpdate}
use ait.Store.Rows.{select, update_where}
use ait.Store.Laws.{select_unique, select-column}
use ait.Store.Schema.{
  Chrono, Engine, Tables, ApiKeyRow, attempt, to_storage, ts, opt_ts, row_to_api_key,
  row_to_api_key_info, patched, is_nonzero,
}
use ait.Store.ApiKeys
use ait.Store.ApiKeys.{
  key_id, patch_key, patch_expires_at, set_key, write_key, update_api_key, get_api_key_by_raw,
  opt_timestamp,
}
use ait.Store.Stored.{IsStored}
use ait.Store.Trips.{is_nonzero-as_i32}

-- The expiry after an update: the new one, in seconds, but none for the epoch; without a new one, the
-- old one in seconds.
abbrev pub expiry_after : Chrono → Option DateTime → Option DateTime → Option DateTime
expiry_after c none none = none
expiry_after c none (some old) = some (ts c (c.timestamp old))
expiry_after c (some new) old = elim (c.timestamp new) [
  | pos zero ↦ none
  | _ ↦ some (ts c (c.timestamp new))
]

abbrev pub new_or {ℓ} : {A : Type ℓ} → Option A → A → A
new_or none old = old
new_or (some new) old = new

abbrev pub info_after : Chrono → ApiKeyUpdate → ApiKeyInfo → ApiKeyInfo
info_after c updates old = record old {
  name = new_or updates.name old.name;
  enabled = new_or updates.enabled old.enabled;
  expires_at = expiry_after c updates.expires_at old.expires_at;
}

expiry-patch_expires_at :
    (c : Chrono) (new old : Option DateTime)
    → opt_ts c (opt_timestamp c (patch_expires_at c new old)) ≡ expiry_after c new old
unfolding opt_ts patch_expires_at
expiry-patch_expires_at c none none = refl
expiry-patch_expires_at c none (some old) = refl
expiry-patch_expires_at c (some new) old = ground arith

patched-new_or : {A : Type 0} → (new : Option A) (old : A) → patched new old ≡ new_or new old
patched-new_or none old = refl
patched-new_or (some new) old = refl

row_to_api_key_info-set_key :
    (c : Chrono) (updates : ApiKeyUpdate) (now : DateTime) (row : ApiKeyRow)
    → row_to_api_key_info c (set_key c (patch_key c updates now (row_to_api_key c row)) row)
      ≡ info_after c updates (row_to_api_key_info c row)
unfolding row_to_api_key_info set_key patch_key row_to_api_key
row_to_api_key_info-set_key c updates now row =
    let k = patch_key c updates now (row_to_api_key c row) in
    rw
      (
        is_nonzero-as_i32 k.enabled,
        expiry-patch_expires_at c updates.expires_at (opt_ts c row.expires_at),
        patched-new_or updates.name row.name,
        patched-new_or updates.enabled (is_nonzero row.enabled),
      )
      refl

-- An update by one column, seen through another that it keeps.
module _ {ℓ} {R : Type ℓ} (column other : R → Text) (f : R → R)
    (kept : (r : R) → other (f r) ≡ other r) where
  select-update_other :
      (rows : List R) (k j : Text)
      → select other (update_where column rows k f) j ≡ (elim (select other rows j) [
        | none ↦ none
        | some r ↦ some (if text_eq (column r) k then f r else r)
      ])
  unfolding select update_where
  select-update_other [] k j = refl
  select-update_other (x ∷ rows) k j = ground (arith, select-update_other rows k j, kept x)

update_api_key-ok :
    (c : Chrono) (engine : Engine) (now : DateTime) (db after : Tables) (updates : ApiKeyUpdate)
    (k : ApiKey) (hash : Text)
    → update_api_key c engine now db updates ≡ (after, ok (k, hash))
    → (row : ApiKeyRow) × (select key_id db.api_keys updates.id ≡ some row)
      × (row.key_hash ≡ hash)
      × (after.api_keys
          ≡ update_where key_id db.api_keys row.id
              (set_key c (patch_key c updates now (row_to_api_key c row))))
unfolding update_api_key attempt write_key patch_key row_to_api_key
update_api_key-ok c engine now db after updates k hash h =
    elim (Option-cases (select key_id db.api_keys updates.id)) [
      | inl absent ↦ ground arith
      | inr (row, found) ↦ (row, ground arith, ground arith, ground arith)
    ]

key_hash-set_key :
    (c : Chrono) (k : ApiKey) (row : ApiKeyRow) → (set_key c k row).key_hash ≡ row.key_hash
unfolding set_key
key_hash-set_key c k row = refl

-- In stored tables, when `update_api_key` reports a key and the hash of its row, then that row had the
-- id of the update, and `get_api_key_by_raw` on the tables it left, in a query that does not fail,
-- answers for every token of the hash as before, but with the name, the flag and the expiry that the
-- update gives, and for every other token as before. An expiry is kept in seconds.
pub update_api_key-get :
    (hash_key : Text → Text) (c : Chrono) (engine reader : Engine) (now : DateTime)
    (db after : Tables) (updates : ApiKeyUpdate) (k : ApiKey) (hash token : Text)
    → reader.query ≡ none
    → IsStored db
    → update_api_key c engine now db updates ≡ (after, ok (k, hash))
    → (row : ApiKeyRow) × (select key_id db.api_keys updates.id ≡ some row)
      × (row.key_hash ≡ hash)
      × (get_api_key_by_raw hash_key c reader after token ≡ (
          if text_eq hash (hash_key token)
          then ok (some (info_after c updates (row_to_api_key_info c row)))
          else get_api_key_by_raw hash_key c reader db token))
unfolding get_api_key_by_raw to_storage
update_api_key-get hash_key c engine reader now db after updates k hash token healthy
      (_, _, (ids, hashes)) h =
    let (row, found, is_hash, written) = update_api_key-ok c engine now db after updates k hash h in
    let new = patch_key c updates now (row_to_api_key c row) in
    let here = select_unique key_id ApiKeys.key_hash db.api_keys updates.id row hashes found in
    (
      row,
      found,
      is_hash,
      rw
          (
            healthy,
            written,
            select-update_other key_id ApiKeys.key_hash (set_key c new) (key_hash-set_key c new)
                db.api_keys row.id (hash_key token),
          )
          (elim (Option-cases (select ApiKeys.key_hash db.api_keys (hash_key token))) [
            | inl nothing ↦ ground (arith, here, is_hash, text_eq_iff hash (hash_key token))
            | inr (other, there) ↦ ground (
              arith,
              here,
              is_hash,
              text_eq_iff hash (hash_key token),
              text_eq_iff other.id row.id,
              row_to_api_key_info-set_key c updates now row,
              select-column ApiKeys.key_hash db.api_keys (hash_key token) other there,
              select_unique ApiKeys.key_hash key_id db.api_keys (hash_key token) other ids there,
              select-column key_id db.api_keys updates.id row found,
            )
          ]),
    )
