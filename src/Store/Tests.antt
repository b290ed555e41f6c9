-- ===== src/Store/Tests.antt =====
-- src/db/store/: runs of the operations on small tables.
use ait.Base.{
  ℕ, ◌*◌, ◌/◌, ◌<◌, ◌≡◌, ◌≢◌, ◌↔◌, refl, true, Option, none, some, List, [], ◌∷◌, Text, codes, ok,
  text_eq, if◌then◌else◌, arith,
}
use ait.Base.Int.{ℤ, pos, negsuc}
use ait.Db.{DateTime, Provider, Model, ApiKey, openai_compat}
use ait.Store.Rows
use ait.Store.Schema.{Chrono, Engine, Tables, provider_row}
use ait.Store.Providers.{insert_provider, get_provider, new_provider}
use ait.Store.Models.{resolve_model}
use ait.Store.ApiKeys.{
  insert_api_key, get_api_key_by_raw, delete_api_key, new_key, key_row, generate_api_key,
}
use ait.Store.Commands.{Command, run, empty}
use ait.Store.Stored.{IsStored}
use ait.Base.{false}
use ait.Store.Updated.{info_after, update_api_key-get}
use ait.Store.ApiKeys.{key_id, patch_key, set_key, write_key, update_api_key}
use ait.Store.Schema.{ApiKeyRow, attempt, row_to_api_key, row_to_api_key_info}
use ait.Db.{ApiKeyUpdate}
use ait.Store.Stored.Runs.{run-IsStored}
use ait.Store.View.{View, Shows, replay}
use ait.Store.View.Refines.{run_refines}
use ait.Store.Resolved.{Resolves, resolve_model_iff}
use ait.Store.Readers.{TryLock, acquired, would_block, guard, lock_reader, lock_reader-guard}
use ait.Store.Trips.{
  in_seconds, info_of, insert_provider-get, insert_api_key-get, delete_api_key-get,
}

abbrev pub timestamp : DateTime → ℤ
timestamp (pos n) = pos (n / 1_000_000_000)
timestamp (negsuc n) = negsuc (n / 1_000_000_000)

abbrev pub from_timestamp : ℤ → Option DateTime
from_timestamp (pos n) = some (pos (n * 1_000_000_000))
from_timestamp (negsuc n) = none

abbrev pub chrono : Chrono
chrono = record { timestamp = timestamp; from_timestamp = from_timestamp; unix_epoch = pos 0 }

abbrev pub engine : Engine
engine = record {
  begin = none;
  query = none;
  execute = none;
  commit = none;
  constraint = codes "UNIQUE constraint failed";
}

abbrev given : Provider
given = record {
  id = codes "p1";
  name = codes "local";
  provider_type = openai_compat;
  base_url = codes "http://a.example/";
  api_key = none;
  enabled = true;
  created_at = pos 0;
  updated_at = pos 0;
}

abbrev given_model : Model
given_model = record {
  id = [];
  name = codes "m";
  provider_id = codes "p1";
  upstream_model = codes "u";
  enabled = true;
  created_at = pos 0;
  updated_at = pos 0;
}

abbrev noon : DateTime
noon = pos 43_200_000_000_007

abbrev pub hash : Text → Text
hash raw = raw

abbrev draws : List ℕ
draws = 0 ∷ 27 ∷ 61 ∷ []

abbrev commands : List (Engine × Command)
commands =
    (engine, Command.insert_provider (codes "u1") noon given)
    ∷ (engine, Command.insert_model (codes "u2") noon given_model)
    ∷ (engine, Command.insert_api_key draws (codes "u3") noon (codes "key") none)
    ∷ []

empty-IsStored : IsStored empty
empty-IsStored = ((tt, tt), (tt, tt, tt, tt), (tt, tt))

abbrev stored : Tables
stored = run hash chrono commands empty

run-IsStored_example : IsStored (run hash chrono commands empty)
run-IsStored_example = run-IsStored hash chrono commands empty empty-IsStored

abbrev nothing : View
nothing = record { provider = λ _. none; model = λ _. none; api_key = λ _. none }

empty-Shows : Shows empty nothing
unfolding Rows.select
empty-Shows = ((λ id. refl), (λ name. refl), (λ id. refl))

run_refines_example :
    Shows (run hash chrono commands empty) (replay hash chrono commands empty nothing)
run_refines_example = run_refines hash chrono commands empty nothing empty-IsStored empty-Shows

stored-IsStored : IsStored stored
stored-IsStored = run-IsStored hash chrono commands empty empty-IsStored

abbrev noon_in_seconds : DateTime
noon_in_seconds = pos 43_200_000_000_000

abbrev stored_model : Model
stored_model = record given_model {
  id = codes "u2";
  created_at = noon_in_seconds;
  updated_at = noon_in_seconds;
}

abbrev stored_provider : Provider
stored_provider = record given { created_at = noon_in_seconds; updated_at = noon_in_seconds }

resolve_model_iff_example :
    (resolve_model chrono engine stored (codes "m") ≡ ok (some (stored_model, stored_provider)))
    ↔ Resolves chrono engine stored (codes "m") stored_model stored_provider
resolve_model_iff_example =
    resolve_model_iff chrono engine stored (codes "m") stored_model stored_provider stored-IsStored

abbrev inserted : Provider
inserted = record given { created_at = noon; updated_at = noon }

abbrev with_provider : Tables
with_provider = record empty { providers = provider_row chrono inserted ∷ [] }

insert_provider-made :
    insert_provider chrono engine (codes "u1") noon empty given ≡ (with_provider, ok inserted)
unfolding insert_provider new_provider Rows.exists
insert_provider-made = refl

insert_provider-get_example : get_provider chrono engine with_provider (codes "p1") ≡ (
    if text_eq (codes "p1") (codes "p1")
    then ok (some (in_seconds chrono inserted))
    else get_provider chrono engine empty (codes "p1"))
insert_provider-get_example =
    insert_provider-get chrono engine engine refl (codes "u1") noon empty with_provider given
      inserted (codes "p1") insert_provider-made

abbrev pub raw_key : Text
raw_key = generate_api_key draws

abbrev pub api_key : ApiKey
api_key = new_key hash raw_key (codes "u3") noon (codes "key") none

abbrev pub with_key : Tables
with_key = record empty { api_keys = key_row chrono api_key ∷ [] }

insert_api_key-made :
    insert_api_key hash chrono engine draws (codes "u3") noon empty (codes "key") none
    ≡ (with_key, ok (api_key, raw_key))
unfolding insert_api_key Rows.exists
insert_api_key-made = refl

insert_api_key-get_example : get_api_key_by_raw hash chrono engine with_key raw_key ≡ (
    if text_eq raw_key raw_key
    then ok (some (info_of chrono api_key))
    else get_api_key_by_raw hash chrono engine empty raw_key)
insert_api_key-get_example =
    insert_api_key-get hash chrono engine engine refl draws (codes "u3") noon empty with_key
      (codes "key") none api_key raw_key raw_key insert_api_key-made

delete_api_key-made : delete_api_key chrono engine with_key (codes "u3") ≡ (empty, ok raw_key)
unfolding delete_api_key new_key key_row Rows.select Rows.delete_where text_eq
delete_api_key-made = refl

pub with_key-IsStored : IsStored with_key
unfolding Rows.exists
with_key-IsStored = ((tt, tt), (tt, tt, tt, tt), ((refl, tt), (refl, tt)))

delete_api_key-get_example : get_api_key_by_raw hash chrono engine empty raw_key ≡ (
    if text_eq raw_key raw_key
    then ok none
    else get_api_key_by_raw hash chrono engine with_key raw_key)
delete_api_key-get_example =
    delete_api_key-get hash chrono engine engine refl with_key empty (codes "u3") raw_key raw_key
      with_key-IsStored delete_api_key-made

second_usable : acquired ≢ would_block
second_usable e = ground arith

abbrev always : ℕ → TryLock
always i = acquired

lock_reader-guard_example :
    (index : ℕ) × (lock_reader 4 always 7 ≡ guard index)
    × (index < 4)
    × (always index ≢ would_block)
lock_reader-guard_example = lock_reader-guard 4 always 7 (omega arith) 1 (omega arith) second_usable

abbrev disabling : ApiKeyUpdate
disabling = record {
  id = codes "u3";
  name = none;
  enabled = some false;
  expires_at = some (pos 2_500_000_000);
}

abbrev key_of_row : ApiKeyRow
key_of_row = key_row chrono api_key

abbrev disabled : ApiKey
disabled = patch_key chrono disabling noon (row_to_api_key chrono key_of_row)

abbrev with_disabled : Tables
with_disabled = record empty { api_keys = set_key chrono disabled key_of_row ∷ [] }

update_api_key-made :
    update_api_key chrono engine noon with_key disabling ≡ (with_disabled, ok (disabled, raw_key))
unfolding update_api_key new_key key_row Rows.select Rows.update_where text_eq write_key attempt
    patch_key row_to_api_key
update_api_key-made = refl

update_api_key-get_example :
    (row : ApiKeyRow) × (Rows.select key_id with_key.api_keys (codes "u3") ≡ some row)
    × (row.key_hash ≡ raw_key)
    × (get_api_key_by_raw hash chrono engine with_disabled raw_key ≡ (
        if text_eq raw_key raw_key
        then ok (some (info_after chrono disabling (row_to_api_key_info chrono row)))
        else get_api_key_by_raw hash chrono engine with_key raw_key))
update_api_key-get_example =
    update_api_key-get hash chrono engine engine noon with_key with_disabled disabling disabled
      raw_key raw_key refl with_key-IsStored update_api_key-made
