-- ===== src/Handlers/Coherent/Tests.antt =====
-- A run of the console from an empty state, and the deletion of a key.
use ait.Base.{
  ℕ, ◌≡◌, ◌≢◌, refl, Bool, true, Option, none, some, List, [], ◌∷◌, Text, All, codes, Result, ok,
  arith, ◌++◌, text_eq, strip_prefix,
}
use ait.Base.Int.{pos}
use ait.Db.{Provider, ollama}
use ait.Store.Models.{resolve_model}
use ait.Store.Tests.{chrono, engine, hash, raw_key, with_key, api_key, with_key-IsStored}
use ait.Store.ApiKeys
use ait.Store.ApiKeys.{key_id, key_row, new_key}
use ait.Store.Rows
use ait.Store.Schema.{ApiKeyRow, attempt}
use ait.Handlers.ApiKeys.{delete_api_key, on_deleted}
use ait.Handlers.Revoked.{Refuses, delete_api_key-Refuses}
use ait.Handlers.Console.{settled, on_database}
use ait.Middleware.Auth.{begin, extract_bearer_token}
use ait.Store.Commands.{empty}
use ait.Proxy.Resolve.{Clock, done, resolve_model_and_provider}
use ait.Ssrf.Addr.{IpAddr}
use ait.Handlers.Console.{Console, completed, lost, Url, Platform, Call}
use ait.Handlers.Coherent.{found, IsCoherent}
use ait.Handlers.Coherent.Runs.{
  Action, create_provider, create_model, resolve, run, IsSettled, run-IsCoherent, run-resolve,
}
use ait.Handlers.Coherent.Resolving.{answer}
use ait.Base.{length}

abbrev parse_url : Text → Option Url
parse_url url =
    some record { text = url; scheme = codes "http"; host_str = some (codes "a.example") }

abbrev decimal : ℕ → Text
decimal n = codes "128"

abbrev parse_ip : Text → Option IpAddr
parse_ip text = none

abbrev is_alphanumeric : ℕ → Bool
is_alphanumeric c = true

abbrev platform : Platform
platform = record {
  byte_length = length;
  decimal = decimal;
  parse_url = parse_url;
  parse_ip = parse_ip;
  is_alphanumeric = is_alphanumeric;
  chrono = chrono;
  allowed_cidrs = [];
}

abbrev lookup : Text → Result (List IpAddr) Text
lookup host = ok []

abbrev call : Call
call = record {
  request_id = codes "r";
  current = none;
  now = 0;
  later = 0;
  stamp = pos 0;
  logged_at = pos 0;
  lookup = lookup;
  uuid = codes "a1";
  task = completed;
  engine = engine;
}

abbrev clock : Clock
clock = record { at_negative = 0; at_cached = 0; at_provider = 0; at_model = 0; at_unknown = 0 }

abbrev actions : List (Call × Action)
actions =
    (call, resolve clock (codes "m"))
    ∷ (
      call,
      create_provider record {
        name = codes "local";
        provider_type = ollama;
        base_url = codes "http://a.example";
        api_key = none;
        enabled = true;
      },
    )
    ∷ (
      call,
      create_model record {
        name = codes "m";
        provider_id = codes "a1";
        upstream_model = codes "u";
        enabled = true;
      },
    )
    ∷ (call, resolve clock (codes "m"))
    ∷ []

abbrev start : Console Text
start = record {
  tables = empty;
  caches = record { negative_model_cache = []; model_cache = []; provider_cache = [] };
  ssrf_dns_cache = [];
  pinned_clients = [];
  auth = record { api_key_cache = []; negative_key_cache = []; key_revision = 0 };
  audits = [];
}

abbrev upstream : Provider → Text
upstream p = p.base_url

start-IsCoherent : IsCoherent chrono upstream start
start-IsCoherent = record {
  stored = ((tt, tt), (tt, tt, tt, tt), (tt, tt));
  models = tt;
  unknown = tt;
  upstreams = tt;
}

completed_there : completed ≢ lost true
completed_there e = ground arith

actions-IsSettled : All IsSettled actions
actions-IsSettled = (completed_there, (completed_there, (completed_there, (completed_there, tt))))

run-IsCoherent_example : IsCoherent chrono upstream (run platform upstream 10 actions start)
run-IsCoherent_example =
    run-IsCoherent platform upstream 10 actions start actions-IsSettled start-IsCoherent

run-resolve_example :
    (resolve_model_and_provider upstream 10
      (run platform upstream 10 actions start).caches
      clock
      none
      (codes "m")
      (done (
        resolve_model chrono engine (run platform upstream 10 actions start).tables (codes "m")))).0
    ≡ answer none
        (codes "m")
        (found chrono (run platform upstream 10 actions start).tables (codes "m"))
run-resolve_example =
    run-resolve platform upstream 10 actions start clock none (codes "m") engine actions-IsSettled
      start-IsCoherent refl

abbrev keyed : Console Text
keyed = record start { tables = with_key }

abbrev key_3 : Text
key_3 = codes "u3"

abbrev bearer : Option Text
bearer = some (codes "Bearer " ++ raw_key)

abbrev deleted : Console Text
deleted = (delete_api_key platform call keyed key_3).1

abbrev row : ApiKeyRow
row = key_row chrono api_key

row_there : Rows.select key_id with_key.api_keys key_3 ≡ some row
unfolding new_key key_row Rows.select text_eq
row_there = refl

key_3_gone : (delete_api_key platform call keyed key_3).0 ≡ ok tt
unfolding delete_api_key on_database settled on_deleted ApiKeys.delete_api_key attempt new_key
    key_row Rows.select text_eq
key_3_gone = refl

bearer_token : extract_bearer_token bearer ≡ some raw_key
unfolding extract_bearer_token strip_prefix
bearer_token = refl

raw_key_taken : hash raw_key ≡ row.key_hash
unfolding new_key key_row
raw_key_taken = refl

delete_api_key-Refuses_example :
    Refuses hash platform engine deleted.tables none raw_key
      (begin hash true none (pos 0) deleted.auth 0 bearer).0
delete_api_key-Refuses_example =
    delete_api_key-Refuses hash platform engine call keyed key_3 row none (pos 0) 0 bearer raw_key
      refl with_key-IsStored row_there key_3_gone bearer_token raw_key_taken
