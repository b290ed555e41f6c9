-- ===== src/Handlers/Coherent/Keeps.antt =====
-- Coherence through the steps of a handler, and through an operation that changed nothing.
use ait.Base.{◌≡◌, ◌≢◌, refl, sym, ap, subst, ◌∙◌, true, false, Option, Text, Result, ok, err}
use ait.Error.{AitError, DbError}
use ait.Db.{Provider}
use ait.Store.Schema.{Chrono, Tables}
use ait.Store.Stored.{IsStored, All-map}
use ait.Store.View.{View, Shows, reported}
use ait.Store.View.Reports.{Reports}
use ait.Handlers.Console.{
  Console, Task, completed, lost, Call, Reply, valid, settled, on_database, log_audit,
}
use ait.Handlers.Coherent.{found, view, found_in, upstream_in, IsCoherent}
use ait.Handlers.Coherent.Entries.{found-Shows}

module _ {Upstream A B : Type 0} (P : Console Upstream → Type 0) where
  pub valid-keeps :
      (call : Call) (s : Console Upstream) (r : Result B AitError) (rest : B → Reply Upstream A)
      → P s
      → ((b : B) → P (rest b).1)
      → P (valid call s r rest).1
  unfolding valid
  valid-keeps call s (ok b) rest h k = k b
  valid-keeps call s (err e) rest h k = h

  settled-keeps :
      (task : Task) (current : Option Text) (s : Console Upstream) (r : Tables × Result B DbError)
      (rest : B → Console Upstream → Reply Upstream A)
      → P s
      → task ≢ lost true
      → ((e : DbError) → r.1 ≡ err e → P (record s { tables = r.0 }))
      → ((b : B) → r.1 ≡ ok b → P (rest b (record s { tables = r.0 })).1)
      → P (settled task current s r rest).1
  unfolding settled
  settled-keeps completed current s (db, ok b) rest h there failed done = done b refl
  settled-keeps completed current s (db, err e) rest h there failed done = failed e refl
  settled-keeps (lost true) current s (db, r) rest h there failed done = absurd (there refl)
  settled-keeps (lost false) current s (db, r) rest h there failed done = h

  pub on_database-keeps :
      (call : Call) (s : Console Upstream) (r : Tables × Result B DbError)
      (rest : B → Console Upstream → Reply Upstream A)
      → P s
      → call.task ≢ lost true
      → ((e : DbError) → r.1 ≡ err e → P (record s { tables = r.0 }))
      → ((b : B) → r.1 ≡ ok b → P (rest b (record s { tables = r.0 })).1)
      → P (on_database call s r rest).1
  unfolding on_database
  on_database-keeps call s r rest = settled-keeps call.task call.current s r rest

-- The maps after an operation that reported its result.
pub Shows-ok :
    {B : Type 0} (v : View) (effect : B → View) (r : Tables × Result B DbError) (b : B)
    → Reports v effect r
    → r.1 ≡ ok b
    → Shows r.0 (effect b)
Shows-ok v effect r b reports e = subst (λ x. Shows r.0 (reported x effect v)) e reports

pub Shows-err :
    {B : Type 0} (v : View) (effect : B → View) (r : Tables × Result B DbError) (e : DbError)
    → Reports v effect r
    → r.1 ≡ err e
    → Shows r.0 v
Shows-err v effect r e reports q = subst (λ x. Shows r.0 (reported x effect v)) q reports

pub view-Shows : (db : Tables) → Shows db (view db)
view-Shows db = ((λ _. refl), (λ _. refl), (λ _. refl))

pub found-view :
    (c : Chrono) (db : Tables) (name : Text)
    → IsStored db
    → found c db name ≡ found_in c (view db).provider ((view db).model name)
found-view c db name h = found-Shows c db (view db) name h (view-Shows db)

-- Tables that show the maps of others find what they find.
pub found_same :
    (c : Chrono) (db after : Tables) (name : Text)
    → IsStored db
    → IsStored after
    → Shows after (view db)
    → found c after name ≡ found c db name
found_same c db after name h k shows =
    found-Shows c after (view db) name k shows ∙ sym (found-view c db name h)

module _ {Upstream : Type 0} (c : Chrono) (create_provider : Provider → Upstream) where
  pub same-IsCoherent :
      (s : Console Upstream) (after : Tables)
      → IsCoherent c create_provider s
      → IsStored after
      → Shows after (view s.tables)
      → IsCoherent c create_provider (record s { tables = after })
  same-IsCoherent s after h k shows = record {
    stored = k;
    models =
        All-map s.caches.model_cache (λ e p. found_same c s.tables after e.0 h.stored k shows ∙ p)
          h.models;
    unknown =
        All-map s.caches.negative_model_cache
          (λ e p. found_same c s.tables after e.0 h.stored k shows ∙ p) h.unknown;
    upstreams =
        All-map s.caches.provider_cache
          (λ e p. ap (upstream_in c create_provider) (shows.0 e.0) ∙ p) h.upstreams;
  }

  -- The audit log is not part of it.
  pub log_audit-IsCoherent :
      (call : Call) (action resource id : Text) (s : Console Upstream)
      → IsCoherent c create_provider s
      → IsCoherent c create_provider (log_audit call action resource id s)
  unfolding log_audit
  log_audit-IsCoherent call action resource id s h = record {
    stored = h.stored;
    models = h.models;
    unknown = h.unknown;
    upstreams = h.upstreams;
  }
