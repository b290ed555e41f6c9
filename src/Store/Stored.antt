-- ===== src/Store/Stored.antt =====
-- The invariant of the tables of src/db/store/; the children prove that every operation keeps it.
pub mod ByProviders
pub mod ByModels
pub mod ByKeys
pub mod Runs
use ait.Base.{
  ◌≡◌, refl, ◌⊎◌, inl, inr, Bool, true, false, Option, none, some, List, [], ◌∷◌, ◌++◌, arith,
  if◌then◌else◌, Bool-cases, Option-cases, is_some, All, Text, text_eq, text_eq_iff, ◌||◌, Result,
  sym, subst, ◌∙◌,
}
use ait.Base.{ℕ}
use ait.Error.{DbError}
use ait.Db.{DateTime, Provider, ProviderUpdate, Model}
use ait.Store.Rows.{select, exists, update_where, delete_where, IsUnique}
use ait.Store.Laws.{
  append-IsUnique, exists-append, delete_where-IsUnique, update_where-IsUnique, exists-update_where,
  select-delete_where, All-append, All-delete_where, All-update_where,
}
use ait.Store.Schema.{
  Chrono, Engine, Tables, ProviderRow, ModelRow, ApiKeyRow, attempt, as_i32, provider_row,
  model_row,
}
use ait.Store.Providers.{
  provider_id, provider_of, set_provider, new_provider, cascade, insert_provider, write_provider,
  update_provider, delete_provider,
}

-- A column that holds a Boolean.
abbrev pub IsFlag : ℕ → Type 0
IsFlag n = (n ≡ 0) ⊎ (n ≡ 1)

-- The ids are unique.
abbrev pub IsProviders : List ProviderRow → Type 0
IsProviders rows =
    IsUnique (λ (r : ProviderRow). r.id) rows × All (λ (r : ProviderRow). IsFlag r.enabled) rows

-- The names and the ids are unique, and every model has a provider.
abbrev pub HasProvider : List ProviderRow → ModelRow → Type 0
HasProvider providers m = exists (λ (r : ProviderRow). r.id) providers m.provider_id ≡ true

abbrev pub IsModels : List ProviderRow → List ModelRow → Type 0
IsModels providers rows =
    IsUnique (λ (r : ModelRow). r.name) rows
    × IsUnique (λ (r : ModelRow). r.id) rows
    × All (λ (r : ModelRow). IsFlag r.enabled) rows
    × All (HasProvider providers) rows

-- The ids and the hashes are unique.
abbrev pub IsKeys : List ApiKeyRow → Type 0
IsKeys rows =
    IsUnique (λ (r : ApiKeyRow). r.id) rows × IsUnique (λ (r : ApiKeyRow). r.key_hash) rows

abbrev pub IsStored : Tables → Type 0
IsStored db = IsProviders db.providers × IsModels db.providers db.models × IsKeys db.api_keys

module _ {A : Type 0} (P : Tables → Type 0) where
  pub attempt-keeps :
      (answer : Option Text) (db : Tables) (rest : Tables × Result A DbError)
      → P db
      → P rest.0
      → P (attempt answer db rest).0
  unfolding attempt
  attempt-keeps none db rest h k = k
  attempt-keeps (some e) db rest h k = h

  pub if-keeps :
      (b : Bool) (left right : Tables × Result A DbError)
      → (b ≡ true → P left.0)
      → (b ≡ false → P right.0)
      → P (if b then left else right).0
  if-keeps true left right h k = h refl
  if-keeps false left right h k = k refl

pub as_i32-IsFlag : (b : Bool) → IsFlag (as_i32 b)
as_i32-IsFlag true = inr refl
as_i32-IsFlag false = inl refl

pub All-map :
    {R : Type 0} {P Q : R → Type 0} (rows : List R)
    → ((r : R) → P r → Q r)
    → All P rows
    → All Q rows
All-map [] f h = tt
All-map (r ∷ rows) f (p, h) = (f r p, All-map rows f h)

-- The second test of a disjunction, and the first.
pub or-false : (a b : Bool) → (a || b) ≡ false → (a ≡ false) × (b ≡ false)
or-false true b h = ground arith
or-false false b h = (refl, h)
