-- ===== src/Handlers/Coherent/Entries.antt =====
-- Predicates on the entries of a cache, and what the tables' views say of the join.
use ait.Base.{
  ℕ, ◌≡◌, refl, sym, ap, subst, ◌∙◌, inl, inr, Bool, true, false, Option, none, some, List, [], ◌∷◌,
  Text, All, arith, text_eq, text_eq_iff, Bool-cases, Option-cases, leb, length, ◌==◌,
}
use ait.Base.Table.{Table, get, remove, insert, retain, contains_key}
use ait.Cache.{Instant, insert_capped, evict_oldest, oldest}
use ait.Db.{Model, Provider}
use ait.Store.Rows.{select}
use ait.Store.Laws.{select-column}
use ait.Store.Schema.{Chrono, Tables, ProviderRow, ModelRow, row_to_model, row_to_provider}
use ait.Store.Providers.{provider_id}
use ait.Store.Models.{model_name}
use ait.Store.Resolved.{both_enabled, enabled_pair, provided, join_models-eq}
use ait.Store.Stored.{IsStored}
use ait.Store.View.{View, Shows}
use ait.Handlers.Coherent.{found, view, found_pair, found_in}

module _ {V : Type 0} {P Q : Text × V → Type 0} where
  pub All-remove :
      (m : Table V) (k : Text)
      → ((e : Text × V) → text_eq e.0 k ≡ false → P e → Q e)
      → All P m
      → All Q (remove m k)
  unfolding remove
  All-remove [] k f h = tt
  All-remove ((j, v) ∷ m) k f (p, h) = elim (Bool-cases (text_eq j k)) [
    | inl same ↦ rw same (All-remove m k f h)
    | inr other ↦ rw other (f (j, v) other p, All-remove m k f h)
  ]

  pub All-retain :
      (m : Table V) (keep : Text → V → Bool)
      → ((e : Text × V) → keep e.0 e.1 ≡ true → P e → Q e)
      → All P m
      → All Q (retain keep m)
  unfolding retain
  All-retain [] keep f h = tt
  All-retain ((j, v) ∷ m) keep f (p, h) = elim (Bool-cases (keep j v)) [
    | inl stays ↦ rw stays (f (j, v) stays p, All-retain m keep f h)
    | inr goes ↦ rw goes (All-retain m keep f h)
  ]

module _ {V : Type 0} (P : Text × V → Type 0) where
  pub All-insert : (m : Table V) (k : Text) (v : V) → All P m → P (k, v) → All P (insert m k v)
  unfolding insert
  All-insert m k v h p = (p, All-remove {P = P} {Q = P} m k (λ e _ q. q) h)

  All-evict_oldest :
      (inserted_at : V → Instant) (m : Table V) → All P m → All P (evict_oldest inserted_at m)
  unfolding evict_oldest
  All-evict_oldest inserted_at m h =
      let rest =
        λ (o : Option (Text × V)). elim o as (λ _. Table V) [ none ↦ m | some e ↦ remove m e.0 ] in
      elim (Option-cases (oldest inserted_at m)) [
        | inl nothing ↦ subst (λ o. All P (rest o)) (sym nothing) h
        | inr (e, least) ↦
            subst (λ o. All P (rest o)) (sym least)
              (All-remove {P = P} {Q = P} m e.0 (λ x _ q. q) h)
      ]

  pub All-insert_capped :
      (inserted_at : V → Instant) (m : Table V) (k : Text) (v : V) (max_entries : ℕ)
      → All P m
      → P (k, v)
      → All P (insert_capped inserted_at m k v max_entries)
  unfolding insert_capped
  All-insert_capped inserted_at m k v max_entries h p = elim (Bool-cases (max_entries == 0)) [
    | inl off ↦ rw off h
    | inr on ↦ rw on (elim (Bool-cases (contains_key m k)) [
      | inl old ↦ rw old (All-insert m k v h p)
      | inr new ↦ rw new (elim (Bool-cases (leb max_entries (length m))) [
        | inl full ↦
            rw full
              (All-insert (evict_oldest inserted_at m) k v (All-evict_oldest inserted_at m h) p)
        | inr room ↦ rw room (All-insert m k v h p)
      ])
    ])
  ]

  pub get-All : (m : Table V) (k : Text) (v : V) → All P m → get m k ≡ some v → P (k, v)
  unfolding get
  get-All [] k v h e = ground arith
  get-All ((j, w) ∷ m) k v (p, h) e = elim (Bool-cases (text_eq j k)) [
    | inl same ↦
        let e1 : w ≡ v = ground arith in
        let e0 : j ≡ k = (text_eq_iff j k).0 same in
        subst (λ x. P (k, x)) e1 (subst (λ x. P (x, w)) e0 p)
    | inr other ↦ get-All m k v h (ground arith)
  ]

module _ (c : Chrono) where
  found_in-provided :
      (providers : List ProviderRow) (m : Option ModelRow)
      → (elim (provided providers m) [
        | none ↦ none
        | some (m, p) ↦ some (row_to_model c m, row_to_provider c p)
      ])
        ≡ found_in c (select provider_id providers) m
  unfolding provided enabled_pair found_in found_pair
  found_in-provided providers none = refl
  found_in-provided providers (some m) =
      elim (Option-cases (select provider_id providers m.provider_id)) [
        | inl nothing ↦ rw nothing refl
        | inr (p, there) ↦
            rw there
              (elim (Bool-cases (both_enabled m p)) [ inl on ↦ rw on refl | inr off ↦ rw off refl ])
      ]

  found_in-maps :
      (f g : Text → Option ProviderRow)
      → ((id : Text) → f id ≡ g id)
      → (m : Option ModelRow) → found_in c f m ≡ found_in c g m
  unfolding found_in
  found_in-maps f g same none = refl
  found_in-maps f g same (some m) = rw (same m.provider_id) refl

  -- The join as two lookups in the maps.
  pub found-Shows :
      (db : Tables) (v : View) (name : Text)
      → IsStored db
      → Shows db v
      → found c db name ≡ found_in c v.provider (v.model name)
  unfolding found
  found-Shows db v name ((ids, _), (names, _, _, _), _) (providers, models, _) =
      rw (found, join_models-eq name db.models db.providers names ids, sym (models name))
        (found_in-provided db.providers (select model_name db.models name)
          ∙ found_in-maps (select provider_id db.providers) v.provider providers
              (select model_name db.models name))

  row_to_provider-id : (row : ProviderRow) → row.id ≡ (row_to_provider c row).id
  unfolding row_to_provider
  row_to_provider-id row = refl

  -- What was found, row by row.
  pub found-some :
      (db : Tables) (name : Text) (m : Model) (p : Provider)
      → IsStored db
      → found c db name ≡ some (m, p)
      → (row : ModelRow) × (select model_name db.models name ≡ some row)
        × (row.provider_id ≡ p.id)
        × ((prow : ProviderRow) × (select provider_id db.providers p.id ≡ some prow)
            × (row_to_provider c prow ≡ p))
  unfolding found_in found_pair
  found-some db name m p h e =
      let in_maps =
        sym (found-Shows db (view db) name h ((λ _. refl), (λ _. refl), (λ _. refl))) ∙ e in
      elim (Option-cases (select model_name db.models name)) [
        | inl nothing ↦ ground arith
        | inr (row, is_model) ↦
            elim (Option-cases (select provider_id db.providers row.provider_id)) [
              | inl nothing ↦ ground arith
              | inr (prow, is_provider) ↦
                  let id =
                    select-column provider_id db.providers row.provider_id prow is_provider in
                  elim (Bool-cases (both_enabled row prow)) [
                    | inr off ↦ ground arith
                    | inl on ↦
                        let same : row_to_provider c prow ≡ p = ground arith in
                        let owner : row.provider_id ≡ p.id =
                          sym id ∙ row_to_provider-id prow ∙ ap (λ (q : Provider). q.id) same in
                        (
                          row,
                          is_model,
                          owner,
                          (
                            prow,
                            subst (λ k. select provider_id db.providers k ≡ some prow) owner
                                is_provider,
                            same,
                          ),
                        )
                  ]
            ]
      ]
