-- ===== src/Providers/Lookups.antt =====
-- src/providers: lookups in an object behind an inserted or a removed field.
use ait.Base.{
  ap, ◌⊎◌, inl, inr, codes, Option-cases, ◌≡◌, none, some, Text, text_eq, text_eq_iff, arith,
  if◌then◌else◌,
}
use ait.Json.{Value, Fields, end, field, get_field}
use ait.Providers.{insert_field, remove_field, moved, move_reasoning}

pub get_field-insert_field :
    (fs : Fields) (k j : Text) (v : Value)
    → get_field (insert_field k v fs) j ≡ (if text_eq k j then some v else get_field fs j)
unfolding insert_field get_field
get_field-insert_field end k j v = ground arith
get_field-insert_field (field i w fs) k j v =
    ground
      (arith, get_field-insert_field fs k j v, text_eq_iff i k, text_eq_iff i j, text_eq_iff k j)

pub get_field-remove_field :
    (fs : Fields) (k j : Text)
    → get_field (remove_field k fs) j ≡ (if text_eq k j then none else get_field fs j)
unfolding remove_field get_field
get_field-remove_field end k j = ground arith
get_field-remove_field (field i w fs) k j =
    ground (arith, get_field-remove_field fs k j, text_eq_iff i k, text_eq_iff i j, text_eq_iff k j)

-- What `move_reasoning` does, in its two cases.
pub move_reasoning-cases :
    (fs : Fields)
    → ((get_field fs (codes "reasoning") ≡ none) × (move_reasoning fs ≡ fs))
      ⊎ ((v : Value) × (get_field fs (codes "reasoning") ≡ some v)
          × (move_reasoning fs
              ≡ insert_field (codes "reasoning_content") v (remove_field (codes "reasoning") fs)))
unfolding move_reasoning moved
move_reasoning-cases fs = elim (Option-cases (get_field fs (codes "reasoning"))) [
  | inl absent ↦ inl (absent, ap (λ o. moved o fs) absent)
  | inr (v, there) ↦ inr (v, there, ap (λ o. moved o fs) there)
]
