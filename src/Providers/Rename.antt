-- ===== src/Providers/Rename.antt =====
-- src/providers/ollama.rs: after the renaming no object has a key `reasoning`, at any depth.
use ait.Base.{
  ◌≡◌, inl, inr, subst, sym, ◌∙◌, false, none, some, Text, codes, text_eq, arith, Bool-cases,
}
use ait.Json.{
  Value, Items, Fields, null, bool, number, string, array, object, nil, cons, end, field, get_field,
}
use ait.Providers.Lookups.{get_field-insert_field, get_field-remove_field, move_reasoning-cases}
use ait.Providers.{
  insert_field, remove_field, move_reasoning, rename_reasoning_key, rename_items, rename_fields,
}

abbrev pub reasoning : Text
reasoning = codes "reasoning"

mutual
  -- No object in the value has the key.
  pub IsRenamed : Value → Type 0
  IsRenamed (object fs) = AreRenamed fs
  IsRenamed (array items) = HasRenamed items
  IsRenamed null = Unit
  IsRenamed (bool b) = Unit
  IsRenamed (number n i) = Unit
  IsRenamed (string s) = Unit

  pub HasRenamed : Items → Type 0
  HasRenamed nil = Unit
  HasRenamed (cons v items) = IsRenamed v × HasRenamed items

  pub AreRenamed : Fields → Type 0
  AreRenamed end = Unit
  AreRenamed (field k v fs) = (text_eq k reasoning ≡ false) × IsRenamed v × AreRenamed fs

-- Every value of the object is renamed, whatever its keys.
HasRenamedValues : Fields → Type 0
HasRenamedValues end = Unit
HasRenamedValues (field k v fs) = IsRenamed v × HasRenamedValues fs

insert_field-HasRenamedValues :
    (k : Text) (v : Value) (fs : Fields)
    → IsRenamed v
    → HasRenamedValues fs
    → HasRenamedValues (insert_field k v fs)
unfolding insert_field HasRenamedValues
insert_field-HasRenamedValues k v end p h = (p, tt)
insert_field-HasRenamedValues k v (field j w fs) p (q, h) = elim (Bool-cases (text_eq j k)) [
  | inl same ↦ rw same (p, h)
  | inr other ↦ rw other (q, insert_field-HasRenamedValues k v fs p h)
]

remove_field-HasRenamedValues :
    (k : Text) (fs : Fields) → HasRenamedValues fs → HasRenamedValues (remove_field k fs)
unfolding remove_field HasRenamedValues
remove_field-HasRenamedValues k end h = tt
remove_field-HasRenamedValues k (field j w fs) (q, h) = elim (Bool-cases (text_eq j k)) [
  | inl same ↦ rw same (remove_field-HasRenamedValues k fs h)
  | inr other ↦ rw other (q, remove_field-HasRenamedValues k fs h)
]

get_field-IsRenamed :
    (fs : Fields) (k : Text) (v : Value)
    → HasRenamedValues fs
    → get_field fs k ≡ some v
    → IsRenamed v
unfolding get_field HasRenamedValues
get_field-IsRenamed end k v h e = ground arith
get_field-IsRenamed (field j w fs) k v (q, h) e = elim (Bool-cases (text_eq j k)) [
  | inl same ↦ let e : w ≡ v = ground arith in subst IsRenamed e q
  | inr other ↦ get_field-IsRenamed fs k v h (ground arith)
]

AreRenamed-of_values :
    (fs : Fields) → HasRenamedValues fs → get_field fs reasoning ≡ none → AreRenamed fs
unfolding get_field HasRenamedValues AreRenamed
AreRenamed-of_values end h e = tt
AreRenamed-of_values (field k v fs) (p, h) e = elim (Bool-cases (text_eq k reasoning)) [
  | inl same ↦ ground arith
  | inr other ↦ (other, p, AreRenamed-of_values fs h (ground arith))
]

move_reasoning-AreRenamed : (fs : Fields) → HasRenamedValues fs → AreRenamed (move_reasoning fs)
unfolding text_eq
move_reasoning-AreRenamed fs h = elim (move_reasoning-cases fs) [
  | inl (absent, e) ↦ subst AreRenamed (sym e) (AreRenamed-of_values fs h absent)
  | inr (v, there, e) ↦ subst AreRenamed (sym e) (
      AreRenamed-of_values _
        (insert_field-HasRenamedValues (codes "reasoning_content") v (remove_field reasoning fs)
          (get_field-IsRenamed fs reasoning v h there)
          (remove_field-HasRenamedValues reasoning fs h))
        (get_field-insert_field (remove_field reasoning fs) (codes "reasoning_content") reasoning v
          ∙ get_field-remove_field fs reasoning reasoning))
]

mutual
  unfolding rename_reasoning_key IsRenamed HasRenamed HasRenamedValues

  value-IsRenamed : (v : Value) → IsRenamed (rename_reasoning_key v)
  value-IsRenamed (object fs) = move_reasoning-AreRenamed (rename_fields fs) (fields_renamed fs)
  value-IsRenamed (array items) = items_renamed items
  value-IsRenamed null = tt
  value-IsRenamed (bool b) = tt
  value-IsRenamed (number n i) = tt
  value-IsRenamed (string s) = tt

  items_renamed : (items : Items) → HasRenamed (rename_items items)
  items_renamed nil = tt
  items_renamed (cons v items) = (value-IsRenamed v, items_renamed items)

  fields_renamed : (fs : Fields) → HasRenamedValues (rename_fields fs)
  fields_renamed end = tt
  fields_renamed (field k v fs) = (value-IsRenamed v, fields_renamed fs)

-- After the renaming no object in an Ollama answer has the key `reasoning`, at any depth.
pub rename_reasoning_key-IsRenamed : (v : Value) → IsRenamed (rename_reasoning_key v)
rename_reasoning_key-IsRenamed v = value-IsRenamed v
