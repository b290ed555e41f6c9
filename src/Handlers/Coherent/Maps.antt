-- ===== src/Handlers/Coherent/Maps.antt =====
-- A map with one entry changed.
use ait.Base.{
  ◌≡◌, refl, sym, subst, inl, inr, false, Option, none, Text, arith, text_eq, text_eq_iff,
  Bool-cases,
}
use ait.Store.View.{put, adjust}

pub put-other :
    {R : Type 0} (f : Text → Option R) (k : Text) (v : Option R) (n : Text)
    → text_eq n k ≡ false
    → put f k v n ≡ f n
put-other f k v n other = ground (arith, text_eq_iff n k, text_eq_iff k n)

pub put-absent : {R : Type 0} (f : Text → Option R) (k n : Text) → f k ≡ none → put f k none n ≡ f n
put-absent f k n absent = elim (Bool-cases (text_eq k n)) [
  | inl same ↦ rw same (sym (subst (λ j. f j ≡ none) ((text_eq_iff k n).0 same) absent))
  | inr other ↦ rw other refl
]

pub put-same : {R : Type 0} (f : Text → Option R) (k : Text) (v : Option R) → put f k v k ≡ v
put-same f k v = ground (arith, text_eq_iff k k)

pub adjust-other :
    {R : Type 0} (f : Text → Option R) (k : Text) (g : R → R) (n : Text)
    → text_eq n k ≡ false
    → adjust f k g n ≡ f n
adjust-other f k g n other = ground (arith, text_eq_iff n k, text_eq_iff k n)
