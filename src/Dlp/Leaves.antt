-- ===== src/Dlp/Leaves.antt =====
-- src/dlp.rs: the scan against the list of all texts that it has to read.
use ait.Base.{
  ℕ, zero, suc, min, ◌≡◌, refl, sym, ap, ◌∙◌, Bool, true, Option, none, some, List, [], ◌∷◌, ◌++◌,
  Text, arith, Bool-cases, inl, inr, if◌then◌else◌,
}
use ait.Json.{Value, Items, Fields}
use ait.Json.Value.{null, bool, number, string, array, object}
use ait.Json.Items.{nil, cons}
use ait.Json.Fields.{end, field}
use ait.Base.{◌<◌, ◌↔◌, ◌≢◌, length, get_elem?, All, and_then}
use ait.Dlp.{
  DlpScanner, scan, is_first, earlier, scan_matches, scan_text, scan_value, scan_items, scan_fields,
}

-- The least index, from one that is known already.
abbrev pub least : Option ℕ → List ℕ → Option ℕ
least best [] = best
least best (idx ∷ rest) = least (some (earlier best idx)) rest

least_first : (rest : List ℕ) → least (some 0) rest ≡ some 0
least_first [] = refl
least_first (idx ∷ rest) = ap (λ n. least (some n) rest) (omega arith) ∙ least_first rest

is_first_iff : (best : Option ℕ) → is_first best ≡ true → best ≡ some 0
is_first_iff (some zero) h = refl
is_first_iff (some (suc n)) h = absurd (ground arith)
is_first_iff none h = absurd (ground arith)

-- Ending at the first rule changes nothing.
early :
    (best : Option ℕ) (rest : List ℕ)
    → (if is_first best then best else least best rest) ≡ least best rest
early best rest = elim (Bool-cases (is_first best)) [
  | inl h ↦ rw (is_first_iff best h) (sym (least_first rest))
  | inr h ↦ rw h refl
]

scan_matches-least : (found : List ℕ) (best : Option ℕ) → scan_matches best found ≡ least best found
unfolding scan_matches
scan_matches-least [] best = refl
scan_matches-least (idx ∷ rest) best =
    ap (λ r. if is_first (some (earlier best idx)) then some (earlier best idx) else r)
      (scan_matches-least rest (some (earlier best idx)))
    ∙ early (some (earlier best idx)) rest

least-append : (best : Option ℕ) (xs ys : List ℕ) → least best (xs ++ ys) ≡ least (least best xs) ys
least-append best [] ys = refl
least-append best (x ∷ xs) ys = least-append (some (earlier best x)) xs ys

module _ (find_iter : Text → List ℕ) (scan_numbers : Bool) where
  -- Every index that the automaton reports for a text that is to be read, in document order: the
  -- strings, the numbers where they are scanned, and no key.
  unfoldable mutual
    pub reported : Value → List ℕ
    reported null = []
    reported (bool b) = []
    reported (number n i) = if scan_numbers then find_iter n else []
    reported (string s) = find_iter s
    reported (array items) = reported_items items
    reported (object fields) = reported_fields fields

    pub reported_items : Items → List ℕ
    reported_items nil = []
    reported_items (cons v items) = reported v ++ reported_items items

    pub reported_fields : Fields → List ℕ
    reported_fields end = []
    reported_fields (field k v fields) = reported v ++ reported_fields fields

  mutual
    unfolding reported scan_value scan_text

    scan_value_all :
        (v : Value) (best : Option ℕ)
        → scan_value find_iter scan_numbers best v ≡ least best (reported v)
    scan_value_all null best = refl
    scan_value_all (bool b) best = refl
    scan_value_all (number n i) best = elim (Bool-cases scan_numbers) [
      | inl h ↦ rw h (
          ap (λ r. if is_first best then best else r) (scan_matches-least (find_iter n) best)
          ∙ early best (find_iter n))
      | inr h ↦ rw h (early best [])
    ]
    scan_value_all (string s) best =
        ap (λ r. if is_first best then best else r) (scan_matches-least (find_iter s) best)
        ∙ early best (find_iter s)
    scan_value_all (array items) best =
        ap (λ r. if is_first best then best else r) (scan_items_all items best)
        ∙ early best (reported_items items)
    scan_value_all (object fields) best =
        ap (λ r. if is_first best then best else r) (scan_fields_all fields best)
        ∙ early best (reported_fields fields)

    scan_items_all :
        (vs : Items) (best : Option ℕ)
        → scan_items find_iter scan_numbers best vs ≡ least best (reported_items vs)
    scan_items_all nil best = refl
    scan_items_all (cons v vs) best =
        ap (λ found. if is_first found then found else scan_items find_iter scan_numbers found vs)
          (scan_value_all v best)
        ∙ ap (λ r. if is_first (least best (reported v)) then least best (reported v) else r)
            (scan_items_all vs (least best (reported v)))
        ∙ early (least best (reported v)) (reported_items vs)
        ∙ sym (least-append best (reported v) (reported_items vs))

    scan_fields_all :
        (vs : Fields) (best : Option ℕ)
        → scan_fields find_iter scan_numbers best vs ≡ least best (reported_fields vs)
    scan_fields_all end best = refl
    scan_fields_all (field k v vs) best =
        ap (λ found. if is_first found then found else scan_fields find_iter scan_numbers found vs)
          (scan_value_all v best)
        ∙ ap (λ r. if is_first (least best (reported v)) then least best (reported v) else r)
            (scan_fields_all vs (least best (reported v)))
        ∙ early (least best (reported v)) (reported_fields vs)
        ∙ sym (least-append best (reported v) (reported_fields vs))

-- Every index that is reported is that of a rule.
abbrev pub IsInRange : ℕ → (Text → List ℕ) → Type 0
IsInRange n find_iter = (text : Text) → All (λ i. i < n) (find_iter text)

least-bound :
    (n b : ℕ) (xs : List ℕ)
    → b < n
    → All (λ i. i < n) xs
    → (i : ℕ) × (least (some b) xs ≡ some i) × (i < n)
least-bound n b [] h k = (b, refl, h)
least-bound n b (x ∷ xs) h (k, ks) = least-bound n (min b x) xs (omega arith) ks

get_elem?_in : (rules : List Text) (i : ℕ) → i < length rules → get_elem? rules i ≢ none
get_elem?_in [] i h e = absurd (omega arith)
get_elem?_in (r ∷ rules) zero h e = ground arith
get_elem?_in (r ∷ rules) (suc i) h e = get_elem?_in rules i (omega arith) e

All-append :
    (n : ℕ) (xs ys : List ℕ)
    → All (λ i. i < n) xs
    → All (λ i. i < n) ys
    → All (λ i. i < n) (xs ++ ys)
All-append n [] ys h k = k
All-append n (x ∷ xs) ys (h, hs) k = (h, All-append n xs ys hs k)

module _ (n : ℕ) (find_iter : Text → List ℕ) (scan_numbers : Bool)
    (range : IsInRange n find_iter) where
  mutual
    unfolding reported

    reported-range : (v : Value) → All (λ i. i < n) (reported find_iter scan_numbers v)
    reported-range null = tt
    reported-range (bool b) = tt
    reported-range (number m i) = elim (Bool-cases scan_numbers) [
      | inl h ↦ rw h (range m)
      | inr h ↦ rw h tt
    ]
    reported-range (string s) = range s
    reported-range (array items) = reported_items-range items
    reported-range (object fields) = reported_fields-range fields

    reported_items-range :
        (vs : Items) → All (λ i. i < n) (reported_items find_iter scan_numbers vs)
    reported_items-range nil = tt
    reported_items-range (cons v vs) = All-append n _ _ (reported-range v) (reported_items-range vs)

    reported_fields-range :
        (vs : Fields) → All (λ i. i < n) (reported_fields find_iter scan_numbers vs)
    reported_fields-range end = tt
    reported_fields-range (field k v vs) =
        All-append n _ _ (reported-range v) (reported_fields-range vs)

picked :
    (rules : List Text) (xs : List ℕ)
    → All (λ i. i < length rules) xs
    → (and_then (least none xs) (get_elem? rules) ≡ none) ↔ (xs ≡ [])
picked rules [] all = (λ _. refl, λ _. refl)
picked rules (x ∷ xs) (h, hs) =
    let (i, e, within) = least-bound (length rules) x xs h hs in
    (
      λ k.
          absurd (get_elem?_in rules i within (ap (λ o. and_then o (get_elem? rules)) (sym e) ∙ k)),
      λ k. absurd (ground arith),
    )

-- An enabled scanner whose automaton reports indices of rules only lets a body pass exactly when the
-- automaton reports nothing for any of the texts to be read.
pub scan-none_iff :
    (scanner : DlpScanner) (find_iter : Text → List ℕ) (body : Value)
    → scanner.enabled ≡ true
    → scanner.matcher ≡ some find_iter
    → IsInRange (length scanner.rules) find_iter
    → (scan scanner body ≡ none) ↔ (reported find_iter scanner.scan_numbers body ≡ [])
unfolding scan
scan-none_iff scanner find_iter body on built range =
    let whole = scan_value_all find_iter scanner.scan_numbers body none in
    rw (on, built, whole)
      (picked scanner.rules (reported find_iter scanner.scan_numbers body)
        (reported-range (length scanner.rules) find_iter scanner.scan_numbers range body))

-- A scan in document order that ends early finds the least index that the automaton reports for any
-- of the texts to be read, or the index known before if this is less.
pub scan_value-least :
    (find_iter : Text → List ℕ) (scan_numbers : Bool) (best : Option ℕ) (value : Value)
    → scan_value find_iter scan_numbers best value
      ≡ least best (reported find_iter scan_numbers value)
scan_value-least find_iter scan_numbers best value =
    scan_value_all find_iter scan_numbers value best
