-- ===== src/Dlp.antt =====
-- src/dlp.rs: the scanner for sensitive values in request bodies.
-- The automaton of the `aho_corasick` crate is the parameter `find_iter`: for a text, the indices of
-- the rules that its iterator reports, in order.
pub mod Leaves
mod Tests
use ait.Base.{
  ℕ, zero, suc, min, Bool, true, false, ◌&&◌, not, Option, none, some, List, [], ◌∷◌, Text, filter,
  and_then, get_elem?, if◌then◌else◌,
}
use ait.Json.{Value, Items, Fields}
use ait.Json.Value.{null, bool, number, string, array, object}
use ait.Json.Items.{nil, cons}
use ait.Json.Fields.{end, field}

pub record DlpConfig : Type 0 where
  pub enabled : Bool
  pub sensitive_values : List Text
  pub scan_numbers : Bool

-- `matcher` is none where the automaton was not built.
pub record DlpScanner : Type 0 where
  pub enabled : Bool
  pub rules : List Text
  pub matcher : Option (Text → List ℕ)
  pub scan_numbers : Bool

abbrev pub is_empty_list {ℓ} : {A : Type ℓ} → List A → Bool
is_empty_list [] = true
is_empty_list (x ∷ xs) = false

-- `AhoCorasick::new` is the parameter `build`.
unfoldable pub new : (List Text → Option (Text → List ℕ)) → DlpConfig → DlpScanner
new build config =
    let rules = filter (λ v. not (is_empty_list v)) config.sensitive_values in
    let enabled = config.enabled && not (is_empty_list rules) in
    let matcher = if enabled then build rules else none in
    record {
      enabled = enabled && (elim matcher [ some _ ↦ true | none ↦ false ]);
      rules = rules;
      matcher = matcher;
      scan_numbers = config.scan_numbers;
    }

abbrev pub is_first : Option ℕ → Bool
is_first (some zero) = true
is_first (some (suc n)) = false
is_first none = false

abbrev pub earlier : Option ℕ → ℕ → ℕ
earlier (some prev) idx = min prev idx
earlier none idx = idx

-- The loop of `scan_text` on the reported indices; it ends at the first rule.
unfoldable pub scan_matches : Option ℕ → List ℕ → Option ℕ
scan_matches best [] = best
scan_matches best (idx ∷ rest) =
    let more = scan_matches (some (earlier best idx)) rest in
    if is_first (some (earlier best idx)) then some (earlier best idx) else more

module _ (find_iter : Text → List ℕ) (scan_numbers : Bool) where
  unfoldable pub scan_text : Option ℕ → Text → Option ℕ
  unfolding scan_matches
  scan_text best text = scan_matches best (find_iter text)

  unfoldable mutual
    pub scan_value : Option ℕ → Value → Option ℕ
    scan_value best null = best
    scan_value best (bool b) = best
    scan_value best (number n i) =
        if is_first best then best else if scan_numbers then scan_text best n else best
    scan_value best (string s) = if is_first best then best else scan_text best s
    scan_value best (array items) =
        let found = scan_items best items in if is_first best then best else found
    scan_value best (object fields) =
        let found = scan_fields best fields in if is_first best then best else found

    pub scan_items : Option ℕ → Items → Option ℕ
    scan_items best nil = best
    scan_items best (cons v items) =
        let found = scan_value best v in
        let more = scan_items found items in if is_first found then found else more

    pub scan_fields : Option ℕ → Fields → Option ℕ
    scan_fields best end = best
    scan_fields best (field k v fields) =
        let found = scan_value best v in
        let more = scan_fields found fields in if is_first found then found else more

unfoldable pub scan : DlpScanner → Value → Option Text
unfolding scan_value
scan scanner body = if not scanner.enabled then none else elim scanner.matcher [
  | none ↦ none
  | some find_iter ↦
      and_then (scan_value find_iter scanner.scan_numbers none body) (get_elem? scanner.rules)
]
