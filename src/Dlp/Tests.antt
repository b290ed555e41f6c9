-- ===== src/Dlp/Tests.antt =====
-- src/dlp.rs: runs of the scan with an automaton for one rule.
use ait.Base.{
  ℕ, ◌≡◌, ◌↔◌, refl, true, false, none, some, List, [], ◌∷◌, Text, codes, length, text_eq, arith,
  Bool-cases, inl, inr, if◌then◌else◌,
}
use ait.Json.{Value}
use ait.Json.Value.{string, array}
use ait.Json.Items.{nil, cons}
use ait.Dlp.{DlpScanner, scan, scan_value}
use ait.Dlp.Leaves.{least, reported, IsInRange, scan-none_iff, scan_value-least}

abbrev find_iter : Text → List ℕ
find_iter text = if text_eq text (codes "secret") then 0 ∷ [] else []

abbrev scanner : DlpScanner
scanner = record {
  enabled = true;
  rules = codes "secret" ∷ [];
  matcher = some find_iter;
  scan_numbers = false;
}

abbrev body : Value
body = array (cons (string (codes "public")) (cons (string (codes "secret")) nil))

find_iter-IsInRange : IsInRange (length scanner.rules) find_iter
find_iter-IsInRange text = elim (Bool-cases (text_eq text (codes "secret"))) [
  | inl h ↦ rw h (omega arith, tt)
  | inr h ↦ rw h tt
]

scan-none_iff_example : (scan scanner body ≡ none) ↔ (reported find_iter false body ≡ [])
scan-none_iff_example = scan-none_iff scanner find_iter body refl refl find_iter-IsInRange

scan_value-least_example :
    scan_value find_iter false none body ≡ least none (reported find_iter false body)
scan_value-least_example = scan_value-least find_iter false none body
