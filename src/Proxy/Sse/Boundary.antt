-- ===== src/Proxy/Sse/Boundary.antt =====
-- src/handlers/proxy/sse.rs: finding the end of an event in the buffer.
use ait.Base.{
  ℕ, suc, ◌+◌, ◌-◌, ◌*◌, min, Bool, true, false, ◌&&◌, Option, none, some, [], ◌∷◌, Text, length,
  drop, Result, ok, err, codes, leb, ◌==◌, if◌then◌else◌,
}

abbrev pub max_sse_buffer_bytes : ℕ
max_sse_buffer_bytes = 1024 * 1024

abbrev pub crlf_crlf : Text
crlf_crlf = 13 ∷ 10 ∷ 13 ∷ 10 ∷ []

abbrev pub lf_lf : Text
lf_lf = 10 ∷ 10 ∷ []

unfoldable pub starts_with : Text → Text → Bool
starts_with [] s = true
starts_with (p ∷ ps) [] = false
starts_with (p ∷ ps) (c ∷ s) = p == c && starts_with ps s

abbrev pub shift : ℕ → Option ℕ → Option ℕ
shift n none = none
shift n (some i) = some (n + i)

-- `windows(n).position(|w| w == pat)`, for a pattern of length n.
unfoldable pub position : Text → Text → Option ℕ
unfolding starts_with
position pat [] = none
position pat (c ∷ s) =
    let rest = shift 1 (position pat s) in if starts_with pat (c ∷ s) then some 0 else rest

-- The search of the tail from `start`: the end of the event, counted from the buffer's front.
unfoldable pub boundary_from : ℕ → Text → Option ℕ
boundary_from start hay = elim (position crlf_crlf hay) [
  | some i ↦ some (start + i + 4)
  | none ↦ elim (position lf_lf hay) [ some i ↦ some (start + i + 2) | none ↦ none ]
]

-- The result, and the new value of `scanned`.
unfoldable pub find_event_boundary : ℕ → Text → Option ℕ × ℕ
find_event_boundary scanned buf =
    let start = min scanned (length buf) in
    elim (boundary_from start (drop start buf)) [
      | some event_end ↦ (some event_end, scanned)
      | none ↦ (none, length buf - 3)
    ]

-- `rposition` of a newline.
unfoldable pub last_newline : Text → Option ℕ
last_newline [] = none
last_newline (c ∷ s) = elim (last_newline s) [
  | some i ↦ some (suc i)
  | none ↦ if c == 10 then some 0 else none
]

unfoldable pub force_split_oversized : Text → Result (Option ℕ) Text
unfolding last_newline
force_split_oversized buf =
    if leb (length buf) max_sse_buffer_bytes then ok none else elim (last_newline buf) [
      | some i ↦ ok (some (i + 1))
      | none ↦ err (codes "SSE buffer exceeded cap without a line boundary")
    ]
