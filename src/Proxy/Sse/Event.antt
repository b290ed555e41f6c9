-- ===== src/Proxy/Sse/Event.antt =====
-- src/handlers/proxy/sse.rs: `transform_event`, the rewriting of one event.
-- `serde_json::from_slice`, `std::str::from_utf8` (as a test) and the provider's
-- `transform_response` are parameters.
use ait.Base.{
  Bool, true, false, ◌&&◌, ◌||◌, not, Option, none, some, List, [], ◌∷◌, ◌++◌, Text, codes,
  strip_prefix, ◌==◌, if◌then◌else◌,
}
use ait.Json.{Value}
use ait.Proxy.Usage.{UsageTokens, parse_usage, has_usage}

abbrev pub is_empty : Text → Bool
is_empty [] = true
is_empty (c ∷ s) = false

-- Puts a character in front of the first line.
abbrev pub prepend : Text → List Text → List Text
prepend p [] = p ∷ []
prepend p (l ∷ ls) = (p ++ l) ∷ ls

abbrev pub at_newline : Text → Bool
at_newline [] = false
at_newline (c ∷ s) = c == 10

-- `str::lines`: the lines without their `\n` or `\r\n`; the last may lack one.
unfoldable pub lines : Text → List Text
lines [] = []
lines (c ∷ s) =
    let rest = lines s in
    if c == 10 then [] ∷ rest else if c == 13 && at_newline s then rest else prepend (c ∷ []) rest

-- `out.ends_with(b"\n\n")`
unfoldable pub ends_blank : Text → Bool
ends_blank [] = false
ends_blank (a ∷ []) = false
ends_blank (a ∷ b ∷ []) = (a == 10) && (b == 10)
ends_blank (a ∷ b ∷ c ∷ s) = ends_blank (b ∷ c ∷ s)

abbrev pub without_space : Text → Text
without_space rest = elim (strip_prefix (codes " ") rest) [ some r ↦ r | none ↦ rest ]

-- The payload of a `data:` line, without one separating space.
unfoldable pub payload_of : Text → Option Text
payload_of line = elim (strip_prefix (codes "data:") line) [
  | some rest ↦ some (without_space rest)
  | none ↦ none
]

module _ (from_slice : Text → Option Value) (is_utf8 : Text → Bool)
    (transform_response : Text → Text) where
  unfoldable pub try_extract_usage_from : Option UsageTokens → Text → Option UsageTokens
  try_extract_usage_from user_tokens payload =
      if has_usage (parse_usage from_slice payload)
      then some (parse_usage from_slice payload)
      else user_tokens

  -- One turn of the loop on lines: the tokens and the output so far.
  unfoldable pub transform_line : Option UsageTokens → Text → Text → Option UsageTokens × Text
  transform_line user_tokens out line = elim (payload_of line) [
    | some payload ↦ (
      try_extract_usage_from user_tokens payload,
      out ++ (codes "data: " ++ (transform_response payload ++ codes "\n")),
    )
    | none ↦ (
      user_tokens,
      if not (is_empty line) || not (ends_blank out) then out ++ (line ++ codes "\n") else out,
    )
  ]

  unfoldable pub transform_lines : Option UsageTokens → Text → List Text → Option UsageTokens × Text
  unfolding transform_line
  transform_lines user_tokens out [] = (user_tokens, out)
  transform_lines user_tokens out (line ∷ rest) =
      let (t, o) = transform_line user_tokens out line in transform_lines t o rest

  unfoldable pub transform_event : Option UsageTokens → Text → Option UsageTokens × Text
  unfolding transform_lines
  transform_event user_tokens event =
      if is_utf8 event then transform_lines user_tokens [] (lines event) else (user_tokens, event)
