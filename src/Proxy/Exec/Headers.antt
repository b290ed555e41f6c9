-- ===== src/Proxy/Exec/Headers.antt =====
-- src/handlers/proxy/exec.rs: which headers of the upstream reach the client.
use ait.Base.{
  ◌⊎◌, ◌++◌, ℕ, ◌+◌, Bool, ◌&&◌, not, List, [], ◌∷◌, map, Text, codes, filter, leb, text_eq, any,
  ◌≡◌, ◌≢◌, if◌then◌else◌,
}
use ait.Proxy.Sse.Boundary.{starts_with}

abbrev pub to_lower : ℕ → ℕ
to_lower c = if leb b'A' c && leb c b'Z' then c + 32 else c

abbrev pub to_ascii_lowercase : Text → Text
to_ascii_lowercase s = map to_lower s

abbrev pub withheld : List Text
withheld =
    codes "x-real-ip"
    ∷ codes "x-api-key"
    ∷ codes "x-api-token"
    ∷ codes "x-auth-token"
    ∷ codes "x-authorization"
    ∷ []

-- The decision on the lower-case name.
abbrev pub relays : Text → Bool
relays lower =
    if not (starts_with (codes "x-") lower)
    then text_eq lower (codes "retry-after")
    else not (starts_with (codes "x-forwarded-") lower) && not (any (λ h. text_eq lower h) withheld)

unfoldable pub is_forwardable_upstream_header : Text → Bool
is_forwardable_upstream_header name = relays (to_ascii_lowercase name)

unfoldable pub collect_x_headers : List (Text × Text) → List (Text × Text)
unfolding is_forwardable_upstream_header
collect_x_headers headers = filter (λ h. is_forwardable_upstream_header h.0) headers

-- The names that may be relayed, in lower case: `retry-after`, and those in x- that are neither of
-- the x-forwarded- family nor one of five.
abbrev pub IsRelayed : Text → Type 0
IsRelayed lower =
    (lower ≡ codes "retry-after")
    ⊎ (((rest : Text) × (lower ≡ codes "x-" ++ rest))
        × (((rest : Text) → lower ≢ codes "x-forwarded-" ++ rest)
            × (lower ≢ codes "x-real-ip")
            × (lower ≢ codes "x-api-key")
            × (lower ≢ codes "x-api-token")
            × (lower ≢ codes "x-auth-token")
            × (lower ≢ codes "x-authorization")))
