-- ===== src/Proxy/Exec/Limits.antt =====
-- src/handlers/proxy/exec.rs: the bounds on what is read from an upstream and kept of it.
use ait.Base.{
  ℕ, zero, suc, ◌-◌, ◌^◌, ◌≤◌, ◌<◌, ◌≡◌, sym, subst, ◌∙◌, false, List, [], ◌∷◌, ◌++◌, Text, codes,
  length, length-append, length-take, take, get_elem?, is_some_and, ok, ltb, arith, Bool-cases, inl,
  inr, if◌then◌else◌,
}
use mathlib.Core.List.{append_assoc, append-nil}
use ait.Proxy.Exec.{Turn, bytes, broken, stalled}
use ait.Proxy.Exec.Body.{read_body, saturating_add, floor_char_boundary, is_continuation, truncated}

-- The bytes of all turns.
abbrev pub bytes_of_turns : List Turn → Text
bytes_of_turns [] = []
bytes_of_turns (bytes chunk ∷ turns) = chunk ++ bytes_of_turns turns
bytes_of_turns (broken ∷ turns) = bytes_of_turns turns
bytes_of_turns (stalled ∷ turns) = bytes_of_turns turns

read_body_more :
    (max_body : ℕ) (turns : List Turn) (body whole : Text)
    → max_body < 2 ^ 64 - 1
    → length body ≤ max_body
    → read_body max_body body turns ≡ ok whole
    → (whole ≡ body ++ bytes_of_turns turns) × (length whole ≤ max_body)
unfolding read_body
read_body_more max_body [] body whole small le h =
    let same : body ≡ whole = ground arith in
    (sym same ∙ sym (append-nil body), subst (λ b. length b ≤ max_body) same le)
read_body_more max_body (stalled ∷ turns) body whole small le h = absurd (ground arith)
read_body_more max_body (broken ∷ turns) body whole small le h = absurd (ground arith)
read_body_more max_body (bytes chunk ∷ turns) body whole small le h =
    elim (Bool-cases (ltb max_body (saturating_add (length body) (length chunk)))) [
      | inl over ↦ absurd (ground arith)
      | inr within ↦
          let fits : length (body ++ chunk) ≤ max_body =
            rw (length-append body chunk) (ground arith) in
          let rest : read_body max_body (body ++ chunk) turns ≡ ok whole = ground arith in
          let (e, le') = read_body_more max_body turns (body ++ chunk) whole small fits rest in
          (e ∙ append_assoc body chunk (bytes_of_turns turns), le')
    ]

-- A body that is read to its end under a limit below the largest `usize` is all the bytes that the
-- upstream sent, in order, and within the limit.
pub read_body-ok :
    (max_body : ℕ) (turns : List Turn) (whole : Text)
    → max_body < 2 ^ 64 - 1
    → read_body max_body [] turns ≡ ok whole
    → (whole ≡ bytes_of_turns turns) × (length whole ≤ max_body)
read_body-ok max_body turns whole small h =
    read_body_more max_body turns [] whole small (omega arith) h

floor_char_boundary-le : (s : Text) (i : ℕ) → floor_char_boundary s i ≤ i
unfolding floor_char_boundary
floor_char_boundary-le s zero = omega arith
floor_char_boundary-le s (suc i) =
    elim (Bool-cases (is_some_and (get_elem? s (suc i)) is_continuation)) [
      | inl h ↦ rw h (omega (arith, floor_char_boundary-le s i))
      | inr h ↦ rw h (omega arith)
    ]

floor_char_boundary-start :
    (s : Text) (i : ℕ)
    → is_some_and (get_elem? s 0) is_continuation ≡ false
    → is_some_and (get_elem? s (floor_char_boundary s i)) is_continuation ≡ false
unfolding floor_char_boundary
floor_char_boundary-start s zero h = h
floor_char_boundary-start s (suc i) h =
    elim (Bool-cases (is_some_and (get_elem? s (suc i)) is_continuation)) [
      | inl c ↦ rw c (floor_char_boundary-start s i h)
      | inr c ↦
          subst
            (λ b.
              is_some_and (get_elem? s (if b then floor_char_boundary s i else suc i))
                is_continuation
              ≡ false)
            (sym c) c
    ]

-- What the log keeps of an error body is at most 512 bytes and the dots, and where the body begins
-- with a character, it is cut in front of one.
pub truncated-le :
    (body : Text)
    → is_some_and (get_elem? body 0) is_continuation ≡ false
    → (length (truncated body) ≤ 515)
      × (is_some_and (get_elem? body (floor_char_boundary body 512)) is_continuation ≡ false)
unfolding truncated
truncated-le body h = (
  elim (Bool-cases (ltb 512 (length body))) [
    | inl long ↦
        let dots = length-append (take (floor_char_boundary body 512) body) (codes "...") in
        rw long (
          omega (
            arith,
            dots,
            length-take (floor_char_boundary body 512) body,
            floor_char_boundary-le body 512,
          ))
    | inr short ↦ rw short (ground arith)
  ],
  floor_char_boundary-start body 512 h,
)
