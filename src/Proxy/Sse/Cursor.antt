-- ===== src/Proxy/Sse/Cursor.antt =====
-- src/handlers/proxy/sse.rs: the scan cursor never changes what is found.
use ait.Base.{
  ℕ, zero, suc, ◌+◌, ◌-◌, ◌≤◌, min, ◌≡◌, refl, ap, ◌∙◌, false, none, some, [], ◌∷◌, ◌++◌, Text,
  length, length-append, drop, arith, Option-cases, inl, inr,
}
use ait.Proxy.Sse.Boundary.{
  crlf_crlf, lf_lf, starts_with, position, shift, boundary_from, find_event_boundary,
}

-- Neither separator begins at one of the first n places.
abbrev pub Clear : ℕ → Text → Type 0
Clear zero buf = Unit
Clear (suc n) [] = Unit
Clear (suc n) (c ∷ s) =
    (starts_with crlf_crlf (c ∷ s) ≡ false) × (starts_with lf_lf (c ∷ s) ≡ false) × Clear n s

-- What the cursor promises: the scanned bytes are clear of separators, and at least three bytes are
-- left to scan again.
pub record IsScanned (scanned : ℕ) (buf : Text) : Type 0 where
  pub clear : Clear scanned buf
  pub tail : scanned ≤ length buf - 3

position-none :
    (n : ℕ) (buf : Text) → position crlf_crlf buf ≡ none → position lf_lf buf ≡ none → Clear n buf
unfolding position
position-none zero buf h k = tt
position-none (suc n) [] h k = tt
position-none (suc n) (c ∷ s) h k =
    (ground arith, ground arith, position-none n s (ground arith) (ground arith))

position-drop_crlf :
    (n : ℕ) (buf : Text)
    → Clear n buf
    → position crlf_crlf buf ≡ shift n (position crlf_crlf (drop n buf))
unfolding position
position-drop_crlf zero buf h = ground arith
position-drop_crlf (suc n) [] h = refl
position-drop_crlf (suc n) (c ∷ s) (h, _, k) = ground (arith, position-drop_crlf n s k)

position-drop_lf :
    (n : ℕ) (buf : Text) → Clear n buf → position lf_lf buf ≡ shift n (position lf_lf (drop n buf))
unfolding position
position-drop_lf zero buf h = ground arith
position-drop_lf (suc n) [] h = refl
position-drop_lf (suc n) (c ∷ s) (_, h, k) = ground (arith, position-drop_lf n s k)

-- The search from the cursor finds what a search of the whole buffer finds.
boundary-drop :
    (n : ℕ) (buf : Text) → Clear n buf → boundary_from n (drop n buf) ≡ boundary_from 0 buf
unfolding boundary_from
boundary-drop n buf h = ground (arith, position-drop_crlf n buf h, position-drop_lf n buf h)

boundary-none :
    (n : ℕ) (buf : Text)
    → boundary_from n buf ≡ none
    → (position crlf_crlf buf ≡ none) × (position lf_lf buf ≡ none)
unfolding boundary_from
boundary-none n buf h = ground arith

-- One call with a cursor that keeps its promise, by what a search of the whole buffer finds.
find-cases :
    (scanned : ℕ) (buf : Text)
    → IsScanned scanned buf
    → find_event_boundary scanned buf ≡ (
      boundary_from 0 buf,
      (elim (boundary_from 0 buf) [ some _ ↦ scanned | none ↦ length buf - 3 ]),
    )
unfolding find_event_boundary
find-cases scanned buf h =
    let e : min scanned (length buf) ≡ scanned = omega (arith, h.tail) in
    rw (e, find_event_boundary) (rw (boundary-drop scanned buf h.clear) (ground arith))

-- With a cursor that keeps its promise, the result is that of a search of the whole buffer.
pub find_event_boundary-eq :
    (scanned : ℕ) (buf : Text)
    → IsScanned scanned buf
    → (find_event_boundary scanned buf).0 ≡ boundary_from 0 buf
find_event_boundary-eq scanned buf h = ap (λ r. r.0) (find-cases scanned buf h)

-- Whatever it finds, a search leaves a cursor that keeps its promise.
pub find_event_boundary-IsScanned :
    (scanned : ℕ) (buf : Text)
    → IsScanned scanned buf
    → IsScanned (find_event_boundary scanned buf).1 buf
find_event_boundary-IsScanned scanned buf h =
    rw (find-cases scanned buf h) (elim (Option-cases (boundary_from 0 buf)) [
      | inl nothing ↦
          let (a, b) = boundary-none 0 buf nothing in
          rw nothing (record { clear = position-none (length buf - 3) buf a b; tail = omega arith })
      | inr (i, found) ↦ rw found h
    ])

starts_with-append_crlf :
    (c : ℕ) (s new : Text)
    → 3 ≤ length s
    → starts_with crlf_crlf (c ∷ s ++ new) ≡ starts_with crlf_crlf (c ∷ s)
unfolding starts_with
starts_with-append_crlf c (d ∷ e ∷ f ∷ s) new h = refl
starts_with-append_crlf c (d ∷ e ∷ []) new h = absurd (omega arith)
starts_with-append_crlf c (d ∷ []) new h = absurd (omega arith)
starts_with-append_crlf c [] new h = absurd (omega arith)

starts_with-append_lf :
    (c : ℕ) (s new : Text)
    → 3 ≤ length s
    → starts_with lf_lf (c ∷ s ++ new) ≡ starts_with lf_lf (c ∷ s)
unfolding starts_with
starts_with-append_lf c (d ∷ s) new h = refl
starts_with-append_lf c [] new h = absurd (omega arith)

Clear-append : (n : ℕ) (buf new : Text) → Clear n buf → n + 3 ≤ length buf → Clear n (buf ++ new)
Clear-append zero buf new h le = tt
Clear-append (suc n) [] new h le = absurd (omega arith)
Clear-append (suc n) (c ∷ s) new (h, k, rest) le = (
  starts_with-append_crlf c s new (omega arith) ∙ h,
  starts_with-append_lf c s new (omega arith) ∙ k,
  Clear-append n s new rest (omega arith),
)

-- More bytes from upstream keep the cursor's promise, also for a separator that straddles the two.
pub IsScanned-append :
    (scanned : ℕ) (buf new : Text) → IsScanned scanned buf → IsScanned scanned (buf ++ new)
IsScanned-append zero buf new h = record { clear = tt; tail = omega arith }
IsScanned-append (suc scanned) buf new h = record {
  clear = Clear-append (suc scanned) buf new h.clear (omega (arith, h.tail));
  tail = omega (arith, h.tail, length-append buf new);
}
