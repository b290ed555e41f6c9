-- ===== src/Proxy/Sse/Cases.antt =====
-- src/handlers/proxy/sse.rs: the ways in which a poll ends, as principles for proofs.
use ait.Base.{
  ℕ, ◌≡◌, refl, sym, subst, ap, Bool, true, false, Option, none, List, ◌∷◌, ◌⊎◌, inl, inr, Text,
  codes, leb, ltb, Bool-cases, if◌then◌else◌,
}
use ait.Cache.{Instant, elapsed}
use ait.Json.{Value}
use ait.Proxy.Sse.Stream.{
  Sse, Item, chunk, Poll, ready, fail_stream, finalize_stream, timeout_stream, Cut, cut, wait,
  oversized, next_cut, receive, count_bytes, split_event, emit, poll_inner, poll_open, poll_next,
}

abbrev pub Polled : Type 0
Polled = (Poll × Sse) × List Item

Cut-cases : (c : Cut) → ((e : ℕ) × (c ≡ cut e)) ⊎ ((c ≡ wait) ⊎ ((m : Text) × (c ≡ oversized m)))
Cut-cases (cut e) = inl (e, refl)
Cut-cases wait = inr (inl refl)
Cut-cases (oversized m) = inr (inr (m, refl))

module _ (from_slice : Text → Option Value) (is_utf8 : Text → Bool)
    (transform_response : Text → Text) where
  -- One chunk: the stream is too long, an event is ready, the loop goes on, or a line is too long.
  pub poll_inner_chunk :
      (P : Polled → Type 0) (now : Instant) (bytes : Text) (items : List Item) (s : Sse)
      → (ltb s.max_bytes (count_bytes now bytes s).total_bytes ≡ true
          → P (
            fail_stream now
                (codes "502")
                (codes "SSE stream exceeded max response size")
                (count_bytes now bytes s),
            items,
          ))
      → ((e : ℕ)
          → ltb s.max_bytes (count_bytes now bytes s).total_bytes ≡ false
          → (next_cut (receive now bytes (count_bytes now bytes s))).0 ≡ cut e
          → P (
            emit from_slice is_utf8 transform_response (
                split_event from_slice is_utf8 transform_response e
                  (next_cut (receive now bytes (count_bytes now bytes s))).1),
            items,
          ))
      → (ltb s.max_bytes (count_bytes now bytes s).total_bytes ≡ false
          → (next_cut (receive now bytes (count_bytes now bytes s))).0 ≡ wait
          → P (
              poll_inner from_slice is_utf8 transform_response items
                (next_cut (receive now bytes (count_bytes now bytes s))).1))
      → ((m : Text)
          → (next_cut (receive now bytes (count_bytes now bytes s))).0 ≡ oversized m
          → P (
            fail_stream now
                (codes "502")
                m
                (next_cut (receive now bytes (count_bytes now bytes s))).1,
            items,
          ))
      → P (poll_inner from_slice is_utf8 transform_response (chunk now bytes ∷ items) s)
  unfolding poll_inner
  poll_inner_chunk P now bytes items s long ended more broken =
      elim (Bool-cases (ltb s.max_bytes (count_bytes now bytes s).total_bytes)) [
        | inl h ↦ rw h (long h)
        | inr h ↦ elim (Cut-cases (next_cut (receive now bytes (count_bytes now bytes s))).0) [
          | inl (e, k) ↦ rw (h, k) (ended e h k)
          | inr (inl k) ↦ rw (h, k) (more h k)
          | inr (inr (m, k)) ↦ rw (h, k) (broken m k)
        ]
      ]

  pub poll_next_done :
      (now : Instant) (shutdown : Bool) (items : List Item) (s : Sse)
      → s.done ≡ true
      → poll_next from_slice is_utf8 transform_response now shutdown items s
        ≡ ((ready none, s), items)
  unfolding poll_next
  poll_next_done now shutdown items s d =
      ap
        (λ b.
          if b
          then ((ready none, s), items)
          else poll_open from_slice is_utf8 transform_response now shutdown items s)
        d

  -- One poll of a stream that is not done.
  pub poll_next_cases :
      (P : Polled → Type 0) (now : Instant) (shutdown : Bool) (items : List Item) (s : Sse)
      → s.done ≡ false
      → ((msg : Text) → P (timeout_stream transform_response now msg s, items))
      → ((e : ℕ)
          → (next_cut s).0 ≡ cut e
          → P (
            emit from_slice is_utf8 transform_response
                (split_event from_slice is_utf8 transform_response e (next_cut s).1),
            items,
          ))
      → ((m : Text)
          → (next_cut s).0 ≡ oversized m
          → P (fail_stream now (codes "502") m (next_cut s).1, items))
      → ((next_cut s).0 ≡ wait → P (finalize_stream transform_response now (next_cut s).1, items))
      → ((next_cut s).0 ≡ wait
          → P (poll_inner from_slice is_utf8 transform_response items (next_cut s).1))
      → P (poll_next from_slice is_utf8 transform_response now shutdown items s)
  unfolding poll_next
  poll_next_cases P now shutdown items s d late ended broken closing more =
      subst
        (λ b. P (
          if b
          then ((ready none, s), items)
          else poll_open from_slice is_utf8 transform_response now shutdown items s))
        (sym d)
        (elim (Bool-cases (leb s.max_duration (elapsed now s.start))) [
          | inl h ↦ rw h (late (codes "SSE stream exceeded max duration"))
          | inr h ↦ elim (Bool-cases (leb s.idle_timer now)) [
            | inl i ↦ rw (h, i) (late (codes "SSE stream idle timeout"))
            | inr i ↦ elim (Cut-cases (next_cut s).0) [
              | inl (e, k) ↦ rw (h, i, k) (ended e k)
              | inr (inl k) ↦ elim (Bool-cases shutdown) [
                | inl q ↦ rw (h, i, k, q) (closing k)
                | inr q ↦ rw (h, i, k, q) (more k)
              ]
              | inr (inr (m, k)) ↦ rw (h, i, k) (broken m k)
            ]
          ]
        ])
