-- ===== src/Proxy/Sse/Flow.antt =====
-- src/handlers/proxy/sse.rs: where the bytes of a stream go.
use ait.Base.{
  ℕ, ◌≡◌, refl, sym, subst, ap, ◌∙◌, Bool, true, false, Option, none, some, List, [], ◌∷◌, ◌++◌,
  Text, take, drop, Result, ok, err, arith, ◌⊎◌, inl, inr, codes, take-append-drop,
}
use mathlib.Core.List.{append_assoc}
use ait.Cache.{Instant}
use ait.Json.{Value}
use ait.Proxy.Sse.Event.{transform_event}
use ait.Proxy.Sse.Cases.{Polled, poll_inner_chunk, poll_next_cases}
use ait.Proxy.Sse.Stream.{
  Sse, Item, chunk, failure, finish, pending, ready, finalize_log, fail_stream, finalize_stream,
  timeout_stream, next_cut, receive, count_bytes, split_event, emit, poll_inner, poll_next,
  with_error,
}
use ait.Proxy.Sse.Held.{
  bytes_of, nothing_ready, IsOpen, Waits, next_cut-wait, next_cut-IsOpen, receive-IsOpen,
  finalize_stream-done, IsNext, next_cut-IsNext,
}

module _ (from_slice : Text → Option Value) (is_utf8 : Text → Bool)
    (transform_response : Text → Text) where
  -- An output is one cut of the buffer and the bytes that came, rewritten; the rest stays.
  abbrev pub IsEvent : Sse → Text → Text → Sse → Text → Type 0
  IsEvent s ahead out s' left =
      (segment : Text) × (segment ++ (s'.buf ++ left) ≡ s.buf ++ ahead)
      × (transform_event from_slice is_utf8 transform_response s.user_tokens segment
          ≡ (s'.user_tokens, out))

  -- What becomes of the bytes, by the answer of a poll that leaves the stream open.
  abbrev Flow : Sse → List Item → Polled → Type 0
  Flow s items ((pending, s'), left) =
      (left ≡ []) × Waits s' × (s'.buf ≡ s.buf ++ bytes_of items) × (s'.done ≡ false)
  Flow s items ((ready none, s'), left) = s'.done ≡ true
  Flow s items ((ready (some (err e)), s'), left) = s'.done ≡ true
  Flow s items ((ready (some (ok out)), s'), left) =
      (s'.done ≡ true)
      ⊎ (IsEvent s (bytes_of items) out s' (bytes_of left) × IsOpen s' × (s'.done ≡ false))

  done-Flow :
      (s : Sse) (items : List Item) (p : Option (Result Text Text)) (s' : Sse) (left : List Item)
      → s'.done ≡ true
      → Flow s items ((ready p, s'), left)
  done-Flow s items none s' left d = d
  done-Flow s items (some (ok out)) s' left d = inl d
  done-Flow s items (some (err e)) s' left d = d

  -- A chunk taken before is among the bytes that came.
  Flow-chunk :
      (now : Instant) (bytes : Text) (items : List Item) (s s' : Sse)
      → IsNext s bytes s'
      → (r : Polled) → Flow s' items r
      → Flow s (chunk now bytes ∷ items) r
  unfolding bytes_of
  Flow-chunk now bytes items s s' n ((pending, t), left) (l, w, b, d) = (
    l,
    w,
    b ∙ ap (λ u. u ++ bytes_of items) n.more ∙ append_assoc s.buf bytes (bytes_of items),
    d,
  )
  Flow-chunk now bytes items s s' n ((ready none, t), left) d = d
  Flow-chunk now bytes items s s' n ((ready (some (err e)), t), left) d = d
  Flow-chunk now bytes items s s' n ((ready (some (ok out)), t), left) (inl d) = inl d
  Flow-chunk now bytes items s s' n ((ready (some (ok out)), t), left)
        (inr ((segment, b, e), o, d)) =
      inr (
        (
          segment,
          b ∙ ap (λ u. u ++ bytes_of items) n.more ∙ append_assoc s.buf bytes (bytes_of items),
          ap (λ u. transform_event from_slice is_utf8 transform_response u segment) (sym n.tokens)
              ∙ e,
        ),
        o,
        d,
      )

  split_event-Flow :
      (event_end : ℕ) (items : List Item) (s : Sse)
      → IsOpen s
      → s.done ≡ false
      → Flow s items (
        emit from_slice is_utf8 transform_response
            (split_event from_slice is_utf8 transform_response event_end s),
        items,
      )
  unfolding split_event
  split_event-Flow event_end items s o d = inr (
    (
      take event_end s.buf,
      sym (append_assoc (take event_end s.buf) (drop event_end s.buf) (bytes_of items))
          ∙ ap (λ u. u ++ bytes_of items) (take-append-drop event_end s.buf),
      refl,
    ),
    record { cursor = record { clear = tt; tail = omega arith }; within = o.within },
    d,
  )

  poll_inner-Flow :
      (items : List Item) (s : Sse)
      → IsOpen s
      → Waits s
      → s.done ≡ false
      → Flow s items (poll_inner from_slice is_utf8 transform_response items s)
  unfolding poll_inner fail_stream finalize_log finalize_stream
  poll_inner-Flow [] s o w d = (refl, w, nothing_ready s.buf, d)
  poll_inner-Flow (failure now e ∷ items) s o w d = refl
  poll_inner-Flow (finish now ∷ items) s o w d =
      done-Flow s (finish now ∷ items) _ _ items (finalize_stream-done transform_response now s)
  poll_inner-Flow (chunk now bytes ∷ items) s o w d =
      let counted = count_bytes now bytes s in
      let s' = (next_cut (receive now bytes counted)).1 in
      poll_inner_chunk from_slice is_utf8 transform_response
        (λ r. Flow s (chunk now bytes ∷ items) r) now bytes items s (λ _. refl)
        (λ e k _.
          let n = next_cut-IsNext now bytes s o k in
          Flow-chunk now bytes items s s' n
            (
              emit from_slice is_utf8 transform_response
                  (split_event from_slice is_utf8 transform_response e s'),
              items,
            )
            (split_event-Flow e items s' n.sound (n.alive ∙ d)))
        (λ k offer.
          let n = next_cut-IsNext now bytes s o k in
          let waits =
            next_cut-wait (receive now bytes counted)
              (receive-IsOpen now bytes counted o.cursor (ground arith)).cursor offer in
          Flow-chunk now bytes items s s' n
            (poll_inner from_slice is_utf8 transform_response items s')
            (poll_inner-Flow items s' n.sound waits (n.alive ∙ d)))
        (λ m _. refl)

  poll_next-Flow :
      (now : Instant) (shutdown : Bool) (items : List Item) (s : Sse)
      → IsOpen s
      → s.done ≡ false
      → Flow s items (poll_next from_slice is_utf8 transform_response now shutdown items s)
  unfolding fail_stream finalize_log timeout_stream finalize_stream next_cut
  poll_next-Flow now shutdown items s o d =
      let s' = (next_cut s).1 in
      let o' = next_cut-IsOpen s o in
      poll_next_cases from_slice is_utf8 transform_response (Flow s items) now shutdown items s d
        (λ msg.
          done-Flow s items _ _ items
            (finalize_stream-done transform_response now (with_error (codes "504") msg s)))
        (λ e _. split_event-Flow e items s' o' d) (λ m _. refl)
        (λ _. done-Flow s items _ _ items (finalize_stream-done transform_response now s'))
        (λ k. poll_inner-Flow items s' o' (next_cut-wait s o.cursor k) d)

  -- An open stream that answers pending has taken every item that was ready, keeps all their bytes in
  -- its buffer, is still unfinished, and the buffer holds no complete event and is within the cap.
  pub poll_next-pending :
      (now : Instant) (shutdown : Bool) (items left : List Item) (s s' : Sse)
      → IsOpen s
      → s.done ≡ false
      → poll_next from_slice is_utf8 transform_response now shutdown items s ≡ ((pending, s'), left)
      → (left ≡ []) × Waits s' × (s'.buf ≡ s.buf ++ bytes_of items) × (s'.done ≡ false)
  poll_next-pending now shutdown items left s s' o d h =
      subst (Flow s items) h (poll_next-Flow now shutdown items s o d)

  -- An output that leaves an open stream unfinished is one segment of the bytes held and ready,
  -- rewritten; the segment, the new buffer and the items left are those bytes in order, and the
  -- stream still keeps its cursor and its limit.
  pub poll_next-IsEvent :
      (now : Instant) (shutdown : Bool) (items left : List Item) (out : Text) (s s' : Sse)
      → IsOpen s
      → s.done ≡ false
      → s'.done ≡ false
      → poll_next from_slice is_utf8 transform_response now shutdown items s
        ≡ ((ready (some (ok out)), s'), left)
      → IsEvent s (bytes_of items) out s' (bytes_of left) × IsOpen s'
  poll_next-IsEvent now shutdown items left out s s' o d d' h =
      elim (subst (Flow s items) h (poll_next-Flow now shutdown items s o d)) [
        | inl e ↦ absurd (ground arith)
        | inr (event, open_still, _) ↦ (event, open_still)
      ]
