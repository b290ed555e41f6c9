-- ===== src/Proxy/Sse/Log.antt =====
-- src/handlers/proxy/sse.rs: how often a stream writes to the log.
use ait.Base.{
  ℕ, ◌+◌, ◌≡◌, refl, sym, subst, ap, ◌∙◌, Bool, true, false, Option, some, List, [], ◌∷◌, ◌++◌,
  Text, length, length-append, arith, Bool-cases, Option-cases, inl, inr, codes,
}
use ait.Cache.{Instant}
use ait.Json.{Value}
use ait.Proxy.Sse.Cases.{poll_inner_chunk, poll_next_done, poll_next_cases}
use ait.Proxy.Sse.Stream.{
  Sse, Item, chunk, failure, finish, record_ttfb, finalize_log, final_event, fail_stream,
  finalize_stream, timeout_stream, drop_stream, next_cut, receive, count_bytes, split_event,
  poll_inner, poll_next, with_error,
}

abbrev pub count : Bool → ℕ
count true = 1
count false = 0

-- From a log of n events: one more if the stream is finished, and none if it is not.
abbrev pub Once : ℕ → Sse → Type 0
Once n s = length s.log ≡ n + count s.done

finalize_log-length : (now : Instant) (s : Sse) → length (finalize_log now s).log ≡ length s.log + 1
unfolding finalize_log
finalize_log-length now s = length-append s.log (final_event now s ∷ [])

record_ttfb-log :
    (now : Instant) (s : Sse)
    → ((record_ttfb now s).log ≡ s.log) × ((record_ttfb now s).done ≡ s.done)
unfolding record_ttfb
record_ttfb-log now s = elim (Option-cases s.event.time_to_first_token_ms) [
  | inl h ↦ rw h (refl, refl)
  | inr (t, h) ↦ rw h (refl, refl)
]

fail_stream-Once :
    (now : Instant) (status msg : Text) (s : Sse)
    → Once (length s.log) (fail_stream now status msg s).1
unfolding fail_stream finalize_log
fail_stream-Once now status msg s = length-append s.log _

finalize_log-done : (now : Instant) (s : Sse) → (finalize_log now s).done ≡ s.done
unfolding finalize_log
finalize_log-done now s = refl

finalize_stream-Once :
    (f : Text → Text) (now : Instant) (s : Sse) → Once (length s.log) (finalize_stream f now s).1
unfolding finalize_stream
finalize_stream-Once f now s =
    let (same, closed) = record_ttfb-log now (record s { done = true }) in
    ground (
      arith,
      same,
      finalize_log-length now (record_ttfb now (record s { done = true })),
      finalize_log-done now (record_ttfb now (record s { done = true })),
    )

next_cut-log : (s : Sse) → ((next_cut s).1.log ≡ s.log) × ((next_cut s).1.done ≡ s.done)
unfolding next_cut
next_cut-log s = (refl, refl)

receive-log :
    (now : Instant) (bytes : Text) (s : Sse)
    → ((receive now bytes s).log ≡ s.log) × ((receive now bytes s).done ≡ s.done)
unfolding receive
receive-log now bytes s = record_ttfb-log now (record s { buf = s.buf ++ bytes })

module _ (from_slice : Text → Option Value) (is_utf8 : Text → Bool)
    (transform_response : Text → Text) where
  split_event-Once :
      (n event_end : ℕ) (s : Sse)
      → length s.log ≡ n
      → s.done ≡ false
      → Once n (split_event from_slice is_utf8 transform_response event_end s).1
  unfolding split_event
  split_event-Once n event_end s h d = ground arith

  poll_inner-Once :
      (n : ℕ) (items : List Item) (s : Sse)
      → length s.log ≡ n
      → s.done ≡ false
      → Once n (poll_inner from_slice is_utf8 transform_response items s).0.1
  unfolding poll_inner
  poll_inner-Once n [] s h d = ground arith
  poll_inner-Once n (failure now e ∷ items) s h d = ground (
    arith,
    finalize_log-length now (record s { event = record s.event { error_message = some e } }),
  )
  poll_inner-Once n (finish now ∷ items) s h d =
      ground (arith, finalize_stream-Once transform_response now s)
  poll_inner-Once n (chunk now bytes ∷ items) s h d =
      let counted = count_bytes now bytes s in
      let (l, e) = receive-log now bytes counted in
      let (l', e') = next_cut-log (receive now bytes counted) in
      let s' = (next_cut (receive now bytes counted)).1 in
      poll_inner_chunk from_slice is_utf8 transform_response (λ r. Once n r.0.1) now bytes items s
        (λ _. ground (
          arith,
          fail_stream-Once now (codes "502") (codes "SSE stream exceeded max response size")
              counted,
        ))
        (λ end _ _. split_event-Once n end s' (ground arith) (ground arith))
        (λ _ _. poll_inner-Once n items s' (ground arith) (ground arith))
        (λ m _. ground (arith, fail_stream-Once now (codes "502") m s'))

  poll_next-Once :
      (n : ℕ) (now : Instant) (shutdown : Bool) (items : List Item) (s : Sse)
      → Once n s
      → Once n (poll_next from_slice is_utf8 transform_response now shutdown items s).0.1
  unfolding timeout_stream
  poll_next-Once n now shutdown items s h = elim (Bool-cases s.done) [
    | inl d ↦
        subst (λ r. Once n r.0.1)
          (sym (poll_next_done from_slice is_utf8 transform_response now shutdown items s d)) h
    | inr d ↦
        let (l, e) = next_cut-log s in
        let none_yet : length s.log ≡ n = ground arith in
        let s' = (next_cut s).1 in
        poll_next_cases from_slice is_utf8 transform_response (λ r. Once n r.0.1) now shutdown items
          s d
          (λ msg.
            ground
              (arith, finalize_stream-Once transform_response now (with_error (codes "504") msg s)))
          (λ end _. split_event-Once n end s' (ground arith) (ground arith))
          (λ m _. ground (arith, fail_stream-Once now (codes "502") m s'))
          (λ _. ground (arith, finalize_stream-Once transform_response now s'))
          (λ _. poll_inner-Once n items s' (ground arith) (ground arith))
  ]

  -- A history of polls: each with its instant, the shutdown signal and the items that are ready.
  abbrev pub run : List (Instant × Bool × List Item) → Sse → Sse
  run [] s = s
  run ((now, shutdown, items) ∷ polls) s =
      run polls (poll_next from_slice is_utf8 transform_response now shutdown items s).0.1

  run-Once :
      (n : ℕ) (polls : List (Instant × Bool × List Item)) (s : Sse)
      → Once n s
      → Once n (run polls s)
  run-Once n [] s h = h
  run-Once n ((now, shutdown, items) ∷ polls) s h =
      run-Once n polls _ (poll_next-Once n now shutdown items s h)

  -- A stream that is not finished, whatever polls it gets and whenever it is dropped, has written
  -- exactly one event to the log when it is gone.
  pub drop_stream-once :
      (polls : List (Instant × Bool × List Item)) (at : Instant) (s : Sse)
      → s.done ≡ false
      → length (drop_stream at (run polls s)).log ≡ length s.log + 1
  unfolding drop_stream
  drop_stream-once polls at s d =
      let last = run polls s in
      let h = run-Once (length s.log) polls s (ground arith) in
      elim (Bool-cases last.done) [
        | inl e ↦ rw e (ground arith)
        | inr e ↦ rw e (finalize_log-length at _ ∙ ground arith)
      ]

  -- A finished stream stays as it is: later polls end at once and write nothing.
  pub run-fused :
      (polls : List (Instant × Bool × List Item)) (s : Sse) → s.done ≡ true → run polls s ≡ s
  run-fused [] s d = refl
  run-fused ((now, shutdown, items) ∷ polls) s d =
      ap (λ r. run polls r.0.1)
        (poll_next_done from_slice is_utf8 transform_response now shutdown items s d)
      ∙ run-fused polls s d
