-- ===== src/Proxy/Sse/Held.antt =====
-- src/handlers/proxy/sse.rs: what an open stream keeps from poll to poll.
use ait.Base.{
  ◌≤◌, ◌≡◌, refl, sym, subst, ap, ◌∙◌, true, false, none, List, [], ◌∷◌, ◌++◌, Text, length, ltb,
  arith, inl, inr, Option-cases,
}
use mathlib.Core.List.{append-nil}
use ait.Cache.{Instant}
use ait.Proxy.Sse.Boundary.{boundary_from, force_split_oversized, max_sse_buffer_bytes}
use ait.Proxy.Sse.Cursor.{
  IsScanned, find_event_boundary-eq, find_event_boundary-IsScanned, IsScanned-append,
}
use ait.Proxy.Sse.Stream.{
  Sse, Item, chunk, failure, finish, record_ttfb, finalize_log, finalize_stream, cut, wait, forced,
  offer_of, next_cut, receive, count_bytes,
}

-- The bytes of the items that are ready.
unfoldable pub bytes_of : List Item → Text
bytes_of [] = []
bytes_of (chunk now bytes ∷ items) = bytes ++ bytes_of items
bytes_of (failure now e ∷ items) = bytes_of items
bytes_of (finish now ∷ items) = bytes_of items

pub nothing_ready : (t : Text) → t ≡ t ++ bytes_of []
unfolding bytes_of
nothing_ready t = sym (append-nil t)

-- What an open stream keeps: its cursor is sound, and its total is within the limit.
pub record IsOpen (s : Sse) : Type 0 where
  pub cursor : IsScanned s.scanned s.buf
  pub within : s.total_bytes ≤ s.max_bytes

-- The buffer holds no complete event and is not too long.
abbrev pub Waits : Sse → Type 0
Waits s = (boundary_from 0 s.buf ≡ none) × (length s.buf ≤ max_sse_buffer_bytes)

pub record_ttfb-same :
    (now : Instant) (s : Sse) → record_ttfb now s ≡ record s { event = (record_ttfb now s).event }
unfolding record_ttfb
record_ttfb-same now s = elim (Option-cases s.event.time_to_first_token_ms) [
  | inl h ↦ rw h refl
  | inr (t, h) ↦ rw h refl
]

pub forced-wait :
    (buf : Text) → forced (force_split_oversized buf) ≡ wait → length buf ≤ max_sse_buffer_bytes
unfolding force_split_oversized
forced-wait buf h = ground arith

pub next_cut-wait :
    (s : Sse) → IsScanned s.scanned s.buf → (next_cut s).0 ≡ wait → Waits (next_cut s).1
unfolding next_cut
next_cut-wait s h k = elim (Option-cases (boundary_from 0 s.buf)) [
  | inl e ↦
      let found = find_event_boundary-eq s.scanned s.buf h ∙ e in
      (e, forced-wait s.buf (subst (λ o. offer_of o s.buf ≡ wait) found k))
  | inr (i, e) ↦
      let found = find_event_boundary-eq s.scanned s.buf h ∙ e in
      let broken : cut i ≡ wait = subst (λ o. offer_of o s.buf ≡ wait) found k in ground arith
]

pub next_cut-IsOpen : (s : Sse) → IsOpen s → IsOpen (next_cut s).1
unfolding next_cut
next_cut-IsOpen s h = record {
  cursor = find_event_boundary-IsScanned s.scanned s.buf h.cursor;
  within = h.within;
}

pub receive-IsOpen :
    (now : Instant) (bytes : Text) (s : Sse)
    → IsScanned s.scanned s.buf
    → s.total_bytes ≤ s.max_bytes
    → IsOpen (receive now bytes s)
unfolding receive
receive-IsOpen now bytes s h k =
    subst IsOpen (sym (record_ttfb-same now (record s { buf = s.buf ++ bytes })))
      (record { cursor = IsScanned-append s.scanned s.buf bytes h; within = k })

pub finalize_stream-done :
    (f : Text → Text) (now : Instant) (s : Sse) → (finalize_stream f now s).1.done ≡ true
unfolding finalize_stream finalize_log
finalize_stream-done f now s = ap (λ r. r.done) (record_ttfb-same now (record s { done = true }))

-- The state after one chunk that the loop keeps.
pub record IsNext (s : Sse) (bytes : Text) (s' : Sse) : Type 0 where
  pub more : s'.buf ≡ s.buf ++ bytes
  pub tokens : s'.user_tokens ≡ s.user_tokens
  pub alive : s'.done ≡ s.done
  pub sound : IsOpen s'

pub next_cut-IsNext :
    (now : Instant) (bytes : Text) (s : Sse)
    → IsOpen s
    → ltb s.max_bytes (count_bytes now bytes s).total_bytes ≡ false
    → IsNext s bytes (next_cut (receive now bytes (count_bytes now bytes s))).1
unfolding receive next_cut
next_cut-IsNext now bytes s h k =
    let counted = count_bytes now bytes s in
    let within : counted.total_bytes ≤ counted.max_bytes = ground arith in
    let same = record_ttfb-same now (record counted { buf = counted.buf ++ bytes }) in
    record {
      more = ap (λ r. r.buf) same;
      tokens = ap (λ r. r.user_tokens) same;
      alive = ap (λ r. r.done) same;
      sound =
          next_cut-IsOpen (receive now bytes counted)
            (receive-IsOpen now bytes counted h.cursor within);
    }
