-- ===== src/Logger/Delivery.antt =====
-- src/db/logger.rs, worker_loop: what happens to an event that the worker takes from its channel.
use ait.Base.{
  suc, ℕ, leb, ◌≡◌, refl, sym, subst, ap, ◌∙◌, inl, inr, Bool, true, false, ◌||◌, List, [], ◌∷◌,
  ◌++◌, length, filter, if◌then◌else◌, Bool-cases, All, arith,
}
use mathlib.Core.List.{append_assoc, append-nil}
use ait.Db.{DateTime, AccessEvent, ProxyEvent, AuditEvent, LogEvent}
use ait.Logger.Writes.{
  Answers, Logs, Worker, accesses, proxies, audits, append_events, cleanup_expired,
  is_retention_due, flush_buffer, is_empty,
}
use ait.Logger.Worker.{
  Received, event, timeout, disconnected, Pass, Turn, is_shutdown, pushed, has_shutdown, write_last,
  receive, flush_full, gather, iteration, worker_loop,
}
use ait.Logger.Arrivals.{
  taken, ends, arrivals, IsHealthy, IsHealthyPass, flush_events-healthy, filter-append,
  filter-clean_table, accesses-append, proxies-append, audits-append,
}

-- One of the three tables: its rows, the rows that a batch makes, and their instants.
module _ {R : Type 0} (rows : Logs → List R) (made : List LogEvent → List R) (stamp : R → DateTime)
    (fresh : DateTime → Bool) (made-nil : made [] ≡ [])
    (made-append : (xs ys : List LogEvent) → made (xs ++ ys) ≡ made xs ++ made ys)
    (rows-append : (events : List LogEvent) (logs : Logs)
      → rows (append_events events logs) ≡ rows logs ++ made events)
    (rows-clean : (a : Answers) (logs : Logs)
      → IsHealthy fresh a
      → filter (λ r. fresh (stamp r)) (rows (cleanup_expired a logs))
        ≡ filter (λ r. fresh (stamp r)) (rows logs)) where
  kept : List R → List R
  kept rs = filter (λ r. fresh (stamp r)) rs

  kept-append : (xs ys : List R) → kept (xs ++ ys) ≡ kept xs ++ kept ys
  unfolding kept
  kept-append xs ys = filter-append (λ r. fresh (stamp r)) xs ys

  -- The fresh rows that are written or wait in the buffer.
  seen : Worker → List R
  seen w = kept (rows w.logs ++ made w.buffer)

  kept-flush_buffer :
      (every : ℕ) (a : Answers) (w : Worker)
      → IsHealthy fresh a
      → kept (rows (flush_buffer every a w).logs) ≡ seen w
  unfolding flush_buffer kept seen
  kept-flush_buffer every a w h =
      rw (flush_events-healthy fresh a w.buffer w.logs h)
        (elim (Bool-cases (is_retention_due every (suc w.flush_count))) [
          | inl due ↦
              rw (due, rows-clean a (append_events w.buffer w.logs) h, rows-append w.buffer w.logs)
                refl
          | inr later ↦ rw (later, rows-append w.buffer w.logs) refl
        ])

  seen-push :
      (w : Worker) (events : List LogEvent)
      → seen (record w { buffer = w.buffer ++ events }) ≡ seen w ++ kept (made events)
  unfolding seen
  seen-push w events = rw (made-append w.buffer events) (
      ap kept (sym (append_assoc (rows w.logs) (made w.buffer) (made events)))
      ∙ kept-append (rows w.logs ++ made w.buffer) (made events))

  seen-flush_buffer :
      (every : ℕ) (a : Answers) (w : Worker)
      → IsHealthy fresh a
      → seen (flush_buffer every a w) ≡ seen w
  unfolding seen flush_buffer
  seen-flush_buffer every a w h =
      ap kept (
        ap (λ rest. rows (flush_buffer every a w).logs ++ rest) made-nil
        ∙ append-nil (rows (flush_buffer every a w).logs))
      ∙ kept-flush_buffer every a w h

  seen-flush_full :
      (batch every : ℕ) (a : Answers) (w : Worker)
      → IsHealthy fresh a
      → seen (flush_full batch every a w) ≡ seen w
  unfolding flush_full
  seen-flush_full batch every a w h = elim (Bool-cases (leb batch (length w.buffer))) [
    | inl full ↦ rw full (seen-flush_buffer every a w h)
    | inr room ↦ rw room refl
  ]

  seen-nothing : (w : Worker) → seen w ≡ seen w ++ kept (made [])
  unfolding kept
  seen-nothing w = rw made-nil (sym (append-nil (seen w)))

  seen-receive_event :
      (batch every : ℕ) (a : Answers) (w : Worker) (e : LogEvent)
      → seen (receive batch every (event e) a w) ≡ seen w ++ kept (made (pushed (e ∷ [])))
  unfolding receive pushed
  seen-receive_event batch every a w e = elim (Bool-cases (is_shutdown e)) [
    | inl stop ↦ rw stop (seen-nothing w)
    | inr more ↦ rw more (seen-push w (e ∷ []))
  ]

  seen-receive_timeout :
      (batch every : ℕ) (a : Answers) (w : Worker)
      → IsHealthy fresh a
      → seen (receive batch every timeout a w) ≡ seen w
  unfolding receive
  seen-receive_timeout batch every a w h = elim (Bool-cases (is_empty w.buffer)) [
    | inl idle ↦ rw idle refl
    | inr busy ↦ rw busy (seen-flush_buffer every a w h)
  ]

  kept-write_last :
      (a : Answers) (w : Worker) → IsHealthy fresh a → kept (rows (write_last a w).logs) ≡ seen w
  unfolding write_last seen
  kept-write_last a w h = elim (Bool-cases (is_empty w.buffer)) [
    | inl idle ↦
        let none_left : w.buffer ≡ [] = ground arith in
        rw (idle, none_left, made-nil) (ap kept (sym (append-nil (rows w.logs))))
    | inr busy ↦
        rw (busy, flush_events-healthy fresh a w.buffer w.logs h)
          (ap kept (rows-append w.buffer w.logs))
  ]

  -- The messages behind the first one, and the flush of a full batch.
  seen-gather :
      (batch every : ℕ) (received : Received) (turn : Turn) (w : Worker)
      → IsHealthyPass fresh (received, turn)
      → (first : List LogEvent)
      → seen (receive batch every received turn.at_timeout w) ≡ seen w ++ kept (made first)
      → seen (gather batch every (received, turn) w)
        ≡ seen w ++ kept (made (first ++ pushed turn.pending))
  unfolding gather
  seen-gather batch every received turn w (_, at_batch, _) first h =
      let w1 = receive batch every received turn.at_timeout w in
      let rest = pushed turn.pending in
      seen-flush_full batch every turn.at_batch (record w1 { buffer = w1.buffer ++ rest }) at_batch
      ∙ seen-push w1 rest
      ∙ ap (λ s. s ++ kept (made rest)) h
      ∙ append_assoc (seen w) (kept (made first)) (kept (made rest))
      ∙ ap (λ s. seen w ++ s)
          (sym (kept-append (made first) (made rest)) ∙ ap kept (sym (made-append first rest)))

  -- What one pass is worth: it goes on with the events taken, or it ends with them written.
  Worth : Worker → Pass → Bool × Worker → Type 0
  Worth w pass (false, after) =
      (ends pass ≡ false) × (seen after ≡ seen w ++ kept (made (taken pass)))
  Worth w pass (true, after) =
      (ends pass ≡ true) × (kept (rows after.logs) ≡ seen w ++ kept (made (taken pass)))

  gathered-Worth :
      (pass : Pass) (w g : Worker) (a : Answers) (stop : Bool)
      → IsHealthy fresh a
      → ends pass ≡ stop
      → seen g ≡ seen w ++ kept (made (taken pass))
      → Worth w pass (if stop then (true, write_last a g) else (false, g))
  unfolding Worth
  gathered-Worth pass w g a true h stops e = (stops, kept-write_last a g h ∙ e)
  gathered-Worth pass w g a false h stops e = (stops, e)

  iteration-Worth :
      (batch every : ℕ) (pass : Pass) (w : Worker)
      → IsHealthyPass fresh pass
      → Worth w pass (iteration batch every pass w)
  unfolding iteration ends taken Worth
  iteration-Worth batch every (disconnected, turn) w (_, _, h) =
      (refl, kept-write_last turn.at_end w h ∙ seen-nothing w)
  iteration-Worth batch every (event e, turn) w h =
      gathered-Worth (event e, turn) w (gather batch every (event e, turn) w) turn.at_end
        (is_shutdown e || has_shutdown turn.pending) h.2 refl
        (seen-gather batch every (event e) turn w h (pushed (e ∷ []))
          (seen-receive_event batch every turn.at_timeout w e))
  iteration-Worth batch every (timeout, turn) w h =
      gathered-Worth (timeout, turn) w (gather batch every (timeout, turn) w) turn.at_end
        (has_shutdown turn.pending) h.2 refl
        (seen-gather batch every timeout turn w h []
          (seen-receive_timeout batch every turn.at_timeout w h.0 ∙ seen-nothing w))

  -- One pass and the rest of the loop.
  passes-kept :
      (pass : Pass) (passes : List Pass) (w after : Worker) (r rest : Bool × Worker)
      → Worth w pass r
      → (rest ≡ (true, after) → kept (rows after.logs) ≡ seen r.1 ++ kept (made (arrivals passes)))
      → (if r.0 then r else rest) ≡ (true, after)
      → kept (rows after.logs) ≡ seen w ++ kept (made (arrivals (pass ∷ passes)))
  unfolding arrivals Worth
  passes-kept pass passes w after (true, g) rest (stops, e) ih done = rw stops (
      subst (λ (r : Bool × Worker). kept (rows r.1.logs) ≡ seen w ++ kept (made (taken pass))) done
        e)
  passes-kept pass passes w after (false, g) rest (goes, e) ih done = rw goes (
      ih done
      ∙ ap (λ s. s ++ kept (made (arrivals passes))) e
      ∙ append_assoc (seen w) (kept (made (taken pass))) (kept (made (arrivals passes)))
      ∙ ap (λ s. seen w ++ s)
          (sym (kept-append (made (taken pass)) (made (arrivals passes)))
            ∙ ap kept (sym (made-append (taken pass) (arrivals passes)))))

  worker_loop-kept :
      (batch every : ℕ) (passes : List Pass) (w after : Worker)
      → All (IsHealthyPass fresh) passes
      → worker_loop batch every passes w ≡ (true, after)
      → kept (rows after.logs) ≡ seen w ++ kept (made (arrivals passes))
  unfolding worker_loop
  worker_loop-kept batch every [] w after h e = ground arith
  worker_loop-kept batch every (pass ∷ passes) w after (p, h) e =
      let now = iteration batch every pass w in
      passes-kept pass passes w after now (worker_loop batch every passes now.1)
        (iteration-Worth batch every pass w p) (worker_loop-kept batch every passes now.1 after h) e

  -- The same with the definitions open.
  worker_loop-rows :
      (batch every : ℕ) (passes : List Pass) (w after : Worker)
      → All (IsHealthyPass fresh) passes
      → worker_loop batch every passes w ≡ (true, after)
      → filter (λ r. fresh (stamp r)) (rows after.logs)
        ≡ filter (λ r. fresh (stamp r)) (rows w.logs ++ made (w.buffer ++ arrivals passes))
  unfolding kept seen
  worker_loop-rows batch every passes w after h e =
      worker_loop-kept batch every passes w after h e ∙ sym (seen-push w (arrivals passes))

-- The rows of a table that are fresh.
abbrev pub fresh_rows : {R : Type 0} → (DateTime → Bool) → (R → DateTime) → List R → List R
fresh_rows fresh stamp rows = filter (λ r. fresh (stamp r)) rows

abbrev pub access_stamp : AccessEvent → DateTime
access_stamp e = e.timestamp

abbrev pub proxy_stamp : ProxyEvent → DateTime
proxy_stamp e = e.timestamp

abbrev pub audit_stamp : AuditEvent → DateTime
audit_stamp e = e.timestamp

-- The fresh rows of the three tables after the worker are those before it, and behind them those of
-- the buffer and of the events taken.
abbrev pub Delivers : (DateTime → Bool) → Worker → List LogEvent → Logs → Type 0
Delivers fresh w events after =
    (fresh_rows fresh access_stamp after.access_log
      ≡ fresh_rows fresh access_stamp (w.logs.access_log ++ accesses (w.buffer ++ events)))
    × (fresh_rows fresh proxy_stamp after.proxy_log
        ≡ fresh_rows fresh proxy_stamp (w.logs.proxy_log ++ proxies (w.buffer ++ events)))
    × (fresh_rows fresh audit_stamp after.audit_log
        ≡ fresh_rows fresh audit_stamp (w.logs.audit_log ++ audits (w.buffer ++ events)))

-- When DuckDB carries out the writes of every pass and no cut-off of the retention is after a fresh
-- instant, then a worker that returns has written every event that it took from the channel exactly
-- once: restricted to fresh rows, each table holds what it held, then the events of its kind in the
-- buffer, then those taken, in their order.
pub worker_loop-Delivers :
    (fresh : DateTime → Bool) (flush_batch retention_every : ℕ) (passes : List Pass)
    (w after : Worker)
    → All (IsHealthyPass fresh) passes
    → worker_loop flush_batch retention_every passes w ≡ (true, after)
    → Delivers fresh w (arrivals passes) after.logs
unfolding accesses proxies audits append_events cleanup_expired
worker_loop-Delivers fresh batch every passes w after h e = (
  worker_loop-rows (λ logs. logs.access_log) accesses access_stamp fresh refl accesses-append
      (λ events logs. refl)
      (λ a logs k.
        filter-clean_table fresh access_stamp a.clean_access a.cutoff logs.access_log k.5)
      batch every passes w after h e,
  worker_loop-rows (λ logs. logs.proxy_log) proxies proxy_stamp fresh refl proxies-append
      (λ events logs. refl)
      (λ a logs k. filter-clean_table fresh proxy_stamp a.clean_proxy a.cutoff logs.proxy_log k.5)
      batch every passes w after h e,
  worker_loop-rows (λ logs. logs.audit_log) audits audit_stamp fresh refl audits-append
      (λ events logs. refl)
      (λ a logs k. filter-clean_table fresh audit_stamp a.clean_audit a.cutoff logs.audit_log k.5)
      batch every passes w after h e,
)
