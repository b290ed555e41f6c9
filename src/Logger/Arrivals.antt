-- ===== src/Logger/Arrivals.antt =====
-- src/db/logger.rs, worker_loop: the events that a run of passes takes from the channel, and the
-- flushes that DuckDB carries out.
use ait.Base.{
  ◌≡◌, refl, inl, inr, Bool, true, false, ◌||◌, List, [], ◌∷◌, ◌++◌, filter, if◌then◌else◌,
  Bool-cases, arith,
}
use ait.Db.{DateTime, LogEvent, access, proxy, audit, shutdown}
use ait.Logger.Writes.{
  Answers, Logs, accesses, proxies, audits, appended, append_events, flush_events, is_expired,
  clean_table, is_empty,
}
use ait.Logger.Worker.{event, timeout, disconnected, Pass, is_shutdown, pushed, has_shutdown}

-- The events that a pass takes from the channel, shutdowns aside.
unfoldable pub taken : Pass → List LogEvent
taken (disconnected, turn) = []
taken (event e, turn) = pushed (e ∷ []) ++ pushed turn.pending
taken (timeout, turn) = pushed turn.pending

-- Whether a pass ends the worker.
unfoldable pub ends : Pass → Bool
ends (disconnected, turn) = true
ends (event e, turn) = is_shutdown e || has_shutdown turn.pending
ends (timeout, turn) = has_shutdown turn.pending

-- The events of all passes up to the one that ends the worker.
unfoldable pub arrivals : List Pass → List LogEvent
unfolding taken ends
arrivals [] = []
arrivals (pass ∷ passes) =
    let rest = arrivals passes in if ends pass then taken pass else taken pass ++ rest

-- DuckDB carries out the writes of a flush, and its cut-off removes no fresh row.
abbrev pub IsHealthy : (DateTime → Bool) → Answers → Type 0
IsHealthy fresh a =
    (a.begin ≡ true)
    × (a.append_access ≡ true)
    × (a.append_proxy ≡ true)
    × (a.append_audit ≡ true)
    × (a.commit ≡ true)
    × ((t : DateTime) → fresh t ≡ true → is_expired a.cutoff t ≡ false)

abbrev pub IsHealthyPass : (DateTime → Bool) → Pass → Type 0
IsHealthyPass fresh (received, turn) =
    IsHealthy fresh turn.at_timeout × IsHealthy fresh turn.at_batch × IsHealthy fresh turn.at_end

pub flush_events-healthy :
    (fresh : DateTime → Bool) (a : Answers) (events : List LogEvent) (logs : Logs)
    → IsHealthy fresh a
    → flush_events a events logs ≡ (true, append_events events logs)
unfolding flush_events appended
flush_events-healthy fresh a events logs (b, p, q, r, c, s) =
    rw (b, p, q, r, c)
      (elim (Bool-cases (is_empty (accesses events))) [
        | inl x ↦ ground arith
        | inr x ↦ ground arith
      ])

module _ {R : Type 0} where
  pub filter-append :
      (p : R → Bool) (xs ys : List R) → filter p (xs ++ ys) ≡ filter p xs ++ filter p ys
  filter-append p [] ys = refl
  filter-append p (x ∷ xs) ys = ground (arith, filter-append p xs ys)

  pub filter-clean_table :
      (fresh : DateTime → Bool) (stamp : R → DateTime) (answer : Bool) (cutoff : DateTime)
      (rows : List R)
      → ((t : DateTime) → fresh t ≡ true → is_expired cutoff t ≡ false)
      → filter (λ r. fresh (stamp r)) (clean_table answer cutoff stamp rows)
        ≡ filter (λ r. fresh (stamp r)) rows
  unfolding clean_table
  filter-clean_table fresh stamp false cutoff rows spared = refl
  filter-clean_table fresh stamp true cutoff [] spared = refl
  filter-clean_table fresh stamp true cutoff (r ∷ rows) spared =
      let rest = filter-clean_table fresh stamp true cutoff rows spared in
      elim (Bool-cases (fresh (stamp r))) [
        | inl is_fresh ↦ ground (arith, rest, spared (stamp r) is_fresh)
        | inr old ↦ ground (arith, rest)
      ]

pub accesses-append : (xs ys : List LogEvent) → accesses (xs ++ ys) ≡ accesses xs ++ accesses ys
unfolding accesses
accesses-append [] ys = refl
accesses-append (access e ∷ xs) ys = rw (accesses-append xs ys)
accesses-append (proxy e ∷ xs) ys = accesses-append xs ys
accesses-append (audit e ∷ xs) ys = accesses-append xs ys
accesses-append (shutdown ∷ xs) ys = accesses-append xs ys

pub proxies-append : (xs ys : List LogEvent) → proxies (xs ++ ys) ≡ proxies xs ++ proxies ys
unfolding proxies
proxies-append [] ys = refl
proxies-append (access e ∷ xs) ys = proxies-append xs ys
proxies-append (proxy e ∷ xs) ys = rw (proxies-append xs ys)
proxies-append (audit e ∷ xs) ys = proxies-append xs ys
proxies-append (shutdown ∷ xs) ys = proxies-append xs ys

pub audits-append : (xs ys : List LogEvent) → audits (xs ++ ys) ≡ audits xs ++ audits ys
unfolding audits
audits-append [] ys = refl
audits-append (access e ∷ xs) ys = audits-append xs ys
audits-append (proxy e ∷ xs) ys = audits-append xs ys
audits-append (audit e ∷ xs) ys = rw (audits-append xs ys)
audits-append (shutdown ∷ xs) ys = audits-append xs ys
