-- ===== src/Middleware/Race/Lookups.antt =====
-- src/middleware.rs: each step of a lookup keeps the cache coherent.
use ait.Base.{
  ℕ, ◌≡◌, ◌≢◌, ◌∙◌, Bool, true, Option, none, some, Text, ◌==◌, ==_iff, text_eq, text_eq_iff, ◌⊎◌,
  inl, inr, arith, Bool-cases, Option-cases, Option-cases,
}
use ait.Base.Table.{get, get-insert}
use ait.Cache.{Instant}
use ait.Db.{DateTime, ApiKeyInfo}
use ait.Middleware.Auth.{AuthState, try_cache, still_current, store}
use ait.Middleware.Race.{LookupStage, idle, reading, read, checked, World, update}
use ait.Middleware.Race.Invariant.{InFlight, IsCoherent}

-- `fresh` for a step that moves one lookup to a stage that has not read a row.
fresh_elsewhere :
    (w : World) (i : ℕ) (stage : LookupStage)
    → IsCoherent w
    → ((h : Text) (r : ℕ) (row : Option ApiKeyInfo) → stage ≢ read h r row)
    → (k : ℕ) (h : Text) (r : ℕ) (row : Option ApiKeyInfo)
    → update w.lookups i stage k ≡ read h r row
    → r ≡ w.auth.key_revision
    → (row ≡ w.rows h) ⊎ InFlight w.changes h
fresh_elsewhere w i stage c other k h r row e er = elim (Bool-cases (i == k)) [
  | inl same ↦ absurd (other h r row (ground arith))
  | inr diff ↦ c.fresh k h r row (ground arith) er
]

pub start-IsCoherent :
    (w : World) (i : ℕ) (hash : Text)
    → IsCoherent w
    → IsCoherent (record w { lookups = update w.lookups i (reading hash w.auth.key_revision) })
start-IsCoherent w i hash c = record {
  started = λ k h r e. ground (arith, ==_iff i k, c.started k h r);
  bounded = λ k h r row e. ground (arith, ==_iff i k, c.bounded k h r row);
  fresh = fresh_elsewhere w i (reading hash w.auth.key_revision) c (λ h r row. ground arith);
  confirmed = λ k h row e. ground (arith, ==_iff i k, c.confirmed k h row);
  cached = c.cached;
}

pub query-IsCoherent :
    (w : World) (i : ℕ) (hash : Text) (r : ℕ)
    → w.lookups i ≡ reading hash r
    → IsCoherent w
    → IsCoherent (record w { lookups = update w.lookups i (read hash r (w.rows hash)) })
query-IsCoherent w i hash r at c = record {
  started = λ k h r' e. ground (arith, ==_iff i k, c.started k h r');
  bounded = λ k h r' row e. ground (arith, ==_iff i k, c.bounded k h r' row, c.started i hash r at);
  fresh = λ k h r' row e er. elim (Bool-cases (i == k)) [
    | inl same ↦ inl (ground arith)
    | inr diff ↦ c.fresh k h r' row (ground arith) er
  ];
  confirmed = λ k h row e. ground (arith, ==_iff i k, c.confirmed k h row);
  cached = c.cached;
}

pub check-IsCoherent :
    (w : World) (i : ℕ) (hash : Text) (r : ℕ) (row : Option ApiKeyInfo)
    → w.lookups i ≡ read hash r row
    → ¬ (InFlight w.changes hash)
    → IsCoherent w
    → IsCoherent
        (record w { lookups = update w.lookups i (checked hash row (still_current w.auth r)) })
unfolding still_current
check-IsCoherent w i hash r row at quiet c = record {
  started = λ k h r' e. ground (arith, ==_iff i k, c.started k h r');
  bounded = λ k h r' row' e. ground (arith, ==_iff i k, c.bounded k h r' row');
  fresh =
      fresh_elsewhere w i (checked hash row (still_current w.auth r)) c (λ h r' row'. ground arith);
  confirmed = λ k h row' e. elim (Bool-cases (i == k)) [
    | inl same ↦
        let current : r ≡ w.auth.key_revision = ground (arith, ==_iff w.auth.key_revision r) in
        let er : row ≡ row' = ground arith in
        let eh : hash ≡ h = ground arith in
        elim (c.fresh i hash r row at current) [
          | inl agrees ↦ ground arith
          | inr flying ↦ absurd (quiet flying)
        ]
    | inr diff ↦ c.confirmed k h row' (ground arith)
  ];
  cached = c.cached;
}

-- A cache write of a confirmed row, or none.
cached-store :
    (max_entries : ℕ) (s : AuthState) (now : Instant) (hash : Text) (row : Option ApiKeyInfo)
    (current : Bool) (h : Text) (info : ApiKeyInfo) (t : Instant)
    → get (store max_entries s now hash current row).api_key_cache h ≡ some (info, t)
    → (get s.api_key_cache h ≡ some (info, t)) ⊎ ((current ≡ true) × (hash ≡ h) × (row ≡ some info))
unfolding store
cached-store max_entries s now hash (some row) current h info t e =
    ground (arith, get-insert s.api_key_cache hash h (row, now), text_eq_iff hash h)
cached-store max_entries s now hash none current h info t e = ground arith

key_revision-store :
    (max_entries : ℕ) (s : AuthState) (now : Instant) (hash : Text) (current : Bool)
    (row : Option ApiKeyInfo)
    → (store max_entries s now hash current row).key_revision ≡ s.key_revision
unfolding store
key_revision-store max_entries s now hash current (some row) = ground arith
key_revision-store max_entries s now hash current none = ground arith

pub write-IsCoherent :
    (w : World) (i : ℕ) (hash : Text) (row : Option ApiKeyInfo) (current : Bool) (max_entries : ℕ)
    (now : Instant)
    → w.lookups i ≡ checked hash row current
    → IsCoherent w
    → IsCoherent (record w {
      auth = store max_entries w.auth now hash current row;
      lookups = update w.lookups i idle;
    })
write-IsCoherent w i hash row current max_entries now at c =
    let rev = key_revision-store max_entries w.auth now hash current row in
    record {
      started = λ k h r e. ground (arith, ==_iff i k, c.started k h r, rev);
      bounded = λ k h r row' e. ground (arith, ==_iff i k, c.bounded k h r row', rev);
      fresh = λ k h r row' e er.
          fresh_elsewhere w i idle c (λ h' r' row''. ground arith) k h r row' e (er ∙ rev);
      confirmed = λ k h row' e. ground (arith, ==_iff i k, c.confirmed k h row');
      cached = λ h info t e.
          elim (cached-store max_entries w.auth now hash row current h info t e) [
            | inl old ↦ c.cached h info t old
            | inr (yes_current, same, found) ↦
                inl (ground (arith, c.confirmed i hash row (rw (← yes_current) at)))
          ];
    }

-- A hit rewrites the entry that it found.
cached-try_cache :
    (request_id : Option Text) (utc_now : DateTime) (s : AuthState) (now : Instant) (hash h : Text)
    (info : ApiKeyInfo) (t : Instant)
    → get (try_cache request_id utc_now s now hash).1.api_key_cache h ≡ some (info, t)
    → (t' : Instant) × (get s.api_key_cache h ≡ some (info, t'))
unfolding try_cache
cached-try_cache request_id utc_now s now hash h info t e =
    elim (Option-cases (get s.api_key_cache hash)) [
      | inl missing ↦ (t, ground arith)
      | inr ((found, t0), old) ↦ elim (Bool-cases (text_eq hash h)) [
        | inl same ↦
            (t0, ground (arith, get-insert s.api_key_cache hash h (found, now), text_eq_iff hash h))
        | inr other ↦ (t, ground (arith, get-insert s.api_key_cache hash h (found, now)))
      ]
    ]

key_revision-try_cache :
    (request_id : Option Text) (utc_now : DateTime) (s : AuthState) (now : Instant) (hash : Text)
    → (try_cache request_id utc_now s now hash).1.key_revision ≡ s.key_revision
unfolding try_cache
key_revision-try_cache request_id utc_now s now hash = ground arith

pub hit-IsCoherent :
    (w : World) (request_id : Option Text) (utc_now : DateTime) (now : Instant) (hash : Text)
    → IsCoherent w
    → IsCoherent (record w { auth = (try_cache request_id utc_now w.auth now hash).1 })
hit-IsCoherent w request_id utc_now now hash c =
    let rev = key_revision-try_cache request_id utc_now w.auth now hash in
    record {
      started = λ k h r e. omega (arith, c.started k h r e, rev);
      bounded = λ k h r row e. omega (arith, c.bounded k h r row e, rev);
      fresh = λ k h r row e er. c.fresh k h r row e (er ∙ rev);
      confirmed = c.confirmed;
      cached = λ h info t e.
          let (t', old) = cached-try_cache request_id utc_now w.auth now hash h info t e in
          c.cached h info t' old;
    }
