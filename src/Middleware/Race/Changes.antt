-- ===== src/Middleware/Race/Changes.antt =====
-- src/handlers/apikeys.rs: each step of a key change keeps the cache coherent.
use ait.Base.{
  ℕ, ◌≡◌, ◌≢◌, refl, ◌∙◌, Bool, true, false, Option, none, Text, ◌==◌, ==_iff, text_eq, text_eq_iff,
  if◌then◌else◌, inl, inr, arith, Bool-cases,
}
use ait.Base.Table.{get, get-remove}
use ait.Db.{ApiKeyInfo}
use ait.Middleware.Auth.{AuthState, evict_deleted, evict_updated, bump_revision}
use ait.Middleware.Race.{
  checked, ChangeStage, resting, committed, evicted, World, update, set_row, evict,
}
use ait.Middleware.Race.Invariant.{
  InFlight, at_committed, at_evicted, Unevicted, unevicted, IsCoherent,
}

InFlight-commit :
    (changes : ℕ → ChangeStage) (j : ℕ) (hash h : Text) (is_update : Bool)
    → changes j ≡ resting
    → InFlight changes h
    → InFlight (update changes j (committed hash is_update)) h
InFlight-commit changes j hash h is_update at (at_committed k u e) =
    at_committed k u (ground (arith, ==_iff j k))
InFlight-commit changes j hash h is_update at (at_evicted k e) =
    at_evicted k (ground (arith, ==_iff j k))

Unevicted-commit :
    (changes : ℕ → ChangeStage) (j : ℕ) (hash h : Text) (is_update : Bool)
    → changes j ≡ resting
    → Unevicted changes h
    → Unevicted (update changes j (committed hash is_update)) h
Unevicted-commit changes j hash h is_update at (unevicted k u e) =
    unevicted k u (ground (arith, ==_iff j k))

pub commit-IsCoherent :
    (w : World) (j : ℕ) (hash : Text) (row : Option ApiKeyInfo) (is_update : Bool)
    → w.changes j ≡ resting
    → ((i : ℕ) (row' : Option ApiKeyInfo) → w.lookups i ≢ checked hash row' true)
    → IsCoherent w
    → IsCoherent (record w {
      rows = set_row w.rows hash row;
      changes = update w.changes j (committed hash is_update);
    })
commit-IsCoherent w j hash row is_update at quiet c = record {
  started = c.started;
  bounded = c.bounded;
  fresh = λ k h r row' e er. elim (Bool-cases (text_eq hash h)) [
    | inl same ↦ inr (at_committed j is_update (ground (arith, ==_iff j j, text_eq_iff hash h)))
    | inr other ↦ elim (c.fresh k h r row' e er) [
      | inl agrees ↦ inl (ground arith)
      | inr flying ↦ inr (InFlight-commit w.changes j hash h is_update at flying)
    ]
  ];
  confirmed = λ k h row' e. elim (Bool-cases (text_eq hash h)) [
    | inl same ↦ let eh : hash ≡ h = (text_eq_iff hash h).0 same in absurd (quiet k row' (rw eh e))
    | inr other ↦ ground (arith, c.confirmed k h row' e)
  ];
  cached = λ h info t e. elim (Bool-cases (text_eq hash h)) [
    | inl same ↦ inr (unevicted j is_update (ground (arith, ==_iff j j, text_eq_iff hash h)))
    | inr other ↦ elim (c.cached h info t e) [
      | inl agrees ↦ inl (ground arith)
      | inr pending ↦ inr (Unevicted-commit w.changes j hash h is_update at pending)
    ]
  ];
}

get-evict :
    (is_update : Bool) (s : AuthState) (hash h : Text)
    → get (evict is_update s hash).api_key_cache h
      ≡ (if text_eq hash h then none else get s.api_key_cache h)
unfolding evict evict_updated evict_deleted
get-evict true s hash h = get-remove s.api_key_cache hash h
get-evict false s hash h = get-remove s.api_key_cache hash h

key_revision-evict :
    (is_update : Bool) (s : AuthState) (hash : Text)
    → (evict is_update s hash).key_revision ≡ s.key_revision
unfolding evict evict_updated evict_deleted
key_revision-evict true s hash = refl
key_revision-evict false s hash = refl

InFlight-evict :
    (changes : ℕ → ChangeStage) (j : ℕ) (hash h : Text) (is_update : Bool)
    → changes j ≡ committed hash is_update
    → InFlight changes h
    → InFlight (update changes j (evicted hash)) h
InFlight-evict changes j hash h is_update at (at_committed k u e) = elim (Bool-cases (j == k)) [
  | inl same ↦ at_evicted j (ground (arith, ==_iff j k, ==_iff j j))
  | inr other ↦ at_committed k u (ground arith)
]
InFlight-evict changes j hash h is_update at (at_evicted k e) =
    at_evicted k (ground (arith, ==_iff j k))

Unevicted-evict :
    (changes : ℕ → ChangeStage) (j : ℕ) (hash h : Text) (is_update : Bool)
    → changes j ≡ committed hash is_update
    → text_eq hash h ≡ false
    → Unevicted changes h
    → Unevicted (update changes j (evicted hash)) h
Unevicted-evict changes j hash h is_update at other (unevicted k u e) =
    unevicted k u (ground (arith, ==_iff j k, text_eq_iff hash h))

pub evict-IsCoherent :
    (w : World) (j : ℕ) (hash : Text) (is_update : Bool)
    → w.changes j ≡ committed hash is_update
    → IsCoherent w
    → IsCoherent (record w {
      auth = evict is_update w.auth hash;
      changes = update w.changes j (evicted hash);
    })
evict-IsCoherent w j hash is_update at c =
    let rev = key_revision-evict is_update w.auth hash in
    record {
      started = λ k h r e. omega (arith, c.started k h r e, rev);
      bounded = λ k h r row e. omega (arith, c.bounded k h r row e, rev);
      fresh = λ k h r row e er. elim (c.fresh k h r row e (er ∙ rev)) [
        | inl agrees ↦ inl agrees
        | inr flying ↦ inr (InFlight-evict w.changes j hash h is_update at flying)
      ];
      confirmed = c.confirmed;
      cached = λ h info t e. elim (Bool-cases (text_eq hash h)) [
        | inl same ↦ absurd (ground (arith, get-evict is_update w.auth hash h))
        | inr other ↦ elim (c.cached h info t (ground (arith, get-evict is_update w.auth hash h))) [
          | inl agrees ↦ inl agrees
          | inr pending ↦ inr (Unevicted-evict w.changes j hash h is_update at other pending)
        ]
      ];
    }

Unevicted-bump :
    (changes : ℕ → ChangeStage) (j : ℕ) (hash h : Text)
    → changes j ≡ evicted hash
    → Unevicted changes h
    → Unevicted (update changes j resting) h
Unevicted-bump changes j hash h at (unevicted k u e) = unevicted k u (ground (arith, ==_iff j k))

pub bump-IsCoherent :
    (w : World) (j : ℕ) (hash : Text)
    → w.changes j ≡ evicted hash
    → IsCoherent w
    → IsCoherent (record w { auth = bump_revision w.auth; changes = update w.changes j resting })
unfolding bump_revision
bump-IsCoherent w j hash at c = record {
  started = λ k h r e. omega (arith, c.started k h r e);
  bounded = λ k h r row e. omega (arith, c.bounded k h r row e);
  fresh = λ k h r row e er. absurd (omega (arith, c.bounded k h r row e));
  confirmed = c.confirmed;
  cached = λ h info t e. elim (c.cached h info t e) [
    | inl agrees ↦ inl agrees
    | inr pending ↦ inr (Unevicted-bump w.changes j hash h at pending)
  ];
}
