-- ===== src/Cache.antt =====
-- src/handlers/proxy/resolve.rs, src/app.rs, src/middleware.rs: the timestamped caches.
-- An `Instant` is a count of nanoseconds; `elapsed` is 0 for an instant in the future.
pub mod Bounds
pub mod Race
mod Tests
use ait.Base.{
  ℕ, ◌-◌, ◌*◌, ◌/◌, ◌^◌, min, Bool, true, false, Option, none, some, List, [], ◌∷◌, Text, length,
  leb, ltb, ◌==◌, if◌then◌else◌,
}
use ait.Base.Table.{Table, get, remove, insert, retain, contains_key}

abbrev pub Instant : Type 0
Instant = ℕ

abbrev pub from_secs : ℕ → ℕ
from_secs secs = secs * 1_000_000_000

abbrev pub cache_ttl : ℕ
cache_ttl = from_secs 300

abbrev pub negative_cache_ttl : ℕ
negative_cache_ttl = from_secs 30

abbrev pub elapsed : Instant → Instant → ℕ
elapsed now t = now - t

module _ {ℓ} {V : Type ℓ} (inserted_at : V → Instant) where
  -- `min_by_key`: the first of the least, in iteration order.
  unfoldable pub oldest_from : Text × V → Table V → Text × V
  oldest_from best [] = best
  oldest_from best (e ∷ m) =
      oldest_from (if ltb (inserted_at e.1) (inserted_at best.1) then e else best) m

  unfoldable pub oldest : Table V → Option (Text × V)
  unfolding oldest_from
  oldest [] = none
  oldest (e ∷ m) = some (oldest_from e m)

  unfoldable pub evict_oldest : Table V → Table V
  unfolding oldest
  evict_oldest m = elim (oldest m) [ none ↦ m | some e ↦ remove m e.0 ]

  -- The call as a whole, when no other one meets it; Cache/Race cuts it at its accesses to the map.
  unfoldable pub insert_capped : Table V → Text → V → ℕ → Table V
  unfolding evict_oldest
  insert_capped m k entry max_entries =
      if max_entries == 0
      then m
      else if contains_key m k
      then insert m k entry
      else if leb max_entries (length m)
      then insert (evict_oldest m) k entry
      else insert m k entry

-- `usize::saturating_mul` on 64 bits.
abbrev pub saturating_mul : ℕ → ℕ → ℕ
saturating_mul a b = min (a * b) (2 ^ 64 - 1)

-- The lifetime that one cleanup pass grants the entries of a cache of this length.
unfoldable pub cleanup_ttl : ℕ → ℕ → ℕ
cleanup_ttl max_entries len =
    if ltb (saturating_mul max_entries 9 / 10) len then cache_ttl / 2 else cache_ttl

module _ {ℓ} {V : Type ℓ} where
  unfoldable pub cleanup_cache : ℕ → Instant → Table (V × Instant) → Table (V × Instant)
  unfolding cleanup_ttl
  cleanup_cache max_entries now m =
      let ttl = cleanup_ttl max_entries (length m) in retain (λ k v. ltb (elapsed now v.1) ttl) m

-- The four caches of one pass, each with the lifetime of its own length, and the instant at which
-- each `retain` reads the clock.
unfoldable pub cleanup_caches {ℓ} :
    {A B C D : Type ℓ}
    → ℕ
    → Instant × Instant × Instant × Instant
    → Table (A × Instant) × Table (B × Instant) × Table (C × Instant) × Table (D × Instant)
    → Table (A × Instant) × Table (B × Instant) × Table (C × Instant) × Table (D × Instant)
unfolding cleanup_cache
cleanup_caches max_entries (t0, t1, t2, t3) (api_key, model, provider, ssrf_dns) = (
  cleanup_cache max_entries t0 api_key,
  cleanup_cache max_entries t1 model,
  cleanup_cache max_entries t2 provider,
  cleanup_cache max_entries t3 ssrf_dns,
)

-- A hit on a positive cache: the entry is fresh, and its timestamp slides to now.
unfoldable pub sliding_get {ℓ} :
    {A : Type ℓ} → Table (A × Instant) → Text → Instant → Option A × Table (A × Instant)
sliding_get m k now = elim (get m k) [
  | none ↦ (none, m)
  | some (a, t) ↦ if ltb (elapsed now t) cache_ttl then (some a, insert m k (a, now)) else (none, m)
]
