-- ===== src/Cache/Bounds.antt =====
-- src/handlers/proxy/resolve.rs, src/app.rs: the cap of a cache, what an insertion evicts, and what
-- a cleanup pass keeps.
use ait.Base.{
  ℕ, ◌*◌, ◌/◌, ◌^◌, ◌≤◌, ◌<◌, ◌≡◌, ◌≢◌, refl, sym, subst, ◌∙◌, true, false, none, some, [], ◌∷◌,
  Text, text_eq, text_eq_iff, text_eq_refl, length, All, arith, ltb, if◌then◌else◌, Bool-cases, inl,
  inr, ◌⊎◌,
}
use ait.Base.Table.{
  Table, get, remove, contains_key, IsTable, contains-head, contains-cons, get-retain, get-insert,
  get-remove, length-insert, length-insert_old, length-remove_lt,
}
use ait.Cache.{
  Instant, elapsed, cache_ttl, oldest_from, evict_oldest, insert_capped, cleanup_ttl, cleanup_cache,
}

module _ {ℓ} {V : Type ℓ} (inserted_at : V → Instant) where
  contains-skip :
      (a b : Text × V) (m : Table V) (k : Text)
      → contains_key (a ∷ m) k ≡ true
      → contains_key (a ∷ b ∷ m) k ≡ true
  unfolding contains_key get
  contains-skip a b m k h = ground arith

  oldest_from-contains :
      (best : Text × V) (m : Table V)
      → contains_key (best ∷ m) (oldest_from inserted_at best m).0 ≡ true
  unfolding oldest_from
  oldest_from-contains best [] = contains-head best.0 best.1 []
  oldest_from-contains best (e ∷ m) =
      elim (Bool-cases (ltb (inserted_at e.1) (inserted_at best.1))) [
        | inl older ↦
            rw (older, oldest_from)
              (contains-cons best.0 best.1 (e ∷ m) _ (oldest_from-contains e m))
        | inr newer ↦
            rw (newer, oldest_from) (contains-skip best e m _ (oldest_from-contains best m))
      ]

  evict_oldest-lt : (m : Table V) → 0 < length m → length (evict_oldest inserted_at m) < length m
  unfolding evict_oldest
  evict_oldest-lt [] h = absurd (omega arith)
  evict_oldest-lt (e ∷ m) h = length-remove_lt (e ∷ m) _ (oldest_from-contains e m)

  -- An insertion that no other one meets keeps a cache within the cap.
  pub insert_capped-le :
      (m : Table V) (k : Text) (entry : V) (max_entries : ℕ)
      → length m ≤ max_entries
      → length (insert_capped inserted_at m k entry max_entries) ≤ max_entries
  unfolding insert_capped
  insert_capped-le m k entry max_entries h = ground (
    arith,
    length-insert m k entry,
    length-insert_old m k entry,
    length-insert (evict_oldest inserted_at m) k entry,
    evict_oldest-lt m,
  )

  abbrev AtLeast : Text × V → Text × V → Type 0
  AtLeast a b = inserted_at a.1 ≤ inserted_at b.1

  oldest_from-older :
      (best e : Text × V) (m : Table V)
      → ltb (inserted_at e.1) (inserted_at best.1) ≡ true
      → oldest_from inserted_at best (e ∷ m) ≡ oldest_from inserted_at e m
  unfolding oldest_from
  oldest_from-older best e m h = rw (h, oldest_from)

  oldest_from-newer :
      (best e : Text × V) (m : Table V)
      → ltb (inserted_at e.1) (inserted_at best.1) ≡ false
      → oldest_from inserted_at best (e ∷ m) ≡ oldest_from inserted_at best m
  unfolding oldest_from
  oldest_from-newer best e m h = rw (h, oldest_from)

  oldest_from-nil : (best : Text × V) → oldest_from inserted_at best [] ≡ best
  unfolding oldest_from
  oldest_from-nil best = refl

  -- No entry is older than the one that is chosen.
  oldest_from-least :
      (best : Text × V) (m : Table V)
      → AtLeast (oldest_from inserted_at best m) best
        × All (AtLeast (oldest_from inserted_at best m)) m
  oldest_from-least best [] = rw (oldest_from-nil best) (omega arith, tt)
  oldest_from-least best (e ∷ m) = elim (Bool-cases (ltb (inserted_at e.1) (inserted_at best.1))) [
    | inl older ↦
        let (a, b) = oldest_from-least e m in
        subst (λ r. AtLeast r best × (AtLeast r e × All (AtLeast r) m))
          (sym (oldest_from-older best e m older)) (ground arith, (a, b))
    | inr newer ↦
        let (a, b) = oldest_from-least best m in
        subst (λ r. AtLeast r best × (AtLeast r e × All (AtLeast r) m))
          (sym (oldest_from-newer best e m newer)) (a, (ground arith, b))
  ]

  oldest_from-get :
      (best : Text × V) (m : Table V)
      → IsTable (best ∷ m)
      → get (best ∷ m) (oldest_from inserted_at best m).0 ≡ some (oldest_from inserted_at best m).1
  unfolding oldest_from get contains_key
  oldest_from-get best [] h = ground (arith, text_eq_refl best.0)
  oldest_from-get best (e ∷ m) (new, (new', h)) =
      let r = oldest_from inserted_at e m in
      let q = oldest_from inserted_at best m in
      ground (
        arith,
        oldest_from-get e m (new', h),
        oldest_from-get best m (ground arith, h),
        text_eq_iff best.0 r.0,
        text_eq_iff best.0 q.0,
        text_eq_iff e.0 q.0,
      )

  All-get :
      (P : Text × V → Type 0) (m : Table V) (k : Text) (v : V)
      → All P m
      → get m k ≡ some v
      → P (k, v)
  unfolding get
  All-get P [] k v h e = cc
  All-get P ((j, w) ∷ m) k v (p, h) e = elim (Bool-cases (text_eq j k)) [
    | inl same ↦
        let ek : j ≡ k = (text_eq_iff j k).0 same in
        let ev : w ≡ v = ground arith in rw (← ek, ← ev) p
    | inr other ↦ All-get P m k v h (rw (other, get) at e)
  ]

  -- The only other entry that an insertion can lose is one that no entry is older than, and then
  -- only from a full cache that lacks the new key.
  pub insert_capped-evicts :
      (m : Table V) (k : Text) (entry : V) (max_entries : ℕ) (j j' : Text) (v v' : V)
      → IsTable m
      → get m j ≡ some v
      → get (insert_capped inserted_at m k entry max_entries) j ≡ none
      → get m j' ≡ some v'
      → (inserted_at v ≤ inserted_at v') × (max_entries ≤ length m) × (contains_key m k ≡ false)
  unfolding insert_capped evict_oldest contains_key get
  insert_capped-evicts [] k entry max_entries j j' v v' h old lost other = cc
  insert_capped-evicts (e ∷ m) k entry max_entries j j' v v' h old lost other =
      let r = oldest_from inserted_at e m in
      let (a, b) = oldest_from-least e m in
      ground (
        arith,
        get-insert (e ∷ m) k j entry,
        get-insert (remove (e ∷ m) r.0) k j entry,
        get-remove (e ∷ m) r.0 j,
        text_eq_iff r.0 j,
        oldest_from-get e m h,
        All-get (AtLeast r) (e ∷ m) j' v' (a, b) other,
      )

  pub insert_capped-get_self :
      (m : Table V) (k : Text) (entry : V) (max_entries : ℕ)
      → max_entries ≢ 0
      → get (insert_capped inserted_at m k entry max_entries) k ≡ some entry
  unfolding insert_capped
  insert_capped-get_self m k entry max_entries h = ground (
    arith,
    get-insert m k k entry,
    get-insert (evict_oldest inserted_at m) k k entry,
    text_eq_refl k,
  )

  -- With a cap that is not 0 the new entry is found at once, and every other key keeps its entry
  -- or loses it: none changes.
  pub insert_capped-get :
      (m : Table V) (k : Text) (entry : V) (max_entries : ℕ) (j : Text)
      → max_entries ≢ 0
      → k ≢ j
      → (get (insert_capped inserted_at m k entry max_entries) k ≡ some entry)
        × ((get (insert_capped inserted_at m k entry max_entries) j ≡ get m j)
            ⊎ (get (insert_capped inserted_at m k entry max_entries) j ≡ none))
  unfolding insert_capped evict_oldest
  insert_capped-get [] k entry max_entries j h other =
      ground
        (arith, get-insert [] k k entry, get-insert [] k j entry, text_eq_refl k, text_eq_iff k j)
  insert_capped-get (e ∷ m) k entry max_entries j h other =
      let r = oldest_from inserted_at e m in
      ground (
        arith,
        get-insert (e ∷ m) k k entry,
        get-insert (e ∷ m) k j entry,
        get-insert (remove (e ∷ m) r.0) k k entry,
        get-insert (remove (e ∷ m) r.0) k j entry,
        get-remove (e ∷ m) r.0 j,
        text_eq_refl k,
        text_eq_iff k j,
      )

module _ {ℓ} {V : Type ℓ} (max_entries : ℕ) (now : Instant) (m : Table (V × Instant)) (k : Text)
    (v : V) (t : Instant) where
  cleanup_cache-eq :
      IsTable m
      → get m k ≡ some (v, t)
      → get (cleanup_cache max_entries now m) k
        ≡ (if ltb (elapsed now t) (cleanup_ttl max_entries (length m)) then some (v, t) else none)
  unfolding cleanup_cache
  cleanup_cache-eq h e = get-retain _ m k h ∙ ground arith

  -- A cleanup pass drops every entry that is past its lifetime.
  pub cleanup_cache-stale :
      IsTable m
      → get m k ≡ some (v, t)
      → cache_ttl ≤ elapsed now t
      → get (cleanup_cache max_entries now m) k ≡ none
  unfolding cleanup_ttl
  cleanup_cache-stale h e old = ground (arith, cleanup_cache-eq h e)

  -- It keeps every entry within half its lifetime; and every fresh entry, as long as the cache is
  -- at most nine tenths full.
  pub cleanup_cache-fresh :
      IsTable m
      → get m k ≡ some (v, t)
      → (elapsed now t < cache_ttl / 2)
        ⊎ ((elapsed now t < cache_ttl)
            × (length m ≤ max_entries * 9 / 10)
            × (max_entries * 9 < 2 ^ 64))
      → get (cleanup_cache max_entries now m) k ≡ some (v, t)
  unfolding cleanup_ttl
  cleanup_cache-fresh h e (inl young) = ground (arith, cleanup_cache-eq h e)
  cleanup_cache-fresh h e (inr (fresh, small, fits)) = ground (arith, cleanup_cache-eq h e)
