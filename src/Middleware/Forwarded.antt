-- ===== src/Middleware/Forwarded.antt =====
-- src/middleware.rs: a client cannot choose the address that is recorded for it.
use mathlib.Core.List.{map-append, append_assoc, append-nil}
use ait.Base.{
  All, any, ◌==◌, false, sym, ◌∙◌, ℕ, ◌+◌, ◌-◌, ◌≤◌, suc, ◌≡◌, refl, ap, true, false, Option, some,
  List, [], ◌∷◌, ◌++◌, map, Text, length, get_elem?, length-append, get_elem?-append, and_then,
  arith, leb, le→leb,
}
use ait.Base.Split.{split, trim, split-append}
use ait.Ssrf.Addr.{IpAddr}
use ait.Config.Proxies.{TrustedProxy}
use ait.Middleware.ClientIp.{
  Request, checked_sub, is_trusted_proxy, forwarded_client_ip, get_client_ip,
}

length-map-trim : (xs : List Text) → length (map trim xs) ≡ length xs
length-map-trim [] = refl
length-map-trim (x ∷ xs) = ap suc (length-map-trim xs)

pick_lem :
    (xs ys : List Text) (hops : ℕ)
    → hops ≤ length ys
    → and_then (checked_sub (length (xs ++ ys)) hops) (get_elem? (xs ++ ys))
      ≡ and_then (checked_sub (length ys) hops) (get_elem? ys)
unfolding checked_sub
pick_lem xs ys hops h =
    let e : length (xs ++ ys) - hops ≡ length xs + (length ys - hops) =
      omega (arith, length-append xs ys) in
    let big : leb hops (length (xs ++ ys)) ≡ true =
      le→leb _ _ (omega (arith, length-append xs ys)) in
    let small : leb hops (length ys) ≡ true = le→leb _ _ h in
    rw (big, small, e) (get_elem?-append xs ys (length ys - hops))

module _ (parse_ip : Text → Option IpAddr) where
  -- What stands in front of the last `hops` entries of the header has no influence: a client that
  -- sends its own chain, to which the proxies append theirs, is recorded as the proxies saw it.
  pub forwarded_client_ip-append :
      (forged chain : Text) (hops : ℕ)
      → hops ≤ length (split b',' chain)
      → forwarded_client_ip parse_ip (forged ++ b',' ∷ chain) hops
        ≡ forwarded_client_ip parse_ip chain hops
  unfolding forwarded_client_ip
  forwarded_client_ip-append forged chain hops h =
      rw (split-append b',' forged chain, map-append trim (split b',' forged) (split b',' chain))
        (ap (λ o. and_then o parse_ip)
          (pick_lem (map trim (split b',' forged)) (map trim (split b',' chain)) hops
            (omega (arith, length-map-trim (split b',' chain)))))

  -- The recorded address does not change when a client puts entries of its own in front of the
  -- chain that the proxies append to, as long as the chain has an entry for each proxy.
  pub get_client_ip-forged :
      (req : Request) (forged chain : Text) (trusted : List TrustedProxy) (hops : ℕ)
      → hops ≤ length (split b',' chain)
      → get_client_ip parse_ip
          (record req { x_forwarded_for = some (forged ++ b',' ∷ chain) })
          trusted
          hops
        ≡ get_client_ip parse_ip (record req { x_forwarded_for = some chain }) trusted hops
  unfolding get_client_ip
  get_client_ip-forged req forged chain trusted hops h =
      ground (arith, forwarded_client_ip-append forged chain hops h)

-- A proxy appends what it sees to the header that it received.
abbrev pub forwarded_by : Text → List Text → Text
forwarded_by value [] = value
forwarded_by value (seen ∷ rest) = forwarded_by (value ++ b',' ∷ seen) rest

abbrev pub HasNoComma : Text → Type 0
HasNoComma text = any (λ c. c == b',') text ≡ false

split-HasNoComma : (text : Text) → HasNoComma text → split b',' text ≡ text ∷ []
unfolding split
split-HasNoComma [] h = refl
split-HasNoComma (c ∷ text) h =
    let rest = split-HasNoComma text (ground arith) in ground (arith, rest)

split-forwarded_by :
    (value : Text) (seen : List Text)
    → All HasNoComma seen
    → split b',' (forwarded_by value seen) ≡ split b',' value ++ seen
split-forwarded_by value [] h = sym (append-nil (split b',' value))
split-forwarded_by value (entry ∷ seen) (h, hs) =
    split-forwarded_by (value ++ b',' ∷ entry) seen hs
    ∙ rw (split-append b',' value entry, split-HasNoComma entry h)
        (append_assoc (split b',' value) (entry ∷ []) seen)

-- As many hops from the back as the last entries number is the first of those entries.
pick_first :
    (xs ys : List Text) (y : Text)
    → and_then (checked_sub (length (xs ++ y ∷ ys)) (suc (length ys))) (get_elem? (xs ++ y ∷ ys))
      ≡ some y
unfolding checked_sub
pick_first xs ys y =
    pick_lem xs (y ∷ ys) (suc (length ys)) (omega arith)
    ∙ (let big : leb (suc (length ys)) (suc (length ys)) ≡ true = le→leb _ _ (omega arith) in
        let e : suc (length ys) - suc (length ys) ≡ 0 = omega arith in rw (big, e) refl)

module _ (parse_ip : Text → Option IpAddr) where
  forwarded_client_ip-seen :
      (own client : Text) (seen : List Text) (ip : IpAddr)
      → All HasNoComma (client ∷ seen)
      → parse_ip (trim client) ≡ some ip
      → forwarded_client_ip parse_ip (forwarded_by own (client ∷ seen)) (length (client ∷ seen))
        ≡ some ip
  unfolding forwarded_client_ip
  forwarded_client_ip-seen own client seen ip plain parsed =
      let picked = pick_first (map trim (split b',' own)) (map trim seen) (trim client) in
      rw
        (
          split-forwarded_by own (client ∷ seen) plain,
          map-append trim (split b',' own) (client ∷ seen),
          ← length-map-trim seen,
          picked,
        )
        parsed

  -- When each of a chain of proxies, as many as the configured hops and the last of them a trusted
  -- peer, has appended the address it saw, without a comma, to a header of the client's own
  -- making, and what the first of them saw parses, then that address is the one recorded.
  pub get_client_ip-forwarded_by :
      (req : Request) (own client : Text) (seen : List Text) (trusted : List TrustedProxy)
      (peer ip : IpAddr)
      → req.peer ≡ some peer
      → is_trusted_proxy peer trusted ≡ true
      → All HasNoComma (client ∷ seen)
      → parse_ip (trim client) ≡ some ip
      → get_client_ip parse_ip
          (record req { x_forwarded_for = some (forwarded_by own (client ∷ seen)) })
          trusted
          (length (client ∷ seen))
        ≡ some ip
  unfolding get_client_ip
  get_client_ip-forwarded_by req own client seen trusted peer ip h trust plain parsed =
      ground (arith, forwarded_client_ip-seen own client seen ip plain parsed)
