-- ===== src/Proxy/Request/Gate.antt =====
-- src/handlers/proxy/mod.rs: what holds of every request that is sent to an upstream.
use mathlib.Core.List.{append-nil}
use ait.Base.{
  ◌++◌, ◌≢◌, sym, All, codes, ℕ, ◌≤◌, ◌≡◌, ◌⊎◌, refl, Bool, true, false, Option, none, some, List,
  [], Text, length, Result, err, Option-cases, Bool-cases, arith, inl, inr, ap,
}
use ait.Db.{ProxyEvent, Provider}
use ait.Dlp.{DlpScanner, scan}
use ait.Dlp.Leaves.{reported, IsInRange, scan-none_iff}
use ait.Error
use ait.Error.{into_response, bad_request, plain_error}
use ait.Json.{Value}
use ait.Ssrf.Addr.{IpAddr}
use ait.Ssrf.Pinned.{Target, Http}
use ait.Proxy.Resolve.{Lookup}
use ait.Proxy.Request.{
  Settings, Incoming, Store, Times, too_large, matched_rule, proxy_request, dlp_event,
}

-- What the automaton of a scanner reports; without one, nothing.
abbrev pub finder : Option (Text → List ℕ) → Text → List ℕ
finder none text = []
finder (some find_iter) text = find_iter text

-- The automaton has nothing to report on any text of a body that the scanner has to read.
abbrev pub IsClean : DlpScanner → Value → Type 0
IsClean dlp body =
    (dlp.enabled ≡ false)
    ⊎ (dlp.matcher ≡ none)
    ⊎ (reported (finder dlp.matcher) dlp.scan_numbers body ≡ [])

module _ {Upstream Req : Type 0} (create_provider : Provider → Upstream) (max_entries : ℕ)
    (build_request : Upstream → Value → Bool → Text → Text → Result Req Text)
    (url_of : Req → Target) (http : Http) (parse_ip : Text → Option IpAddr) (config : Settings)
    (dlp : DlpScanner) (t : Times) (r : Incoming)
    (resolver : Text → Result (List IpAddr) Text) where
  matched_rule-found :
      (find_iter : Text → List ℕ)
      → dlp.enabled ≡ true
      → dlp.matcher ≡ some find_iter
      → IsInRange (length dlp.rules) find_iter
      → reported find_iter dlp.scan_numbers r.body ≢ []
      → (rule : Text) × (matched_rule create_provider max_entries build_request url_of http parse_ip
            config dlp t r
          ≡ some rule)
  unfolding matched_rule
  matched_rule-found find_iter on built range found = elim (Option-cases (scan dlp r.body)) [
    | inl clean ↦ absurd (found ((scan-none_iff dlp find_iter r.body on built range).0 clean))
    | inr (rule, hit) ↦ (rule, ground arith)
  ]

  -- An enabled scanner's automaton, which reports only indices of rules, reports something for a text
  -- of the body. Then, whatever the database and the resolver would answer, the request is refused
  -- with a 400, the caches, the resolved hosts and the clients are as before, and the log gets nothing,
  -- or one event, of status 400.
  pub proxy_request-refused :
      (lookup : Lookup) (s : Store Upstream) (find_iter : Text → List ℕ)
      → dlp.enabled ≡ true
      → dlp.matcher ≡ some find_iter
      → IsInRange (length dlp.rules) find_iter
      → reported find_iter dlp.scan_numbers r.body ≢ []
      → (e : Error.Response) × (log : List ProxyEvent) × (proxy_request create_provider max_entries
            build_request url_of http parse_ip config dlp t r lookup resolver s
          ≡ (err e, record s { log = s.log ++ log }))
        × (e.0 ≡ 400)
        × (length log ≤ 1)
        × All (λ event. event.status ≡ codes "400") log
  unfolding proxy_request into_response bad_request dlp_event
  proxy_request-refused lookup s find_iter on built range found =
      let (rule, hit) = matched_rule-found find_iter on built range found in
      elim (Bool-cases
        (too_large create_provider max_entries build_request url_of http parse_ip config dlp t r)) [
          | inl big ↦ rw big (
            _,
            [],
            ap (λ l. (_, record s { log = l })) (sym (append-nil s.log)),
            refl,
            omega arith,
            tt,
          )
          | inr small ↦ rw (small, hit) (_, _, refl, refl, omega arith, (refl, tt))
        ]
