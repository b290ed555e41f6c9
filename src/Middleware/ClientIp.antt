-- ===== src/Middleware/ClientIp.antt =====
-- src/middleware.rs: `get_client_ip` and `forwarded_client_ip`.
-- A header is its value as text, `none` where it is missing or not visible ASCII. `IpAddr::from_str`
-- is the parameter `parse_ip`.
use ait.Base.{
  ℕ, ◌-◌, Bool, Option, none, some, List, map, Text, length, get_elem?, any, leb, is_some_and,
  and_then, or_else, if◌then◌else◌,
}
use ait.Base.Split.{split, trim}
use ait.Ssrf.Addr.{IpAddr}
use ait.Config.Proxies.{TrustedProxy, contains}

pub record Request : Type 0 where
  pub peer : Option IpAddr
  pub x_forwarded_for : Option Text
  pub x_real_ip : Option Text

-- `usize::checked_sub`.
unfoldable pub checked_sub : ℕ → ℕ → Option ℕ
checked_sub a b = if leb b a then some (a - b) else none

unfoldable pub is_trusted_proxy : IpAddr → List TrustedProxy → Bool
is_trusted_proxy ip trusted = any (λ t. contains t ip) trusted

module _ (parse_ip : Text → Option IpAddr) where
  unfoldable pub forwarded_client_ip : Text → ℕ → Option IpAddr
  forwarded_client_ip value hops =
      let parts = map trim (split b',' value) in
      and_then (and_then (checked_sub (length parts) hops) (get_elem? parts)) parse_ip

  unfoldable pub get_client_ip : Request → List TrustedProxy → ℕ → Option IpAddr
  get_client_ip req trusted_proxies hops =
      if is_some_and req.peer (λ ip. is_trusted_proxy ip trusted_proxies)
      then or_else (and_then req.x_forwarded_for (λ value. forwarded_client_ip value hops))
          (or_else (and_then req.x_real_ip parse_ip) req.peer)
      else req.peer
