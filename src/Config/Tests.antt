-- ===== src/Config/Tests.antt =====
-- src/config.rs: runs of the entries for trusted proxies.
use ait.Base.{◌≡◌, refl, Option, none, some, Text, codes, ok, text_eq, if◌then◌else◌}
use ait.Ssrf.Addr.{IpAddr, v4, ipv4}
use ait.Ssrf.Cidr.{ip_in_cidr}
use ait.Config.Proxies.{cidr, contains, parse, contains-parse}

abbrev parse_ip : Text → Option IpAddr
parse_ip s = if text_eq s (codes "10.0.0.0") then some (v4 (ipv4 10 0 0 0)) else none

parse_run : parse parse_ip (codes "10.0.0.0/8") ≡ ok (cidr (v4 (ipv4 10 0 0 0)) 8)
unfolding parse ait.Ssrf.Cidr.split_once text_eq ait.Ssrf.Cidr.parse_u8
parse_run = refl

contains-parse_example :
    contains (cidr (v4 (ipv4 10 0 0 0)) 8) (v4 (ipv4 10 1 2 3))
    ≡ ip_in_cidr parse_ip (v4 (ipv4 10 1 2 3)) (codes "10.0.0.0/8")
contains-parse_example =
    contains-parse parse_ip (codes "10.0.0.0/8") (cidr (v4 (ipv4 10 0 0 0)) 8) (v4 (ipv4 10 1 2 3))
      parse_run
