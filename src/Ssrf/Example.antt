-- ===== src/Ssrf/Example.antt =====
-- A small network for the tests: two cameras, of which one redirects to the other.
use Prim.Native.String.{◌++◌ as ◌+++◌}
use ibvap.Common.{
  ℕ, true, false, not, ◌||◌, ◌&&◌, Option, none, some, List, [], ◌∷◌, String, same, string_key,
  nat_key, if◌then◌else◌,
}
use ibvap.Common.Texts.{or_empty}
use ibvap.Common.Dict.{lookup}
use ibvap.Ssrf.Defs.{Url, Web, SsrfPolicy, redirected, answered, default_blocked_nets}

abbrev pub parsed_as : String → Option String → Url
parsed_as scheme host = record {
  scheme = scheme;
  hostname = host;
  port = some none;
  username = none;
  password = none;
  rest = "/live";
}

abbrev pub urls : List (String × Url)
urls =
    ("http://gate/live", parsed_as "http" (some "gate"))
    ∷ ("http://yard/live", parsed_as "http" (some "yard"))
    ∷ ("http://192.168.1.7/live", parsed_as "http" (some "192.168.1.7"))
    ∷ ("http://post/live", parsed_as "http" (some "post"))
    ∷ ("http://192.168.1.8/live", parsed_as "http" (some "192.168.1.8"))
    ∷ []

abbrev pub addresses : List (String × ℕ)
addresses = ("192.168.1.7", 7) ∷ ("192.168.1.8", 8) ∷ ("127.0.0.1", 1) ∷ ("93.184.216.34", 20) ∷ []

abbrev pub hosts : List (String × List String)
hosts =
    ("gate", "192.168.1.7" ∷ "192.168.1.7" ∷ [])
    ∷ ("yard", "192.168.1.8" ∷ [])
    ∷ ("192.168.1.7", "192.168.1.7" ∷ [])
    ∷ ("192.168.1.8", "192.168.1.8" ∷ [])
    ∷ ("trap", "127.0.0.1" ∷ [])
    ∷ ("post", "93.184.216.34" ∷ [])
    ∷ []

-- The gate redirects to the yard; the network 192.168.0.0/16 is the site's.
abbrev pub web : Web ℕ String
web = record {
  strip = λ t. t;
  lower = λ t. t;
  quote = λ t. t;
  decimal = λ n. "80";
  urlparse = λ t. lookup t urls;
  urlunparse = λ u netloc. ((u.scheme +++ "://") +++ netloc) +++ u.rest;
  urljoin = λ base place. some place;
  ip_address = λ t. lookup t addresses;
  ip_text = λ ip. "an address";
  network = λ t. t;
  within = λ ip net.
      (same ip 1 && same net "127.0.0.0/8")
      || ((same ip 7 || same ip 8) && same net "192.168.0.0/16");
  is_unspecified = λ ip. false;
  is_loopback = λ ip. same ip 1;
  is_link_local = λ ip. false;
  is_multicast = λ ip. false;
  is_reserved = λ ip. false;
  is_private = λ ip. not (same ip 20);
  getaddrinfo = λ n host. lookup host hosts;
  open_url = λ n r.
      if same (or_empty r.host_header) "gate" then redirected "http://yard/live" else answered none;
}

abbrev pub site_policy : SsrfPolicy String
site_policy = record {
  allowed_schemes = "http" ∷ "rtsp" ∷ [];
  allowed_hosts = none;
  allowed_ports = none;
  site_cidr_allowlist = "192.168.0.0/16" ∷ [];
  blocked_nets = default_blocked_nets web;
  allow_redirects = true;
}
