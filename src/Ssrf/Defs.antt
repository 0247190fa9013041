-- ===== src/Ssrf/Defs.antt =====
-- The SSRF policy and the checks that need no network (core/ssrf.py). `urllib.parse`, `ipaddress`,
-- `str.lower` and the like are the fields of `Web`; an address and a network are types of theirs.
use ibvap.Common.{
  ℕ, Bool, true, false, not, ◌||◌, ◌&&◌, Option, none, some, List, [], ◌∷◌, map, String,
  if◌then◌else◌, contains, any, is_some, nat_key, string_key,
}
use ibvap.Common.Texts.{present, is_text, or_empty, codes, before}

-- A `ParseResult`, with its path, parameters, query and fragment in one. Reading the port raises ValueError where it is not a number up to 65535: `none`.
pub record Url : Type 0 where
  pub scheme : String
  pub hostname : Option String
  pub port : Option (Option ℕ)
  pub username : Option String
  pub password : Option String
  pub rest : String

pub data Error : Type 0 where
  ssrf_error : String → Error
  value_error : Error

-- What a check gives: the SSRFError or ValueError that it raises, or its value.
pub data Result (A : Type 0) : Type 0 where
  err : Error → Result A
  ok : A → Result A

module _ {B : Type 0} where
  infixl 5 ◌>>=◌ ◌>>◌
  abbrev pub ◌>>=◌ : {A : Type 0} → Result A → (A → Result B) → Result B
  err e >>= next = err e
  ok value >>= next = next value

  abbrev pub ◌>>◌ : Result (Unit {0}) → Result B → Result B
  check >> next = check >>= λ _. next

-- Pass where the test holds, or raise an SSRFError of this code.
abbrev pub require : Bool → String → Result (Unit {0})
require true code = ok tt
require false code = err (ssrf_error code)

-- One HTTP request, and what the opener makes of it: the headers of an answer with their Location, a
-- redirect that `_NoRedirect` raises, an HTTP error, or any other exception.
pub record Request : Type 0 where
  pub url : String
  pub method : String
  pub host_header : Option String

pub data Response : Type 0 where
  answered : Option String → Response
  redirected : String → Response
  http_error : ℕ → Response
  failed : Response

-- What the code calls; `urlunparse u n` is the text of `u` with `n` for its network location. The n-th lookup and the n-th request may each have an answer of its own.
pub record Web (Ip Cidr : Type 0) : Type 0 where
  pub strip : String → String
  pub lower : String → String
  pub quote : String → String
  pub decimal : ℕ → String
  pub urlparse : String → Option Url
  pub urlunparse : Url → String → String
  pub urljoin : String → String → Option String
  pub ip_address : String → Option Ip
  pub ip_text : Ip → String
  pub network : String → Cidr
  pub within : Ip → Cidr → Bool
  pub is_unspecified : Ip → Bool
  pub is_loopback : Ip → Bool
  pub is_link_local : Ip → Bool
  pub is_multicast : Ip → Bool
  pub is_reserved : Ip → Bool
  pub is_private : Ip → Bool
  pub getaddrinfo : ℕ → String → Option (List String)
  pub open_url : ℕ → Request → Response

pub record SsrfPolicy (Cidr : Type 0) : Type 0 where
  pub allowed_schemes : List String
  pub allowed_hosts : Option (List String)
  pub allowed_ports : Option (List ℕ)
  pub site_cidr_allowlist : List Cidr
  pub blocked_nets : List Cidr
  pub allow_redirects : Bool

abbrev pub default_allowed_ports : List ℕ
default_allowed_ports =
    80 ∷ 443 ∷ 554 ∷ 8554 ∷ 4747 ∷ 8080 ∷ 8000 ∷ 8081 ∷ 8082 ∷ 8008 ∷ 8888 ∷ 5544 ∷ 7070 ∷ 7447
    ∷ 9997 ∷ 1935 ∷ []

abbrev pub metadata_hosts : List String
metadata_hosts =
    "169.254.169.254" ∷ "metadata.google.internal" ∷ "metadata.google" ∷ "instance-data" ∷ []

module _ {Ip Cidr : Type 0} (web : Web Ip Cidr) where
  abbrev pub default_blocked_nets : List Cidr
  default_blocked_nets = map web.network (
      "127.0.0.0/8" ∷ "::1/128" ∷ "169.254.0.0/16" ∷ "fe80::/10" ∷ "224.0.0.0/4" ∷ "ff00::/8"
      ∷ "255.255.255.255/32" ∷ "169.254.169.254/32" ∷ "fd00:ec2::254/128" ∷ [])

  abbrev pub default_policy : SsrfPolicy Cidr
  default_policy = record {
    allowed_schemes = "rtsp" ∷ "rtsps" ∷ "http" ∷ "https" ∷ [];
    allowed_hosts = none;
    allowed_ports = some default_allowed_ports;
    site_cidr_allowlist = [];
    blocked_nets = default_blocked_nets;
    allow_redirects = false;
  }

  -- `is_metadata_endpoint`: the address counts only where the host is not one of the names.
  unfoldable pub is_metadata_endpoint : String → Option String → Bool
  is_metadata_endpoint host ip_str =
      if contains (web.lower host) metadata_hosts then true else elim (present ip_str) [
        | none ↦ false
        | some text ↦ elim (web.ip_address text) [
          | none ↦ false
          | some ip ↦ web.within ip (web.network "169.254.169.254/32")
        ]
      ]

  -- An `@` before the first `?` or `#` is taken for credentials.
  unfoldable pub has_credentials : String → Bool
  has_credentials clean = contains b'@' (before b'#' (before b'?' (codes clean)))

  unfoldable pub parse_strict : String → Result Url
  unfolding has_credentials
  parse_strict raw =
      let clean = web.strip raw in
      if has_credentials clean
      then err (ssrf_error "credential_in_url")
      else elim (web.urlparse clean) [
        | none ↦ err (ssrf_error "invalid_url")
        | some url ↦
            if is_text url.scheme && is_some (present url.hostname)
            then ok url
            else err (ssrf_error "invalid_url")
      ]

  unfoldable pub check_scheme : Url → SsrfPolicy Cidr → Result (Unit {0})
  check_scheme url policy =
      require (contains (web.lower url.scheme) policy.allowed_schemes) "blocked_scheme"

  -- `_ip_blocked`: the networks of the control plane are none.
  unfoldable pub ip_blocked : Ip → SsrfPolicy Cidr → Bool
  ip_blocked ip policy = any (web.within ip) policy.blocked_nets

  unfoldable pub ip_allowed_by_site : Ip → SsrfPolicy Cidr → Bool
  ip_allowed_by_site ip policy =
      if web.is_private ip then any (web.within ip) policy.site_cidr_allowlist else true

  -- The ranges that a literal address must not be in.
  abbrev pub is_special : Ip → Bool
  is_special ip =
      web.is_unspecified ip
      || web.is_loopback ip
      || web.is_link_local ip
      || web.is_multicast ip
      || web.is_reserved ip

  unfoldable pub check_literal : String → SsrfPolicy Cidr → Option Ip → Result (Unit {0})
  unfolding is_metadata_endpoint ip_blocked
  check_literal host policy none = ok tt
  check_literal host policy (some ip) = do
    require (not (is_metadata_endpoint host (some (web.ip_text ip)))) "blocked_address"
    require (not (is_special ip)) "blocked_address"
    require (not (ip_blocked ip policy)) "blocked_address"

  abbrev pub host_allowed : String → Option (List String) → Bool
  host_allowed host none = true
  host_allowed host (some hosts) = contains (web.lower host) (map web.lower hosts)

  abbrev pub effective_ports : SsrfPolicy Cidr → List ℕ
  effective_ports policy = elim policy.allowed_ports [
    | none ↦ default_allowed_ports
    | some ports ↦ ports
  ]

  abbrev pub check_port : Option (Option ℕ) → List ℕ → Result (Unit {0})
  check_port none ports = err value_error
  check_port (some none) ports = ok tt
  check_port (some (some port)) ports = require (contains port ports) "blocked_port"

  unfoldable pub check_host_and_port : Url → SsrfPolicy Cidr → Result (Unit {0})
  unfolding is_metadata_endpoint check_literal
  check_host_and_port url policy = do
    let host = or_empty url.hostname
    require (not (is_metadata_endpoint host none)) "blocked_address"
    check_literal host policy (web.ip_address host)
    require (host_allowed host policy.allowed_hosts) "blocked_host"
    check_port url.port (effective_ports policy)

  unfoldable pub validate_endpoint : String → SsrfPolicy Cidr → Result Url
  unfolding parse_strict check_scheme check_host_and_port
  validate_endpoint raw_url policy = do
    url ← parse_strict raw_url
    check_scheme url policy
    check_host_and_port url policy
    ok url

  unfoldable pub check_address : SsrfPolicy Cidr → Option Ip → Result (Unit {0})
  unfolding ip_blocked ip_allowed_by_site
  check_address policy none = err (ssrf_error "invalid_ip")
  check_address policy (some ip) = do
    require (not (ip_blocked ip policy)) "blocked_address"
    require (ip_allowed_by_site ip policy) "blocked_private"

  unfoldable pub check_addresses : SsrfPolicy Cidr → List String → Result (Unit {0})
  unfolding check_address
  check_addresses policy [] = ok tt
  check_addresses policy (s ∷ ips) = do
    check_address policy (web.ip_address s)
    check_addresses policy ips

  unfoldable pub validate_resolved_ips : List String → SsrfPolicy Cidr → Result (Unit {0})
  unfolding check_addresses
  validate_resolved_ips [] policy = err (ssrf_error "unreachable")
  validate_resolved_ips (s ∷ ips) policy = check_addresses policy (s ∷ ips)
