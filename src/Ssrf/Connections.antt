-- ===== src/Ssrf/Connections.antt =====
-- DNS answers, redirects and pinning (core/ssrf.py), as state passing: the cache of the answers, the
-- number of lookups, and the requests made so far. Clocks are arguments.
use Prim.Native.String.{◌++◌ as ◌+++◌}
use text.Mathlib.Text.{starts_with}
use ibvap.Common.{
  ℕ, zero, suc, ◌+◌, get_elem?, Bool, true, false, not, ◌||◌, ◌&&◌, Option, none, some, List, [],
  ◌∷◌, ◌++◌, String, ◌==◌, if◌then◌else◌, same, contains, length, select, is_some, string_key,
  nat_key,
}
use ibvap.Common.Texts.{present, is_text, or_empty, or_else, codes}
use ibvap.Common.Dict.{lookup, insert, erase}
use ibvap.Common.Float.{Float, less, minus, num}
use ibvap.Ssrf.Defs.{
  Url, Error, ssrf_error, value_error, Result, ok, err, Web, SsrfPolicy, Request, answered,
  redirected, http_error, failed, validate_endpoint, validate_resolved_ips, require,
}

pub record Net (F : Type 0) : Type 0 where
  pub cache : List (String × (List String × F))
  pub lookups : ℕ
  pub requests : List Request

abbrev pub M : Type 0 → Type 0 → Type 0
M F A = Net F → Result A × Net F

module _ {F : Type 0} where
  infixl 5 ◌>>=◌ ◌>>◌
  unfoldable pub ◌>>=◌ : {A B : Type 0} → M F A → (A → M F B) → M F B
  ◌>>=◌ m f net = let (r, net') = m net in elim r [ ok a ↦ f a net' | err e ↦ (err e, net') ]

  unfoldable pub ◌>>◌ : {B : Type 0} → M F (Unit {0}) → M F B → M F B
  unfolding ◌>>=◌
  m >> k = m >>= λ _. k

  unfoldable pub lift : {A : Type 0} → Result A → M F A
  lift r net = (r, net)

-- `list(dict.fromkeys(l))`: the first of equal items is kept.
unfoldable pub fromkeys : List String → List String
fromkeys [] = []
fromkeys (x ∷ xs) = x ∷ select (λ y. not (same x y)) (fromkeys xs)

-- A text or ValueError.
abbrev pub or_raise : {A : Type 0} → Option A → Result A
or_raise none = err value_error
or_raise (some a) = ok a

-- The address that a connection goes to.
abbrev pub first_address : List String → Result String
first_address [] = err (ssrf_error "unreachable")
first_address (ip ∷ ips) = ok ip

abbrev pub relabelled : Error → Error
relabelled (ssrf_error code) = ssrf_error "blocked_redirect"
relabelled value_error = value_error

-- `except SSRFError as e: raise SSRFError("blocked_redirect")`
unfoldable pub relabel : {F A : Type 0} → M F A → M F A
relabel m net =
    let (r, net') = m net in elim r [ ok a ↦ (ok a, net') | err e ↦ (err (relabelled e), net') ]

module _ {Ip Cidr : Type 0} (web : Web Ip Cidr) where
  abbrev pub is_http : Url → Bool
  is_http url = contains (web.lower url.scheme) ("http" ∷ "https" ∷ [])

  -- `ip_formatted`: brackets round an IPv6 literal.
  unfoldable pub ip_formatted : String → String
  ip_formatted ip =
      if contains b':' (codes ip) && not (starts_with ip "[") then ("[" +++ ip) +++ "]" else ip

  -- `userinfo`, for which the password counts only where there is a user.
  unfoldable pub userinfo : Option String → Option String → String
  userinfo none password = ""
  userinfo (some user) none = web.quote user +++ "@"
  userinfo (some user) (some password) = (web.quote user +++ (":" +++ web.quote password)) +++ "@"

  unfoldable pub port_suffix : Option ℕ → String
  port_suffix none = ""
  port_suffix (some port) = ":" +++ web.decimal port

  -- The network location with the address in place of the host; reading the port may raise.
  unfoldable pub pinned_netloc : Url → String → Result String
  unfolding userinfo port_suffix ip_formatted
  pinned_netloc url ip = elim url.port [
    | none ↦ err value_error
    | some port ↦ ok (
        (userinfo (present url.username) (present url.password) +++ ip_formatted ip)
        +++ port_suffix port)
  ]

  -- The text of `parsed._replace(netloc=...)`.
  unfoldable pub pin_to : Url → String → Result String
  unfolding pinned_netloc
  pin_to url ip = elim (pinned_netloc url ip) [
    | ok netloc ↦ ok (web.urlunparse url netloc)
    | err e ↦ err e
  ]

module _ {Ip Cidr F : Type 0} (web : Web Ip Cidr) ⦃f : Float F⦄ (policy : SsrfPolicy Cidr)
    (now : F) where
  -- The lookup, its check, and the write to the cache where `bypass_cache` is false.
  unfoldable pub resolve_fresh : String → Bool → M F (List String)
  unfolding fromkeys validate_resolved_ips
  resolve_fresh host bypass_cache net =
      let net' = record net { lookups = net.lookups + 1 } in
      elim (web.getaddrinfo net.lookups host) [
        | none ↦ (err (ssrf_error "dns_failed"), net')
        | some infos ↦
            let ips = fromkeys infos in
            elim (validate_resolved_ips web ips policy) [
              | err e ↦ (err e, net')
              | ok _ ↦ (
                ok ips,
                if bypass_cache
                    then net'
                    else record net' { cache = insert host (ips, now) net'.cache },
              )
            ]
      ]

  -- A cached answer is checked against the policy of this call, and dropped where it fails.
  unfoldable pub resolve_cached : String → List String → M F (List String)
  unfolding validate_resolved_ips
  resolve_cached host ips net = elim (validate_resolved_ips web ips policy) [
    | err e ↦ (err e, record net { cache = erase host net.cache })
    | ok _ ↦ (ok ips, net)
  ]

  unfoldable pub resolve_and_validate : String → Bool → M F (List String)
  unfolding resolve_fresh resolve_cached
  resolve_and_validate host bypass_cache net =
      if bypass_cache then resolve_fresh host true net else elim (lookup host net.cache) [
        | none ↦ resolve_fresh host false net
        | some (ips, at) ↦
            if less (minus now at) (num 30 1)
            then resolve_cached host ips net
            else resolve_fresh host false net
      ]

  -- The requests by HEAD and then GET: the location of a redirect, if one is found. GET is tried only
  -- after a 405 or a 501.
  unfoldable pub probe : String → Option String → List String → Net F → Option String × Net F
  probe connect_url host_header [] net = (none, net)
  probe connect_url host_header (method ∷ methods) net =
      let request : Request = record {
        url = connect_url;
        method = method;
        host_header = host_header;
      } in
      let net' = record net { requests = net.requests ++ request ∷ [] } in
      elim (web.open_url (length net.requests) request) [
        | answered location ↦ (present location, net')
        | redirected location ↦ (present (some location), net')
        | http_error code ↦
            let rest = probe connect_url host_header methods net' in
            if code == 405 || code == 501 then rest else (none, net')
        | failed ↦ (none, net')
      ]

  abbrev pub connect_target : String → Url → Option String → Result String
  connect_target url parsed none = ok url
  connect_target url parsed (some ip) = pin_to web parsed ip

  abbrev pub host_header_for : Url → Option String → Option String
  host_header_for parsed none = none
  host_header_for parsed (some ip) = some (or_empty parsed.hostname)

  abbrev pub resolve_host : String → M F (List String)
  resolve_host host net = if is_text host then resolve_and_validate host true net else (ok [], net)

  -- The checks of a redirect's target, and its addresses, which are none where it has no host.
  unfoldable pub check_target : String → M F (List String)
  check_target target = do
    _ ← lift (validate_endpoint web target policy)
    parsed ← lift (or_raise (web.urlparse target))
    resolve_host (or_empty parsed.hostname)

  abbrev pub inspect : String → Option String → M F (Option String)
  inspect connect_url host_header net =
      let (location, net') = probe connect_url host_header ("HEAD" ∷ "GET" ∷ []) net in
      (ok location, net')

  -- The parts of `check_http_redirect`, where `again` is the call one level deeper: what follows a
  -- redirect to `place`, the requests, and the whole body.
  unfoldable pub follow_redirect :
      (String → Option String → M F String) → String → String → M F String
  follow_redirect again url place = do
    target ← lift (or_raise (web.urljoin url place))
    next_ips ← relabel (check_target target)
    lift (require policy.allow_redirects "blocked_redirect")
    final ← again target (get_elem? next_ips 0)
    lift (ok (or_else final target))

  abbrev pub follow_found :
      (String → Option String → M F String) → String → String → Option String → M F String
  follow_found again url connect_url none = lift (ok connect_url)
  follow_found again url connect_url (some place) = follow_redirect again url place

  unfoldable pub inspect_redirect :
      (String → Option String → M F String) → String → Url → Option String → M F String
  inspect_redirect again url parsed pinned_ip = do
    connect_url ← lift (connect_target url parsed (present pinned_ip))
    location ← inspect connect_url (host_header_for parsed (present pinned_ip))
    follow_found again url connect_url location

  unfoldable pub redirect_body :
      (String → Option String → M F String) → String → Option String → M F String
  redirect_body again url pinned_ip = do
    parsed ← lift (or_raise (web.urlparse url))
    elim (is_http web parsed && is_some (present parsed.hostname)) [
      | true ↦ inspect_redirect again url parsed pinned_ip
      | false ↦ lift (ok url)
    ]

  -- `left` is `3 - _depth`.
  unfoldable pub check_http_redirect : ℕ → String → Option String → M F String
  check_http_redirect zero url pinned_ip = do _ ← lift (or_raise (web.urlparse url)); lift (ok url)
  check_http_redirect (suc left) url pinned_ip =
      redirect_body (check_http_redirect left) url pinned_ip

  -- The parsed URL and the addresses after a redirect was found.
  unfoldable pub after_redirect : Url → List String → String → String → M F (Url × List String)
  after_redirect parsed ips pinned_ip redirect_url = do
    moved ← lift (or_raise (web.urlparse redirect_url))
    elim (present moved.hostname) [
      | none ↦ lift (ok (parsed, ips))
      | some host ↦ if same host pinned_ip then lift (ok (parsed, ips)) else do
        moved_ips ← resolve_and_validate host true
        _ ← lift (first_address moved_ips)
        lift (ok (moved, moved_ips))
    ]

  unfoldable pub settle_http : String → Url → List String → String → M F (Url × List String)
  settle_http url parsed ips pinned_ip = do
    redirect_url ← check_http_redirect 3 url (some pinned_ip)
    elim (is_text redirect_url && not (same redirect_url url)) [
      | true ↦ after_redirect parsed ips pinned_ip redirect_url
      | false ↦ lift (ok (parsed, ips))
    ]

  unfoldable pub settle : String → Url → List String → String → M F (Url × List String)
  settle url parsed ips pinned_ip =
      if is_http web parsed then settle_http url parsed ips pinned_ip else lift (ok (parsed, ips))

  unfoldable pub pin_stream_url : String → M F (String × List String)
  pin_stream_url url = do
    parsed ← lift (validate_endpoint web url policy)
    ips ← resolve_and_validate (or_empty parsed.hostname) true
    pinned_ip ← lift (first_address ips)
    settled ← settle url parsed ips pinned_ip
    final_ip ← lift (first_address settled.1)
    pinned_url ← lift (pin_to web settled.0 final_ip)
    lift (ok (pinned_url, settled.1))

  unfoldable pub preflight_stream_url : String → M F (List String)
  preflight_stream_url url = do pinned ← pin_stream_url url; lift (ok pinned.1)
