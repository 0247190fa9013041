-- ===== src/Ssrf/Pinning.antt =====
-- Every connection goes to an authorised address (core/ssrf.py).
use ibvap.Common.{
  ◌≡◌, ◌≢◌, Bool, true, ◌&&◌, Option, none, some, List, [], String, get_elem?, All, is_some, arith,
  string_key,
}
use ibvap.Common.Texts.{present, or_empty}
use ibvap.Common.Float.{Float}
use ibvap.Ssrf.Defs.{Url, ok, Web, SsrfPolicy, Request}
use ibvap.Ssrf.Connections.{
  Net, M, is_http, pin_to, resolve_fresh, resolve_cached, resolve_and_validate,
}
use ibvap.Ssrf.Checks.{IsAuthorised}
use ibvap.Ssrf.Triples.{Triple}

module _ {Ip Cidr F : Type 0} (web : Web Ip Cidr) ⦃f : Float F⦄ (policy : SsrfPolicy Cidr)
    (now : F) where
  resolve_fresh-requests :
      (host : String) (bypass_cache : Bool) (net : Net F)
      → (resolve_fresh web policy now host bypass_cache net).1.requests ≡ net.requests
  unfolding resolve_fresh
  resolve_fresh-requests host bypass net = ground arith

  resolve_cached-requests :
      (host : String) (ips : List String) (net : Net F)
      → (resolve_cached web policy now host ips net).1.requests ≡ net.requests
  unfolding resolve_cached
  resolve_cached-requests host ips net = ground arith

  pub resolve-requests :
      (host : String) (bypass_cache : Bool) (net : Net F)
      → (resolve_and_validate web policy now host bypass_cache net).1.requests ≡ net.requests
  unfolding resolve_and_validate
  resolve-requests host bypass net = grind (arith, resolve_fresh-requests, resolve_cached-requests)

  -- A request whose URL names an authorised address in place of the host, which its Host header keeps.
  abbrev pub IsPinned : Request → Type 0
  IsPinned r =
      (u : Url) × (ip : String) × (pin_to web u ip ≡ ok r.url)
      × (r.host_header ≡ some (or_empty u.hostname))
      × IsAuthorised web policy ip

  abbrev pub ArePinned : Net F → Type 0
  ArePinned net = All IsPinned net.requests

  -- Where a request would be made, there is an authorised address to pin it to.
  abbrev Ready : String → Option String → Type 0
  Ready url pinned_ip =
      (u : Url)
      → web.urlparse url ≡ some u
      → (is_http web u && is_some (present u.hostname)) ≡ true
      → (ip : String) × (present pinned_ip ≡ some ip) × IsAuthorised web policy ip

  abbrev Quiet : {A : Type 0} → M F A → Type 0
  Quiet m = Triple ArePinned m (λ a. Unit {0})

  abbrev AreGood : List String → Type 0
  AreGood ips = (ips ≢ []) × All (IsAuthorised web policy) ips

  abbrev Resolved : Option String → List String → Type 0
  Resolved host ips = is_some (present host) ≡ true → AreGood ips

  abbrev Checked : String → List String → Type 0
  Checked target ips =
      (u : Url) → web.urlparse target ≡ some u → is_some (present u.hostname) ≡ true → AreGood ips

  module _ (empty : web.ip_address "" ≡ none) where
    -- A URL for the connection that names the first of its addresses, all of them authorised.
    abbrev pub IsPinnedUrl : String × List String → Type 0
    IsPinnedUrl (url, ips) =
        (u : Url) × (ip : String) × (get_elem? ips 0 ≡ some ip)
        × (pin_to web u ip ≡ ok url)
        × (ips ≢ [])
        × All (IsAuthorised web policy) ips
