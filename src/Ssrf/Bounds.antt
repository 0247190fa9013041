-- ===== src/Ssrf/Bounds.antt =====
-- How much of the network a call may use (core/ssrf.py).
use ibvap.Common.{
  ℕ, zero, suc, ◌+◌, ◌*◌, ◌≤◌, ◌≡◌, refl, true, ◌&&◌, not, Option, none, some, List, [], ◌∷◌, ◌++◌,
  String, length, length-append, get_elem?, is_some, same, string_key, arith, Bool-cases,
  Option-cases, inl, inr,
}
use ibvap.Common.Texts.{present, is_text, or_empty, or_else}
use ibvap.Common.Float.{Float}
use ibvap.Ssrf.Defs.{Url, Result, ok, err, Web, SsrfPolicy, Request, validate_endpoint, require}
use ibvap.Ssrf.Connections.{
  Net, M, ◌>>=◌, ◌>>◌, lift, relabel, or_raise, is_http, pin_to, resolve_fresh,
  resolve_and_validate, probe, inspect, connect_target, follow_redirect, follow_found,
  inspect_redirect, redirect_body, resolve_host, check_target, check_http_redirect, first_address,
  after_redirect, settle_http, settle, pin_stream_url,
}

-- At most `r` requests and `l` lookups are made.
pub record Within {F A : Type 0} (r l : ℕ) (m : M F A) : Type 0 where
  pub requests_le : (net : Net F) → length (m net).1.requests ≤ length net.requests + r
  pub lookups_le : (net : Net F) → (m net).1.lookups ≤ net.lookups + l

module _ {F A B : Type 0} where
  bind_requests :
      (r : ℕ) (f : A → M F B) (a : Result A) (net : Net F)
      → ((x : A) → length (f x net).1.requests ≤ length net.requests + r)
      → length (◌>>=◌ (lift a) f net).1.requests ≤ length net.requests + r
  unfolding ◌>>=◌ lift
  bind_requests r f (ok a) net h = h a
  bind_requests r f (err e) net h = omega arith

  bind_lookups :
      (r : ℕ) (f : A → M F B) (a : Result A) (net : Net F)
      → ((x : A) → (f x net).1.lookups ≤ net.lookups + r)
      → (◌>>=◌ (lift a) f net).1.lookups ≤ net.lookups + r
  unfolding ◌>>=◌ lift
  bind_lookups r f (ok a) net h = h a
  bind_lookups r f (err e) net h = omega arith

  Within->>= :
      {r l r' l' : ℕ} {m : M F A} {f : A → M F B}
      → Within r l m
      → ((a : A) → Within r' l' (f a))
      → Within (r + r') (l + l') (m >>= f)
  unfolding ◌>>=◌ lift
  Within->>= {r} {l} {r'} {l'} {m} {f} first step = record {
    requests_le = λ net. omega (
      arith,
      first.requests_le net,
      bind_requests r' f (m net).0 (m net).1 (λ a. (step a).requests_le (m net).1),
    );
    lookups_le = λ net. omega (
      arith,
      first.lookups_le net,
      bind_lookups l' f (m net).0 (m net).1 (λ a. (step a).lookups_le (m net).1),
    );
  }

module _ {F A : Type 0} where
  Within-lift : (r : Result A) → Within {F = F} 0 0 (lift r)
  unfolding lift
  Within-lift r = record { requests_le = λ net. omega arith; lookups_le = λ net. omega arith }

  Within-le : {r l : ℕ} (r' l' : ℕ) {m : M F A} → r ≤ r' → l ≤ l' → Within r l m → Within r' l' m
  Within-le r' l' h k w = record {
    requests_le = λ net. omega (arith, w.requests_le net);
    lookups_le = λ net. omega (arith, w.lookups_le net);
  }

  relabel_within : (m : M F A) (net : Net F) → (relabel m net).1 ≡ (m net).1
  unfolding relabel
  relabel_within m net = ground arith

  Within-relabel : {r l : ℕ} {m : M F A} → Within r l m → Within r l (relabel m)
  Within-relabel {m} w = record {
    requests_le = λ net. rw (relabel_within m net) (w.requests_le net);
    lookups_le = λ net. rw (relabel_within m net) (w.lookups_le net);
  }

module _ {Ip Cidr F : Type 0} (web : Web Ip Cidr) ⦃f : Float F⦄ (policy : SsrfPolicy Cidr)
    (now : F) where
  Within-resolve : (host : String) → Within 0 1 (resolve_and_validate web policy now host true)
  unfolding resolve_and_validate resolve_fresh
  Within-resolve host = record {
    requests_le = λ net. ground arith;
    lookups_le = λ net. ground arith;
  }

  probe_requests :
      (connect_url : String) (host_header : Option String) (methods : List String) (net : Net F)
      → length (probe web policy now connect_url host_header methods net).1.requests
        ≤ length net.requests + length methods
  unfolding probe
  probe_requests url header [] net = omega arith
  probe_requests url header (m ∷ ms) net =
      let r : Request = record { url = url; method = m; host_header = header } in
      let net' = record net { requests = net.requests ++ r ∷ [] } in
      ground (arith, length-append net.requests (r ∷ []), probe_requests url header ms net')

  probe_lookups :
      (connect_url : String) (host_header : Option String) (methods : List String) (net : Net F)
      → (probe web policy now connect_url host_header methods net).1.lookups ≡ net.lookups
  unfolding probe
  probe_lookups url header [] net = refl
  probe_lookups url header (m ∷ ms) net =
      let r : Request = record { url = url; method = m; host_header = header } in
      let net' = record net { requests = net.requests ++ r ∷ [] } in
      ground (arith, probe_lookups url header ms net')

  Within-inspect :
      (url : String) (header : Option String) → Within 2 0 (inspect web policy now url header)
  Within-inspect url header = record {
    requests_le = λ net. omega (arith, probe_requests url header ("HEAD" ∷ "GET" ∷ []) net);
    lookups_le = λ net. omega (arith, probe_lookups url header ("HEAD" ∷ "GET" ∷ []) net);
  }

  Within-resolve_host : (host : String) → Within 0 1 (resolve_host web policy now host)
  Within-resolve_host String.[] = record {
    requests_le = λ net. omega arith;
    lookups_le = λ net. omega arith;
  }
  Within-resolve_host (String.◌∷◌ c t) =
      let w = Within-resolve (String.◌∷◌ c t) in
      record { requests_le = w.requests_le; lookups_le = w.lookups_le }

  Within-check_target : (target : String) → Within 0 1 (check_target web policy now target)
  unfolding check_target
  Within-check_target target = Within->>= (Within-lift (validate_endpoint web target policy)) λ v.
      Within->>= (Within-lift (or_raise (web.urlparse target)))
        λ u. Within-resolve_host (or_empty u.hostname)

  Within->> :
      {r l : ℕ} {B : Type 0} {m : M F (Unit {0})} {k : M F B}
      → Within 0 0 m
      → Within r l k
      → Within r l (m >> k)
  unfolding ◌>>◌
  Within->> {r} {l} h k = Within-le r l (omega arith) (omega arith) (Within->>= h (λ u. k))

  module _ (again : String → Option String → M F String) (r l : ℕ)
      (deeper : (url : String) (pinned_ip : Option String) → Within r l (again url pinned_ip)) where
    Within-follow_redirect :
        (url place : String) → Within r (l + 1) (follow_redirect web policy now again url place)
    unfolding follow_redirect
    Within-follow_redirect url place = Within-le r (l + 1) (omega arith) (omega arith) (
        Within->>= (Within-lift (or_raise (web.urljoin url place))) λ target.
          Within->>= (Within-relabel (Within-check_target target)) λ ips.
            Within->> (Within-lift (require policy.allow_redirects "blocked_redirect")) (
              Within->>= (deeper target (get_elem? ips 0))
                λ final. Within-lift (ok (or_else final target))))

    Within-follow_found :
        (url connect_url : String) (location : Option String)
        → Within r (l + 1) (follow_found web policy now again url connect_url location)
    Within-follow_found url connect_url none =
        Within-le r (l + 1) (omega arith) (omega arith) (Within-lift (ok connect_url))
    Within-follow_found url connect_url (some place) = Within-follow_redirect url place

    Within-inspect_redirect :
        (url : String) (u : Url) (pinned_ip : Option String)
        → Within (r + 2) (l + 1) (inspect_redirect web policy now again url u pinned_ip)
    unfolding inspect_redirect
    Within-inspect_redirect url u pinned_ip =
        Within-le (r + 2) (l + 1) (omega arith) (omega arith) (
          Within->>= (Within-lift (connect_target web policy now url u (present pinned_ip)))
            λ connect_url.
              Within->>= (Within-inspect connect_url _)
                λ location. Within-follow_found url connect_url location)

    Within-redirect_body :
        (url : String) (pinned_ip : Option String)
        → Within (r + 2) (l + 1) (redirect_body web policy now again url pinned_ip)
    unfolding redirect_body
    Within-redirect_body url pinned_ip = Within-le (r + 2) (l + 1) (omega arith) (omega arith) (
        Within->>= {r' = r + 2} {l' = l + 1} (Within-lift (or_raise (web.urlparse url))) λ u.
          elim (Bool-cases (is_http web u && is_some (present u.hostname))) [
            | inl http ↦ rw http (Within-inspect_redirect url u pinned_ip)
            | inr other ↦
                rw other
                  (Within-le (r + 2) (l + 1) (omega arith) (omega arith) (Within-lift (ok url)))
          ])

  Within-redirect :
      (left : ℕ) (url : String) (pinned_ip : Option String)
      → Within (left * 2) left (check_http_redirect web policy now left url pinned_ip)
  unfolding check_http_redirect
  Within-redirect zero url pinned_ip =
      Within->>= (Within-lift (or_raise (web.urlparse url))) (λ u. Within-lift (ok url))
  Within-redirect (suc left) url pinned_ip =
      Within-le (suc left * 2) (suc left) (omega arith) (omega arith) (
        Within-redirect_body (check_http_redirect web policy now left) (left * 2) left
          (Within-redirect left) url pinned_ip)

  Within-after_redirect :
      (parsed : Url) (ips : List String) (pinned_ip redirect_url : String)
      → Within 0 1 (after_redirect web policy now parsed ips pinned_ip redirect_url)
  unfolding after_redirect
  Within-after_redirect parsed ips pinned_ip redirect_url =
      let stay : Within {F = F} {A = Url × List String} 0 1 (lift (ok (parsed, ips))) =
        Within-le 0 1 (omega arith) (omega arith) (Within-lift (ok (parsed, ips))) in
      Within->>= {r' = 0} {l' = 1} (Within-lift (or_raise (web.urlparse redirect_url))) λ moved.
        elim (Option-cases (present moved.hostname)) [
          | inl absent ↦ rw absent stay
          | inr (host, here) ↦ elim (Bool-cases (same host pinned_ip)) [
            | inl it ↦ rw (here, it) stay
            | inr other ↦
                rw (here, other)
                  (Within->>= (Within-resolve host) λ moved_ips.
                    Within->>= (Within-lift (first_address moved_ips))
                      λ _. Within-lift (ok (moved, moved_ips)))
          ]
        ]

  Within-settle :
      (url : String) (parsed : Url) (ips : List String) (pinned_ip : String)
      → Within 6 4 (settle web policy now url parsed ips pinned_ip)
  unfolding settle settle_http
  Within-settle url parsed ips pinned_ip =
      let stay : (r l : ℕ) → Within {F = F} {A = Url × List String} r l (lift (ok (parsed, ips))) =
        λ r l. Within-le r l (omega arith) (omega arith) (Within-lift (ok (parsed, ips))) in
      elim (Bool-cases (is_http web parsed)) [
        | inl http ↦
            rw (http, settle, settle_http)
              (Within->>= {r' = 0} {l' = 1} (Within-redirect 3 url (some pinned_ip)) λ redirect_url.
                elim (Bool-cases (is_text redirect_url && not (same redirect_url url))) [
                  | inl moved ↦ rw moved (Within-after_redirect parsed ips pinned_ip redirect_url)
                  | inr still ↦ rw still (stay 0 1)
                ])
        | inr other ↦ rw (other, settle) (stay 6 4)
      ]

  -- Whatever the outside answers, a call ends after at most six requests and five lookups of names: the
  -- redirects that it follows are at most three, with a HEAD and a GET for each URL.
  pub pin_stream_url-Within :
      (url : String) (net : Net F)
      → (length (pin_stream_url web policy now url net).1.requests ≤ length net.requests + 6)
        × ((pin_stream_url web policy now url net).1.lookups ≤ net.lookups + 5)
  unfolding pin_stream_url
  pin_stream_url-Within url net =
      let w : Within 6 5 (pin_stream_url web policy now url) =
        Within->>= (Within-lift (validate_endpoint web url policy)) λ parsed.
          Within->>= (Within-resolve (or_empty parsed.hostname)) λ ips.
            Within->>= (Within-lift (first_address ips)) λ pinned_ip.
              Within->>= (Within-settle url parsed ips pinned_ip) λ settled.
                Within->>= (Within-lift (first_address settled.1)) λ ip.
                  Within->>= (Within-lift (pin_to web settled.0 ip))
                    λ pinned_url. Within-lift (ok (pinned_url, settled.1)) in
      (w.requests_le net, w.lookups_le net)
