-- ===== src/Ssrf/Tests.antt =====
-- The policy on a small network: two cameras, of which one redirects to the other (core/ssrf.py).
use ibvap.Common.{
  ℕ, ◌+◌, ◌≤◌, ◌≡◌, ◌≢◌, refl, true, false, List, [], ◌∷◌, String, string_key, string_eq?,
  ℕ_discrete, nat_key, length, All,
}
use ibvap.Common.Dict.{insert}
use ibvap.Common.Milli.{milli}
use ibvap.Ssrf.Defs.{
  ok, is_metadata_endpoint, has_credentials, parse_strict, check_scheme, ip_blocked,
  ip_allowed_by_site, check_literal, check_host_and_port, validate_endpoint, check_address,
  check_addresses, validate_resolved_ips, ◌>>◌,
}
use ibvap.Ssrf.Connections.{
  Net, ◌>>=◌ as ◌>>>=◌, ◌>>◌ as ◌>>>◌, lift, relabel, fromkeys, ip_formatted, userinfo, port_suffix,
  pinned_netloc, pin_to, resolve_fresh, resolve_cached, resolve_and_validate, probe, check_target,
  follow_redirect, inspect_redirect, redirect_body, check_http_redirect, after_redirect,
  settle_http, settle, pin_stream_url,
}
use ibvap.Ssrf.Checks.{IsAuthorised}
use ibvap.Ssrf.Resolution.{
  resolve_and_validate-IsAuthorised, resolve_bypass, IsHistory, resolve_and_validate-IsHistory,
}
use ibvap.Ssrf.Bounds.{pin_stream_url-Within}
use ibvap.Ssrf.Example.{web, site_policy}

abbrev start : Net ℕ
start = record { cache = []; lookups = 0; requests = [] }

abbrev gate_addresses : List String
gate_addresses = "192.168.1.7" ∷ []

-- The redirect is followed, and the result is pinned to the address of the yard.
redirect_is_pinned :
    (pin_stream_url {F = ℕ} web site_policy 0 "http://gate/live" start).0
    ≡ ok ("http://192.168.1.8/live", "192.168.1.8" ∷ [])
unfolding pin_stream_url settle settle_http after_redirect check_http_redirect redirect_body
    inspect_redirect follow_redirect check_target resolve_and_validate resolve_fresh resolve_cached
    probe pin_to pinned_netloc port_suffix userinfo ip_formatted fromkeys relabel lift ◌>>>◌ ◌>>>=◌
    validate_resolved_ips check_addresses check_address validate_endpoint check_host_and_port
    check_literal ip_allowed_by_site ip_blocked check_scheme parse_strict has_credentials
    is_metadata_endpoint string_eq? ℕ_discrete insert
redirect_is_pinned = refl

gate_resolves :
    (resolve_and_validate {F = ℕ} web site_policy 5000 "gate" false start).0
    ≡ ok ("192.168.1.7" ∷ [])
unfolding resolve_and_validate resolve_fresh fromkeys validate_resolved_ips check_addresses
    check_address ip_allowed_by_site ip_blocked string_eq? ℕ_discrete
gate_resolves = refl

resolve_and_validate-IsAuthorised_example :
    (gate_addresses ≢ []) × All (IsAuthorised web site_policy) gate_addresses
resolve_and_validate-IsAuthorised_example =
    resolve_and_validate-IsAuthorised web site_policy 5000 "gate" false start gate_resolves

resolve_bypass_example : resolve_and_validate {F = ℕ} web site_policy 5000 "gate" true start ≡ (
  (validate_resolved_ips web (fromkeys ("192.168.1.7" ∷ "192.168.1.7" ∷ [])) site_policy
      >> ok (fromkeys ("192.168.1.7" ∷ "192.168.1.7" ∷ []))),
  record start { lookups = 1 },
)
unfolding string_eq?
resolve_bypass_example =
    resolve_bypass web site_policy 5000 "gate" start ("192.168.1.7" ∷ "192.168.1.7" ∷ []) refl

resolve_and_validate-IsHistory_example :
    IsHistory web site_policy 5000 (resolve_and_validate web site_policy 5000 "gate" false start).1
resolve_and_validate-IsHistory_example =
    resolve_and_validate-IsHistory web site_policy 5000 "gate" false start
      (record { past = λ host ips at k. absurd (cc) })

pin_stream_url-Within_example :
    (length (pin_stream_url {F = ℕ} web site_policy 0 "http://gate/live" start).1.requests ≤ 0 + 6)
    × ((pin_stream_url {F = ℕ} web site_policy 0 "http://gate/live" start).1.lookups ≤ 0 + 5)
pin_stream_url-Within_example = pin_stream_url-Within web site_policy 0 "http://gate/live" start
