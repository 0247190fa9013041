-- ===== src/Ssrf/Resolution.antt =====
-- The answers of `resolve_and_validate` and its cache (core/ssrf.py).
use ibvap.Common.{
  ℕ, ◌+◌, ◌≡◌, ◌≢◌, ◌⊎◌, ◌<◌, refl, ap, ◌∙◌, Bool, true, false, some, List, [], String, All,
  string_key, arith, Bool-cases, Option-cases, inl, inr, same, same→eq,
}
use ibvap.Common.Dict.{lookup, insert, lookup-insert, lookup-erase}
use ibvap.Common.Float.{Float, less, minus, num}
use ibvap.Ssrf.Defs.{Error, Result, ok, err, ◌>>◌, Web, SsrfPolicy, validate_resolved_ips}
use ibvap.Ssrf.Connections.{Net, fromkeys, resolve_fresh, resolve_cached, resolve_and_validate}
use ibvap.Ssrf.Checks.{IsAuthorised, validate_resolved_ips_lem}

Result-cases : (r : Result (Unit {0})) → (r ≡ ok tt) ⊎ ((e : Error) × (r ≡ err e))
Result-cases (ok tt) = inl refl
Result-cases (err e) = inr (e, refl)

module _ {Ip Cidr F : Type 0} (web : Web Ip Cidr) ⦃f : Float F⦄ (policy : SsrfPolicy Cidr)
    (now : F) where
  resolve_fresh-ok :
      (host : String) (bypass_cache : Bool) (net : Net F) {ips : List String}
      → (resolve_fresh web policy now host bypass_cache net).0 ≡ ok ips
      → validate_resolved_ips web ips policy ≡ ok tt
  unfolding resolve_fresh
  resolve_fresh-ok host bypass net h = ground arith

  resolve_cached-ok :
      (host : String) (found : List String) (net : Net F) {ips : List String}
      → (resolve_cached web policy now host found net).0 ≡ ok ips
      → validate_resolved_ips web ips policy ≡ ok tt
  unfolding resolve_cached
  resolve_cached-ok host found net h = ground arith

  resolve-ok :
      (host : String) (bypass_cache : Bool) (net : Net F) {ips : List String}
      → (resolve_and_validate web policy now host bypass_cache net).0 ≡ ok ips
      → validate_resolved_ips web ips policy ≡ ok tt
  unfolding resolve_and_validate
  resolve-ok host bypass net h = grind (arith, resolve_fresh-ok, resolve_cached-ok)

  -- Every answer, be it cached or fresh, is of at least one address, and the policy of the call
  -- authorises each of them.
  pub resolve_and_validate-IsAuthorised :
      (host : String) (bypass_cache : Bool) (net : Net F) {ips : List String}
      → (resolve_and_validate web policy now host bypass_cache net).0 ≡ ok ips
      → (ips ≢ []) × All (IsAuthorised web policy) ips
  resolve_and_validate-IsAuthorised host bypass net {ips} h =
      (validate_resolved_ips_lem web policy ips).0 (resolve-ok host bypass net h)

  -- With the cache bypassed the answer is what this very lookup gives, checked; the cache is left alone
  -- and no request is made.
  pub resolve_bypass :
      (host : String) (net : Net F) (infos : List String)
      → web.getaddrinfo net.lookups host ≡ some infos
      → resolve_and_validate web policy now host true net ≡ (
        (validate_resolved_ips web (fromkeys infos) policy >> ok (fromkeys infos)),
        record net { lookups = net.lookups + 1 },
      )
  unfolding resolve_and_validate resolve_fresh
  resolve_bypass host net infos h = ground arith

  -- Each cached answer is what some lookup of that host gave.
  abbrev Traced : Net F → Type 0
  Traced net =
      (host : String) (ips : List String) (at : F)
      → lookup host net.cache ≡ some (ips, at)
      → (n : ℕ) × (n < net.lookups)
        × (infos : List String) × (web.getaddrinfo n host ≡ some infos)
        × (ips ≡ fromkeys infos)

  pub record IsHistory (net : Net F) : Type 0 where
    pub past : Traced net

  later :
      (net : Net F) (host : String) (ips : List String)
      → ((n : ℕ) × (n < net.lookups)
          × (infos : List String) × (web.getaddrinfo n host ≡ some infos)
          × (ips ≡ fromkeys infos))
      → (n : ℕ) × (n < net.lookups + 1)
        × (infos : List String) × (web.getaddrinfo n host ≡ some infos)
        × (ips ≡ fromkeys infos)
  later net host ips (n, below, infos, e, k) = (n, omega arith, infos, e, k)

  Traced-insert :
      (host : String) (net : Net F) (infos : List String)
      → web.getaddrinfo net.lookups host ≡ some infos
      → Traced net
      → Traced record net {
        lookups = net.lookups + 1;
        cache = insert host (fromkeys infos, now) net.cache;
      }
  Traced-insert host net infos e h host' ips at k = elim (Bool-cases (same host' host)) [
    | inl it ↦
        let ips_eq : ips ≡ fromkeys infos =
          ground (arith, lookup-insert host' host (fromkeys infos, now) net.cache) in
        (
          net.lookups,
          omega arith,
          infos,
          ap (web.getaddrinfo net.lookups) (same→eq host' host it) ∙ e,
          ips_eq,
        )
    | inr other ↦
        later net host' ips (
          h host' ips at (ground (arith, lookup-insert host' host (fromkeys infos, now) net.cache)))
  ]

  resolve_fresh-Traced :
      (host : String) (bypass_cache : Bool) (net : Net F)
      → Traced net
      → Traced (resolve_fresh web policy now host bypass_cache net).1
  unfolding resolve_fresh
  resolve_fresh-Traced host bypass net h = elim (Option-cases (web.getaddrinfo net.lookups host)) [
    | inl fail ↦ rw (fail, resolve_fresh) (λ host' ips at k. later net host' ips (h host' ips at k))
    | inr (infos, found) ↦ elim (Result-cases (validate_resolved_ips web (fromkeys infos) policy)) [
      | inl good ↦ elim (Bool-cases bypass) [
        | inl skip ↦
            rw (found, resolve_fresh, good, skip)
              (λ host' ips at k. later net host' ips (h host' ips at k))
        | inr keep ↦ rw (found, resolve_fresh, good, keep) (Traced-insert host net infos found h)
      ]
      | inr (e, bad) ↦
          rw (found, resolve_fresh, bad) (λ host' ips at k. later net host' ips (h host' ips at k))
    ]
  ]

  resolve_cached-Traced :
      (host : String) (ips : List String) (net : Net F)
      → Traced net
      → Traced (resolve_cached web policy now host ips net).1
  unfolding resolve_cached
  resolve_cached-Traced host ips net h =
      elim (Result-cases (validate_resolved_ips web ips policy)) [
        | inl good ↦ rw (good, resolve_cached) h
        | inr (e, bad) ↦
            rw (bad, resolve_cached)
              (λ host' ips' at k.
                h host' ips' at (ground (arith, lookup-erase host' host net.cache)))
      ]

  resolve-Traced :
      (host : String) (bypass_cache : Bool) (net : Net F)
      → Traced net
      → Traced (resolve_and_validate web policy now host bypass_cache net).1
  unfolding resolve_and_validate
  resolve-Traced host true net h = resolve_fresh-Traced host true net h
  resolve-Traced host false net h = elim (Option-cases (lookup host net.cache)) [
    | inl absent ↦ rw (absent, resolve_and_validate) (resolve_fresh-Traced host false net h)
    | inr ((ips, at), hit) ↦ elim (Bool-cases (less (minus now at) (num 30 1))) [
      | inl young ↦ rw (hit, resolve_and_validate, young) (resolve_cached-Traced host ips net h)
      | inr old ↦ rw (hit, resolve_and_validate, old) (resolve_fresh-Traced host false net h)
    ]
  ]

  -- The cache keeps this through every call, whichever host, policy and mode it has: each cached answer
  -- is what some lookup of that host gave.
  pub resolve_and_validate-IsHistory :
      (host : String) (bypass_cache : Bool) (net : Net F)
      → IsHistory net
      → IsHistory (resolve_and_validate web policy now host bypass_cache net).1
  resolve_and_validate-IsHistory host bypass net h = record {
    past = resolve-Traced host bypass net h.past;
  }
