-- ===== src/Ssrf/Checks.antt =====
-- What the checks of addresses and endpoints let through (core/ssrf.py).
use ibvap.Common.{
  ℕ, ◌≡◌, ◌≢◌, ◌↔◌, refl, Bool, true, false, not, Option, none, some, List, [], ◌∷◌, String,
  contains, any, All, nat_key, string_key, arith, Bool-cases, inl, inr,
}
use ibvap.Common.Texts.{or_empty}
use ibvap.Ssrf.Defs.{
  Url, Result, ok, err, require, Web, SsrfPolicy, is_metadata_endpoint, ip_blocked,
  ip_allowed_by_site, is_special, host_allowed, effective_ports, check_address, check_addresses,
  validate_resolved_ips, ◌>>=◌, ◌>>◌,
}

-- A chain of checks that ends with a value has passed each of them.
module _ {B : Type 0} {b : B} where
  pub >>-ok :
      (check : Result (Unit {0})) (next : Result B)
      → (check >> next) ≡ ok b
      → (check ≡ ok tt) × (next ≡ ok b)
  >>-ok (err e) next h = cc
  >>-ok (ok tt) next h = (refl, h)

  pub >>=-ok :
      {A : Type 0} (first : Result A) (next : A → Result B)
      → (first >>= next) ≡ ok b
      → (a : A) × (first ≡ ok a) × (next a ≡ ok b)
  >>=-ok (err e) next h = cc
  >>=-ok (ok value) next h = (value, refl, h)

require-ok : (b : Bool) (code : String) → require b code ≡ ok tt → b ≡ true
require-ok true code h = refl
require-ok false code h = cc

module _ {A : Type 0} where
  any-false→All : (p : A → Bool) (xs : List A) → any p xs ≡ false → All (λ x. p x ≡ false) xs
  any-false→All p [] h = tt
  any-false→All p (x ∷ xs) h = elim (Bool-cases (p x)) [
    | inl yes' ↦ cc
    | inr no' ↦ (no', any-false→All p xs (ground arith))
  ]

  All→any-false : (p : A → Bool) (xs : List A) → All (λ x. p x ≡ false) xs → any p xs ≡ false
  All→any-false p [] h = refl
  All→any-false p (x ∷ xs) (h, k) = rw h (All→any-false p xs k)

module _ {Ip Cidr : Type 0} (web : Web Ip Cidr) (policy : SsrfPolicy Cidr) where
  -- The text of an address in no blocked network, and in a network of the site if it is private.
  abbrev pub IsAuthorised : String → Type 0
  IsAuthorised s =
      (ip : Ip) × (web.ip_address s ≡ some ip)
      × All (λ net. web.within ip net ≡ false) policy.blocked_nets
      × (web.is_private ip ≡ true → any (web.within ip) policy.site_cidr_allowlist ≡ true)

  check_address-IsAuthorised :
      (s : String) (o : Option Ip)
      → web.ip_address s ≡ o
      → check_address web policy o ≡ ok tt
      → IsAuthorised s
  unfolding check_address ip_blocked ip_allowed_by_site
  check_address-IsAuthorised s none e h = cc
  check_address-IsAuthorised s (some ip) e h =
      let parts = >>-ok (require (not (ip_blocked web ip policy)) "blocked_address") _ h in
      (
        ip,
        e,
        any-false→All (web.within ip) policy.blocked_nets (ground (arith, require-ok _ _ parts.0)),
        λ private. ground (arith, require-ok _ _ parts.1),
      )

  IsAuthorised-check_address :
      (s : String) → IsAuthorised s → check_address web policy (web.ip_address s) ≡ ok tt
  unfolding check_address ip_blocked ip_allowed_by_site
  IsAuthorised-check_address s (ip, e, free, site) =
      let open' = All→any-false (web.within ip) policy.blocked_nets free in
      rw (e, open')
        (elim (Bool-cases (web.is_private ip)) [
          | inl private ↦ rw (private, site private) refl
          | inr public ↦ rw public refl
        ])

  check_addresses-All :
      (ips : List String) → check_addresses web policy ips ≡ ok tt → All IsAuthorised ips
  unfolding check_addresses
  check_addresses-All [] h = tt
  check_addresses-All (s ∷ ips) h =
      let parts = >>-ok (check_address web policy (web.ip_address s)) _ h in
      (
        check_address-IsAuthorised s (web.ip_address s) refl parts.0,
        check_addresses-All ips parts.1,
      )

  All-check_addresses :
      (ips : List String) → All IsAuthorised ips → check_addresses web policy ips ≡ ok tt
  unfolding check_addresses
  All-check_addresses [] h = refl
  All-check_addresses (s ∷ ips) (h, k) =
      rw (IsAuthorised-check_address s h) (All-check_addresses ips k)

  -- The addresses pass exactly if there is one, and each is well formed, in no blocked network, and,
  -- where it is private, in a network that the site allows.
  pub validate_resolved_ips_lem :
      (ips : List String)
      → (validate_resolved_ips web ips policy ≡ ok tt) ↔ ((ips ≢ []) × All IsAuthorised ips)
  unfolding validate_resolved_ips
  validate_resolved_ips_lem [] = (λ h. cc, λ h. absurd (h.0 refl))
  validate_resolved_ips_lem (s ∷ ips) =
      (λ h. (λ e. cc, check_addresses-All (s ∷ ips) h), λ h. All-check_addresses (s ∷ ips) h.1)

  -- What a validated endpoint is, but for the parsing of the text.
  abbrev pub IsPermitted : Url → Type 0
  IsPermitted url =
      (contains (web.lower url.scheme) policy.allowed_schemes ≡ true)
      × (is_metadata_endpoint web (or_empty url.hostname) none ≡ false)
      × (host_allowed web (or_empty url.hostname) policy.allowed_hosts ≡ true)
      × ((ip : Ip)
          → web.ip_address (or_empty url.hostname) ≡ some ip
          → (is_special web ip ≡ false)
            × All (λ net. web.within ip net ≡ false) policy.blocked_nets)
      × ((port : ℕ)
          → url.port ≡ some (some port)
          → contains port (effective_ports web policy) ≡ true)
