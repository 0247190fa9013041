-- ===== src/Auth.antt =====
-- The guard of the routes that change state: `require_api_token` (src/ibvap/api/auth.py). The request's
-- headers and the token of the environment are arguments.
use text.Mathlib.Text.{starts_with}
use ibvap.Common.{
  ℕ, ◌≡◌, ◌↔◌, refl, sym, ap, ◌∙◌, Bool, true, false, not, ◌&&◌, Option, none, some, String,
  if◌then◌else◌, same, same_self, same→eq, string_key, arith, Bool-cases, inl, inr,
}
use ibvap.Common.Texts.{is_text, or_empty, or_else, drop_chars}
mod Tests

-- `str.strip`, `str.lower` and `hmac.compare_digest`, which raises TypeError where it answers none.
pub record Platform : Type 0 where
  pub strip : String → String
  pub lower : String → String
  pub is_ascii : String → Bool
  pub compare_digest : String → String → Option Bool

pub data Outcome : Type 0 where
  admitted : Outcome
  unauthorized : Outcome
  type_error : Outcome

module _ (py : Platform) where
  -- The token of the header, or else the one of a bearer authorization.
  unfoldable pub provided_token : Option String → String → String
  provided_token x_api_token auth =
      or_else (py.strip (or_empty x_api_token))
        (if starts_with (py.lower auth) "bearer " then py.strip (drop_chars 7 auth) else "")

  unfoldable pub require_api_token : String → Option String → String → Outcome
  require_api_token expected x_api_token auth =
      let provided = provided_token x_api_token auth in
      if not (is_text expected && is_text provided)
      then unauthorized
      else elim (py.compare_digest provided expected) [
        | none ↦ type_error
        | some true ↦ admitted
        | some false ↦ unauthorized
      ]

  module _
      (digest : (a b : String)
        → py.compare_digest a b
          ≡ (if py.is_ascii a && py.is_ascii b then some (same a b) else none)) where
    -- Where the comparison is that of ASCII texts: a request is admitted exactly if a token is configured,
    -- it is ASCII, and the request provides it. Without a configured token no request is.
    pub require_api_token-admitted :
        (expected : String) (x_api_token : Option String) (auth : String)
        → (require_api_token expected x_api_token auth ≡ admitted) ↔ (
            (is_text expected ≡ true)
            × (py.is_ascii expected ≡ true)
            × (provided_token x_api_token auth ≡ expected))
    unfolding require_api_token
    require_api_token-admitted expected x auth =
        let p = provided_token x auth in
        (
          λ h. ground (arith, digest p expected, same→eq p expected),
          λ (t, a, e).
              let same_text : same p expected ≡ true =
                ap (λ q. same q expected) e ∙ same_self expected in
              let text_p : is_text p ≡ true = ap is_text e ∙ t in
              let ascii_p : py.is_ascii p ≡ true = ap py.is_ascii e ∙ a in
              ground (arith, digest p expected),
        )
