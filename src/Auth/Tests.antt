-- ===== src/Auth/Tests.antt =====
-- Tokens in the header and in a bearer authorization (src/ibvap/api/auth.py).
use ibvap.Common.{◌≡◌, ◌↔◌, refl, true, none, some, same, string_key, string_eq?}
use ibvap.Common.Texts.{is_text}
use ibvap.Auth.{
  Platform, admitted, unauthorized, provided_token, require_api_token, require_api_token-admitted,
}

abbrev py : Platform
py = record {
  strip = λ t. t;
  lower = λ t. t;
  is_ascii = λ t. true;
  compare_digest = λ a b. some (same a b);
}

by_bearer : require_api_token py "k3y" none "bearer k3y" ≡ admitted
unfolding require_api_token provided_token string_eq?
by_bearer = refl

unconfigured : require_api_token py "" (some "k3y") "" ≡ unauthorized
unfolding require_api_token
unconfigured = refl

require_api_token-admitted_example : (require_api_token py "k3y" (some "k3y") "" ≡ admitted) ↔ (
    (is_text "k3y" ≡ true)
    × (py.is_ascii "k3y" ≡ true)
    × (provided_token py (some "k3y") "" ≡ "k3y"))
require_api_token-admitted_example =
    require_api_token-admitted py (λ a b. refl) "k3y" (some "k3y") ""
