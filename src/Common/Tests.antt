-- ===== src/Common/Tests.antt =====
-- Boolean tests on native numbers, the conditional, and equality of dictionary keys.
use Prim.Native.Nat.{ℕ, compare, Ordering}
use Prim.Native.String.{String}
use mathlib.Core.Path.{◌≡◌, refl}
use mathlib.Core.Logic.{◌≢◌, ◌⊎◌, inl, inr}
use mathlib.Core.Bool.{Bool, true, false}
use mathlib.Core.Option.{Option, none, some}
use native.Mathlib.Omega.{arith}
use native.Mathlib.Decide.{ℕ_discrete}
use text.Mathlib.Text.{◌==◌ as str_eq}
use text.Mathlib.TextEquality.{eq_iff}

abbrev pub ltb : ℕ → ℕ → Bool
ltb a b = elim (compare a b) [ Ordering.lt ↦ true | _ ↦ false ]

abbrev pub leb : ℕ → ℕ → Bool
leb a b = elim (compare a b) [ Ordering.gt ↦ false | _ ↦ true ]

infix 50 ◌==◌
abbrev pub ◌==◌ : ℕ → ℕ → Bool
a == b = elim (compare a b) [ Ordering.eq ↦ true | _ ↦ false ]

infix 1 if◌then◌else◌
abbrev pub if◌then◌else◌ {ℓ} : {A : Type ℓ} → Bool → A → A → A
if true then x else y = x
if false then x else y = y

-- To split on a computed value and keep the equation.
pub Bool-cases : (b : Bool) → (b ≡ true) ⊎ (b ≡ false)
Bool-cases true = inl refl
Bool-cases false = inr refl

pub Option-cases {ℓ} : {A : Type ℓ} (o : Option A) → (o ≡ none) ⊎ ((a : A) × (o ≡ some a))
Option-cases none = inl refl
Option-cases (some a) = inr (a, refl)

-- `x is not None` and the truth of an optional value.
abbrev pub is_some {ℓ} : {A : Type ℓ} → Option A → Bool
is_some none = false
is_some (some a) = true

-- Types whose values can be compared, as Python compares keys of a `dict`.
pub record Key {ℓ} (A : Type ℓ) : Type ℓ where
  pub eq? : (a b : A) → Dec (a ≡ b)

abbrev pub decides {ℓ} : {A : Type ℓ} → Dec A → Bool
decides (yes p) = true
decides (no p) = false

-- `a == b` on keys.
abbrev pub same {ℓ} : {A : Type ℓ} ⦃k : Key A⦄ → A → A → Bool
same ⦃k⦄ a b = decides (k.eq? a b)

pub str_ne : (a b : String) → str_eq a b ≡ false → a ≢ b
str_ne a b e p = ground (arith, (eq_iff a b).1 p)

unfoldable pub str_dec : (a b : String) → (c : Bool) → str_eq a b ≡ c → Dec (a ≡ b)
str_dec a b true e = yes ((eq_iff a b).0 e)
str_dec a b false e = no (str_ne a b e)

instance abbrev pub nat_key : Key ℕ
nat_key = record { eq? = ℕ_discrete }

unfoldable pub string_eq? : (a b : String) → Dec (a ≡ b)
unfolding str_dec
string_eq? a b = str_dec a b (str_eq a b) refl

instance abbrev pub string_key : Key String
string_key = record { eq? = string_eq? }

pub same_self {ℓ} : {A : Type ℓ} ⦃k : Key A⦄ (a : A) → same a a ≡ true
same_self ⦃k⦄ a = ground arith

pub same→eq {ℓ} : {A : Type ℓ} ⦃k : Key A⦄ (a b : A) → same a b ≡ true → a ≡ b
same→eq ⦃k⦄ a b h = ground arith
