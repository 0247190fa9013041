-- ===== src/Common/Float.antt =====
-- Floating-point numbers, which the platform supplies: a type with the operations that the source
-- uses. Nothing is assumed of them here; the laws that a theorem needs are its hypotheses.
-- `min` and `max` are Python's, which keep the first of two values that neither order separates.
use ibvap.Common.Tests.{if◌then◌else◌}
use Prim.Native.Nat.{ℕ}
use mathlib.Core.Bool.{Bool, true, false}
use mathlib.Core.Path.{◌≡◌}

pub record Float (F : Type 0) : Type 0 where
  pub add : F → F → F
  pub sub : F → F → F
  pub mul : F → F → F
  pub div : F → F → F
  pub lt : F → F → Bool
  pub le : F → F → Bool
  pub eq : F → F → Bool
  -- `** 2`, `** 0.5` and `math.hypot`
  pub square : F → F
  pub root : F → F
  pub hypot : F → F → F
  pub finite : F → Bool
  -- The decimal literal `n / d`.
  pub lit : ℕ → ℕ → F

module _ {F : Type 0} ⦃f : Float F⦄ where
  abbrev pub plus : F → F → F
  plus = f.add

  abbrev pub minus : F → F → F
  minus = f.sub

  abbrev pub times : F → F → F
  times = f.mul

  abbrev pub over : F → F → F
  over = f.div

  abbrev pub less : F → F → Bool
  less = f.lt

  abbrev pub at_most : F → F → Bool
  at_most = f.le

  abbrev pub num : ℕ → ℕ → F
  num = f.lit

  -- `max(a, b)` and `min(a, b)`
  abbrev pub larger : F → F → F
  larger a b = if less a b then b else a

  abbrev pub smaller : F → F → F
  smaller a b = if less b a then b else a

-- The laws of `<` that hold of all numbers, NaN among them.
pub record IsOrder {F : Type 0} (f : Float F) : Type 0 where
  pub irrefl : (a : F) → f.lt a a ≡ false
  pub trans : (a b c : F) → f.lt a b ≡ true → f.lt b c ≡ true → f.lt a c ≡ true
