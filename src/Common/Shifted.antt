-- ===== src/Common/Shifted.antt =====
-- Signed numbers in thousandths, for the tests: the number 0 stands at one million, so that negative
-- numbers have their place below it; an instance of Common/Float. The tests that use it take no roots.
use Prim.Native.Nat.{ℕ, ◌+◌, ◌-◌, ◌*◌, ◌/◌}
use mathlib.Core.Bool.{true}
use ibvap.Common.Tests.{ltb, leb, ◌==◌, if◌then◌else◌}
use ibvap.Common.Float.{Float}

abbrev origin : ℕ
origin = 1000000

-- The number of so many thousandths.
abbrev pub above : ℕ → ℕ
above n = n + origin

abbrev product : ℕ → ℕ → ℕ
product a b = (a * b + origin * origin + 1000 * origin - origin * (a + b)) / 1000

abbrev quotient : ℕ → ℕ → ℕ
quotient a b =
    if leb origin a
    then above ((a - origin) * 1000 / (b - origin))
    else origin - (origin - a) * 1000 / (b - origin)

instance abbrev pub shifted : Float ℕ
shifted = record {
  add = λ a b. a + b - origin;
  sub = λ a b. a + origin - b;
  mul = product;
  div = quotient;
  lt = ltb;
  le = leb;
  eq = λ a b. a == b;
  square = λ a. product a a;
  root = λ a. a;
  hypot = λ a b. a;
  finite = λ a. true;
  lit = λ n d. above (n * 1000 / d);
}
