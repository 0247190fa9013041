-- ===== src/Common/Milli.antt =====
-- Numbers in thousandths, for the tests: natural numbers as an instance of Common/Float, where
-- quotients are rounded down and differences stop at 0.
use Prim.Native.Nat.{ℕ, zero, suc, ◌+◌, ◌-◌, ◌*◌, ◌/◌}
use mathlib.Core.Bool.{true}
use native.Mathlib.Omega.{arith}
use ibvap.Common.Tests.{ltb, leb, ◌==◌, if◌then◌else◌}
use ibvap.Common.Float.{Float, IsOrder}

-- The largest number up to `k` whose square is at most `n`.
abbrev root_below : ℕ → ℕ → ℕ
root_below n zero = 0
root_below n (suc k) = let r = root_below n k in if leb (suc k * suc k) n then suc k else r

instance abbrev pub milli : Float ℕ
milli = record {
  add = λ a b. a + b;
  sub = λ a b. a - b;
  mul = λ a b. a * b / 1000;
  div = λ a b. a * 1000 / b;
  lt = ltb;
  le = leb;
  eq = λ a b. a == b;
  square = λ a. a * a / 1000;
  root = λ a. root_below (a * 1000) 1500;
  hypot = λ a b. root_below (a * a + b * b) 1500;
  finite = λ a. true;
  lit = λ n d. n * 1000 / d;
}

pub milli-IsOrder : IsOrder milli
milli-IsOrder = record { irrefl = λ a. ground arith; trans = λ a b c h k. ground arith }
