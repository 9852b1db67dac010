-- ===== src/Prelude/Decimal.antt =====
-- A float type to run the model on: numbers from 0 up, in millionths. It is used by tests and
-- witnesses only.
use Prim.Native.Nat.{ℕ, ◌+◌, ◌-◌, ◌*◌, ◌/◌, ◌^◌, min, max}
use scalable_cross_platform.Prelude.Tests.{ltb, ◌==◌}
use scalable_cross_platform.Prelude.Float.{Float}

abbrev unit : ℕ
unit = 1000000

abbrev pub decimal : Float
decimal = record {
  F = ℕ;
  lit = λ n d. n * 10 ^ (6 - d);
  add = λ a b. a + b;
  sub = λ a b. a - b;
  mul = λ a b. a * b / unit;
  div = λ a b. a * unit / b;
  neg = λ a. 0;
  lt = ltb;
  eq = ◌==◌;
  abs = λ a. a;
  fmin = min;
  fmax = max;
  sqrt = λ a. a;
  cos = λ a. a;
  sin = λ a. a;
  of_ℕ = λ n. n * unit;
  trunc = λ a. a / unit;
  bits = λ a. a;
}
