-- ===== src/Prelude/Float/Grid.antt =====
-- The laws of `IsFloat64` can be met: numbers in thousandths, cut off at 0, with `none` for NaN.
use mathlib.Core.Path.{◌≡◌}
use mathlib.Core.Bool.{Bool, true, false}
use mathlib.Core.Option.{Option, none, some}
use native.Mathlib.Omega.{arith}
use native.Mathlib.Nat.{
  mul-le-mul, add-div_right, mul-div-mul_right, le-div_iff_mul-le, div-mul-le_self, le_trans,
  mul-div_right, zero-div,
}
use mathlib.Core.Path.{ap}
use Prim.Native.Nat.{ℕ, ◌+◌, ◌-◌, ◌*◌, ◌/◌, ◌≤◌, ◌<◌}
use mesh_alot.Prelude.Tests.{ltb, leb}
use mesh_alot.Prelude.Int.{ℤ, pos, pos_part}
use mesh_alot.Prelude.Float.Defs.{Float64, IsFloat64}

abbrev pub Thousandths : Type 0
Thousandths = Option ℕ

abbrev pub lift : (ℕ → ℕ → ℕ) → Thousandths → Thousandths → Thousandths
lift op (some a) (some b) = some (op a b)
lift op _ _ = none

abbrev pub test : (ℕ → ℕ → Bool) → Thousandths → Thousandths → Bool
test op (some a) (some b) = op a b
test op _ _ = false

abbrev pub is_none : Thousandths → Bool
is_none none = true
is_none (some a) = false

abbrev pub rounded : Thousandths → ℤ
rounded none = pos 0
rounded (some a) = pos ((a + 500) / 1000)

abbrev pub truncated : Thousandths → ℤ
truncated none = pos 0
truncated (some a) = pos (a / 1000)

instance abbrev pub thousandths_float : Float64 Thousandths
thousandths_float = record {
  lit = λ n. some (pos_part n * 1000);
  lt = test ltb;
  le = test leb;
  add = lift ◌+◌;
  sub = lift ◌-◌;
  mul = lift (λ a b. a * b / 1000);
  div = lift (λ a b. a * 1000 / b);
  abs = λ a. a;
  sqrt = λ a. a;
  is_nan = is_none;
  is_inf = λ a. false;
  round = rounded;
  truncate = truncated;
}

div-le-div : (x y m : ℕ) → x ≤ y → 0 < m → x / m ≤ y / m
div-le-div x y m h p = (le-div_iff_mul-le p).1 (le_trans (div-mul-le_self x m) h)

mul_le : (a b c d : ℕ) → a ≤ b → c ≤ d → a * c / 1000 ≤ b * d / 1000
mul_le a b c d p q = div-le-div (a * c) (b * d) 1000 (mul-le-mul p q) (omega arith)

lift_mul_mono :
    (a b c d : Thousandths)
    → test leb a b ≡ true
    → test leb c d ≡ true
    → test leb (lift (λ x y. x * y / 1000) a c) (lift (λ x y. x * y / 1000) b d) ≡ true
lift_mul_mono (some a) (some b) (some c) (some d) p q = ground (arith, mul_le a b c d)
lift_mul_mono (some a) (some b) (some c) none p q = ground arith
lift_mul_mono (some a) (some b) none d p q = ground arith
lift_mul_mono (some a) none c d p q = ground arith
lift_mul_mono none b c d p q = ground arith

lift_div_mono :
    (a b : Thousandths) (n : ℕ)
    → test leb a b ≡ true
    → 0 < n
    → test leb
        (lift (λ x y. x * 1000 / y) a (some (n * 1000)))
        (lift (λ x y. x * 1000 / y) b (some (n * 1000)))
      ≡ true
lift_div_mono (some a) (some b) n p h =
    ground (arith, div-le-div (a * 1000) (b * 1000) (n * 1000) (ground arith) (omega arith))
lift_div_mono (some a) none n p h = ground arith
lift_div_mono none b n p h = ground arith

div_self : (n : ℕ) → 0 < n → n * 1000 * 1000 / (n * 1000) ≡ 1000
div_self n h = mul-div_right 1000 (omega arith)

div_le_one : (a c : ℕ) → a ≤ c → 0 < c → a * 1000 / c ≤ 1000
div_le_one a c h p =
    let e : c * 1000 / c ≡ 1000 = mul-div_right 1000 p in
    omega (arith, e, div-le-div (a * 1000) (c * 1000) c (omega arith) p)

lifted_div_le_one :
    (a c : Thousandths)
    → test leb a c ≡ true
    → false ≡ false
    → test ltb (some 0) c ≡ true
    → test leb (lift (λ x y. x * 1000 / y) a c) (some 1000) ≡ true
lifted_div_le_one (some a) (some c) h _ p = ground (arith, div_le_one a c)
lifted_div_le_one (some a) none h _ p = ground arith
lifted_div_le_one none c h _ p = ground arith

-- A divisor of at most 1000 leaves the quotients apart.
div_lt : (m n k : ℕ) → m < n → 0 < k → k ≤ 1000 → m * 1000 / k < n * 1000 / k
div_lt m n k h p q =
    omega
      (arith, add-div_right (m * 1000) p, div-le-div (m * 1000 + k) (n * 1000) k (omega arith) p)

scale_div : (m k : ℕ) → 0 < k → m * 1000 * 1000 / (k * 1000) ≡ m * 1000 / k
scale_div m k h = mul-div-mul_right (m * 1000) k (omega arith)

pub Thousandths-IsFloat64 : IsFloat64 Thousandths
Thousandths-IsFloat64 = record {
  refl_of_le = ground arith;
  le_trans = ground arith;
  le_total = ground arith;
  le_of_not_lt = ground arith;
  le_of_lt = ground arith;
  lit_finite = ground arith;
  lit_mono = ground arith;
  finite_of_le = ground arith;
  add_mono = ground arith;
  add_nonneg = ground arith;
  mul_mono = λ a b c d _ p _ q _ _. lift_mul_mono a b c d p q;
  mul_nonneg = ground arith;
  div_mono = λ a b n p h _. lift_div_mono a b n p h;
  mul_lit_one = ground arith;
  div_lit_self = λ n h _. ap some (div_self n h);
  div_lit_zero = λ n _ _. ap some (zero-div (n * 1000));
  sub_antitone = ground arith;
  sub_nonneg = ground arith;
  sub_lit = ground arith;
  round_mono = ground arith;
  round_lit = ground arith;
  add_lit = ground arith;
  sub_zero = ground arith;
  sub_pos = ground arith;
  div_nonneg = ground arith;
  div_le_one = lifted_div_le_one;
  div_lit_finite = ground arith;
  not_nan = ground arith;
  mul_one_lit = ground arith;
  div_lit_lt =
      λ m n k h _ p q. rw (scale_div m k p, scale_div n k p) (ground (arith, div_lt m n k h p q));
}
