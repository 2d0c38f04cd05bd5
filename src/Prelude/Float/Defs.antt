-- ===== src/Prelude/Float/Defs.antt =====
-- The operations on `float64`, and their laws.
use mathlib.Core.Path.{◌≡◌}
use mathlib.Core.Bool.{Bool, true, false}
use mathlib.Core.Logic.{◌⊎◌}
use Prim.Native.Nat.{ℕ, ◌+◌, ◌-◌, ◌≤◌, ◌<◌, ◌^◌}
use mesh_alot.Prelude.Int.{ℤ, pos, ◌≤ℤ◌}

pub record Float64 {ℓ} (F : Type ℓ) : Type ℓ where
  -- A whole number: a constant, or `float64(n)`.
  pub lit : ℤ → F
  pub lt : F → F → Bool
  pub le : F → F → Bool
  pub add : F → F → F
  pub sub : F → F → F
  pub mul : F → F → F
  pub div : F → F → F
  pub abs : F → F
  pub sqrt : F → F
  pub is_nan : F → Bool
  pub is_inf : F → Bool
  -- `int(math.Round(x))`
  pub round : F → ℤ
  -- `int(x)`, which drops the fraction
  pub truncate : F → ℤ

infix 4 ◌≼◌
abbrev pub ◌≼◌ {ℓ} : {F : Type ℓ} ⦃f : Float64 F⦄ → F → F → Type 0
◌≼◌ ⦃f⦄ x y = f.le x y ≡ true

-- Neither NaN nor infinite.
abbrev pub IsFinite {ℓ} : {F : Type ℓ} ⦃f : Float64 F⦄ → F → Type 0
IsFinite ⦃f⦄ x = (x ≼ x) × (f.is_inf x ≡ false)

-- NaN is the value that is not `<=` itself; the order is total away from it, addition is monotone,
-- and so are multiplication, division and subtraction in the ranges stated, rounding included.
-- Whole numbers up to 2^53 are exact.
pub record IsFloat64 {ℓ} (F : Type ℓ) ⦃f : Float64 F⦄ : Type ℓ where
  pub refl_of_le : (x y : F) → x ≼ y → (x ≼ x) × (y ≼ y)
  pub le_trans : (x y z : F) → x ≼ y → y ≼ z → x ≼ z
  pub le_total : (x y : F) → x ≼ x → y ≼ y → (x ≼ y) ⊎ (y ≼ x)
  pub le_of_not_lt : (x y : F) → x ≼ x → y ≼ y → f.lt x y ≡ false → y ≼ x
  pub le_of_lt : (x y : F) → f.lt x y ≡ true → x ≼ y
  pub lit_finite : (n : ℕ) → n ≤ 2 ^ 53 → IsFinite (f.lit (pos n))
  pub lit_mono : (m n : ℕ) → m ≤ n → n ≤ 2 ^ 53 → f.lit (pos m) ≼ f.lit (pos n)
  pub finite_of_le : (x y : F) → f.lit (pos 0) ≼ x → x ≼ y → f.is_inf y ≡ false → f.is_inf x ≡ false
  pub add_mono :
      (a b c d : F) → f.lit (pos 0) ≼ a → a ≼ b → f.lit (pos 0) ≼ c → c ≼ d → f.add a c ≼ f.add b d
  pub add_nonneg : (a c : F) → f.lit (pos 0) ≼ a → f.lit (pos 0) ≼ c → f.lit (pos 0) ≼ f.add a c
  pub mul_mono :
      (a b c d : F)
      → f.lit (pos 0) ≼ a
      → a ≼ b
      → f.lit (pos 0) ≼ c
      → c ≼ d
      → f.is_inf b ≡ false
      → f.is_inf d ≡ false
      → f.mul a c ≼ f.mul b d
  pub mul_nonneg :
      (a c : F)
      → f.lit (pos 0) ≼ a
      → f.lit (pos 0) ≼ c
      → f.is_inf a ≡ false
      → f.is_inf c ≡ false
      → f.lit (pos 0) ≼ f.mul a c
  pub div_mono :
      (a b : F) (n : ℕ)
      → a ≼ b
      → 0 < n
      → n ≤ 2 ^ 53
      → f.div a (f.lit (pos n)) ≼ f.div b (f.lit (pos n))
  pub mul_lit_one : (n : ℕ) → n ≤ 2 ^ 53 → f.mul (f.lit (pos n)) (f.lit (pos 1)) ≡ f.lit (pos n)
  pub div_lit_self :
      (n : ℕ) → 0 < n → n ≤ 2 ^ 53 → f.div (f.lit (pos n)) (f.lit (pos n)) ≡ f.lit (pos 1)
  pub div_lit_zero :
      (n : ℕ) → 0 < n → n ≤ 2 ^ 53 → f.div (f.lit (pos 0)) (f.lit (pos n)) ≡ f.lit (pos 0)
  pub sub_antitone :
      (a b c : F) → IsFinite a → IsFinite b → IsFinite c → b ≼ c → f.sub a c ≼ f.sub a b
  pub sub_nonneg : (a b : F) → IsFinite a → IsFinite b → b ≼ a → f.lit (pos 0) ≼ f.sub a b
  pub sub_lit :
      (m n : ℕ) → m ≤ n → n ≤ 2 ^ 53 → f.sub (f.lit (pos n)) (f.lit (pos m)) ≡ f.lit (pos (n - m))
  pub round_mono :
      (a b : F) → a ≼ b → f.is_inf a ≡ false → f.is_inf b ≡ false → f.round a ≤ℤ f.round b
  pub round_lit : (n : ℕ) → n ≤ 2 ^ 53 → f.round (f.lit (pos n)) ≡ pos n
  pub add_lit :
      (m n : ℕ) → m + n ≤ 2 ^ 53 → f.add (f.lit (pos m)) (f.lit (pos n)) ≡ f.lit (pos (m + n))
  pub sub_zero : (a : F) → IsFinite a → f.sub a (f.lit (pos 0)) ≡ a
  pub sub_pos :
      (a b : F)
      → IsFinite a
      → IsFinite b
      → f.lt a b ≡ true
      → f.lt (f.lit (pos 0)) (f.sub b a) ≡ true
  pub div_nonneg :
      (a c : F)
      → f.lit (pos 0) ≼ a
      → f.is_inf a ≡ false
      → f.lt (f.lit (pos 0)) c ≡ true
      → f.lit (pos 0) ≼ f.div a c
  pub div_le_one :
      (a c : F)
      → a ≼ c
      → f.is_inf c ≡ false
      → f.lt (f.lit (pos 0)) c ≡ true
      → f.div a c ≼ f.lit (pos 1)
  pub div_lit_finite :
      (m k : ℕ) → m ≤ 2 ^ 53 → 0 < k → k ≤ 2 ^ 53 → IsFinite (f.div (f.lit (pos m)) (f.lit (pos k)))
  pub not_nan : (a : F) → a ≼ a → f.is_nan a ≡ false
  -- A small divisor keeps quotients apart.
  pub div_lit_lt :
      (m n k : ℕ)
      → m < n
      → n ≤ 2 ^ 50
      → 0 < k
      → k ≤ 1000
      → f.lt (f.div (f.lit (pos m)) (f.lit (pos k))) (f.div (f.lit (pos n)) (f.lit (pos k))) ≡ true
  pub mul_one_lit : (n : ℕ) → n ≤ 2 ^ 53 → f.mul (f.lit (pos 1)) (f.lit (pos n)) ≡ f.lit (pos n)
