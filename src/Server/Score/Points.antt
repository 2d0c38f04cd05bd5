-- ===== src/Server/Score/Points.antt =====
-- The laws of the helpers of server/network_score.go that both scores use.
use Prim.Native.Nat.{◌^◌}
use mathlib.Core.Path.{subst}
use mesh_alot.Prelude.{ℕ, ◌-◌, ◌≤◌, ◌<◌, ◌≡◌, arith}
use mesh_alot.Prelude.Int.{pos}
use mesh_alot.Prelude.Float.{Float64, ◌≼◌, IsFinite, IsFloat64}
use mesh_alot.Server.Score.{clamp, decreasing_linear_score}

module _ {ℓ} {F : Type ℓ} ⦃f : Float64 F⦄ (laws : IsFloat64 F) where
  open f use {lit, lt, le, add, sub, mul, div, round, is_inf}
  open laws use {
    refl_of_le, le_trans, le_total, le_of_not_lt, le_of_lt, lit_finite, lit_mono, finite_of_le,
    mul_mono, mul_nonneg, div_mono, mul_lit_one, div_lit_self, div_lit_zero, sub_antitone,
    sub_nonneg, sub_lit,
  }

  -- A value that is not NaN is clamped into the interval.
  pub clamp_bounds : (v lo hi : F) → v ≼ v → lo ≼ hi → (lo ≼ clamp v lo hi) × (clamp v lo hi ≼ hi)
  unfolding clamp
  clamp_bounds v lo hi n h =
      ground (arith, refl_of_le lo hi h, le_of_not_lt v lo n, le_of_not_lt hi v)

  pub clamp_mono : (v w lo hi : F) → v ≼ w → lo ≼ hi → clamp v lo hi ≼ clamp w lo hi
  unfolding clamp
  clamp_mono v w lo hi h k = ground (
    arith,
    refl_of_le lo hi k,
    refl_of_le v w h,
    le_of_not_lt w lo,
    le_of_not_lt hi w,
    le_of_not_lt v lo,
    le_of_not_lt hi v,
    le_of_lt w lo,
    le_of_lt hi v,
    le_trans v w lo,
    le_trans hi v w,
    le_trans hi w lo,
  )

  -- A value between two whole numbers is finite.
  pub IsFinite-between :
      (v : F) (b w : ℕ) → b ≤ w → w ≤ 2 ^ 53 → lit (pos b) ≼ v → v ≼ lit (pos w) → IsFinite v
  IsFinite-between v b w h k p q = (
    (refl_of_le _ _ p).1,
    finite_of_le v (lit (pos w)) (le_trans _ _ _ (lit_mono 0 b (omega arith) (omega arith)) p) q
        (lit_finite w k).1,
  )

  module _ (b w p : ℕ) (wide : b < w) (small : w ≤ 2 ^ 53) (fits : p ≤ 2 ^ 53) where
    abbrev fraction : F → F
    fraction v = div (sub (lit (pos w)) v) (lit (pos (w - b)))

    fraction_antitone : (u v : F) → IsFinite u → IsFinite v → u ≼ v → fraction v ≼ fraction u
    fraction_antitone u v fu fv h =
        div_mono _ _ (w - b) (sub_antitone _ u v (lit_finite w small) fu fv h) (omega arith)
          (omega arith)

    fraction_top : div (sub (lit (pos w)) (lit (pos w))) (lit (pos (w - b))) ≡ lit (pos 0)
    fraction_top =
        let e : w - w ≡ 0 = omega arith in
        rw (sub_lit w w (omega arith) small, e) (div_lit_zero (w - b) (omega arith) (omega arith))

    fraction_bottom : div (sub (lit (pos w)) (lit (pos b))) (lit (pos (w - b))) ≡ lit (pos 1)
    fraction_bottom =
        rw (sub_lit b w (omega arith) small) (div_lit_self (w - b) (omega arith) (omega arith))

    fraction_bounds :
        (v : F)
        → lit (pos b) ≼ v
        → v ≼ lit (pos w)
        → (lit (pos 0) ≼ fraction v) × (fraction v ≼ lit (pos 1))
    fraction_bounds v h k =
        let fv = IsFinite-between v b w (omega arith) small h k in
        let fw = lit_finite w small in
        let fb = lit_finite b (omega arith) in
        (
          rw (← fraction_top) (fraction_antitone v (lit (pos w)) fv fw k),
          rw (← fraction_bottom) (fraction_antitone (lit (pos b)) v fb fv h),
        )

    scaled_bounds :
        (v : F)
        → lit (pos b) ≼ v
        → v ≼ lit (pos w)
        → (lit (pos 0) ≼ mul (lit (pos p)) (fraction v))
          × (mul (lit (pos p)) (fraction v) ≼ lit (pos p))
    scaled_bounds v h k =
        let (low, high) = fraction_bounds v h k in
        let fp = lit_finite p fits in
        let one = lit_finite 1 (omega arith) in
        let zero_p = lit_mono 0 p (omega arith) fits in
        (
          mul_nonneg _ _ zero_p low fp.1 (finite_of_le _ _ low high one.1),
          subst (λ t. mul (lit (pos p)) (fraction v) ≼ t) (mul_lit_one p fits)
              (mul_mono _ _ _ _ zero_p fp.0 low high fp.1 one.1),
        )

    -- The points lie between 0 and the most that the measurement can give.
    pub linear_bounds :
        (v : F)
        → v ≼ v
        → let s = decreasing_linear_score v (lit (pos b)) (lit (pos w)) (lit (pos p)) in
          (lit (pos 0) ≼ s) × (s ≼ lit (pos p))
    unfolding decreasing_linear_score
    linear_bounds v n = rw (sub_lit b w (omega arith) small) (
        ground (
          arith,
          scaled_bounds v,
          le_total v (lit (pos b)) n (lit_finite b (omega arith)).0,
          le_total v (lit (pos w)) n (lit_finite w small).0,
          lit_mono 0 p (omega arith) fits,
          lit_finite p fits,
          lit_finite 0 (omega arith),
        ))

    scaled_antitone :
        (u v : F)
        → lit (pos b) ≼ u
        → u ≼ v
        → v ≼ lit (pos w)
        → mul (lit (pos p)) (fraction v) ≼ mul (lit (pos p)) (fraction u)
    scaled_antitone u v h m k =
        let hv = le_trans _ _ _ h m in
        let ku = le_trans _ _ _ m k in
        let fv = IsFinite-between v b w (omega arith) small hv k in
        let fu = IsFinite-between u b w (omega arith) small h ku in
        let (low, high) = fraction_bounds v hv k in
        let (low', high') = fraction_bounds u h ku in
        let fp = lit_finite p fits in
        mul_mono _ _ _ _ (lit_mono 0 p (omega arith) fits) fp.0 low (fraction_antitone u v fu fv m)
          fp.1 (finite_of_le _ _ low' high' (lit_finite 1 (omega arith)).1)

    -- A larger value never gives more points.
    pub linear_antitone :
        (u v : F)
        → u ≼ v
        → decreasing_linear_score v (lit (pos b)) (lit (pos w)) (lit (pos p))
          ≼ decreasing_linear_score u (lit (pos b)) (lit (pos w)) (lit (pos p))
    unfolding decreasing_linear_score
    linear_antitone u v h =
        let (nu, nv) = refl_of_le u v h in
        rw (sub_lit b w (omega arith) small) (
          ground (
            arith,
            scaled_antitone u v,
            scaled_bounds u,
            scaled_bounds v,
            le_total u (lit (pos b)) nu (lit_finite b (omega arith)).0,
            le_total u (lit (pos w)) nu (lit_finite w small).0,
            le_total v (lit (pos b)) nv (lit_finite b (omega arith)).0,
            le_total v (lit (pos w)) nv (lit_finite w small).0,
            le_trans u v (lit (pos b)) h,
            le_trans (lit (pos w)) u v,
            lit_mono 0 p (omega arith) fits,
            lit_finite p fits,
            lit_finite 0 (omega arith),
          ))
