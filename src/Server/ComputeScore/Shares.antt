-- ===== src/Server/ComputeScore/Shares.antt =====
-- The five parts of `CalculateComputeScore` in server/compute_score.go: each lies between 0 and its
-- share of the hundred points.
use mathlib.Core.Path.{subst}
use Prim.Native.Nat.{◌^◌}
use mesh_alot.Prelude.{ℕ, ◌≤◌, ◌<◌, true, ◌≡◌, arith}
use mesh_alot.Prelude.Int.{pos}
use mesh_alot.Prelude.Float.{Float64, ◌≼◌, IsFinite, IsFloat64}
use mesh_alot.Server.Score.{clamp01, decreasing_linear_score}
use mesh_alot.Server.Score.Points.{clamp_bounds, linear_bounds}
use mesh_alot.Server.ComputeScore.{
  stable_cv, poor_cv, scale_points, ttft_points_of, stability_points_of, success_points_of,
}

-- At least 0 and at most a whole number of points.
abbrev pub IsShare {ℓ} : {F : Type ℓ} ⦃f : Float64 F⦄ → ℕ → F → Type 0
IsShare ⦃f⦄ p x = (f.lit (pos 0) ≼ x) × (x ≼ f.lit (pos p))

module _ {ℓ} {F : Type ℓ} ⦃f : Float64 F⦄ (laws : IsFloat64 F) where
  open f use {lit, lt, le, sub, mul, div, is_inf}
  open laws use {
    refl_of_le, le_trans, le_total, lit_finite, lit_mono, finite_of_le, mul_mono, mul_nonneg,
    div_mono, mul_lit_one, div_lit_self, sub_antitone, sub_nonneg, sub_zero, sub_pos, div_nonneg,
    div_le_one, div_lit_finite, div_lit_lt, div_lit_zero,
  }

  -- A share of at most 100 points times a part of the whole.
  scaled-IsShare : (p : ℕ) (x : F) → p ≤ 100 → IsShare 1 x → IsShare p (mul (lit (pos p)) x)
  scaled-IsShare p x h (low, high) =
      let zero_p = lit_mono 0 p (omega arith) (omega arith) in
      let fp = lit_finite p (omega arith) in
      let one = lit_finite 1 (omega arith) in
      (
        mul_nonneg _ _ zero_p low fp.1 (finite_of_le _ _ low high one.1),
        subst (λ t. mul (lit (pos p)) x ≼ t) (mul_lit_one p (omega arith))
            (mul_mono _ _ _ _ zero_p fp.0 low high fp.1 one.1),
      )

  pub scale_points-IsShare :
      (p : ℕ) (v : F) (full : ℕ)
      → p ≤ 100
      → 0 < full
      → full ≤ 1000
      → v ≼ v
      → IsShare p (scale_points p v full)
  unfolding scale_points clamp01
  scale_points-IsShare p v full h k b n = scaled-IsShare p _ h (
      clamp_bounds laws _ _ _ (div_mono v v full n k (omega arith))
        (lit_mono 0 1 (omega arith) (omega arith)))

  pub ttft_points_of-IsShare : (v : F) → v ≼ v → IsShare 15 (ttft_points_of v)
  unfolding ttft_points_of
  ttft_points_of-IsShare v n =
      linear_bounds laws 100 5000 15 (omega arith) (omega arith) (omega arith) v n

  pub success_points_of-IsShare :
      (s t : ℕ) → s ≤ t → 0 < t → t ≤ 2 ^ 53 → IsShare 10 (success_points_of {F = F} s t)
  unfolding success_points_of
  success_points_of-IsShare s t h p b =
      scaled-IsShare 10 (div (lit (pos s)) (lit (pos t))) (omega arith) (
        subst (λ z. z ≼ div (lit (pos s)) (lit (pos t))) (div_lit_zero t p b)
            (div_mono _ _ t (lit_mono 0 s (omega arith) (omega arith)) p b),
        subst (λ z. div (lit (pos s)) (lit (pos t)) ≼ z) (div_lit_self t p b)
            (div_mono _ _ t (lit_mono s t h b) p b),
      )

  -- The part of the way from `worst` to `best`, for bounds that need not be whole numbers.
  fraction-IsShare :
      (v best worst : F)
      → lit (pos 0) ≼ best
      → IsFinite best
      → IsFinite worst
      → lt best worst ≡ true
      → best ≼ v
      → v ≼ worst
      → IsShare 1 (div (sub worst v) (sub worst best))
  fraction-IsShare v best worst nonneg fb fw apart h k =
      let fv : IsFinite v =
        ((refl_of_le _ _ h).1, finite_of_le v worst (le_trans _ _ _ nonneg h) k fw.1) in
      let f0 = lit_finite 0 (omega arith) in
      let width = sub_pos best worst fb fw apart in
      let nearer = sub_antitone worst best v fw fb fv h in
      let whole =
        subst (λ z. sub worst best ≼ z) (sub_zero worst fw)
          (sub_antitone worst (lit (pos 0)) best fw f0 fb nonneg) in
      let start = sub_nonneg worst v fw fv k in
      let finite_width = finite_of_le _ _ (le_trans _ _ _ start nearer) whole fw.1 in
      (
        div_nonneg _ _ start (finite_of_le _ _ start nearer finite_width) width,
        div_le_one _ _ nearer finite_width width,
      )

  cv_score-IsShare :
      (v : F) → v ≼ v → IsShare 15 (decreasing_linear_score v stable_cv poor_cv (lit (pos 15)))
  unfolding decreasing_linear_score
  cv_score-IsShare v n =
      let fb = div_lit_finite 5 100 (omega arith) (omega arith) (omega arith) in
      let fw = div_lit_finite 30 100 (omega arith) (omega arith) (omega arith) in
      let nonneg =
        subst (λ z. z ≼ stable_cv) (div_lit_zero 100 (omega arith) (omega arith))
          (div_mono _ _ 100 (lit_mono 0 5 (omega arith) (omega arith)) (omega arith)
            (omega arith)) in
      let part : stable_cv ≼ v
          → v ≼ poor_cv
          → IsShare 1 (div (sub poor_cv v) (sub poor_cv stable_cv)) =
        fraction-IsShare v stable_cv poor_cv nonneg fb fw
          (div_lit_lt 5 30 100 (omega arith) (omega arith) (omega arith) (omega arith)) in
      let share : stable_cv ≼ v
          → v ≼ poor_cv
          → IsShare 15 (mul (lit (pos 15)) (div (sub poor_cv v) (sub poor_cv stable_cv))) =
        λ h k. scaled-IsShare 15 _ (omega arith) (part h k) in
      ground (
        arith,
        share,
        le_total v stable_cv n fb.0,
        le_total v poor_cv n fw.0,
        lit_mono 0 15 (omega arith) (omega arith),
        lit_finite 15 (omega arith),
        lit_finite 0 (omega arith),
      )

  pub stability_points_of-IsShare :
      (s : ℕ) (cv : F) → cv ≼ cv → IsShare 15 (stability_points_of s cv)
  unfolding stability_points_of
  stability_points_of-IsShare s cv n = ground (
    arith,
    cv_score-IsShare cv n,
    lit_mono 0 15 (omega arith) (omega arith),
    lit_finite 0 (omega arith),
  )
