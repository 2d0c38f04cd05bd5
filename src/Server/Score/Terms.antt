-- ===== src/Server/Score/Terms.antt =====
-- The terms of the sum in `CalculateNetworkScore` of server/network_score.go: each is at least 0,
-- and moves one way with its measurement.
use mathlib.Core.Path.{subst}
use mesh_alot.Prelude.{Bool, false, ◌≡◌, arith}
use mesh_alot.Prelude.Int.{pos}
use mesh_alot.Prelude.Float.{Float64, ◌≼◌, IsFinite, IsFloat64}
use mesh_alot.Server.Score.{
  clamp, clamp01, bandwidth_points, latency_points, jitter_points, loss_ratio, loss_points,
  family_points,
}
use mesh_alot.Server.Score.Points.{clamp_bounds, clamp_mono, linear_bounds, IsFinite-between}

module _ {ℓ} {F : Type ℓ} ⦃f : Float64 F⦄ (laws : IsFloat64 F) where
  open f use {lit, lt, le, add, sub, mul, div, round, is_inf}
  open laws use {
    refl_of_le, le_trans, lit_finite, lit_mono, finite_of_le, add_mono, add_nonneg, mul_mono,
    mul_nonneg, div_mono, div_lit_self, div_lit_zero, sub_antitone, sub_nonneg, sub_lit,
    mul_lit_one, round_mono, round_lit,
  }

  -- Bandwidth.
  clamp01_bounds : (v : F) → v ≼ v → (lit (pos 0) ≼ clamp01 v) × (clamp01 v ≼ lit (pos 1))
  unfolding clamp01
  clamp01_bounds v n =
      clamp_bounds laws v (lit (pos 0)) (lit (pos 1)) n (lit_mono 0 1 (omega arith) (omega arith))

  rate_num : (v : F) → v ≼ v → div v (lit (pos 1000)) ≼ div v (lit (pos 1000))
  rate_num v n = div_mono v v 1000 n (omega arith) (omega arith)

  is_inf-clamp01 : (v : F) → v ≼ v → is_inf (clamp01 v) ≡ false
  is_inf-clamp01 v n =
      let (low, high) = clamp01_bounds v n in
      finite_of_le _ _ low high (lit_finite 1 (omega arith)).1

  pub bandwidth_nonneg : (v : F) → v ≼ v → lit (pos 0) ≼ bandwidth_points v
  bandwidth_nonneg v n =
      mul_nonneg _ _ (lit_mono 0 15 (omega arith) (omega arith)) (clamp01_bounds _ (rate_num v n)).0
        (lit_finite 15 (omega arith)).1 (is_inf-clamp01 _ (rate_num v n))

  pub bandwidth_mono : (v w : F) → v ≼ w → bandwidth_points v ≼ bandwidth_points w
  unfolding clamp01
  bandwidth_mono v w h =
      let (nv, nw) = refl_of_le v w h in
      mul_mono _ _ _ _ (lit_mono 0 15 (omega arith) (omega arith)) (lit_finite 15 (omega arith)).0
        (clamp01_bounds _ (rate_num v nv)).0
        (clamp_mono laws _ _ _ _ (div_mono v w 1000 h (omega arith) (omega arith))
          (lit_mono 0 1 (omega arith) (omega arith)))
        (lit_finite 15 (omega arith)).1 (is_inf-clamp01 _ (rate_num w nw))

  -- Loss.
  abbrev lost : F → F
  lost v = div (clamp v (lit (pos 0)) (lit (pos 5))) (lit (pos 5))

  lost_bounds : (v : F) → v ≼ v → (lit (pos 0) ≼ lost v) × (lost v ≼ lit (pos 1))
  lost_bounds v n =
      let (low, high) =
        clamp_bounds laws v (lit (pos 0)) (lit (pos 5)) n
          (lit_mono 0 5 (omega arith) (omega arith)) in
      (
        rw (← div_lit_zero 5 (omega arith) (omega arith))
            (div_mono _ _ 5 low (omega arith) (omega arith)),
        rw (← div_lit_self 5 (omega arith) (omega arith))
            (div_mono _ _ 5 high (omega arith) (omega arith)),
      )

  IsFinite-lost : (v : F) → v ≼ v → IsFinite (lost v)
  IsFinite-lost v n =
      let (low, high) = lost_bounds v n in
      IsFinite-between laws (lost v) 0 1 (omega arith) (omega arith) low high

  loss_ratio_bounds : (v : F) → v ≼ v → (lit (pos 0) ≼ loss_ratio v) × (loss_ratio v ≼ lit (pos 1))
  unfolding loss_ratio
  loss_ratio_bounds v n =
      let (low, high) = lost_bounds v n in
      let one = lit_finite 1 (omega arith) in
      (
        sub_nonneg _ _ one (IsFinite-lost v n) high,
        subst (λ t. loss_ratio v ≼ t) (sub_lit 0 1 (omega arith) (omega arith))
            (sub_antitone _ _ _ one (lit_finite 0 (omega arith)) (IsFinite-lost v n) low),
      )

  loss_ratio_antitone : (v w : F) → v ≼ w → loss_ratio w ≼ loss_ratio v
  unfolding loss_ratio
  loss_ratio_antitone v w h =
      let (nv, nw) = refl_of_le v w h in
      sub_antitone _ _ _ (lit_finite 1 (omega arith)) (IsFinite-lost v nv) (IsFinite-lost w nw) (
        div_mono _ _ 5 (clamp_mono laws v w _ _ h (lit_mono 0 5 (omega arith) (omega arith)))
          (omega arith) (omega arith))

  is_inf-loss_ratio : (v : F) → v ≼ v → is_inf (loss_ratio v) ≡ false
  is_inf-loss_ratio v n =
      let (low, high) = loss_ratio_bounds v n in
      finite_of_le _ _ low high (lit_finite 1 (omega arith)).1

  thirty_ratio_bounds :
      (v : F)
      → v ≼ v
      → (lit (pos 0) ≼ mul (lit (pos 30)) (loss_ratio v))
        × (is_inf (mul (lit (pos 30)) (loss_ratio v)) ≡ false)
  thirty_ratio_bounds v n =
      let (low, high) = loss_ratio_bounds v n in
      let thirty = lit_finite 30 (omega arith) in
      let zero_thirty = lit_mono 0 30 (omega arith) (omega arith) in
      let nonneg = mul_nonneg _ _ zero_thirty low thirty.1 (is_inf-loss_ratio v n) in
      let below =
        mul_mono _ _ _ _ zero_thirty thirty.0 low high thirty.1 (lit_finite 1 (omega arith)).1 in
      (nonneg, finite_of_le _ _ nonneg below (rw (mul_lit_one 30 (omega arith)) thirty.1))

  pub loss_nonneg : (v : F) → v ≼ v → lit (pos 0) ≼ loss_points v
  unfolding loss_points
  loss_nonneg v n =
      let (nonneg, finite) = thirty_ratio_bounds v n in
      mul_nonneg _ _ nonneg (loss_ratio_bounds v n).0 finite (is_inf-loss_ratio v n)

  pub loss_antitone : (v w : F) → v ≼ w → loss_points w ≼ loss_points v
  unfolding loss_points
  loss_antitone v w h =
      let (nv, nw) = refl_of_le v w h in
      let less = loss_ratio_antitone v w h in
      let low = (loss_ratio_bounds w nw).0 in
      let thirty = lit_finite 30 (omega arith) in
      mul_mono _ _ _ _ (thirty_ratio_bounds w nw).0
        (mul_mono _ _ _ _ (lit_mono 0 30 (omega arith) (omega arith)) thirty.0 low less thirty.1
          (is_inf-loss_ratio v nv))
        low less (thirty_ratio_bounds v nv).1 (is_inf-loss_ratio v nv)

  pub family_nonneg : (ipv4 ipv6 : Bool) → lit (pos 0) ≼ family_points ipv4 ipv6
  family_nonneg ipv4 ipv6 =
      let zero = lit_finite 0 (omega arith) in
      let six =
        add_nonneg (lit (pos 0)) (lit (pos 6)) zero.0 (lit_mono 0 6 (omega arith) (omega arith)) in
      let four = lit_mono 0 4 (omega arith) (omega arith) in
      ground (arith, zero.0, six, add_nonneg _ _ six four, add_nonneg _ _ zero.0 four)

  pub latency_nonneg : (v : F) → v ≼ v → lit (pos 0) ≼ latency_points v
  latency_nonneg v n =
      (linear_bounds laws 10 200 20 (omega arith) (omega arith) (omega arith) v n).0

  pub jitter_nonneg : (v : F) → v ≼ v → lit (pos 0) ≼ jitter_points v
  jitter_nonneg v n = (linear_bounds laws 2 50 10 (omega arith) (omega arith) (omega arith) v n).0
