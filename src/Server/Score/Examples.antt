-- ===== src/Server/Score/Examples.antt =====
-- Network scores in thousandths.
use mesh_alot.Prelude.{ℕ, ◌≡◌, refl, true, false, some}
use mesh_alot.Prelude.Int.{ℤ, pos, ◌≤ℤ◌}
use mesh_alot.Prelude.Float.{Thousandths, Thousandths-IsFloat64, thousandths_float}
use mesh_alot.Server.Score.{
  clamp, clamp01, decreasing_linear_score, loss_ratio, loss_points, network_total,
  calculate_network_score,
}
use mesh_alot.Server.Score.Network.{network_score_bounds}

abbrev score : ℕ → ℕ → ℕ → ℕ → ℕ → ℤ
score d u l j p =
    calculate_network_score {F = Thousandths} true false (some d) (some u) (some l) (some j)
      (some p)

home_line : score 500_000 250_000 20_000 2_000 0 ≡ pos 76
unfolding calculate_network_score network_total clamp clamp01 decreasing_linear_score loss_ratio
    loss_points
home_line = refl

network_score_bounds_example :
    (pos 0 ≤ℤ score 500_000 250_000 20_000 2_000 0)
    × (score 500_000 250_000 20_000 2_000 0 ≤ℤ pos 100)
network_score_bounds_example =
    network_score_bounds Thousandths-IsFloat64 true false (some 500_000) (some 250_000)
      (some 20_000) (some 2_000) (some 0) (refl, refl, refl, refl, refl)
