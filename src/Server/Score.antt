-- ===== src/Server/Score.antt =====
-- server/network_score.go: the points of a measurement, and the network score. Its percentages and
-- rates are `float64`s, over any type with the operations of `Float64`.
pub mod Points
pub mod Terms
pub mod Network
mod Examples
use mesh_alot.Prelude.{ℕ, Bool, true, false, not, ◌&&◌, if◌then◌else◌}
use mesh_alot.Prelude.Int.{ℤ, pos}
use mesh_alot.Prelude.Float.{Float64}

module _ {ℓ} {F : Type ℓ} ⦃f : Float64 F⦄ where
  open f use {lit, lt, le, add, sub, mul, div, round}

  unfoldable pub clamp : F → F → F → F
  clamp value minimum maximum =
      if lt value minimum then minimum else if lt maximum value then maximum else value

  unfoldable pub clamp01 : F → F
  clamp01 value = clamp value (lit (pos 0)) (lit (pos 1))

  unfoldable pub decreasing_linear_score : F → F → F → F → F
  decreasing_linear_score value best worst points =
      if le value best
      then points
      else if le worst value
      then lit (pos 0)
      else mul points (div (sub worst value) (sub worst best))

  abbrev pub bandwidth_points : F → F
  bandwidth_points mbps = mul (lit (pos 15)) (clamp01 (div mbps (lit (pos 1000))))

  abbrev pub latency_points : F → F
  latency_points ms = decreasing_linear_score ms (lit (pos 10)) (lit (pos 200)) (lit (pos 20))

  abbrev pub jitter_points : F → F
  jitter_points ms = decreasing_linear_score ms (lit (pos 2)) (lit (pos 50)) (lit (pos 10))

  pub loss_ratio : F → F
  loss_ratio percent =
      sub (lit (pos 1)) (div (clamp percent (lit (pos 0)) (lit (pos 5))) (lit (pos 5)))

  pub loss_points : F → F
  loss_points percent = mul (mul (lit (pos 30)) (loss_ratio percent)) (loss_ratio percent)

  abbrev pub family_points : Bool → Bool → F
  family_points ipv4 ipv6 =
      let score = lit (pos 0) in
      let score4 = if ipv4 then add score (lit (pos 6)) else score in
      if ipv6 then add score4 (lit (pos 4)) else score4

  -- The sum before the last clamp.
  network_total : Bool → Bool → F → F → F → F → F → F
  network_total ipv4 ipv6 download upload latency jitter loss =
      add
        (add
          (add
            (add (add (family_points ipv4 ipv6) (bandwidth_points download))
              (bandwidth_points upload))
            (latency_points latency))
          (jitter_points jitter))
        (loss_points loss)

  pub calculate_network_score : Bool → Bool → F → F → F → F → F → ℤ
  calculate_network_score ipv4 ipv6 download upload latency jitter loss =
      if not ipv4 && not ipv6
      then pos 0
      else round (
          clamp (network_total ipv4 ipv6 download upload latency jitter loss) (lit (pos 0))
            (lit (pos 100)))
