-- ===== src/Agent/Probes/Loss.antt =====
-- The packet loss that `summarizeNetworkProbes` of agent/network_benchmark_measurement.go reports.
use mathlib.Core.Path.{subst}
use Prim.Native.Nat.{◌^◌}
use mesh_alot.Prelude.{ℕ, suc, ◌-◌, ◌≤◌, ◌<◌, List, [], ◌∷◌, length, arith}
use mesh_alot.Prelude.Int.{pos}
use mesh_alot.Prelude.Float.{Float64, ◌≼◌, IsFloat64}
use mesh_alot.Prelude.Outcome.{Outcome, ok, err}
use mesh_alot.Agent.Probes.{
  ProbeSample, ProbeError, packet_loss, summarize, successful_times, after_times,
  summarize_network_probes,
}

module _ {ℓ} {F : Type ℓ} ⦃f : Float64 F⦄ (laws : IsFloat64 F) where
  open f use {lit, mul, div}
  open laws use {
    lit_finite, lit_mono, finite_of_le, mul_mono, mul_nonneg, mul_one_lit, div_mono, div_lit_zero,
    div_lit_self,
  }

  abbrev pub IsPercent : F → Type 0
  IsPercent x = (lit (pos 0) ≼ x) × (x ≼ lit (pos 100))

  zero-IsPercent : IsPercent (lit (pos 0))
  zero-IsPercent = ((lit_finite 0 (omega arith)).0, lit_mono 0 100 (omega arith) (omega arith))

  loss-IsPercent : (m n : ℕ) → m ≤ n → 0 < n → n ≤ 2 ^ 53 → IsPercent (packet_loss m n)
  unfolding packet_loss
  loss-IsPercent m n h p b =
      let ratio = div (lit (pos m)) (lit (pos n)) in
      let low : lit (pos 0) ≼ ratio =
        subst (λ z. z ≼ ratio) (div_lit_zero n p b)
          (div_mono _ _ n (lit_mono 0 m (omega arith) (omega arith)) p b) in
      let high : ratio ≼ lit (pos 1) =
        subst (λ z. ratio ≼ z) (div_lit_self n p b) (div_mono _ _ n (lit_mono m n h b) p b) in
      let one = lit_finite 1 (omega arith) in
      let hundred = lit_finite 100 (omega arith) in
      let zero_hundred = lit_mono 0 100 (omega arith) (omega arith) in
      (
        mul_nonneg _ _ low zero_hundred (finite_of_le _ _ low high one.1) hundred.1,
        subst (λ z. mul ratio (lit (pos 100)) ≼ z) (mul_one_lit 100 (omega arith))
            (mul_mono _ _ _ _ low high zero_hundred hundred.0 one.1 hundred.1),
      )

  summarize-IsPercent :
      (n : ℕ) (times : List F)
      → 0 < n
      → n ≤ 2 ^ 53
      → IsPercent (summarize n times).0.packet_loss_percent
  unfolding summarize
  summarize-IsPercent n [] p b = loss-IsPercent (n - 0) n (omega arith) p b
  summarize-IsPercent n (t ∷ ts) p b = loss-IsPercent (n - suc (length ts)) n (omega arith) p b

  after-IsPercent :
      (n : ℕ) (r : Outcome ProbeError (List F))
      → 0 < n
      → n ≤ 2 ^ 53
      → IsPercent (after_times n r).0.packet_loss_percent
  after-IsPercent n (err e) p b = zero-IsPercent
  after-IsPercent n (ok times) p b = summarize-IsPercent n times p b

  -- Whatever the probes were, at most 2^53 of them, the packet loss that is reported is from 0 to 100,
  -- also beside an error.
  pub summarized_loss :
      (samples : List ProbeSample)
      → length samples ≤ 2 ^ 53
      → IsPercent (summarize_network_probes samples).0.packet_loss_percent
  unfolding summarize_network_probes
  summarized_loss [] b = zero-IsPercent
  summarized_loss (s ∷ ss) b =
      after-IsPercent (suc (length ss)) (successful_times (s ∷ ss)) (omega arith) b
