-- ===== src/Agent/Probes.antt =====
-- agent/network_benchmark_measurement.go: the control probes of a network benchmark, summarized. The
-- errors carry what is returned beside them.
pub mod Loss
mod Examples
use mesh_alot.Prelude.{
  ℕ, suc, ◌-◌, ◌/◌, ◌%◌, Bool, true, false, not, Option, none, some, List, [], ◌∷◌, length,
  is_empty, ◌==◌, if◌then◌else◌,
}
use mesh_alot.Prelude.Int.{ℤ, pos, leb_ℤ}
use mesh_alot.Prelude.Time.{Duration}
use mesh_alot.Prelude.Float.{Float64}
use mesh_alot.Prelude.Outcome.{Outcome, ok, err, ◌>>=◌, ◌>>◌, guard}
use mesh_alot.Server.ComputeScore.{sort, value_at}

pub record ProbeSample : Type 0 where
  pub connect_duration : Duration
  pub success : Bool

pub record ProbeSummary {ℓ} (F : Type ℓ) : Type ℓ where
  pub latency_ms : F
  pub jitter_ms : F
  pub packet_loss_percent : F

pub data ProbeError : Type 0 where
  no_probes invalid_duration no_successful_probes : ProbeError

module _ {ℓ} {F : Type ℓ} ⦃f : Float64 F⦄ where
  open f use {lit, add, sub, mul, div, abs}

  -- The loop: the connection times of the probes that worked, in milliseconds.
  unfoldable pub successful_times : List ProbeSample → Outcome ProbeError (List F)
  successful_times [] = ok []
  successful_times (s ∷ rest) = elim s.success [
    | false ↦ successful_times rest
    | true ↦ do
      guard (not (leb_ℤ s.connect_duration (pos 0))) invalid_duration
      later ← successful_times rest
      ok (div (lit s.connect_duration) (lit (pos 1_000_000)) ∷ later)
  ]

  unfoldable pub packet_loss : ℕ → ℕ → F
  packet_loss failed total = mul (div (lit (pos failed)) (lit (pos total))) (lit (pos 100))

  unfoldable pub median_time : List F → F
  median_time times =
      let sorted = sort times in
      let middle = length sorted / 2 in
      if length sorted % 2 == 0
      then div (add (value_at sorted (middle - 1)) (value_at sorted middle)) (lit (pos 2))
      else value_at sorted middle

  -- The changes from one time to the next, added up from `total`.
  unfoldable pub variation_from : F → F → List F → F
  variation_from total last [] = total
  variation_from total last (t ∷ ts) = variation_from (add total (abs (sub t last))) t ts

  unfoldable pub jitter : List F → F
  jitter [] = lit (pos 0)
  jitter (t ∷ []) = lit (pos 0)
  jitter (t ∷ (u ∷ ts)) =
      div (variation_from (lit (pos 0)) t (u ∷ ts)) (lit (pos (length (u ∷ ts))))

  abbrev pub nothing_lost : ProbeSummary F
  nothing_lost = record {
    latency_ms = lit (pos 0);
    jitter_ms = lit (pos 0);
    packet_loss_percent = lit (pos 0);
  }

  abbrev only_loss : F → ProbeSummary F
  only_loss loss = record nothing_lost { packet_loss_percent = loss }

  -- What is returned once the times are known, with the error if there is none.
  unfoldable pub summarize : ℕ → List F → ProbeSummary F × Option ProbeError
  summarize total times =
      let loss = packet_loss (total - length times) total in
      if is_empty times then (only_loss loss, some no_successful_probes) else (
        record {
          latency_ms = median_time times;
          jitter_ms = jitter times;
          packet_loss_percent = loss;
        },
        none,
      )

  abbrev pub after_times : ℕ → Outcome ProbeError (List F) → ProbeSummary F × Option ProbeError
  after_times total (err e) = (nothing_lost, some e)
  after_times total (ok times) = summarize total times

  unfoldable pub summarize_network_probes : List ProbeSample → ProbeSummary F × Option ProbeError
  summarize_network_probes samples =
      if is_empty samples
      then (nothing_lost, some no_probes)
      else after_times (length samples) (successful_times samples)
