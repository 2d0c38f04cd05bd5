-- ===== src/Agent/Probes/Examples.antt =====
-- Probes of agent/network_benchmark_measurement.go, in thousandths of a millisecond.
use mesh_alot.Prelude.{ℕ, ◌*◌, ◌≡◌, refl, Bool, true, false, none, some, List, [], ◌∷◌}
use mesh_alot.Prelude.Int.{pos}
use mesh_alot.Prelude.Float.{Thousandths, thousandths_float}
use mesh_alot.Server.ComputeScore.{less, insert, sort}
use mesh_alot.Agent.Probes.{
  ProbeSample, successful_times, packet_loss, median_time, variation_from, jitter, summarize,
  summarize_network_probes,
}

abbrev probe : ℕ → Bool → ProbeSample
probe ms success = record { connect_duration = pos (ms * 1_000_000); success = success }

abbrev probes : List ProbeSample
probes = probe 10 true ∷ (probe 20 true ∷ (probe 0 false ∷ (probe 30 true ∷ [])))

summarized : summarize_network_probes {F = Thousandths} probes ≡ (
  record { latency_ms = some 20_000; jitter_ms = some 10_000; packet_loss_percent = some 25_000 },
  none,
)
unfolding summarize_network_probes summarize successful_times packet_loss median_time variation_from
    jitter sort insert less
summarized = refl
