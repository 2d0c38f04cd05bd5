-- ===== src/Server/ComputeScore/Examples.antt =====
-- Compute scores in thousandths.
use mesh_alot.Prelude.{ℕ, ◌≡◌, refl, Bool, true, false, some, none, [], ◌∷◌, arith}
use mesh_alot.Prelude.Int.{pos}
use mesh_alot.Prelude.Text.{codes}
use mesh_alot.Prelude.Float.{Thousandths, Thousandths-IsFloat64, thousandths_float}
use mesh_alot.Protocol.{ComputeBenchmarkSample, ComputeBenchmark}
use mesh_alot.Server.Score.{clamp, clamp01, decreasing_linear_score}
use mesh_alot.Server.ComputeScore.{
  less, insert, sort, median_float64, sum_from, variance_from, coefficient_of_variation,
  compute_benchmark_variation_coefficient, gather, gather_all, scale_points, ttft_points_of,
  stability_points_of, success_points_of, final_score, score_gathered, calculate_compute_score,
}
use mesh_alot.Server.ComputeScore.Bounds.{IsBounded, compute_score-IsBounded}

abbrev sample : ℕ → Bool → ℕ → ℕ → ℕ → ComputeBenchmarkSample Thousandths
sample run success prompt generation ttft = record {
  run = pos run;
  prompt_tokens = pos 512;
  generated_tokens = pos 128;
  prompt_tokens_per_second = some prompt;
  generation_tokens_per_second = some generation;
  time_to_first_token_ms = some ttft;
  peak_system_ram_bytes = 1;
  peak_vram_bytes = none;
  temperature_celsius = none;
  throttled = none;
  success = success;
  error = [];
}

abbrev bench : ComputeBenchmark Thousandths
bench = record {
  schema_version = codes "m9-v1";
  collected_at = pos 1;
  workload_id = codes "m9-standard-v1";
  condition = codes "baseline";
  runtime = codes "llama.cpp";
  runtime_version = codes "a-1";
  model = codes "m.gguf";
  quantization = [];
  context_size = pos 4096;
  samples =
      sample 1 true 500_000 50_000 100_000
      ∷ (sample 2 true 700_000 30_000 300_000
          ∷ (sample 3 true 600_000 40_000 200_000 ∷ (sample 4 false 9 9 9 ∷ [])));
}

median :
    median_float64 {F = Thousandths} (some 7 ∷ (some 1 ∷ (none ∷ (some 4 ∷ (some 2 ∷ [])))))
    ≡ some 2
unfolding median_float64 sort insert less
median = refl

scored : (calculate_compute_score bench).score ≡ pos 50
unfolding calculate_compute_score score_gathered gather_all gather median_float64 sort insert less
    compute_benchmark_variation_coefficient coefficient_of_variation sum_from variance_from
    scale_points ttft_points_of stability_points_of success_points_of final_score clamp clamp01
    decreasing_linear_score
scored = refl

compute_score-IsBounded_example : IsBounded (calculate_compute_score bench)
unfolding calculate_compute_score score_gathered gather_all gather median_float64 sort insert less
    compute_benchmark_variation_coefficient coefficient_of_variation sum_from variance_from
compute_score-IsBounded_example =
    compute_score-IsBounded Thousandths-IsFloat64 bench (omega arith)
      (record { prompt = refl; generation = refl; ttft = refl; cv = refl })
