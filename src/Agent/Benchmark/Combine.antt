-- ===== src/Agent/Benchmark/Combine.antt =====
-- `combineComputeBenchmarkRuns` of agent/compute_benchmark_runs.go.
pub mod Order
use mesh_alot.Prelude.{
  ℕ, zero, suc, Bool, true, false, not, ◌&&◌, ◌||◌, Option, none, some, List, [], ◌∷◌, ◌++◌, length,
  get_elem?, is_empty, ◌==◌, if◌then◌else◌,
}
use mesh_alot.Prelude.Int.{ℤ, pos, leb_ℤ, eq_ℤ}
use mesh_alot.Prelude.Text.{Text, text_eq}
use mesh_alot.Prelude.Float.{Float64}
use mesh_alot.Prelude.Outcome.{Outcome, ok, err, ◌>>=◌, ◌>>◌, guard}
use mesh_alot.Agent.Benchmark.Checks.{
  first_rate, changed, check_counts, check_rates, check_telemetry, wrapped,
}
use mesh_alot.Agent.Benchmark.{
  LlamaBenchThroughput, RunTelemetry, RunMeasurement, BenchmarkError, wrong_run_count,
  not_one_repetition, bad_token_counts, incomplete_metadata, bad_prompt_rate, bad_generation_rate,
  bad_ttft, bad_peak_ram, metadata_changed, validate_llama_bench_samples, standard_repetitions,
  invocation_repetitions,
}

module _ {ℓ} {F : Type ℓ} ⦃f : Float64 F⦄ where
  -- The tests of one run, without the comparison with the first.
  unfoldable pub check_run : ℕ → RunMeasurement F → Outcome BenchmarkError (Unit {0})
  check_run n run = do
    let t = run.throughput
    check_counts n t
    guard
        (not (
          is_empty t.runtime_version
          || is_empty t.model_filename
          || is_empty t.model_type
          || is_empty t.backend))
        (incomplete_metadata n)
    check_rates n t
    check_telemetry n run.telemetry

  -- The first run gives what is combined its metadata; each later one must have the same.
  unfoldable pub match_metadata :
      ℕ
      → LlamaBenchThroughput F
      → LlamaBenchThroughput F
      → Outcome BenchmarkError (LlamaBenchThroughput F)
  match_metadata zero combined t =
      ok (record t { prompt_tokens_per_second = []; generation_tokens_per_second = [] })
  match_metadata (suc i) combined t = do
    guard (not (changed t combined)) metadata_changed
    ok combined

  -- The loop, from run `i` on.
  unfoldable pub combine_from :
      ℕ
      → LlamaBenchThroughput F
      → List (RunTelemetry F)
      → List (RunMeasurement F)
      → Outcome BenchmarkError (LlamaBenchThroughput F × List (RunTelemetry F))
  combine_from i combined telemetry [] = ok (combined, telemetry)
  combine_from i combined telemetry (run ∷ rest) = do
    let t = run.throughput
    check_run (suc i) run
    base ← match_metadata i combined t
    combine_from (suc i)
        (record base {
          prompt_tokens_per_second =
              base.prompt_tokens_per_second ++ (first_rate t.prompt_tokens_per_second ∷ []);
          generation_tokens_per_second =
              base.generation_tokens_per_second ++ (first_rate t.generation_tokens_per_second ∷ []);
        })
        (telemetry ++ (run.telemetry ∷ [])) rest

  abbrev pub no_throughput : LlamaBenchThroughput F
  no_throughput = record {
    runtime_version = [];
    model_filename = [];
    model_type = [];
    backend = [];
    prompt_tokens = pos 0;
    generated_tokens = pos 0;
    prompt_tokens_per_second = [];
    generation_tokens_per_second = [];
  }

  unfoldable pub combine_compute_benchmark_runs :
      List (RunMeasurement F)
      → Outcome BenchmarkError (LlamaBenchThroughput F × List (RunTelemetry F))
  combine_compute_benchmark_runs runs = do
    guard (length runs == standard_repetitions) wrong_run_count
    combine_from 0 no_throughput [] runs
