-- ===== src/Agent/Benchmark/Checks.antt =====
-- The tests of one measured run that agent/compute_benchmark_runs.go and
-- agent/compute_benchmark_finalize.go share.
use mesh_alot.Prelude.{ℕ, Bool, not, ◌||◌, Option, none, some, List, [], ◌∷◌, length, ◌==◌}
use mesh_alot.Prelude.Int.{pos, leb_ℤ, eq_ℤ}
use mesh_alot.Prelude.Text.{text_eq}
use mesh_alot.Prelude.Float.{Float64}
use mesh_alot.Prelude.Outcome.{Outcome, ok, err, ◌>>◌, guard}
use mesh_alot.Agent.Benchmark.{
  LlamaBenchThroughput, RunTelemetry, BenchmarkError, not_one_repetition, bad_token_counts,
  bad_prompt_rate, bad_generation_rate, bad_ttft, bad_peak_ram, validate_llama_bench_samples,
  invocation_repetitions,
}

module _ {ℓ} {F : Type ℓ} ⦃f : Float64 F⦄ where
  open f use {lit}

  -- `values[0]`, where there is exactly one.
  abbrev pub first_rate : List F → F
  first_rate [] = lit (pos 0)
  first_rate (v ∷ vs) = v

-- An error of the samples, under the name of the list that has them.
abbrev pub wrapped :
    (BenchmarkError → BenchmarkError) → Option BenchmarkError → Outcome BenchmarkError (Unit {0})
wrapped name none = ok tt
wrapped name (some e) = err (name e)

module _ {ℓ} {F : Type ℓ} ⦃f : Float64 F⦄ where
  unfoldable pub changed : LlamaBenchThroughput F → LlamaBenchThroughput F → Bool
  changed t reference =
      not (text_eq t.runtime_version reference.runtime_version)
      || not (text_eq t.model_filename reference.model_filename)
      || not (text_eq t.model_type reference.model_type)
      || not (text_eq t.backend reference.backend)
      || not (eq_ℤ t.prompt_tokens reference.prompt_tokens)
      || not (eq_ℤ t.generated_tokens reference.generated_tokens)

  unfoldable pub check_counts : ℕ → LlamaBenchThroughput F → Outcome BenchmarkError (Unit {0})
  check_counts n t = do
    guard
        (not (
          not (length t.prompt_tokens_per_second == invocation_repetitions)
          || not (length t.generation_tokens_per_second == invocation_repetitions)))
        (not_one_repetition n)
    guard (not (leb_ℤ t.prompt_tokens (pos 0) || leb_ℤ t.generated_tokens (pos 0)))
        (bad_token_counts n)

  unfoldable pub check_rates : ℕ → LlamaBenchThroughput F → Outcome BenchmarkError (Unit {0})
  check_rates n t = do
    wrapped (bad_prompt_rate n) (validate_llama_bench_samples t.prompt_tokens_per_second)
    wrapped (bad_generation_rate n) (validate_llama_bench_samples t.generation_tokens_per_second)

  unfoldable pub check_telemetry : ℕ → RunTelemetry F → Outcome BenchmarkError (Unit {0})
  check_telemetry n m = do
    guard (not (leb_ℤ m.time_to_first_token (pos 0))) (bad_ttft n)
    guard (not (m.peak_system_ram == 0)) (bad_peak_ram n)
