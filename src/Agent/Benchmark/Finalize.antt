-- ===== src/Agent/Benchmark/Finalize.antt =====
-- `finalizeComputeBenchmarkRuns` of agent/compute_benchmark_finalize.go: five attempted runs become
-- the benchmark that is submitted.
pub mod Samples
pub mod Accepted
pub mod Workload
use mesh_alot.Prelude.{
  ℕ, suc, Bool, true, false, not, ◌&&◌, ◌||◌, Option, none, some, List, [], ◌∷◌, length, is_empty,
  ltb, ◌==◌, if◌then◌else◌,
}
use mesh_alot.Prelude.Int.{ℤ, pos, leb_ℤ, ltb_ℤ}
use mesh_alot.Prelude.Text.{Text, codes, text_eq, trim_space, base_name}
use mesh_alot.Prelude.Time.{Instant, is_zero}
use mesh_alot.Prelude.Float.{Float64}
use mesh_alot.Prelude.Outcome.{Outcome, ok, err, ◌>>=◌, ◌>>◌, guard}
use mesh_alot.Protocol.{ComputeBenchmarkSample, ComputeBenchmark, compute_schema_version}
use mesh_alot.Agent.Benchmark.{
  LlamaBenchThroughput, RunTelemetry, RunMeasurement, BenchmarkError, no_collection_time,
  no_condition, no_model_path, bad_model_name, wrong_run_count, error_too_long, bad_partial_ttft,
  incomplete_metadata, unexpected_model, metadata_changed, standard_repetitions,
  standard_prompt_tokens, standard_generated_tokens, standard_workload_id, standard_context_size,
}
use mesh_alot.Agent.Benchmark.Checks.{
  first_rate, changed, check_counts, check_rates, check_telemetry,
}

abbrev pub run_error_max : ℕ
run_error_max = 1024

pub record FinalizeInput {ℓ} (F : Type ℓ) : Type ℓ where
  pub collected_at : Instant
  pub condition : Text
  pub quantization : Text
  pub model_path : Text
  pub runs : List (RunMeasurement F)

abbrev bad_name : Text → Bool
bad_name name = is_empty name || text_eq name (codes ".") || text_eq name (codes "/")

module _ {ℓ} {F : Type ℓ} ⦃f : Float64 F⦄ where
  open f use {lit, div}

  -- `float64(d) / float64(time.Millisecond)`
  pub milliseconds : ℤ → F
  milliseconds d = div (lit d) (lit (pos 1_000_000))

  pub failed_sample : ℕ → Text → RunTelemetry F → ComputeBenchmarkSample F
  failed_sample n error m = record {
    run = pos n;
    prompt_tokens = pos standard_prompt_tokens;
    generated_tokens = pos standard_generated_tokens;
    prompt_tokens_per_second = lit (pos 0);
    generation_tokens_per_second = lit (pos 0);
    time_to_first_token_ms =
        if ltb_ℤ (pos 0) m.time_to_first_token
        then milliseconds m.time_to_first_token
        else lit (pos 0);
    peak_system_ram_bytes = m.peak_system_ram;
    peak_vram_bytes = m.peak_vram_bytes;
    temperature_celsius = m.temperature_celsius;
    throttled = m.throttled;
    success = false;
    error = error;
  }

  -- The branch of a run that has an error text.
  unfoldable pub finalize_failure :
      ℕ → Text → RunTelemetry F → Outcome BenchmarkError (ComputeBenchmarkSample F)
  finalize_failure n error m = do
    guard (not (ltb run_error_max (length error))) (error_too_long n)
    guard (not (ltb_ℤ m.time_to_first_token (pos 0))) (bad_partial_ttft n)
    ok (failed_sample n error m)

  pub successful_sample : ℕ → RunMeasurement F → ComputeBenchmarkSample F
  successful_sample n run =
      let t = run.throughput in
      let m = run.telemetry in
      record {
        run = pos n;
        prompt_tokens = t.prompt_tokens;
        generated_tokens = t.generated_tokens;
        prompt_tokens_per_second = first_rate t.prompt_tokens_per_second;
        generation_tokens_per_second = first_rate t.generation_tokens_per_second;
        time_to_first_token_ms = milliseconds m.time_to_first_token;
        peak_system_ram_bytes = m.peak_system_ram;
        peak_vram_bytes = m.peak_vram_bytes;
        temperature_celsius = m.temperature_celsius;
        throttled = m.throttled;
        success = true;
        error = [];
      }

  unfoldable pub check_metadata :
      ℕ → Text → LlamaBenchThroughput F → Outcome BenchmarkError (Unit {0})
  check_metadata n model t = do
    guard
        (not (
          is_empty (trim_space t.runtime_version)
          || is_empty (trim_space t.model_filename)
          || is_empty (trim_space t.model_type)
          || is_empty (trim_space t.backend)))
        (incomplete_metadata n)
    guard (text_eq (base_name t.model_filename) model) (unexpected_model n)

  abbrev pub same_metadata :
      Option (LlamaBenchThroughput F) → LlamaBenchThroughput F → Outcome BenchmarkError (Unit {0})
  same_metadata none t = ok tt
  same_metadata (some reference) t = guard (not (changed t reference)) metadata_changed

  abbrev pub reference_or :
      Option (LlamaBenchThroughput F) → LlamaBenchThroughput F → LlamaBenchThroughput F
  reference_or none t = t
  reference_or (some reference) t = reference

  -- The tests of a run that has no error text.
  unfoldable pub check_success :
      ℕ
      → Text
      → Option (LlamaBenchThroughput F)
      → RunMeasurement F
      → Outcome BenchmarkError (Unit {0})
  check_success n model reference run = do
    check_counts n run.throughput
    check_metadata n model run.throughput
    check_rates n run.throughput
    check_telemetry n run.telemetry
    same_metadata reference run.throughput

  -- The body of the loop, by whether the trimmed error text is empty: the sample, and the throughput
  -- that later runs must agree with.
  unfoldable pub finalize_case :
      Bool
      → ℕ
      → Text
      → Option (LlamaBenchThroughput F)
      → RunMeasurement F
      → Outcome BenchmarkError (ComputeBenchmarkSample F × Option (LlamaBenchThroughput F))
  finalize_case false n model reference run = do
    sample ← finalize_failure n (trim_space run.error) run.telemetry
    ok (sample, reference)
  finalize_case true n model reference run = do
    check_success n model reference run
    ok (successful_sample n run, some (reference_or reference run.throughput))

  unfoldable pub finalize_run :
      ℕ
      → Text
      → Option (LlamaBenchThroughput F)
      → RunMeasurement F
      → Outcome BenchmarkError (ComputeBenchmarkSample F × Option (LlamaBenchThroughput F))
  finalize_run n model reference run =
      finalize_case (is_empty (trim_space run.error)) n model reference run

  -- The loop, from run `n` on.
  unfoldable pub finalize_from :
      ℕ
      → Text
      → Option (LlamaBenchThroughput F)
      → List (RunMeasurement F)
      → Outcome BenchmarkError (List (ComputeBenchmarkSample F) × Option (LlamaBenchThroughput F))
  finalize_from n model reference [] = ok ([], reference)
  finalize_from n model reference (run ∷ rest) = do
    done ← finalize_run n model reference run
    later ← finalize_from (suc n) model done.1 rest
    ok (done.0 ∷ later.0, later.1)

  abbrev pub version_of : Option (LlamaBenchThroughput F) → Text
  version_of none = []
  version_of (some t) = t.runtime_version

  unfoldable pub finalized :
      FinalizeInput F
      → List (ComputeBenchmarkSample F) × Option (LlamaBenchThroughput F)
      → ComputeBenchmark F
  finalized input (samples, reference) = record {
    schema_version = compute_schema_version;
    collected_at = input.collected_at;
    workload_id = standard_workload_id;
    condition = trim_space input.condition;
    runtime = codes "llama.cpp";
    runtime_version = version_of reference;
    model = base_name (trim_space input.model_path);
    quantization = trim_space input.quantization;
    context_size = pos standard_context_size;
    samples = samples;
  }

  unfoldable pub check_input : FinalizeInput F → Outcome BenchmarkError (Unit {0})
  check_input input = do
    guard (not (is_zero input.collected_at)) no_collection_time
    guard (not (is_empty (trim_space input.condition))) no_condition
    guard (not (is_empty (trim_space input.model_path))) no_model_path
    guard (not (bad_name (base_name (trim_space input.model_path)))) bad_model_name
    guard (length input.runs == standard_repetitions) wrong_run_count

  unfoldable pub finalize_compute_benchmark_runs :
      FinalizeInput F → Outcome BenchmarkError (ComputeBenchmark F)
  finalize_compute_benchmark_runs input = do
    check_input input
    done ← finalize_from 1 (base_name (trim_space input.model_path)) none input.runs
    ok (finalized input done)
