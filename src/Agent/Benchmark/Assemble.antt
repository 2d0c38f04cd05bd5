-- ===== src/Agent/Benchmark/Assemble.antt =====
-- `assembleComputeBenchmark` of agent/compute_benchmark_assemble.go: repetitions that were measured
-- apart become one benchmark.
pub mod Measured
use mesh_alot.Prelude.{ℕ, suc, Bool, not, ◌&&◌, ◌||◌, true, List, [], ◌∷◌, length, is_empty, ◌==◌}
use mesh_alot.Prelude.Int.{pos, leb_ℤ}
use mesh_alot.Prelude.Text.{Text, codes, trim_space, base_name}
use mesh_alot.Prelude.Time.{Instant, is_zero}
use mesh_alot.Prelude.Float.{Float64}
use mesh_alot.Prelude.Outcome.{Outcome, ok, err, ◌>>=◌, ◌>>◌, guard}
use mesh_alot.Protocol.{ComputeBenchmarkSample, ComputeBenchmark, compute_schema_version}
use mesh_alot.Agent.Benchmark.{
  LlamaBenchThroughput, RunTelemetry, BenchmarkError, no_collection_time, no_condition,
  token_workload, counts_mismatch, wrong_run_count, model_missing, version_missing,
  throughput_sample, ttft_sample, ram_sample, finite_non_negative, standard_repetitions,
  standard_workload_id, standard_context_size,
}
use mesh_alot.Agent.Benchmark.Finalize.{milliseconds}

pub record AssemblyInput {ℓ} (F : Type ℓ) : Type ℓ where
  pub collected_at : Instant
  pub condition : Text
  pub quantization : Text
  pub throughput : LlamaBenchThroughput F
  pub telemetry : List (RunTelemetry F)

module _ {ℓ} {F : Type ℓ} ⦃f : Float64 F⦄ where
  open f use {lit, le}

  unfoldable pub check_repetition : F → F → RunTelemetry F → Outcome BenchmarkError (Unit {0})
  check_repetition prompt generation m = do
    guard
        (not (
          not (finite_non_negative prompt)
          || le prompt (lit (pos 0))
          || not (finite_non_negative generation)
          || le generation (lit (pos 0))))
        throughput_sample
    guard (not (leb_ℤ m.time_to_first_token (pos 0))) ttft_sample
    guard (not (m.peak_system_ram == 0)) ram_sample

  pub assembled_sample :
      ℕ → LlamaBenchThroughput F → F → F → RunTelemetry F → ComputeBenchmarkSample F
  assembled_sample n t prompt generation m = record {
    run = pos n;
    prompt_tokens = t.prompt_tokens;
    generated_tokens = t.generated_tokens;
    prompt_tokens_per_second = prompt;
    generation_tokens_per_second = generation;
    time_to_first_token_ms = milliseconds m.time_to_first_token;
    peak_system_ram_bytes = m.peak_system_ram;
    peak_vram_bytes = m.peak_vram_bytes;
    temperature_celsius = m.temperature_celsius;
    throttled = m.throttled;
    success = true;
    error = [];
  }

  -- The body of the loop.
  unfoldable pub assemble_run :
      ℕ
      → LlamaBenchThroughput F
      → F
      → F
      → RunTelemetry F
      → Outcome BenchmarkError (ComputeBenchmarkSample F)
  assemble_run n t prompt generation m = do
    check_repetition prompt generation m
    ok (assembled_sample n t prompt generation m)

  -- The loop, from run `n` on, over three lists that have one length.
  unfoldable pub assemble_from :
      ℕ
      → LlamaBenchThroughput F
      → List F
      → List F
      → List (RunTelemetry F)
      → Outcome BenchmarkError (List (ComputeBenchmarkSample F))
  assemble_from n t (p ∷ ps) (g ∷ gs) (m ∷ ms) = do
    sample ← assemble_run n t p g m
    later ← assemble_from (suc n) t ps gs ms
    ok (sample ∷ later)
  assemble_from n t _ _ _ = ok []

  unfoldable pub check_assembly : AssemblyInput F → Outcome BenchmarkError (Unit {0})
  check_assembly input = do
    let t = input.throughput
    let count = length t.prompt_tokens_per_second
    guard (not (is_zero input.collected_at)) no_collection_time
    guard (not (is_empty (trim_space input.condition))) no_condition
    guard (not (leb_ℤ t.prompt_tokens (pos 0) || leb_ℤ t.generated_tokens (pos 0))) token_workload
    guard
        (not (
          (count == 0)
          || not (length t.generation_tokens_per_second == count)
          || not (length input.telemetry == count)))
        counts_mismatch
    guard (count == standard_repetitions) wrong_run_count
    guard (not (is_empty (trim_space t.model_filename))) model_missing
    guard (not (is_empty (trim_space t.runtime_version))) version_missing

  unfoldable pub assemble_compute_benchmark :
      AssemblyInput F → Outcome BenchmarkError (ComputeBenchmark F)
  assemble_compute_benchmark input = do
    let t = input.throughput
    check_assembly input
    samples ←
        assemble_from 1 t t.prompt_tokens_per_second t.generation_tokens_per_second input.telemetry
    ok (record {
      schema_version = compute_schema_version;
      collected_at = input.collected_at;
      workload_id = standard_workload_id;
      condition = trim_space input.condition;
      runtime = codes "llama.cpp";
      runtime_version = trim_space t.runtime_version;
      model = base_name (trim_space t.model_filename);
      quantization = trim_space input.quantization;
      context_size = pos standard_context_size;
      samples = samples;
    })
