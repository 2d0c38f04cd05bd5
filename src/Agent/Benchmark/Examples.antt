-- ===== src/Agent/Benchmark/Examples.antt =====
-- Runs of agent/compute_benchmark_*.go, with rates in thousandths.
use mesh_alot.Prelude.{
  ℕ, zero, suc, ◌<◌, ◌≡◌, refl, false, Option, none, some, List, [], ◌∷◌, map, All, arith,
}
use mesh_alot.Prelude.Int.{pos}
use mesh_alot.Prelude.Text.{codes, trim_space, decimal, base_name, text_eq}
use mesh_alot.Prelude.Float.{Thousandths, Thousandths-IsFloat64, thousandths_float}
use mesh_alot.Prelude.Outcome.{ok, err}
use mesh_alot.Protocol.{ComputeBenchmark}
use mesh_alot.Server.Validation.{validate_samples}
use mesh_alot.Agent.Benchmark.{
  BenchRow, LlamaBenchThroughput, RunTelemetry, RunMeasurement, duplicate_prompt, validate_all,
  validate_llama_bench_samples, finite_non_negative, select_rows,
}
use mesh_alot.Agent.Benchmark.Checks.{changed, check_counts, check_rates, check_telemetry}
use mesh_alot.Agent.Benchmark.Parse.{check_rows, throughput_of, parse_llama_bench_json}
use mesh_alot.Agent.Benchmark.Parse.Rows.{prompt_rows, generation_rows, IsOneRun, parsed_rows}
use mesh_alot.Agent.Benchmark.Combine.{
  check_run, match_metadata, combine_from, no_throughput, combine_compute_benchmark_runs,
}
use mesh_alot.Agent.Benchmark.Combine.Order.{prompt_rate, generation_rate, telemetry_of}
use mesh_alot.Agent.Benchmark.Finalize.{
  FinalizeInput, failed_sample, finalize_failure, successful_sample, check_metadata, check_success,
  finalize_case, finalize_run, finalize_from, finalized, check_input, version_of,
  finalize_compute_benchmark_runs,
}
use mesh_alot.Agent.Benchmark.Finalize.Samples.{ReportsAll}
use mesh_alot.Agent.Benchmark.Finalize.Accepted.{IsPlausible, finalized_accepted}
use mesh_alot.Agent.Benchmark.Finalize.Workload.{Agrees, finalized_workload}
use mesh_alot.Agent.Benchmark.Assemble.{
  AssemblyInput, check_assembly, check_repetition, assembled_sample, assemble_run, assemble_from,
  assemble_compute_benchmark,
}
use mesh_alot.Agent.Benchmark.Orchestrate.{
  ThroughputCollector, TtftCollector, OrchestratorInput, throughput_failure, ttft_failure, join,
  compute_benchmark_run_failure, measured, orchestrate_from, orchestrate_with,
  orchestrate_compute_benchmark_runs,
}
use mesh_alot.Agent.Benchmark.Orchestrate.Outcomes.{measured_from, orchestrated-ReportsAll}

abbrev row : ℕ → ℕ → ℕ → BenchRow Thousandths
row n_prompt n_gen rate = record {
  build_commit = codes "abc";
  build_number = pos 12;
  backends = codes "CPU";
  model_filename = codes "/models/m.gguf";
  model_type = codes "llama";
  n_prompt = pos n_prompt;
  n_gen = pos n_gen;
  samples_ts = some rate ∷ [];
}

abbrev rows : List (BenchRow Thousandths)
rows = row 512 0 90_000 ∷ (row 0 128 9_000 ∷ (row 64 64 1 ∷ []))

abbrev parsed : LlamaBenchThroughput Thousandths
parsed = record {
  runtime_version = codes "abc-12";
  model_filename = codes "/models/m.gguf";
  model_type = codes "llama";
  backend = codes "CPU";
  prompt_tokens = pos 512;
  generated_tokens = pos 128;
  prompt_tokens_per_second = some 90_000 ∷ [];
  generation_tokens_per_second = some 9_000 ∷ [];
}

parses : parse_llama_bench_json (λ raw. some rows) (codes "[]") ≡ ok parsed
unfolding parse_llama_bench_json select_rows check_rows throughput_of trim_space text_eq decimal
    validate_llama_bench_samples validate_all finite_non_negative
parses = refl

two_prompt_rows :
    parse_llama_bench_json (λ raw. some (row 512 0 90_000 ∷ rows)) (codes "[]")
    ≡ err duplicate_prompt
unfolding parse_llama_bench_json select_rows trim_space
two_prompt_rows = refl

parsed_rows_example :
    (rs : List (BenchRow Thousandths)) × (p : BenchRow Thousandths) × (g : BenchRow Thousandths)
    × (some rows ≡ some rs)
    × (prompt_rows rs ≡ p ∷ [])
    × (generation_rows rs ≡ g ∷ [])
    × IsOneRun p g
    × (parsed ≡ throughput_of p g)
parsed_rows_example = parsed_rows (λ raw. some rows) (codes "[]") parsed parses

abbrev telemetry : ℕ → RunTelemetry Thousandths
telemetry ttft = record {
  time_to_first_token = pos ttft;
  peak_system_ram = 1_000;
  peak_vram_bytes = none;
  temperature_celsius = some (some 60_000);
  throttled = some false;
}

abbrev worked : RunMeasurement Thousandths
worked = record { throughput = parsed; telemetry = telemetry 250_000_000; error = [] }

abbrev crashed : RunMeasurement Thousandths
crashed = record {
  throughput = no_throughput;
  telemetry = telemetry 0;
  error = codes " out of memory";
}

abbrev five_times : RunMeasurement Thousandths → List (RunMeasurement Thousandths)
five_times r = r ∷ (r ∷ (r ∷ (r ∷ (r ∷ []))))

abbrev combined : LlamaBenchThroughput Thousandths
combined = record parsed {
  prompt_tokens_per_second = map prompt_rate (five_times worked);
  generation_tokens_per_second = map generation_rate (five_times worked);
}

combines :
    combine_compute_benchmark_runs (five_times worked)
    ≡ ok (combined, map telemetry_of (five_times worked))
unfolding combine_compute_benchmark_runs combine_from match_metadata check_run check_counts
    check_rates check_telemetry changed text_eq validate_llama_bench_samples validate_all
    finite_non_negative
combines = refl

abbrev input : FinalizeInput Thousandths
input = record {
  collected_at = pos 7;
  condition = codes "baseline";
  quantization = codes "Q4";
  model_path = codes "/srv/m.gguf";
  runs = worked ∷ (crashed ∷ (worked ∷ (worked ∷ (worked ∷ []))));
}

abbrev bench : ComputeBenchmark Thousandths
bench = record {
  schema_version = codes "m9-v1";
  collected_at = pos 7;
  workload_id = codes "m9-standard-v1";
  condition = codes "baseline";
  runtime = codes "llama.cpp";
  runtime_version = codes "abc-12";
  model = codes "m.gguf";
  quantization = codes "Q4";
  context_size = pos 4096;
  samples =
      successful_sample 1 worked
      ∷ (failed_sample 2 (codes "out of memory") (telemetry 0)
          ∷ (successful_sample 3 worked
              ∷ (successful_sample 4 worked ∷ (successful_sample 5 worked ∷ []))));
}

finalizes : finalize_compute_benchmark_runs input ≡ ok bench
unfolding finalize_compute_benchmark_runs check_input finalized finalize_from finalize_run
    finalize_case finalize_failure check_success check_counts check_metadata check_rates
    check_telemetry changed text_eq trim_space base_name validate_llama_bench_samples validate_all
    finite_non_negative
finalizes = refl

worked-IsPlausible : IsPlausible worked
worked-IsPlausible = record { temperature = refl; ttft = omega arith }

crashed-IsPlausible : IsPlausible crashed
crashed-IsPlausible = record { temperature = refl; ttft = omega arith }

finalized_accepted_example : validate_samples [] bench.samples ≡ none
finalized_accepted_example =
    finalized_accepted Thousandths-IsFloat64 input bench
      (
        worked-IsPlausible,
        (crashed-IsPlausible, (worked-IsPlausible, (worked-IsPlausible, (worked-IsPlausible, tt)))),
      )
      finalizes

finalized_workload_example :
    (reference : Option (LlamaBenchThroughput Thousandths)) × (bench.runtime_version
      ≡ version_of reference)
    × All (Agrees bench.model reference) input.runs
finalized_workload_example = finalized_workload input bench finalizes

abbrev assembly : AssemblyInput Thousandths
assembly = record {
  collected_at = pos 7;
  condition = codes "baseline";
  quantization = [];
  throughput = combined;
  telemetry = map telemetry_of (five_times worked);
}

abbrev assembled : ComputeBenchmark Thousandths
assembled = record bench {
  quantization = [];
  samples =
      assembled_sample 1 combined (some 90_000) (some 9_000) (telemetry 250_000_000)
      ∷ (assembled_sample 2 combined (some 90_000) (some 9_000) (telemetry 250_000_000)
          ∷ (assembled_sample 3 combined (some 90_000) (some 9_000) (telemetry 250_000_000)
              ∷ (assembled_sample 4 combined (some 90_000) (some 9_000) (telemetry 250_000_000)
                  ∷ (assembled_sample 5 combined (some 90_000) (some 9_000) (telemetry 250_000_000)
                      ∷ []))));
}

assembles : assemble_compute_benchmark assembly ≡ ok assembled
unfolding assemble_compute_benchmark check_assembly assemble_from assemble_run check_repetition
    trim_space base_name finite_non_negative
assembles = refl

abbrev throughput : ThroughputCollector Thousandths
throughput n = ((parsed, telemetry 0), none)

abbrev ttft : TtftCollector
ttft (suc (suc zero)) = (pos 0, some (codes "timeout"))
ttft n = (pos 250_000_000, none)

abbrev request : OrchestratorInput Thousandths
request = record {
  collected_at = pos 7;
  condition = codes "baseline";
  quantization = codes "Q4";
  model_path = codes "/srv/m.gguf";
  collect_throughput = some throughput;
  collect_ttft = some ttft;
}

abbrev with_timeout : ComputeBenchmark Thousandths
with_timeout = record bench {
  samples =
      successful_sample 1 worked
      ∷ (failed_sample 2 (codes "ttft: timeout") (telemetry 0)
          ∷ (successful_sample 3 worked
              ∷ (successful_sample 4 worked ∷ (successful_sample 5 worked ∷ []))));
}

orchestrates : orchestrate_compute_benchmark_runs (some (λ i. false)) request ≡ ok with_timeout
unfolding orchestrate_compute_benchmark_runs orchestrate_with orchestrate_from measured
    compute_benchmark_run_failure throughput_failure ttft_failure join
    finalize_compute_benchmark_runs check_input finalized finalize_from finalize_run finalize_case
    finalize_failure check_success check_counts check_metadata check_rates check_telemetry changed
    text_eq trim_space base_name validate_llama_bench_samples validate_all finite_non_negative
orchestrates = refl

orchestrated-ReportsAll_example :
    (t : ThroughputCollector Thousandths) × (q : TtftCollector) × (request.collect_throughput
      ≡ some t)
    × (request.collect_ttft ≡ some q)
    × ReportsAll 1 (measured_from t q 5 0) with_timeout.samples
    × ((j : ℕ) → j < 15 → false ≡ false)
orchestrated-ReportsAll_example =
    orchestrated-ReportsAll (λ i. false) request with_timeout orchestrates
