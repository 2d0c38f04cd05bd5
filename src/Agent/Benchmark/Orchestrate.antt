-- ===== src/Agent/Benchmark/Orchestrate.antt =====
-- `orchestrateComputeBenchmarkRuns` of agent/compute_benchmark_orchestrate.go. The collectors are
-- parameters; the context is asked three times for each run, and `ended` says what it answers.
pub mod Outcomes
use mesh_alot.Prelude.{
  ℕ, zero, suc, ◌+◌, ◌*◌, Bool, true, false, not, Option, none, some, List, [], ◌∷◌, ◌++◌, is_empty,
  if◌then◌else◌,
}
use mesh_alot.Prelude.Int.{pos, ltb_ℤ}
use mesh_alot.Prelude.Text.{Text, codes, trim_space}
use mesh_alot.Prelude.Time.{Instant, Duration}
use mesh_alot.Prelude.Float.{Float64}
use mesh_alot.Prelude.Outcome.{Outcome, ok, err, ◌>>=◌, ◌>>◌, guard}
use mesh_alot.Protocol.{ComputeBenchmark}
use mesh_alot.Agent.Benchmark.{
  LlamaBenchThroughput, RunTelemetry, RunMeasurement, BenchmarkError, canceled, no_context,
  no_collector, standard_repetitions,
}
use mesh_alot.Agent.Benchmark.Finalize.{FinalizeInput, finalize_compute_benchmark_runs}

-- A collector's answer: its value, and the text of its error if that is not nil.
abbrev pub ThroughputCollector {ℓ} : Type ℓ → Type ℓ
ThroughputCollector F = ℕ → (LlamaBenchThroughput F × RunTelemetry F) × Option Text

abbrev pub TtftCollector : Type 0
TtftCollector = ℕ → Duration × Option Text

pub record OrchestratorInput {ℓ} (F : Type ℓ) : Type ℓ where
  pub collected_at : Instant
  pub condition : Text
  pub quantization : Text
  pub model_path : Text
  pub collect_throughput : Option (ThroughputCollector F)
  pub collect_ttft : Option TtftCollector

abbrev or_unknown : Text → Text → Text
or_unknown text unknown = if is_empty text then unknown else text

unfoldable pub throughput_failure : Option Text → List Text
throughput_failure none = []
throughput_failure (some e) =
    (codes "throughput: " ++ or_unknown (trim_space e) (codes "unknown throughput error")) ∷ []

unfoldable pub ttft_failure : Option Text → List Text
ttft_failure none = []
ttft_failure (some e) =
    (codes "ttft: " ++ or_unknown (trim_space e) (codes "unknown TTFT error")) ∷ []

-- `strings.Join(…, "; ")`
unfoldable pub join : List Text → Text
join [] = []
join (x ∷ []) = x
join (x ∷ (y ∷ rest)) = x ++ (codes "; " ++ join (y ∷ rest))

unfoldable pub compute_benchmark_run_failure : Option Text → Option Text → Text
compute_benchmark_run_failure throughput ttft =
    join (throughput_failure throughput ++ ttft_failure ttft)

-- The measurement of run `n`.
unfoldable pub measured {ℓ} :
    {F : Type ℓ} → ThroughputCollector F → TtftCollector → ℕ → RunMeasurement F
measured throughput ttft n =
    let ((t, m), e) = throughput n in
    let (d, e') = ttft n in
    record {
      throughput = t;
      telemetry = if ltb_ℤ (pos 0) d then record m { time_to_first_token = d } else m;
      error = compute_benchmark_run_failure e e';
    }

module _ {ℓ} {F : Type ℓ} ⦃f : Float64 F⦄ (ended : ℕ → Bool) (throughput : ThroughputCollector F)
    (ttft : TtftCollector) where
  -- The loop, with `left` runs to go from index `i` on.
  unfoldable pub orchestrate_from : ℕ → ℕ → Outcome BenchmarkError (List (RunMeasurement F))
  orchestrate_from zero i = ok []
  orchestrate_from (suc left) i = do
    guard (not (ended (3 * i))) canceled
    guard (not (ended (3 * i + 1))) canceled
    guard (not (ended (3 * i + 2))) canceled
    later ← orchestrate_from left (suc i)
    ok (measured throughput ttft (suc i) ∷ later)

  unfoldable pub orchestrate_with :
      OrchestratorInput F → Outcome BenchmarkError (ComputeBenchmark F)
  orchestrate_with input = do
    runs ← orchestrate_from standard_repetitions 0
    finalize_compute_benchmark_runs (record {
      collected_at = input.collected_at;
      condition = input.condition;
      quantization = input.quantization;
      model_path = input.model_path;
      runs = runs;
    })

abbrev pub given {ℓ} : {A : Type ℓ} → Option A → Outcome BenchmarkError A
given none = err no_collector
given (some a) = ok a

-- `ended` is the context, where that is not nil.
unfoldable pub orchestrate_compute_benchmark_runs {ℓ} :
    {F : Type ℓ} ⦃f : Float64 F⦄
    → Option (ℕ → Bool)
    → OrchestratorInput F
    → Outcome BenchmarkError (ComputeBenchmark F)
orchestrate_compute_benchmark_runs none input = err no_context
orchestrate_compute_benchmark_runs (some ended) input = do
  throughput ← given input.collect_throughput
  ttft ← given input.collect_ttft
  orchestrate_with ended throughput ttft input
