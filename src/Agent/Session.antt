-- ===== src/Agent/Session.antt =====
-- One benchmark session on Linux: agent/compute_benchmark_session_linux.go, and
-- agent/compute_benchmark_orchestrate_linux.go, which joins the collectors of its runs. What a run
-- measures, the answers of the server and the clock are parameters, numbered by the run.
pub mod Cleanup
mod Examples
use mesh_alot.Prelude.{
  ℕ, Bool, true, false, not, ◌&&◌, ◌||◌, Option, none, some, List, [], ◌∷◌, ◌++◌, is_empty,
  if◌then◌else◌,
}
use mesh_alot.Prelude.Int.{pos}
use mesh_alot.Prelude.Text.{Text, codes, trim_space}
use mesh_alot.Prelude.Time.{Instant, Duration, is_zero}
use mesh_alot.Prelude.Float.{Float64}
use mesh_alot.Prelude.Outcome.{Outcome, ok, err, ◌>>=◌, ◌>>◌, guard}
use mesh_alot.Protocol.{ComputeBenchmark}
use mesh_alot.Agent.Benchmark.{LlamaBenchThroughput, RunTelemetry, BenchmarkError, llama_bench_args}
use mesh_alot.Agent.Benchmark.Orchestrate.{
  OrchestratorInput, ThroughputCollector, TtftCollector, orchestrate_compute_benchmark_runs,
}
use mesh_alot.Agent.BenchmarkServer.{
  ServerError, Poll, Effect, Server, stop, benchmark_server_command, start_benchmark_server,
}
use mesh_alot.Agent.Telemetry.{LlamaBenchRunResult}
use mesh_alot.Agent.Ttft.{
  TtftError, Client, Clock, Web, validate_local_base_url, measure_llama_server_ttft,
}

pub data SessionError : Type 0 where
  no_session_context no_collected_at no_condition no_quantization no_llama_bench : SessionError
  from_benchmark : BenchmarkError → SessionError
  from_server : ServerError → SessionError
  from_ttft : TtftError → SessionError

-- `LinuxComputeBenchmarkExecutionOptions`
pub record ExecutionOptions : Type 0 where
  pub collected_at : Instant
  pub condition : Text
  pub quantization : Text
  pub llama_bench_path : Text
  pub llama_server_path : Text
  pub model_path : Text

-- What the runs meet: the measures of a run of llama-bench or the text of its error; the client, the
-- clock and, for each run, the world in which its request begins; and the texts of errors.
pub record RunWorld {ℓ} (W : Type 0) (F : Type ℓ) : Type ℓ where
  pub collect_run : ℕ → Text → Text → LlamaBenchRunResult F × Option Text
  pub web : Web
  pub client : Client W
  pub clock : Clock W
  pub world : ℕ → W
  pub message : TtftError → Text

abbrev pub lifted {κ} :
    {E : Type 0} {A : Type κ} → (E → SessionError) → Outcome E A → Outcome SessionError A
lifted wrap (err e) = err (wrap e)
lifted wrap (ok a) = ok a

abbrev pub ttft_prompt : Text
ttft_prompt = codes "MeshAlot M9 benchmark prompt"

abbrev ttft_answer : (TtftError → Text) → Outcome TtftError Duration → Duration × Option Text
ttft_answer message (err e) = (pos 0, some (message e))
ttft_answer message (ok d) = (d, none)

module _ {ℓ} {W : Type 0} {F : Type ℓ} where
  unfoldable pub throughput_collector : RunWorld W F → Text → Text → ThroughputCollector F
  throughput_collector w bench_path model_path n =
      let (result, error) = w.collect_run n bench_path model_path in
      (
        (
          result.throughput,
          record {
            time_to_first_token = pos 0;
            peak_system_ram = result.peak_system_ram;
            peak_vram_bytes = none;
            temperature_celsius = result.temperature_celsius;
            throttled = result.throttled;
          },
        ),
        error,
      )

  unfoldable pub ttft_collector : RunWorld W F → Text → TtftCollector
  ttft_collector w base_url n = ttft_answer w.message (
      measure_llama_server_ttft w.web (some w.client) (some w.clock) base_url ttft_prompt
        (w.world n))

-- What a session ends with: its benchmark, the errors that `errors.Join` joins, and what was done
-- to the process of the server.
pub record SessionResult {ℓ} (F : Type ℓ) : Type ℓ where
  pub benchmark : Option (ComputeBenchmark F)
  pub errors : List SessionError
  pub effects : List Effect

abbrev pub value_of {κ} : {A : Type κ} → Outcome SessionError A → Option A
value_of (err e) = none
value_of (ok a) = some a

abbrev pub errors_of {κ} : {A : Type κ} → Outcome SessionError A → List SessionError
errors_of (err e) = e ∷ []
errors_of (ok a) = []

-- The deferred stop of the server.
abbrev pub stopped_session {ℓ} :
    {F : Type ℓ} → Bool → List Effect → Outcome SessionError (ComputeBenchmark F) → SessionResult F
stopped_session ends done result = record {
  benchmark = value_of result;
  errors = errors_of result ++ errors_of (lifted from_server (stop ends).0);
  effects = done ++ (stop ends).1;
}

abbrev pub failed_session {ℓ} : {F : Type ℓ} → SessionError → List Effect → SessionResult F
failed_session e done = record { benchmark = none; errors = e ∷ []; effects = done }

-- The tests before any process starts.
unfoldable pub checked_options : ExecutionOptions → Outcome SessionError (Unit {0})
checked_options o = do
  guard (not (is_zero o.collected_at)) no_collected_at
  guard (not (is_empty (trim_space o.condition))) no_condition
  guard (not (is_empty (trim_space o.quantization))) no_quantization
  guard (not (is_empty (trim_space o.llama_bench_path))) no_llama_bench
  arguments ← lifted from_benchmark (llama_bench_args o.model_path)
  command ← lifted from_server (benchmark_server_command o.llama_server_path o.model_path)
  ok tt

module _ {ℓ} {W : Type 0} {F : Type ℓ} ⦃f : Float64 F⦄ where
  -- `orchestrateLinuxComputeBenchmark`
  unfoldable pub orchestrate_linux_compute_benchmark :
      Option (ℕ → Bool)
      → RunWorld W F
      → ExecutionOptions
      → Text
      → Outcome SessionError (ComputeBenchmark F)
  orchestrate_linux_compute_benchmark none w o base_url = err no_session_context
  orchestrate_linux_compute_benchmark (some ended) w o base_url = do
    guard (not (is_empty (trim_space o.llama_bench_path))) no_llama_bench
    arguments ← lifted from_benchmark (llama_bench_args (trim_space o.model_path))
    base ← lifted from_ttft (validate_local_base_url w.web base_url)
    lifted from_benchmark (
        orchestrate_compute_benchmark_runs (some ended) (record {
          collected_at = o.collected_at;
          condition = o.condition;
          quantization = o.quantization;
          model_path = trim_space o.model_path;
          collect_throughput =
              some
                (throughput_collector w (trim_space o.llama_bench_path) (trim_space o.model_path));
          collect_ttft = some (ttft_collector w base);
        }))

  abbrev pub with_server :
      Option (ℕ → Bool)
      → RunWorld W F
      → ExecutionOptions
      → Bool
      → Outcome ServerError Server × List Effect
      → SessionResult F
  with_server context w o ends (err e, done) = failed_session (from_server e) done
  with_server context w o ends (ok server, done) =
      stopped_session ends done (orchestrate_linux_compute_benchmark context w o server.base_url)

  abbrev pub when_started :
      Option (ℕ → Bool)
      → RunWorld W F
      → ExecutionOptions
      → Bool
      → Option (Outcome ServerError Server × List Effect)
      → Option (SessionResult F)
  when_started context w o ends none = none
  when_started context w o ends (some r) = some (with_server context w o ends r)

  abbrev pub run_session :
      ℕ
      → Option (ℕ → Bool)
      → RunWorld W F
      → Bool
      → (ℕ → Poll)
      → Bool
      → Bool
      → ExecutionOptions
      → Outcome SessionError (Unit {0})
      → Option (SessionResult F)
  run_session fuel context w starts polls ended ends o (err e) = some (failed_session e [])
  run_session fuel context w starts polls ended ends o (ok _) =
      when_started context w o ends
        (start_benchmark_server fuel starts polls ended o.llama_server_path o.model_path)

  -- `executeLinuxComputeBenchmark`; `ended` and `ends` say whether the server ends by itself when it
  -- is stopped after a start that failed, and at the end of the session.
  unfoldable pub execute_linux_compute_benchmark :
      ℕ
      → Option (ℕ → Bool)
      → RunWorld W F
      → Bool
      → (ℕ → Poll)
      → Bool
      → Bool
      → ExecutionOptions
      → Option (SessionResult F)
  execute_linux_compute_benchmark fuel none w starts polls ended ends o =
      some (failed_session no_session_context [])
  execute_linux_compute_benchmark fuel (some context) w starts polls ended ends o =
      run_session fuel (some context) w starts polls ended ends o (checked_options o)
