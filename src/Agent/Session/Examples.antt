-- ===== src/Agent/Session/Examples.antt =====
-- A session whose server is healthy in its third round and whose runs all fail.
use mesh_alot.Prelude.{
  ℕ, ◌+◌, ◌*◌, ◌≡◌, true, false, none, some, [], arith, ltb, leb, if◌then◌else◌,
}
use mesh_alot.Prelude.Int.{pos}
use mesh_alot.Prelude.Text.{codes}
use mesh_alot.Prelude.Float.{Thousandths, thousandths_float}
use mesh_alot.Agent.Benchmark.{LlamaBenchThroughput}
use mesh_alot.Agent.BenchmarkServer.{Poll, polled, context_done}
use mesh_alot.Agent.Session.{
  RunWorld, ExecutionOptions, SessionResult, execute_linux_compute_benchmark,
}
use mesh_alot.Agent.Session.Cleanup.{IsStopped, IsSound, session_stops}

abbrev rounds : ℕ → Poll
rounds k = record {
  healthy = leb 2 k;
  selected = if ltb k 720 then polled else context_done;
  at = 250 * k;
}

abbrev nothing_measured : LlamaBenchThroughput Thousandths
nothing_measured = record {
  runtime_version = [];
  model_filename = [];
  model_type = [];
  backend = [];
  prompt_tokens = pos 0;
  generated_tokens = pos 0;
  prompt_tokens_per_second = [];
  generation_tokens_per_second = [];
}

abbrev failing : RunWorld ℕ Thousandths
failing = record {
  collect_run = λ n bench model. (
    record {
      throughput = nothing_measured;
      peak_system_ram = 0;
      temperature_celsius = none;
      throttled = none;
    },
    some (codes "exit status 1"),
  );
  web = record {
    parse_url = λ t. some (record {
      scheme = codes "http";
      host = codes "127.0.0.1:18190";
      hostname = codes "127.0.0.1";
      path = [];
      raw_query = [];
      fragment = [];
      has_user = false;
    });
    lower = λ t. t;
    encode = λ r. some r.prompt;
    decode = λ t. none;
    makes_request = λ t. true;
  };
  client = λ address body at. none;
  clock = λ at. (pos at, at + 1);
  world = λ n. n;
  message = λ e. codes "no first token";
}

abbrev options : ExecutionOptions
options = record {
  collected_at = pos 9;
  condition = codes "idle";
  quantization = codes "Q4_K_M";
  llama_bench_path = codes "/bin/llama-bench";
  llama_server_path = codes "/bin/llama-server";
  model_path = codes "/m.gguf";
}

session_stops_example :
    (s : SessionResult Thousandths) × (execute_linux_compute_benchmark 721
        (some (λ n. false))
        failing
        true
        rounds
        false
        true
        options
      ≡ some s)
    × IsStopped false true s
    × IsSound s
session_stops_example =
    session_stops (λ n. false) failing options true true rounds false (λ i h. ground arith)
