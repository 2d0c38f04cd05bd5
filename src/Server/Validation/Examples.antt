-- ===== src/Server/Validation/Examples.antt =====
-- Submissions that the validators of server/*_auth.go accept and refuse.
use mesh_alot.Prelude.{
  ℕ, suc, ◌+◌, ◌≤◌, ◌<◌, true, false, ◌≡◌, refl, none, some, List, [], ◌∷◌, All,
}
use mesh_alot.Prelude.Int.{pos}
use mesh_alot.Prelude.Text.{Text, codes, text_eq, trim_space}
use mesh_alot.Prelude.Time.{Instant, max_duration}
use mesh_alot.Prelude.Float.{Thousandths, thousandths_float}
use mesh_alot.Protocol.{
  ComputeBenchmarkSample, ComputeBenchmark, NetworkBenchmark, HardwareInventory, Submission,
  compute_schema_version, compute_submission_version, network_schema_version,
  network_submission_version, inventory_schema_version, inventory_submission_version,
}
use mesh_alot.Server.Uuid.{valid_uuid_v4, hex_decode, hex_value, remove_dashes, byte_at}
use mesh_alot.Server.Window.{outside_window}
use mesh_alot.Server.Validation.{
  invalid, valid_compute_benchmark_text, finite_compute_benchmark_non_negative, bad_sample,
  validate_samples, validate_inventory_submission, validate_network_benchmark_submission,
  validate_compute_benchmark_submission,
}
use mesh_alot.Server.Validation.Samples.{IsSound, Distinct, accepted_samples}
use mesh_alot.Server.Validation.Fresh.{IsFresh, accepted-IsFresh}

abbrev noon : Instant
noon = pos 63_900_000_000_000_000_000

abbrev node : Text
node = codes "0a0b0c0d-0000-4000-8000-000000000001"

abbrev good_sample : ℕ → ComputeBenchmarkSample Thousandths
good_sample n = record {
  run = pos n;
  prompt_tokens = pos 512;
  generated_tokens = pos 128;
  prompt_tokens_per_second = some 45000;
  generation_tokens_per_second = some 9500;
  time_to_first_token_ms = some 785000;
  peak_system_ram_bytes = 1000;
  peak_vram_bytes = none;
  temperature_celsius = none;
  throttled = some false;
  success = true;
  error = [];
}

abbrev compute_submission :
    List (ComputeBenchmarkSample Thousandths) → Submission (ComputeBenchmark Thousandths)
compute_submission samples = record {
  version = compute_submission_version;
  node_id = node;
  report_id = node;
  signed_at = noon;
  benchmark = record {
    schema_version = compute_schema_version;
    collected_at = noon;
    workload_id = codes "m9-standard-v1";
    condition = codes "baseline";
    runtime = codes "llama.cpp";
    runtime_version = codes "1";
    model = codes "m.gguf";
    quantization = codes "Q4";
    context_size = pos 4096;
    samples = samples;
  };
}

abbrev two_runs : Submission (ComputeBenchmark Thousandths)
two_runs = compute_submission (good_sample 1 ∷ good_sample 2 ∷ [])

abbrev network_submission : Submission (NetworkBenchmark Thousandths)
network_submission = record {
  version = network_submission_version;
  node_id = node;
  report_id = node;
  signed_at = noon;
  benchmark = record {
    schema_version = network_schema_version;
    collected_at = noon;
    ipv4_available = true;
    ipv6_available = false;
    download_mbps = some 90000;
    upload_mbps = some 40000;
    latency_ms = some 20000;
    jitter_ms = some 3000;
    packet_loss_percent = some 0;
    preferred_path = codes "ethernet";
  };
}

abbrev inventory_submission : Submission HardwareInventory
inventory_submission = record {
  version = inventory_submission_version;
  node_id = node;
  report_id = node;
  signed_at = noon;
  benchmark = record {
    schema_version = inventory_schema_version;
    collected_at = noon;
    os_name = codes "linux";
    cpu_model = codes "x";
    cpu_logical_cores = pos 8;
    memory_total_bytes = 64;
    gpus = [];
    acceleration = [];
    ai_runtimes = [];
    models = [];
  };
}

two_runs_accepted : validate_compute_benchmark_submission two_runs noon ≡ none
unfolding validate_compute_benchmark_submission validate_samples bad_sample
    finite_compute_benchmark_non_negative valid_compute_benchmark_text text_eq trim_space
    valid_uuid_v4 hex_decode hex_value remove_dashes byte_at outside_window
two_runs_accepted = refl

same_run_twice :
    validate_compute_benchmark_submission
      (compute_submission (good_sample 1 ∷ good_sample 1 ∷ []))
      noon
    ≡ some invalid
unfolding validate_compute_benchmark_submission validate_samples bad_sample
    finite_compute_benchmark_non_negative valid_compute_benchmark_text text_eq trim_space
    valid_uuid_v4 hex_decode hex_value remove_dashes byte_at outside_window
same_run_twice = refl

accepted_samples_example :
    (0 < 2)
    × (2 ≤ 50)
    × All IsSound (good_sample 1 ∷ good_sample 2 ∷ [])
    × Distinct (pos 1 ∷ pos 2 ∷ [])
accepted_samples_example = accepted_samples two_runs noon two_runs_accepted

accepted-IsFresh_example :
    (validate_inventory_submission inventory_submission noon ≡ none → IsFresh noon noon noon)
    × (validate_network_benchmark_submission network_submission noon ≡ none
        → IsFresh noon noon noon)
    × (validate_compute_benchmark_submission two_runs noon ≡ none → IsFresh noon noon noon)
accepted-IsFresh_example = accepted-IsFresh inventory_submission network_submission two_runs noon

-- About the year 2319.
abbrev far : Instant
far = pos (63_900_000_000_000_000_000 + suc max_duration)
