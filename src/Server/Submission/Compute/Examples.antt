-- ===== src/Server/Submission/Compute/Examples.antt =====
-- A request to the handler of server/compute_benchmark.go.
use mesh_alot.Prelude.{
  ℕ, zero, suc, ◌≤◌, ◌<◌, ◌≡◌, refl, Bool, true, false, not, Option, none, some, [], ◌∷◌, is_empty,
  if◌then◌else◌, length, All,
}
use mesh_alot.Prelude.Int.{pos}
use mesh_alot.Prelude.Text.{Text, codes, text_eq, trim_space}
use mesh_alot.Prelude.Time.{Instant}
use mesh_alot.Prelude.Float.{Thousandths, thousandths_float}
use mesh_alot.Protocol.{
  ComputeBenchmarkSample, ComputeBenchmark, Submission, compute_submission_version,
  compute_schema_version, compute_signing_message,
}
use mesh_alot.Server.Uuid.{valid_uuid_v4, hex_value, hex_decode, remove_dashes, byte_at}
use mesh_alot.Server.Window.{outside_window}
use mesh_alot.Server.Validation.{
  validate_compute_benchmark_submission, validate_samples, bad_sample,
  finite_compute_benchmark_non_negative, valid_compute_benchmark_text,
}
use mesh_alot.Server.Validation.Samples.{IsSound, Distinct, runs}
use mesh_alot.Server.Database.{NodeRow, Database, Faults, find_node}
use mesh_alot.Server.ComputeScore.{calculate_compute_score}
use mesh_alot.Server.Submission.{
  accepted, compute_benchmark_kind, compute_benchmarks, has_report, uuid_bytes, put_row, row_of,
  inventory_public_key, insert_report, verify_signature, submit_steps, submit,
}
use mesh_alot.Server.Submission.Compute.{submit-compute_benchmark}

abbrev noon : Instant
noon = pos 63_900_000_000_000_000_000

abbrev laptop_id : Text
laptop_id = codes "0a0b0c0d-0000-4000-8000-000000000001"

abbrev sample : ComputeBenchmarkSample Thousandths
sample = record {
  run = pos 1;
  prompt_tokens = pos 512;
  generated_tokens = pos 128;
  prompt_tokens_per_second = some 45_000;
  generation_tokens_per_second = some 9_500;
  time_to_first_token_ms = some 785_000;
  peak_system_ram_bytes = 1_000;
  peak_vram_bytes = none;
  temperature_celsius = none;
  throttled = none;
  success = true;
  error = [];
}

abbrev report : Submission (ComputeBenchmark Thousandths)
report = record {
  version = compute_submission_version;
  node_id = laptop_id;
  report_id = laptop_id;
  signed_at = noon;
  benchmark = record {
    schema_version = compute_schema_version;
    collected_at = noon;
    workload_id = codes "m9-standard-v1";
    condition = codes "baseline";
    runtime = codes "llama.cpp";
    runtime_version = codes "1";
    model = codes "m.gguf";
    quantization = [];
    context_size = pos 4096;
    samples = sample ∷ [];
  };
}

abbrev zeros : ℕ → Text
zeros zero = []
zeros (suc n) = 0 ∷ zeros n

-- A key is 32 zeros, and a signature 64.
abbrev base64 : Text → Option Text
base64 t = if text_eq t (codes "key") then some (zeros 32) else some (zeros 64)

abbrev verify : Text → Text → Text → Bool
verify key message signature = not (is_empty message)

abbrev digest : Text → Text
digest t = []

abbrev decode : Text → Option (Submission (ComputeBenchmark Thousandths))
decode t = some report

abbrev marshal : ComputeBenchmark Thousandths → Option Text
marshal b = some (codes "{}")

abbrev no_fault : Faults
no_fault n = false

abbrev start : Database
start = record {
  nodes =
      record {
        id = 40;
        user_id = 7;
        node_key = laptop_id;
        agent_version = codes "0.1";
        identity_public_key = some (codes "key");
      }
      ∷ [];
  statuses = [];
  tokens = [];
  inventories = [];
  network_benchmarks = [];
  compute_benchmarks = [];
}

abbrev stored : Database
stored =
    put_row compute_benchmarks
      (row_of (10 ∷ 11 ∷ 12 ∷ 13 ∷ 0 ∷ 0 ∷ 64 ∷ 0 ∷ 128 ∷ 0 ∷ 0 ∷ 0 ∷ 0 ∷ 0 ∷ 0 ∷ 1 ∷ []) 40
        (codes "{}") (some (calculate_compute_score report.benchmark).score) noon)
      start

benchmark_accepted :
    submit base64 verify
      (compute_benchmark_kind digest decode marshal)
      true
      no_fault
      noon
      (codes "signature")
      (some (codes "1"))
      start
    ≡ (accepted, stored)
unfolding submit submit_steps inventory_public_key insert_report verify_signature has_report
    validate_compute_benchmark_submission validate_samples bad_sample
    finite_compute_benchmark_non_negative valid_compute_benchmark_text find_node text_eq trim_space
    valid_uuid_v4 hex_decode hex_value remove_dashes byte_at outside_window compute_signing_message
benchmark_accepted = refl

submit-compute_benchmark_example :
    (raw : Text) × (s : Submission (ComputeBenchmark Thousandths)) × (node : NodeRow)
    × (payload : Text) × (some (codes "1") ≡ some raw)
    × (decode raw ≡ some s)
    × (find_node s.node_id start.nodes ≡ some node)
    × (marshal s.benchmark ≡ some payload)
    × (0 < length s.benchmark.samples)
    × (length s.benchmark.samples ≤ 50)
    × All IsSound s.benchmark.samples
    × Distinct (runs s.benchmark.samples)
    × (stored
        ≡ put_row compute_benchmarks
            (row_of
              (uuid_bytes s.report_id)
              node.id
              payload
              (some (calculate_compute_score s.benchmark).score)
              noon)
            start)
submit-compute_benchmark_example =
    submit-compute_benchmark base64 verify digest decode marshal true no_fault noon
      (codes "signature") (some (codes "1")) start stored benchmark_accepted
