-- ===== src/Protocol.antt =====
-- The wire types of protocol/v1: what an agent signs and submits. JSON itself is not modelled; a
-- `float64` is a value of the type parameter, a pointer is an `Option`, a time an `Instant`.
pub mod Domains
mod Examples
use mesh_alot.Prelude.{ℕ, Bool, Option, List, [], ◌∷◌, ◌++◌}
use mesh_alot.Prelude.Int.{ℤ}
use mesh_alot.Prelude.Text.{Text, codes}
use mesh_alot.Prelude.Time.{Instant}

pub record ComputeBenchmarkSample {ℓ} (F : Type ℓ) : Type ℓ where
  pub run : ℤ
  pub prompt_tokens : ℤ
  pub generated_tokens : ℤ
  pub prompt_tokens_per_second : F
  pub generation_tokens_per_second : F
  pub time_to_first_token_ms : F
  pub peak_system_ram_bytes : ℕ
  pub peak_vram_bytes : Option ℕ
  pub temperature_celsius : Option F
  pub throttled : Option Bool
  pub success : Bool
  pub error : Text

pub record ComputeBenchmark {ℓ} (F : Type ℓ) : Type ℓ where
  pub schema_version : Text
  pub collected_at : Instant
  pub workload_id : Text
  pub condition : Text
  pub runtime : Text
  pub runtime_version : Text
  pub model : Text
  pub quantization : Text
  pub context_size : ℤ
  pub samples : List (ComputeBenchmarkSample F)

pub record NetworkBenchmark {ℓ} (F : Type ℓ) : Type ℓ where
  pub schema_version : Text
  pub collected_at : Instant
  pub ipv4_available : Bool
  pub ipv6_available : Bool
  pub download_mbps : F
  pub upload_mbps : F
  pub latency_ms : F
  pub jitter_ms : F
  pub packet_loss_percent : F
  pub preferred_path : Text

-- Of the inventory, what the server looks at: the entries of its four lists are only counted.
pub record HardwareInventory : Type 0 where
  pub schema_version : Text
  pub collected_at : Instant
  pub os_name : Text
  pub cpu_model : Text
  pub cpu_logical_cores : ℤ
  pub memory_total_bytes : ℕ
  pub gpus : List Text
  pub acceleration : List Text
  pub ai_runtimes : List Text
  pub models : List Text

-- The three submissions are one record, over what they carry.
pub record Submission {ℓ} (B : Type ℓ) : Type ℓ where
  pub version : Text
  pub node_id : Text
  pub report_id : Text
  pub signed_at : Instant
  pub benchmark : B

abbrev pub compute_schema_version : Text
compute_schema_version = codes "m9-v1"

abbrev pub compute_submission_version : Text
compute_submission_version = codes "m9-v1"

abbrev pub network_schema_version : Text
network_schema_version = codes "m8-v1"

abbrev pub network_submission_version : Text
network_submission_version = codes "m8-v1"

abbrev pub inventory_schema_version : Text
inventory_schema_version = codes "m7-v1"

abbrev pub inventory_submission_version : Text
inventory_submission_version = codes "m7-v1"

-- SHA-256 in hexadecimal is a parameter.
module _ (digest : Text → Text) where
  unfoldable pub inventory_signing_message : Text → Text
  inventory_signing_message body =
      codes "MESHALOT-M7-INVENTORY"
      ++ (codes "\nPOST\n" ++ (codes "/v1/agent/inventory" ++ (codes "\n" ++ digest body)))

  unfoldable pub network_signing_message : Text → Text
  network_signing_message body =
      codes "MESHALOT-M8-NETWORK-BENCHMARK"
      ++ (codes "\nPOST\n" ++ (codes "/v1/agent/network-benchmark" ++ (codes "\n" ++ digest body)))

  unfoldable pub compute_signing_message : Text → Text
  compute_signing_message body =
      codes "MESHALOT-M9-COMPUTE-BENCHMARK"
      ++ (codes "\nPOST\n" ++ (codes "/v1/agent/compute-benchmark" ++ (codes "\n" ++ digest body)))

-- A status is one of the two that the server writes.
pub data NodeStatus : Type 0 where
  enrolled online : NodeStatus

pub record Node : Type 0 where
  pub node_id : Text
  pub agent_version : Text
  pub status : NodeStatus
  pub mode : Text
  pub last_heartbeat : Instant

pub record EnrollRequest : Type 0 where
  pub node_id : Text
  pub agent_version : Text
  pub enrollment_token : Text

pub record HeartbeatRequest : Type 0 where
  pub node_id : Text
  pub mode : Text
  pub observed_at : Instant
