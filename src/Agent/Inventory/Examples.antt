-- ===== src/Agent/Inventory/Examples.antt =====
-- A small machine, and one with too many models.
use mesh_alot.Prelude.{
  ℕ, zero, suc, ◌≡◌, ◌≢◌, refl, false, Option, none, some, List, [], ◌∷◌, length, arith,
  if◌then◌else◌, ◌==◌,
}
use mesh_alot.Prelude.Int.{pos, ◌-ℤ◌}
use mesh_alot.Prelude.Text.{Text, codes, trim_space, text_eq, decimal}
use mesh_alot.Prelude.Text.Fields.{fields, has_prefix, atoi, atoi_count}
use mesh_alot.Prelude.Text.Split.{split, cut, contains_text, parse_uint}
use mesh_alot.Prelude.Time.{sub, negate}
use mesh_alot.Prelude.Float.{Thousandths, thousandths_float}
use mesh_alot.Protocol.{
  Submission, HardwareInventory, inventory_schema_version, inventory_submission_version,
}
use mesh_alot.Server.Uuid.{valid_uuid_v4, hex_value, hex_decode, remove_dashes, byte_at}
use mesh_alot.Server.Window.{outside_window}
use mesh_alot.Server.Validation.{validate_inventory_submission}
use mesh_alot.Agent.Inventory.{
  Matching, parse_os_release, os_release_loop, parse_colon_fields, colon_loop, detect_linux_os,
  detect_linux_cpu, detect_linux_memory, cpu_of, released,
}
use mesh_alot.Agent.Inventory.Gpus.{GpuInventory, same_model, normalize_gpu_model, vendor_from_text}
use mesh_alot.Agent.Inventory.Gpus.Programs.{NvidiaLine}
use mesh_alot.Agent.Inventory.Gpus.Merge.{as_discrete, merge_nvidia, detect_linux_gpus}
use mesh_alot.Agent.Inventory.Gpus.Twins.{merge_nvidia_twins}
use mesh_alot.Agent.Inventory.Models.{
  ModelInventory, Keyed, put, put_discovered, put_roots, put_ollama, discover_gguf_models,
  walk_loop, detect_linux_models,
}
use mesh_alot.Agent.Inventory.Models.Bounds.{full_models-refused}
use mesh_alot.Agent.Inventory.Runtimes.{
  Inventory, Machine, gathered, accelerations, ai_runtimes_of, detect_linux_acceleration,
  detect_linux_ai_runtimes, collect_hardware_inventory_linux,
}
use mesh_alot.Agent.Inventory.Runtimes.Accepted.{collected-valid}

abbrev matching : Matching
matching = record {
  lower = λ t. t;
  equal_fold = text_eq;
  pci_gpu = λ t. none;
  without_ids = λ t. t;
  multipart = λ t. none;
  quantization = λ t. [];
}

abbrev card : GpuInventory
card = record {
  vendor = codes "NVIDIA";
  model = codes "A40";
  device_type = codes "unknown";
  memory_type = codes "unknown";
  usable_vram_bytes = none;
  kernel_driver = [];
  driver_name = [];
  driver_version = [];
}

abbrev a40 : NvidiaLine
a40 = record { model = codes "A40"; bytes = 46_000_000_000; driver = codes "550" }

-- Of two equal cards with a line each, the second keeps no memory.
merge_nvidia_twins_example :
    merge_nvidia matching
      (record a40 { driver = codes "551" })
      (merge_nvidia matching a40 (card ∷ card ∷ []))
    ≡ as_discrete (record a40 { driver = codes "551" }) (as_discrete a40 card) ∷ card ∷ []
unfolding text_eq normalize_gpu_model fields same_model contains_text has_prefix
merge_nvidia_twins_example =
    merge_nvidia_twins matching a40 (record a40 { driver = codes "551" }) [] card (card ∷ []) refl
      refl refl tt refl

second_card :
    merge_nvidia matching a40 (merge_nvidia matching a40 (card ∷ card ∷ []))
    ≡ record card {
      device_type = codes "discrete";
      memory_type = codes "dedicated";
      usable_vram_bytes = some 46_000_000_000;
      driver_name = codes "NVIDIA";
      driver_version = codes "550";
    }
      ∷ card
      ∷ []
unfolding merge_nvidia text_eq same_model normalize_gpu_model fields contains_text has_prefix
second_card = refl

corporation : vendor_from_text matching (codes "matrox corporation") ≡ codes "AMD"
unfolding vendor_from_text contains_text has_prefix
corporation = refl

abbrev parse : Text → Option Thousandths
parse t = none

abbrev file : ModelInventory
file = record {
  name = codes "m";
  runtime = codes "llama.cpp";
  format = codes "GGUF";
  quantization = [];
  size_bytes = 5;
}

abbrev files : ℕ → Keyed ModelInventory
files zero = []
files (suc n) = (n ∷ [], file) ∷ files n

abbrev names : ℕ → List Text
names zero = []
names (suc n) = (n ∷ []) ∷ names n

abbrev machine : Machine
machine = record {
  now = pos 63_900_000_000_000_000_000;
  architecture = codes "amd64";
  num_cpu = pos 8;
  run = λ n command. if n == 2 then some (codes "Model name: X\n") else none;
  read_file = λ path.
      if text_eq path (codes "/proc/meminfo") then some (codes "MemTotal: 16 kB\n") else none;
  stat = λ path. false;
  is_version = λ t. false;
  build = none;
  build_sycl = none;
  build_vulkan = none;
  hub = [];
  cache = [];
  home_models = [];
}

abbrev inventory : Inventory
inventory = gathered matching (λ t. t) parse machine

abbrev submission : Submission HardwareInventory
submission = record {
  version = inventory_submission_version;
  node_id = codes "0a0b0c0d-0000-4000-8000-000000000001";
  report_id = codes "0a0b0c0d-0000-4000-8000-0000000000aa";
  signed_at = pos 63_900_000_000_000_000_000;
  benchmark = record {
    schema_version = inventory_schema_version;
    collected_at = pos 63_900_000_000_000_000_000;
    os_name = codes "Linux";
    cpu_model = codes "X";
    cpu_logical_cores = pos 8;
    memory_total_bytes = 16_384;
    gpus = [];
    acceleration = [];
    ai_runtimes = [];
    models = [];
  };
}

abbrev crowded : Submission HardwareInventory
crowded = record submission { benchmark = record (submission.benchmark) { models = names 201 } }

full_models-refused_example :
    (length (put_discovered matching (file ∷ []) (files 200)) ≡ 201)
    × (validate_inventory_submission crowded (pos 0) ≢ none)
unfolding put_discovered put text_eq decimal
full_models-refused_example =
    full_models-refused matching file [] (files 200) crowded (pos 0) (omega arith) refl refl

abbrev unnamed : Submission HardwareInventory
unnamed = record submission { benchmark = record (submission.benchmark) { cpu_model = [] } }

collected-valid_example :
    validate_inventory_submission submission (pos 63_900_000_000_000_000_000) ≡ none
unfolding collect_hardware_inventory_linux detect_linux_os released parse_os_release os_release_loop
    detect_linux_cpu cpu_of parse_colon_fields colon_loop detect_linux_memory detect_linux_gpus
    detect_linux_models put_roots put_discovered discover_gguf_models walk_loop put_ollama
    detect_linux_acceleration accelerations detect_linux_ai_runtimes ai_runtimes_of trim_space
    text_eq fields has_prefix split cut parse_uint atoi_count atoi valid_uuid_v4 hex_value
    hex_decode remove_dashes byte_at outside_window sub ◌-ℤ◌ negate
collected-valid_example =
    collected-valid matching (λ t. t) parse machine inventory submission
      (pos 63_900_000_000_000_000_000) refl
      (refl, refl, refl, refl, refl, refl, refl, refl, refl, refl) refl (omega arith) (omega arith)
      refl refl refl refl refl
