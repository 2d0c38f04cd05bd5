-- ===== src/Agent/Inventory/Runtimes.antt =====
-- The acceleration and AI runtimes of agent/inventory_linux.go, and the whole inventory. Whether a
-- file is there is a parameter.
pub mod Accepted
use mesh_alot.Prelude.{
  ℕ, suc, Bool, true, false, not, ◌&&◌, ◌||◌, Option, none, some, List, [], ◌∷◌, ◌++◌, is_empty,
  if◌then◌else◌, ◌==◌,
}
use mesh_alot.Prelude.Int.{ℤ, pos, leb_ℤ}
use mesh_alot.Prelude.Text.{Text, codes, trim_space}
use mesh_alot.Prelude.Text.Fields.{fields, has_prefix}
use mesh_alot.Prelude.Text.Split.{lines, contains_text, trim_prefix}
use mesh_alot.Prelude.Time.{Instant}
use mesh_alot.Prelude.Float.{Float64}
use mesh_alot.Protocol.{inventory_schema_version}
use mesh_alot.Agent.Network.{Command, Runner}
use mesh_alot.Agent.Inventory.{
  Matching, OperatingSystemInventory, CpuInventory, detect_linux_os, detect_linux_cpu,
  detect_linux_memory,
}
use mesh_alot.Agent.Inventory.Gpus.{GpuInventory}
use mesh_alot.Agent.Inventory.Gpus.Merge.{detect_linux_gpus}
use mesh_alot.Agent.Inventory.Models.{ModelInventory, WalkEntry, detect_linux_models}

-- `AccelerationRuntime` and `AIRuntimeInventory`, which have the same fields.
pub record RuntimeInventory : Type 0 where
  pub name : Text
  pub version : Text
  pub status : Text

-- The rest of the first line with this label.
abbrev pub labelled : Text → List Text → Text
labelled label [] = []
labelled label (line ∷ rest) =
    let later = labelled label rest in
    if has_prefix (trim_space line) label
    then trim_space (trim_prefix (trim_space line) label)
    else later

abbrev pub vulkan : Option Text → List RuntimeInventory
vulkan none = []
vulkan (some out) =
    record {
      name = codes "Vulkan";
      version = labelled (codes "Vulkan Instance Version:") (lines out);
      status = codes "available";
    }
    ∷ []

abbrev pub cuda : Option Text → List RuntimeInventory
cuda none = []
cuda (some out) =
    if is_empty (trim_space out)
    then []
    else record { name = codes "CUDA"; version = []; status = codes "available" } ∷ []

abbrev pub rocm : Option Text → List RuntimeInventory
rocm none = []
rocm (some out) = record { name = codes "ROCm"; version = []; status = codes "available" } ∷ []

abbrev sycl_status : (Text → Text) → Option Text → Text
sycl_status lower none = codes "installed_unavailable"
sycl_status lower (some out) =
    if contains_text (lower out) (codes "no platforms found") || is_empty (trim_space out)
    then codes "installed_unavailable"
    else codes "available"

abbrev pub sycl_ls : Text
sycl_ls = codes "/opt/intel/oneapi/compiler/latest/bin/sycl-ls"

abbrev pub sycl : Bool → (Text → Text) → Option Text → List RuntimeInventory
sycl false lower out = []
sycl true lower out =
    record { name = codes "SYCL"; version = []; status = sycl_status lower out } ∷ []

unfoldable pub accelerations :
    (Text → Text)
    → Bool
    → Option Text
    → Option Text
    → Option Text
    → Option Text
    → List RuntimeInventory
accelerations lower present a b c d = vulkan a ++ (cuda b ++ (rocm c ++ sycl present lower d))

unfoldable pub detect_linux_acceleration :
    (Text → Text) → Runner → (Text → Bool) → List RuntimeInventory
detect_linux_acceleration lower run stat =
    accelerations lower (stat sycl_ls)
      (run 7 (record { program = codes "vulkaninfo"; arguments = codes "--summary" ∷ [] }))
      (run 8 (record {
        program = codes "nvidia-smi";
        arguments = codes "--query-gpu=driver_version" ∷ codes "--format=csv,noheader" ∷ [];
      }))
      (run 9 (record { program = codes "rocminfo"; arguments = [] }))
      (run 10 (record { program = sycl_ls; arguments = [] }))

-- A version is what the pattern of `parseTrailingVersion` matches the beginning of.
abbrev pub last_version : (Text → Bool) → List Text → Text → Text
last_version is_version [] found = found
last_version is_version (x ∷ xs) found =
    last_version is_version xs (if is_version x then trim_space x else found)

abbrev pub ollama : (Text → Bool) → Option Text → List RuntimeInventory
ollama is_version none = []
ollama is_version (some out) =
    record {
      name = codes "Ollama";
      version = last_version is_version (fields out) [];
      status = codes "available";
    }
    ∷ []

-- A command's output is read even when it failed, so this one has both.
pub record Answer : Type 0 where
  pub output : Text
  pub failed : Bool

abbrev llama : Answer → RuntimeInventory
llama a = record {
  name = codes "llama.cpp";
  version = labelled (codes "version:") (lines a.output);
  status = if a.failed then codes "installed_unavailable" else codes "available";
}

-- One candidate: the first one that is there is the entry, and a later one that works replaces it.
abbrev pub next_llama : Option Answer → Option RuntimeInventory → Option RuntimeInventory
next_llama none seen = seen
next_llama (some a) none = some (llama a)
next_llama (some a) (some entry) = if a.failed then some entry else some (llama a)

abbrev pub present_llama : Option RuntimeInventory → List RuntimeInventory
present_llama none = []
present_llama (some entry) = entry ∷ []

unfoldable pub ai_runtimes_of :
    (Text → Bool) → Option Text → Option RuntimeInventory → List RuntimeInventory
ai_runtimes_of is_version version entry = ollama is_version version ++ present_llama entry

-- The candidates, each with its answer if it is there.
unfoldable pub detect_linux_ai_runtimes :
    (Text → Bool) → Runner → Option Answer → Option Answer → Option Answer → List RuntimeInventory
detect_linux_ai_runtimes is_version run build build_sycl build_vulkan =
    ai_runtimes_of is_version
      (run 11 (record { program = codes "ollama"; arguments = codes "--version" ∷ [] }))
      (next_llama build_vulkan (next_llama build_sycl (next_llama build none)))

pub record Inventory : Type 0 where
  pub schema_version : Text
  pub collected_at : Instant
  pub os : OperatingSystemInventory
  pub cpu : CpuInventory
  pub memory : ℕ
  pub gpus : List GpuInventory
  pub acceleration : List RuntimeInventory
  pub ai_runtimes : List RuntimeInventory
  pub models : List ModelInventory

-- What the machine answers: programs, files, directories and candidates.
pub record Machine : Type 0 where
  pub now : Instant
  pub architecture : Text
  pub num_cpu : ℤ
  pub run : Runner
  pub read_file : Text → Option Text
  pub stat : Text → Bool
  pub is_version : Text → Bool
  pub build : Option Answer
  pub build_sycl : Option Answer
  pub build_vulkan : Option Answer
  pub hub : List WalkEntry
  pub cache : List WalkEntry
  pub home_models : List WalkEntry

module _ {ℓ} {F : Type ℓ} ⦃f : Float64 F⦄ (m : Matching) (upper : Text → Text)
    (parse_float : Text → Option F) where
  abbrev pub gathered : Machine → Inventory
  gathered c = record {
    schema_version = inventory_schema_version;
    collected_at = c.now;
    os = detect_linux_os c.architecture c.run c.read_file;
    cpu = detect_linux_cpu c.num_cpu c.run;
    memory = detect_linux_memory c.read_file;
    gpus = detect_linux_gpus m c.run;
    acceleration = detect_linux_acceleration m.lower c.run c.stat;
    ai_runtimes = detect_linux_ai_runtimes c.is_version c.run c.build c.build_sycl c.build_vulkan;
    models = detect_linux_models m upper parse_float c.run c.hub c.cache c.home_models;
  }

  -- `collectHardwareInventoryLinux`, with whether it returns an error beside the inventory.
  unfoldable pub collect_hardware_inventory_linux : Machine → Inventory × Bool
  collect_hardware_inventory_linux c =
      let inv = gathered c in
      (inv, is_empty inv.os.name || leb_ℤ inv.cpu.logical_cores (pos 0) || inv.memory == 0)
