-- ===== src/Agent/Inventory/Gpus/Merge.antt =====
-- The processors that three programs list, merged as in agent/inventory_linux.go.
use mesh_alot.Prelude.{
  Bool, ◌&&◌, ◌||◌, Option, none, some, List, [], ◌∷◌, length, ◌==◌, if◌then◌else◌,
}
use mesh_alot.Prelude.Text.{Text, codes, text_eq}
use mesh_alot.Prelude.Text.Split.{lines}
use mesh_alot.Agent.Network.{Runner}
use mesh_alot.Agent.Inventory.{Matching, first_non_empty}
use mesh_alot.Agent.Inventory.Gpus.{
  GpuInventory, shared_if_integrated, same_model, same_gpu, normalize_gpu_model,
}
use mesh_alot.Agent.Inventory.Gpus.Programs.{
  NvidiaLine, nvidia_line, parse_vulkan_summary, parse_lspci_gpus,
}

abbrev pub as_discrete : NvidiaLine → GpuInventory → GpuInventory
as_discrete n gpu = record gpu {
  vendor = codes "NVIDIA";
  model = n.model;
  device_type = codes "discrete";
  memory_type = codes "dedicated";
  usable_vram_bytes = some n.bytes;
  driver_name = codes "NVIDIA";
  driver_version = n.driver;
}

abbrev pub unlisted_nvidia : NvidiaLine → GpuInventory
unlisted_nvidia n = record {
  vendor = codes "NVIDIA";
  model = n.model;
  device_type = codes "discrete";
  memory_type = codes "dedicated";
  usable_vram_bytes = some n.bytes;
  kernel_driver = [];
  driver_name = codes "NVIDIA";
  driver_version = n.driver;
}

module _ (m : Matching) where
  open m use {equal_fold}

  abbrev pub physical : List GpuInventory → List GpuInventory
  physical [] = []
  physical (d ∷ ds) =
      let rest = physical ds in if text_eq d.device_type (codes "cpu") then rest else d ∷ rest

  abbrev pub with_vulkan : GpuInventory → GpuInventory → GpuInventory
  with_vulkan dev gpu =
      let kind = first_non_empty (dev.device_type ∷ gpu.device_type ∷ []) in
      record gpu {
        model = first_non_empty (dev.model ∷ gpu.model ∷ []);
        device_type = kind;
        memory_type = shared_if_integrated kind gpu.memory_type;
        driver_name = dev.driver_name;
        driver_version = dev.driver_version;
      }

  -- The first card that is the device, or `alone`, takes what the device says; otherwise it is new.
  unfoldable pub merge_device : Bool → GpuInventory → List GpuInventory → List GpuInventory
  merge_device alone dev [] = dev ∷ []
  merge_device alone dev (gpu ∷ gpus) =
      let rest = merge_device alone dev gpus in
      if alone || same_gpu m gpu dev then with_vulkan dev gpu ∷ gpus else gpu ∷ rest

  unfoldable pub merge_devices : Bool → List GpuInventory → List GpuInventory → List GpuInventory
  merge_devices single [] gpus = gpus
  merge_devices single (dev ∷ devs) gpus =
      merge_devices single devs (merge_device (length gpus == 1 && single) dev gpus)

  unfoldable pub merge_nvidia : NvidiaLine → List GpuInventory → List GpuInventory
  merge_nvidia n [] = unlisted_nvidia n ∷ []
  merge_nvidia n (gpu ∷ gpus) =
      let rest = merge_nvidia n gpus in
      if equal_fold gpu.vendor (codes "NVIDIA")
        && same_model (normalize_gpu_model m gpu.model) (normalize_gpu_model m n.model)
      then as_discrete n gpu ∷ gpus
      else gpu ∷ rest

  abbrev merge_line : Option NvidiaLine → List GpuInventory → List GpuInventory
  merge_line none gpus = gpus
  merge_line (some n) gpus = merge_nvidia n gpus

  unfoldable pub merge_nvidia_smi : List Text → List GpuInventory → List GpuInventory
  merge_nvidia_smi [] gpus = gpus
  merge_nvidia_smi (line ∷ rest) gpus = merge_nvidia_smi rest (merge_line (nvidia_line line) gpus)

  abbrev listed_gpus : Option Text → List GpuInventory
  listed_gpus none = []
  listed_gpus (some out) = parse_lspci_gpus m out

  abbrev and_vulkan : Option Text → List GpuInventory → List GpuInventory
  and_vulkan none gpus = gpus
  and_vulkan (some out) gpus =
      let devices = physical (parse_vulkan_summary m out) in
      merge_devices (length devices == 1) devices gpus

  abbrev and_nvidia : Option Text → List GpuInventory → List GpuInventory
  and_nvidia none gpus = gpus
  and_nvidia (some out) gpus = merge_nvidia_smi (lines out) gpus

  unfoldable pub detect_linux_gpus : Runner → List GpuInventory
  detect_linux_gpus run =
      and_nvidia
        (run 5 (record {
          program = codes "nvidia-smi";
          arguments =
              codes "--query-gpu=name,memory.total,driver_version"
              ∷ codes "--format=csv,noheader,nounits"
              ∷ [];
        }))
        (and_vulkan
          (run 4 (record { program = codes "vulkaninfo"; arguments = codes "--summary" ∷ [] }))
          (listed_gpus (run 3 (record { program = codes "lspci"; arguments = codes "-nnk" ∷ [] }))))
