-- ===== src/Agent/Inventory/Gpus/Programs.antt =====
-- What `lspci`, `vulkaninfo` and `nvidia-smi` print, as agent/inventory_linux.go reads it.
use mesh_alot.Prelude.{
  ℕ, zero, suc, ◌*◌, ◌^◌, ◌%◌, Bool, true, false, not, ◌&&◌, ◌||◌, Option, none, some, List, [],
  ◌∷◌, ◌++◌, is_empty, leb, ◌==◌, if◌then◌else◌,
}
use mesh_alot.Prelude.Text.{Text, codes, trim_space}
use mesh_alot.Prelude.Text.Fields.{fields, has_prefix}
use mesh_alot.Prelude.Text.Split.{lines, split, cut, trim_prefix, trim_suffix, parse_uint}
use mesh_alot.Agent.Inventory.{Matching, first_non_empty, Values, value_of}
use mesh_alot.Agent.Inventory.Gpus.{GpuInventory, shared_if_integrated, vendor_from_text}

abbrev when_labelled : Text → Text → Text → Text
when_labelled label line other =
    if has_prefix line label then trim_space (trim_prefix line label) else other

-- What `nvidia-smi` says of a card.
pub record NvidiaLine : Type 0 where
  pub model : Text
  pub bytes : ℕ
  pub driver : Text

abbrev nvidia_fields : Text → Option ℕ → Text → Option NvidiaLine
nvidia_fields model none driver = none
nvidia_fields model (some mib) driver =
    if is_empty model
    then none
    else some (record { model = model; bytes = mib * 1024 * 1024 % 2 ^ 64; driver = driver })

abbrev nvidia_parts : List Text → Option NvidiaLine
nvidia_parts (model ∷ (memory ∷ (driver ∷ rest))) =
    nvidia_fields (trim_space model) (parse_uint (trim_space memory)) (trim_space driver)
nvidia_parts _ = none

unfoldable pub nvidia_line : Text → Option NvidiaLine
nvidia_line line = nvidia_parts (split b',' line)

-- `^GPU[0-9]+:$`
abbrev digits_colon : Text → Bool
digits_colon [] = false
digits_colon (x ∷ []) = x == b':'
digits_colon (x ∷ (y ∷ rest)) =
    let later = digits_colon (y ∷ rest) in leb b'0' x && leb x b'9' && later

abbrev gpu_number : Text → Bool
gpu_number [] = false
gpu_number (x ∷ xs) = leb b'0' x && leb x b'9' && digits_colon xs

abbrev pub is_gpu_header : Text → Bool
is_gpu_header line = has_prefix line (codes "GPU") && gpu_number (trim_prefix line (codes "GPU"))

-- `strings.ReplaceAll(s, "_gpu", "")`, with the bytes to skip
abbrev pub without_gpu : ℕ → Text → Text
without_gpu skip [] = []
without_gpu (suc k) (x ∷ xs) = without_gpu k xs
without_gpu zero (x ∷ xs) = elim (has_prefix (x ∷ xs) (codes "_gpu")) [
  | true ↦ without_gpu 3 xs
  | false ↦ x ∷ without_gpu 0 xs
]

abbrev pub put_value : Option (Text × Text) → Values → Values
put_value none values = values
put_value (some (key, value)) values = (trim_space key, trim_space value) ∷ values

module _ (m : Matching) where
  open m use {lower, equal_fold, pci_gpu, without_ids}

  -- The driver that the indented lines after a header give, of which six are looked at.
  unfoldable pub kernel_driver_of : ℕ → Text → List Text → Text
  kernel_driver_of left driver [] = driver
  kernel_driver_of zero driver (line ∷ rest) = driver
  kernel_driver_of (suc left) driver (line ∷ rest) =
      let text = trim_space line in
      let later =
        kernel_driver_of left (when_labelled (codes "Kernel driver in use:") text driver) rest in
      if is_empty text || not (has_prefix line (codes "\t") || has_prefix line (codes " "))
      then driver
      else later

  abbrev pub lspci_gpu : Text → Text → GpuInventory
  lspci_gpu device driver =
      let model = without_ids (trim_space device) in
      record {
        vendor = vendor_from_text m (trim_space model);
        model = trim_space model;
        device_type = codes "unknown";
        memory_type = codes "unknown";
        usable_vram_bytes = none;
        kernel_driver = driver;
        driver_name = [];
        driver_version = [];
      }

  abbrev add_lspci : Option Text → List Text → List GpuInventory → List GpuInventory
  add_lspci none rest gpus = gpus
  add_lspci (some device) rest gpus = lspci_gpu device (kernel_driver_of 6 [] rest) ∷ gpus

  unfoldable pub lspci_lines : List Text → List GpuInventory
  lspci_lines [] = []
  lspci_lines (line ∷ rest) = add_lspci (pci_gpu line) rest (lspci_lines rest)

  unfoldable pub parse_lspci_gpus : Text → List GpuInventory
  parse_lspci_gpus raw = lspci_lines (lines raw)

  unfoldable pub extract_mesa_version : List Text → Text
  extract_mesa_version [] = []
  extract_mesa_version (x ∷ []) = []
  extract_mesa_version (x ∷ (y ∷ rest)) =
      let later = extract_mesa_version (y ∷ rest) in
      if equal_fold x (codes "Mesa") then trim_suffix y (codes ",") else later

  -- A device of `vulkaninfo`, if it has a name.
  abbrev vulkan_gpu : Values → List GpuInventory
  vulkan_gpu values =
      let model = value_of (codes "deviceName") values in
      let kind = without_gpu 0 (
        lower
          (trim_prefix (value_of (codes "deviceType") values) (codes "PHYSICAL_DEVICE_TYPE_"))) in
      if is_empty model
      then []
      else record {
        vendor = vendor_from_text m model;
        model = model;
        device_type = kind;
        memory_type = shared_if_integrated kind (codes "unknown");
        usable_vram_bytes = none;
        kernel_driver = [];
        driver_name = value_of (codes "driverName") values;
        driver_version = first_non_empty (
            extract_mesa_version (fields (value_of (codes "driverInfo") values))
            ∷ value_of (codes "driverVersion") values
            ∷ []);
      }
        ∷ []

  abbrev flushed : Option Values → List GpuInventory
  flushed none = []
  flushed (some values) = vulkan_gpu values

  abbrev put_line : Text → Option Values → Option Values
  put_line line none = none
  put_line line (some values) = some (put_value (cut b'=' line) values)

  -- The devices from here on, after the values of the device that the lines are in.
  unfoldable pub vulkan_lines : Option Values → List Text → List GpuInventory
  vulkan_lines open_device [] = flushed open_device
  vulkan_lines open_device (line ∷ rest) = elim (is_gpu_header (trim_space line)) [
    | true ↦ flushed open_device ++ vulkan_lines (some []) rest
    | false ↦ vulkan_lines (put_line line open_device) rest
  ]

  unfoldable pub parse_vulkan_summary : Text → List GpuInventory
  parse_vulkan_summary raw = vulkan_lines none (lines raw)
