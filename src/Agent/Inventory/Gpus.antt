-- ===== src/Agent/Inventory/Gpus.antt =====
-- The graphics processors of agent/inventory_linux.go: their models and vendors.
pub mod Programs
pub mod Merge
pub mod Twins
use mesh_alot.Prelude.{
  ℕ, zero, suc, ◌*◌, ◌^◌, ◌%◌, Bool, true, false, not, ◌&&◌, ◌||◌, Option, none, some, List, [],
  ◌∷◌, ◌++◌, length, is_empty, ltb, leb, ◌==◌, if◌then◌else◌,
}
use mesh_alot.Prelude.Text.{Text, codes, text_eq, trim_space}
use mesh_alot.Prelude.Text.Fields.{fields, has_prefix}
use mesh_alot.Prelude.Text.Split.{
  lines, split, cut, contains_text, trim_prefix, trim_suffix, parse_uint,
}
use mesh_alot.Agent.Network.{Command, Runner}
use mesh_alot.Agent.Inventory.{Matching, first_non_empty, Values, value_of}

pub record GpuInventory : Type 0 where
  pub vendor : Text
  pub model : Text
  pub device_type : Text
  pub memory_type : Text
  pub usable_vram_bytes : Option ℕ
  pub kernel_driver : Text
  pub driver_name : Text
  pub driver_version : Text

-- A space for each bracket, parenthesis, dash and underscore.
abbrev pub spaced : Text → Text
spaced [] = []
spaced (x ∷ xs) =
    let rest = spaced xs in
    if x == b'[' || x == b']' || x == b'(' || x == b')' || x == b'-' || x == b'_'
    then b' ' ∷ rest
    else x ∷ rest

abbrev pub is_one_of : Text → List Text → Bool
is_one_of t [] = false
is_one_of t (x ∷ xs) = text_eq t x || is_one_of t xs

abbrev ignored : List Text
ignored =
    codes "nvidia"
    ∷ codes "corporation"
    ∷ codes "geforce"
    ∷ codes "intel"
    ∷ codes "advanced"
    ∷ codes "micro"
    ∷ codes "devices"
    ∷ codes "amd"
    ∷ codes "graphics"
    ∷ []

abbrev pub kept_fields : List Text → List Text
kept_fields [] = []
kept_fields (x ∷ xs) = let rest = kept_fields xs in if is_one_of x ignored then rest else x ∷ rest

abbrev pub joined : List Text → Text
joined [] = []
joined (x ∷ []) = x
joined (x ∷ (y ∷ rest)) = x ++ (codes " " ++ joined (y ∷ rest))

abbrev pub shared_if_integrated : Text → Text → Text
shared_if_integrated device_type other =
    if text_eq device_type (codes "integrated") then codes "shared" else other

unfoldable pub same_model : Text → Text → Bool
same_model a b = not (is_empty a) && not (is_empty b) && (contains_text a b || contains_text b a)

module _ (m : Matching) where
  open m use {lower}

  unfoldable pub normalize_gpu_model : Text → Text
  normalize_gpu_model value = joined (kept_fields (fields (lower (spaced value))))

  unfoldable pub same_gpu : GpuInventory → GpuInventory → Bool
  same_gpu a b = same_model (normalize_gpu_model a.model) (normalize_gpu_model b.model)

  unfoldable pub vendor_from_text : Text → Text
  vendor_from_text value =
      let text = lower value in
      if contains_text text (codes "intel")
      then codes "Intel"
      else if contains_text text (codes "nvidia")
      then codes "NVIDIA"
      else if contains_text text (codes "amd")
          || contains_text text (codes "advanced micro devices")
          || contains_text text (codes "ati")
      then codes "AMD"
      else codes "Unknown"
