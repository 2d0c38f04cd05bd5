-- ===== src/Agent/Inventory/Models.antt =====
-- The models that agent/inventory_linux.go finds: those of Ollama and the GGUF files below three
-- directories. A directory is the entries of its walk, a parameter.
pub mod Bounds
use mesh_alot.Prelude.{
  ℕ, zero, suc, ◌+◌, ◌^◌, ◌%◌, Bool, true, false, not, ◌&&◌, ◌||◌, Option, none, some, List, [],
  ◌∷◌, ◌++◌, length, is_empty, ltb, leb, ◌==◌, if◌then◌else◌,
}
use mathlib.Core.List.{reverse}
use mesh_alot.Prelude.Int.{pos, pos_part}
use mesh_alot.Prelude.Text.{Text, codes, text_eq, trim_space, decimal}
use mesh_alot.Prelude.Text.Fields.{fields, has_prefix}
use mesh_alot.Prelude.Text.Split.{lines, trim_suffix}
use mesh_alot.Prelude.Float.{Float64}
use mesh_alot.Agent.Network.{Command, Runner}
use mesh_alot.Agent.Inventory.{Matching}

pub record ModelInventory : Type 0 where
  pub name : Text
  pub runtime : Text
  pub format : Text
  pub quantization : Text
  pub size_bytes : ℕ

-- An entry of a walk: how deep it lies, and its size if it is a regular file, or a link to one inside
-- the directory that is walked.
pub record WalkEntry : Type 0 where
  pub name : Text
  pub is_dir : Bool
  pub depth : ℕ
  pub size : Option ℕ

abbrev pub max_discovered_models : ℕ
max_discovered_models = 200

abbrev pub max_model_walk_depth : ℕ
max_model_walk_depth = 6

abbrev extension_after : Text → Text → Text
extension_after seen [] = []
extension_after seen (x ∷ xs) =
    let rest = extension_after (x ∷ seen) xs in
    if x == b'.' then b'.' ∷ reverse seen else if x == b'/' then [] else rest

-- `filepath.Ext`
unfoldable pub extension : Text → Text
extension name = extension_after [] (reverse name)

-- An entry of a Go map is found by its key, and takes the place of the one before.
abbrev pub Keyed {ℓ} : Type ℓ → Type ℓ
Keyed A = List (Text × A)

unfoldable pub put {ℓ} : {A : Type ℓ} → Text → A → Keyed A → Keyed A
put key a [] = (key, a) ∷ []
put key a ((k, b) ∷ rest) =
    let later = put key a rest in if text_eq k key then (k, a) ∷ rest else (k, b) ∷ later

abbrev pub get {ℓ} : {A : Type ℓ} → Text → Keyed A → Option A
get key [] = none
get key ((k, b) ∷ rest) = let later = get key rest in if text_eq k key then some b else later

abbrev pub values {ℓ} : {A : Type ℓ} → Keyed A → List A
values [] = []
values ((k, a) ∷ rest) = a ∷ values rest

-- The byte order of Go's strings.
abbrev pub text_lt : Text → Text → Bool
text_lt s [] = false
text_lt [] (y ∷ ys) = true
text_lt (x ∷ xs) (y ∷ ys) =
    let rest = text_lt xs ys in if ltb x y then true else if ltb y x then false else rest

abbrev pub model_lt : ModelInventory → ModelInventory → Bool
model_lt a b =
    if text_eq a.runtime b.runtime then text_lt a.name b.name else text_lt a.runtime b.runtime

abbrev pub insert_model : ModelInventory → List ModelInventory → List ModelInventory
insert_model x [] = x ∷ []
insert_model x (y ∷ ys) =
    let rest = insert_model x ys in if model_lt y x then y ∷ rest else x ∷ (y ∷ ys)

-- `sort.Slice`, in one of the orders that it may leave equal models in.
abbrev pub sort_models : List ModelInventory → List ModelInventory
sort_models [] = []
sort_models (x ∷ xs) = insert_model x (sort_models xs)

module _ {ℓ} {F : Type ℓ} ⦃f : Float64 F⦄ (upper : Text → Text)
    (parse_float : Text → Option F) where
  open f use {lit, lt, mul, truncate}

  abbrev multiplier : Text → Option F
  multiplier unit =
      if text_eq unit (codes "KB")
      then some (lit (pos 1_000))
      else if text_eq unit (codes "MB")
      then some (lit (pos 1_000_000))
      else if text_eq unit (codes "GB")
      then some (lit (pos 1_000_000_000))
      else if text_eq unit (codes "TB")
      then some (lit (pos 1_000_000_000_000))
      else none

  abbrev scaled : Option F → Option F → Option ℕ
  scaled none m = none
  scaled (some v) none = none
  scaled (some v) (some m) =
      if lt v (lit (pos 0)) then none else some (pos_part (truncate (mul v m)) % 2 ^ 64)

  unfoldable pub parse_human_bytes : Text → Text → Option ℕ
  parse_human_bytes value unit = scaled (parse_float value) (multiplier (upper unit))

  abbrev size_of : Option ℕ → ℕ
  size_of none = 0
  size_of (some n) = n

  abbrev ollama_size : List Text → ℕ
  ollama_size (a ∷ (b ∷ (value ∷ (unit ∷ rest)))) = size_of (parse_human_bytes value unit)
  ollama_size _ = 0

  abbrev ollama_model : List Text → List ModelInventory
  ollama_model [] = []
  ollama_model (name ∷ rest) =
      record {
        name = name;
        runtime = codes "Ollama";
        format = codes "ollama";
        quantization = [];
        size_bytes = ollama_size (name ∷ rest);
      }
      ∷ []

  unfoldable pub ollama_lines : List Text → List ModelInventory
  ollama_lines [] = []
  ollama_lines (line ∷ rest) = ollama_model (fields line) ++ ollama_lines rest

  abbrev without_header : List Text → List Text
  without_header [] = []
  without_header (line ∷ rest) =
      if has_prefix (trim_space line) (codes "NAME") then rest else line ∷ rest

  unfoldable pub parse_ollama_list : Text → List ModelInventory
  parse_ollama_list raw = ollama_lines (without_header (lines raw))

abbrev pub ollama_models {ℓ} :
    {F : Type ℓ} ⦃f : Float64 F⦄
    → (Text → Text)
    → (Text → Option F)
    → Option Text
    → List ModelInventory
ollama_models upper parse_float none = []
ollama_models upper parse_float (some out) = parse_ollama_list upper parse_float out

abbrev pub ollama_list : Command
ollama_list = record { program = codes "ollama"; arguments = codes "list" ∷ [] }

module _ (m : Matching) where
  open m use {lower, equal_fold, multipart, quantization}

  abbrev group_name : Text → Option Text → Text
  group_name name none = name
  group_name name (some base) = base ++ codes ".gguf"

  abbrev added : Text → ℕ → Option (Text × ℕ) → Text × ℕ
  added name size none = (name, size % 2 ^ 64)
  added name size (some (first, total)) = (first, (total + size) % 2 ^ 64)

  abbrev group_file : Text → ℕ → Keyed (Text × ℕ) → Keyed (Text × ℕ)
  group_file name size groups =
      let key = lower name in put key (added name size (get key groups)) groups

  abbrev walked : WalkEntry → Option ℕ → Keyed (Text × ℕ) → Keyed (Text × ℕ)
  walked e none groups = groups
  walked e (some size) groups =
      if e.is_dir
        || ltb max_model_walk_depth e.depth
        || not (equal_fold (extension e.name) (codes ".gguf"))
        || has_prefix (lower e.name) (codes "mmproj-")
      then groups
      else group_file (group_name e.name (multipart e.name)) size groups

  unfoldable pub walk_loop : List WalkEntry → Keyed (Text × ℕ) → Keyed (Text × ℕ)
  walk_loop [] groups = groups
  walk_loop (e ∷ rest) groups = walk_loop rest (walked e e.size groups)

  abbrev gguf_model : Text × ℕ → ModelInventory
  gguf_model (name, size) =
      let base = trim_suffix name (extension name) in
      record {
        name = base;
        runtime = codes "llama.cpp";
        format = codes "GGUF";
        quantization = quantization base;
        size_bytes = size;
      }

  abbrev gguf_models : List (Text × ℕ) → List ModelInventory
  gguf_models [] = []
  gguf_models (g ∷ gs) = gguf_model g ∷ gguf_models gs

  -- `discoverGGUFModels`, for the entries of the walk, in one of the orders of its map.
  unfoldable pub discover_gguf_models : List WalkEntry → List ModelInventory
  discover_gguf_models entries = gguf_models (values (walk_loop entries []))

  abbrev pub gguf_key : ModelInventory → Text
  gguf_key x = (codes "gguf" ++ (0 ∷ lower x.name)) ++ (0 ∷ decimal (pos x.size_bytes))

  -- The models of one directory, up to the one that makes the map as large as the limit.
  unfoldable pub put_discovered : List ModelInventory → Keyed ModelInventory → Keyed ModelInventory
  put_discovered [] models = models
  put_discovered (x ∷ xs) models =
      let next = put (gguf_key x) x models in
      let rest = put_discovered xs next in
      if leb max_discovered_models (length next) then next else rest

  unfoldable pub put_roots : List (List WalkEntry) → Keyed ModelInventory → Keyed ModelInventory
  put_roots [] models = models
  put_roots (root ∷ roots) models =
      put_roots roots (put_discovered (discover_gguf_models root) models)

  unfoldable pub put_ollama : List ModelInventory → Keyed ModelInventory → Keyed ModelInventory
  put_ollama [] models = models
  put_ollama (x ∷ xs) models = put_ollama xs (put (codes "ollama" ++ (0 ∷ x.name)) x models)

  -- `detectLinuxModels`, for the walks of its three directories.
  unfoldable pub detect_linux_models {ℓ} :
      {F : Type ℓ} ⦃f : Float64 F⦄
      → (Text → Text)
      → (Text → Option F)
      → Runner
      → List WalkEntry
      → List WalkEntry
      → List WalkEntry
      → List ModelInventory
  detect_linux_models upper parse_float run hub cache models =
      let first = put_ollama (ollama_models upper parse_float (run 6 ollama_list)) [] in
      sort_models (values (put_roots (hub ∷ cache ∷ models ∷ []) first))
