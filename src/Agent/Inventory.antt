-- ===== src/Agent/Inventory.antt =====
-- The hardware inventory of agent/inventory_linux.go: operating system, processor and memory, with
-- the helpers of the file. The programs and the files that it reads are parameters, and so are the
-- case mapping of package `strings` and the regular expressions.
pub mod Gpus
pub mod Models
pub mod Runtimes
mod Examples
use mesh_alot.Prelude.{
  ℕ, ◌*◌, ◌^◌, ◌%◌, Bool, true, false, not, ◌&&◌, ◌||◌, Option, none, some, List, [], ◌∷◌, length,
  is_empty, ltb, ◌==◌, if◌then◌else◌,
}
use mesh_alot.Prelude.Int.{ℤ, pos, pos_part, ltb_ℤ, sub_ℕ}
use mesh_alot.Prelude.Text.{Text, codes, text_eq, trim_space}
use mesh_alot.Prelude.Text.Fields.{fields, has_prefix, atoi, atoi_count}
use mesh_alot.Prelude.Text.Split.{lines, split, cut, trim_quotes, parse_uint}
use mesh_alot.Agent.Network.{Command, Runner}

-- What the code takes from Go's libraries: `ToLower`, `EqualFold` and the groups and matches of its
-- regular expressions.
pub record Matching : Type 0 where
  pub lower : Text → Text
  pub equal_fold : Text → Text → Bool
  -- the device after the header of a display controller's line in `lspci`
  pub pci_gpu : Text → Option Text
  -- `bracketID.ReplaceAllString(value, "")`
  pub without_ids : Text → Text
  -- the first group of `multipartGGUF`, and the match of `quantizationPattern` or nothing
  pub multipart : Text → Option Text
  pub quantization : Text → Text

abbrev pub first_non_empty : List Text → Text
first_non_empty [] = []
first_non_empty (v ∷ vs) =
    let rest = first_non_empty vs in if is_empty (trim_space v) then rest else trim_space v

-- A Go map from names to values, whose last entry for a name is the first here.
abbrev pub Values : Type 0
Values = List (Text × Text)

-- `values[key]`, which is empty for a name that is not there.
abbrev pub value_of : Text → Values → Text
value_of key [] = []
value_of key ((k, v) ∷ rest) = let later = value_of key rest in if text_eq k key then v else later

-- A `bufio.Scanner` stops at a line of 64 KB.
abbrev pub scanned : List Text → List Text
scanned [] = []
scanned (line ∷ rest) =
    let later = scanned rest in if ltb (length line) 65_536 then line ∷ later else []

abbrev put_assignment : Option (Text × Text) → Values → Values
put_assignment none values = values
put_assignment (some (key, value)) values =
    (trim_space key, trim_quotes (trim_space value)) ∷ values

abbrev os_release_line : Text → Values → Values
os_release_line line values =
    if is_empty line || has_prefix line (codes "#")
    then values
    else put_assignment (cut b'=' line) values

pub os_release_loop : List Text → Values → Values
os_release_loop [] values = values
os_release_loop (line ∷ rest) values =
    os_release_loop rest (os_release_line (trim_space line) values)

pub parse_os_release : Text → Values
parse_os_release raw = os_release_loop (scanned (lines raw)) []

abbrev put_colon : Option (Text × Text) → Values → Values
put_colon none values = values
put_colon (some (key, value)) values = (trim_space key, trim_space value) ∷ values

pub colon_loop : List Text → Values → Values
colon_loop [] values = values
colon_loop (line ∷ rest) values = colon_loop rest (put_colon (cut b':' line) values)

pub parse_colon_fields : Text → Values
parse_colon_fields raw = colon_loop (lines raw) []

pub record OperatingSystemInventory : Type 0 where
  pub name : Text
  pub version : Text
  pub architecture : Text
  pub kernel : Text

pub record CpuInventory : Type 0 where
  pub model : Text
  pub physical_cores : ℤ
  pub logical_cores : ℤ

abbrev pub uname : Text → Command
uname flag = record { program = codes "uname"; arguments = flag ∷ [] }

abbrev pub released : Option Text → Text × Text
unfolding parse_os_release
released none = ([], [])
released (some raw) =
    let values = parse_os_release raw in
    (
      first_non_empty
          (value_of (codes "NAME") values ∷ value_of (codes "ID") values ∷ codes "Linux" ∷ []),
      first_non_empty
          (value_of (codes "VERSION") values ∷ value_of (codes "VERSION_ID") values ∷ []),
    )

abbrev kernel_of : Option Text → Text
kernel_of none = []
kernel_of (some out) = trim_space out

abbrev architecture_of : Text → Option Text → Text
architecture_of built none = built
architecture_of built (some out) = if is_empty (trim_space out) then built else trim_space out

-- The files by their names, and the first two commands.
pub detect_linux_os : Text → Runner → (Text → Option Text) → OperatingSystemInventory
detect_linux_os built run read_file =
    let (name, version) = released (read_file (codes "/etc/os-release")) in
    record {
      name = if is_empty name then codes "Linux" else name;
      version = version;
      architecture = architecture_of built (run 1 (uname (codes "-m")));
      kernel = kernel_of (run 0 (uname (codes "-r")));
    }

abbrev at_least_one : Option ℤ → ℤ → ℤ
at_least_one none other = other
at_least_one (some n) other = if ltb_ℤ (pos 0) n then n else other

-- An integer of 64 bits.
abbrev pub wrapped : ℕ → ℤ
wrapped n = let low = n % 2 ^ 64 in if ltb low (2 ^ 63) then pos low else sub_ℕ low (2 ^ 64)

abbrev product : ℕ → ℕ → ℤ
product cores sockets = if ltb 0 cores && ltb 0 sockets then wrapped (cores * sockets) else pos 0

abbrev pub cpu_of : ℤ → Option Text → CpuInventory
unfolding parse_colon_fields
cpu_of cores none = record { model = []; physical_cores = pos 0; logical_cores = cores }
cpu_of cores (some out) =
    let fields = parse_colon_fields out in
    record {
      model = trim_space (value_of (codes "Model name") fields);
      physical_cores =
          product (atoi_count (trim_space (value_of (codes "Core(s) per socket") fields)))
            (atoi_count (trim_space (value_of (codes "Socket(s)") fields)));
      logical_cores = at_least_one (atoi (trim_space (value_of (codes "CPU(s)") fields))) cores;
    }

abbrev pub lscpu : Command
lscpu = record { program = codes "lscpu"; arguments = [] }

-- `runtime.NumCPU` is what the number of cores is without an answer.
pub detect_linux_cpu : ℤ → Runner → CpuInventory
detect_linux_cpu cores run = cpu_of cores (run 2 lscpu)

abbrev pub memory_line : List Text → Option ℕ
memory_line (name ∷ (amount ∷ rest)) =
    if text_eq name (codes "MemTotal:") then parse_uint amount else none
memory_line _ = none

-- The first line that gives a total, in kilobytes, on a `uint64` of bytes.
abbrev pub memory_of : List Text → ℕ
memory_of [] = 0
memory_of (line ∷ rest) =
    let later = memory_of rest in
    elim (memory_line (fields line)) [ none ↦ later | some kb ↦ kb * 1024 % 2 ^ 64 ]

pub detect_linux_memory : (Text → Option Text) → ℕ
detect_linux_memory read_file = elim (read_file (codes "/proc/meminfo")) [
  | none ↦ 0
  | some raw ↦ memory_of (lines raw)
]
