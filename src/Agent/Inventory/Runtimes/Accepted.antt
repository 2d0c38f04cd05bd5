-- ===== src/Agent/Inventory/Runtimes/Accepted.antt =====
-- What server/inventory_auth.go makes of an inventory of agent/inventory_linux.go.
use mesh_alot.Prelude.{
  ℕ, ◌+◌, ◌≤◌, ◌≡◌, ◌≢◌, refl, Bool, true, false, ◌||◌, Option, none, some, List, [], ◌∷◌, ◌++◌,
  length, length-append, is_empty, arith, ◌==◌, ap, Bool-cases, inl, inr, ◌∙◌, sym,
}
use mathlib.Core.Path.{subst}
use mesh_alot.Prelude.Int.{ℤ, pos, leb_ℤ}
use mesh_alot.Prelude.Text.{Text, codes, trim_space, text_eq, text_eq_iff}
use mesh_alot.Prelude.Text.Trim.{trim_space-trim_space}
use mesh_alot.Prelude.Time.{Instant, is_zero}
use mesh_alot.Prelude.Float.{Float64}
use mesh_alot.Protocol.{
  Submission, HardwareInventory, inventory_schema_version, inventory_submission_version,
}
use mesh_alot.Server.Window.{outside_window}
use mesh_alot.Server.Validation.{validate_inventory_submission, wrong_envelope, is_blank}
use mesh_alot.Agent.Network.{Runner}
use mesh_alot.Agent.Inventory.{
  Matching, first_non_empty, released, cpu_of, value_of, parse_os_release, detect_linux_os,
  detect_linux_cpu, lscpu,
}
use mesh_alot.Agent.Inventory.Runtimes.{
  Inventory, Machine, RuntimeInventory, vulkan, cuda, rocm, sycl, ollama, accelerations,
  ai_runtimes_of, sycl_ls, present_llama, detect_linux_acceleration, detect_linux_ai_runtimes,
  gathered, collect_hardware_inventory_linux,
}

-- The inventory as it is signed: the server counts its four lists.
abbrev pub IsWired : Inventory → HardwareInventory → Type 0
IsWired inv b =
    (b.schema_version ≡ inv.schema_version)
    × (b.collected_at ≡ inv.collected_at)
    × (b.os_name ≡ inv.os.name)
    × (b.cpu_model ≡ inv.cpu.model)
    × (b.cpu_logical_cores ≡ inv.cpu.logical_cores)
    × (b.memory_total_bytes ≡ inv.memory)
    × (length b.gpus ≡ length inv.gpus)
    × (length b.acceleration ≡ length inv.acceleration)
    × (length b.ai_runtimes ≡ length inv.ai_runtimes)
    × (length b.models ≡ length inv.models)

trim-nil : trim_space [] ≡ []
unfolding trim_space
trim-nil = refl

linux-not_blank : is_blank (codes "Linux") ≡ false
unfolding trim_space
linux-not_blank = refl

first_non_empty-trimmed : (vs : List Text) → trim_space (first_non_empty vs) ≡ first_non_empty vs
first_non_empty-trimmed [] = trim-nil
first_non_empty-trimmed (v ∷ vs) = elim (Bool-cases (is_empty (trim_space v))) [
  | inl blank ↦ ground (arith, blank, first_non_empty-trimmed vs)
  | inr filled ↦ ground (arith, filled, trim_space-trim_space v)
]

append-le {ℓ} :
    {A : Type ℓ} (xs ys : List A) (i j : ℕ)
    → length xs ≤ i
    → length ys ≤ j
    → length (xs ++ ys) ≤ i + j
append-le xs ys i j h k = omega (arith, h, k, length-append xs ys)

vulkan-le : (o : Option Text) → length (vulkan o) ≤ 1
vulkan-le none = omega arith
vulkan-le (some out) = omega arith

cuda-le : (o : Option Text) → length (cuda o) ≤ 1
cuda-le none = omega arith
cuda-le (some out) = ground arith

rocm-le : (o : Option Text) → length (rocm o) ≤ 1
rocm-le none = omega arith
rocm-le (some out) = omega arith

sycl-le : (b : Bool) (lower : Text → Text) (o : Option Text) → length (sycl b lower o) ≤ 1
sycl-le false lower o = omega arith
sycl-le true lower o = omega arith

acceleration-le :
    (lower : Text → Text) (p : Bool) (a b c d : Option Text)
    → length (accelerations lower p a b c d) ≤ 4
unfolding accelerations
acceleration-le lower p a b c d =
    append-le (vulkan a) (cuda b ++ (rocm c ++ sycl p lower d)) 1 3 (vulkan-le a) (
      append-le (cuda b) (rocm c ++ sycl p lower d) 1 2 (cuda-le b)
        (append-le (rocm c) (sycl p lower d) 1 1 (rocm-le c) (sycl-le p lower d)))

present-le : (o : Option RuntimeInventory) → length (present_llama o) ≤ 1
present-le none = omega arith
present-le (some e) = omega arith

ollama-le : (is_version : Text → Bool) (o : Option Text) → length (ollama is_version o) ≤ 1
ollama-le is_version none = omega arith
ollama-le is_version (some out) = omega arith

runtimes-le :
    (is_version : Text → Bool) (o : Option Text) (entry : Option RuntimeInventory)
    → length (ai_runtimes_of is_version o entry) ≤ 2
unfolding ai_runtimes_of
runtimes-le is_version o entry =
    append-le (ollama is_version o) (present_llama entry) 1 1 (ollama-le is_version o)
      (present-le entry)

released-trimmed : (o : Option Text) → trim_space (released o).0 ≡ (released o).0
unfolding released
released-trimmed none = trim-nil
released-trimmed (some raw) =
    let values = parse_os_release raw in
    first_non_empty-trimmed
      (value_of (codes "NAME") values ∷ value_of (codes "ID") values ∷ codes "Linux" ∷ [])

os_name-not_blank :
    (built : Text) (run : Runner) (read_file : Text → Option Text)
    → is_blank (detect_linux_os built run read_file).name ≡ false
unfolding detect_linux_os
os_name-not_blank built run read_file =
    let trimmed = released-trimmed (read_file (codes "/etc/os-release")) in
    elim (Bool-cases (is_empty (released (read_file (codes "/etc/os-release"))).0)) [
      | inl missing ↦ ground (arith, missing, linux-not_blank)
      | inr named ↦ ground (arith, named, trimmed)
    ]

required :
    (inv : Inventory)
    → (is_empty inv.os.name || leb_ℤ inv.cpu.logical_cores (pos 0) || inv.memory == 0) ≡ false
    → (leb_ℤ inv.cpu.logical_cores (pos 0) ≡ false) × ((inv.memory == 0) ≡ false)
required inv h = (ground (arith, h), ground (arith, h))

complete-accepted :
    (inv : Inventory) (s : Submission HardwareInventory) (now : Instant)
    → IsWired inv s.benchmark
    → inv.schema_version ≡ inventory_schema_version
    → is_blank inv.os.name ≡ false
    → is_blank inv.cpu.model ≡ false
    → leb_ℤ inv.cpu.logical_cores (pos 0) ≡ false
    → (inv.memory == 0) ≡ false
    → length inv.gpus ≤ 32
    → length inv.acceleration ≤ 4
    → length inv.ai_runtimes ≤ 2
    → length inv.models ≤ 200
    → wrong_envelope s inventory_submission_version ≡ false
    → is_zero s.signed_at ≡ false
    → is_zero inv.collected_at ≡ false
    → outside_window now s.signed_at ≡ false
    → outside_window s.signed_at inv.collected_at ≡ false
    → validate_inventory_submission s now ≡ none
unfolding validate_inventory_submission
complete-accepted inv s now (wv, wt, wo, wc, wl, wm, wg, wa, wr, wn) v o c l m g a r n e z y f k =
    let version : text_eq s.benchmark.schema_version inventory_schema_version ≡ true =
      (text_eq_iff s.benchmark.schema_version inventory_schema_version).1 (wv ∙ v) in
    let os = ap is_blank wo ∙ o in
    let cpu = ap is_blank wc ∙ c in
    let cores = ap (λ i. leb_ℤ i (pos 0)) wl ∙ l in
    let memory = ap (λ i. i == 0) wm ∙ m in
    let zero_at = ap is_zero wt ∙ y in
    let close = ap (λ t. outside_window s.signed_at t) wt ∙ k in
    ground
      (arith, e, z, f, close, version, zero_at, os, cpu, cores, memory, wg, wa, wr, wn, g, a, r, n)

-- If the inventory is collected without an error and names a processor, and has at most 32 graphics
-- processors and 200 models, then a submission of it passes the validation of the server (which
-- tests neither the signature nor the key), if it has the right version and two valid ids, if the
-- times of its signature and of the collection are not zero, and if the signature is within the
-- window of the server's clock and of the collection.
pub collected-valid {ℓ} :
    {F : Type ℓ} ⦃f : Float64 F⦄ (m : Matching) (upper : Text → Text)
    (parse_float : Text → Option F) (c : Machine) (inv : Inventory)
    (s : Submission HardwareInventory) (now : Instant)
    → collect_hardware_inventory_linux m upper parse_float c ≡ (inv, false)
    → IsWired inv s.benchmark
    → is_blank inv.cpu.model ≡ false
    → length inv.gpus ≤ 32
    → length inv.models ≤ 200
    → wrong_envelope s inventory_submission_version ≡ false
    → is_zero s.signed_at ≡ false
    → is_zero c.now ≡ false
    → outside_window now s.signed_at ≡ false
    → outside_window s.signed_at c.now ≡ false
    → validate_inventory_submission s now ≡ none
unfolding collect_hardware_inventory_linux validate_inventory_submission detect_linux_acceleration
    detect_linux_ai_runtimes
collected-valid m upper parse_float c inv s now h w cpu gpus models envelope signed clock fresh
      close =
    let same : inv ≡ gathered m upper parse_float c = ap (λ (r : Inventory × Bool). r.0) (sym h) in
    let complete = ap (λ (r : Inventory × Bool). r.1) h in
    let named = os_name-not_blank c.architecture c.run c.read_file in
    let named' : is_blank inv.os.name ≡ false = rw same named in
    let schema : inv.schema_version ≡ inventory_schema_version =
      ap (λ (i : Inventory). i.schema_version) same in
    let at : inv.collected_at ≡ c.now = ap (λ (i : Inventory). i.collected_at) same in
    let acc : length (gathered m upper parse_float c).acceleration ≤ 4 =
      acceleration-le m.lower (c.stat sycl_ls) _ _ _ _ in
    let run : length (gathered m upper parse_float c).ai_runtimes ≤ 2 =
      runtimes-le c.is_version _ _ in
    let acc' : length inv.acceleration ≤ 4 = rw same acc in
    let run' : length inv.ai_runtimes ≤ 2 = rw same run in
    let (cores, memory) = required inv (
      ap
        (λ (i : Inventory).
          (is_empty i.os.name || leb_ℤ i.cpu.logical_cores (pos 0) || i.memory == 0))
        same
      ∙ complete) in
    complete-accepted inv s now w schema named' cpu cores memory gpus acc' run' models envelope
      signed (subst (λ t. is_zero t ≡ false) (sym at) clock) fresh
      (subst (λ t. outside_window s.signed_at t ≡ false) (sym at) close)

no_model : (cores : ℤ) (run : Runner) → run 2 lscpu ≡ none → (detect_linux_cpu cores run).model ≡ []
unfolding detect_linux_cpu cpu_of
no_model cores run failed = ap (λ o. (cpu_of cores o).model) failed

-- When `lscpu` fails, the inventory has no model of the processor, and a submission with this model
-- is one that the server refuses, whatever else it holds.
pub lscpu_failed-refused :
    (cores : ℤ) (run : Runner) (s : Submission HardwareInventory) (now : Instant)
    → run 2 lscpu ≡ none
    → s.benchmark.cpu_model ≡ (detect_linux_cpu cores run).model
    → validate_inventory_submission s now ≢ none
unfolding validate_inventory_submission
lscpu_failed-refused cores run s now failed same h =
    let empty = no_model cores run failed in
    let blank : is_blank s.benchmark.cpu_model ≡ true =
      ap is_blank (same ∙ empty) ∙ ap is_empty trim-nil in
    ground (arith, blank, h)
