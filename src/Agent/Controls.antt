-- ===== src/Agent/Controls.antt =====
-- agent/provider_controls.go: the owner's limits on marketplace work. The text of an error or of a
-- limitation is a constructor; an `int` is only compared, and so is a `uint64` of bytes.
pub mod Admission
pub mod Hours
mod Examples
use mesh_alot.Prelude.{
  ℕ, Bool, true, false, ◌&&◌, ◌||◌, Option, none, some, List, [], ◌∷◌, ◌++◌, is_empty,
  if◌then◌else◌, ltb,
}
use mesh_alot.Prelude.Int.{ℤ, pos, ltb_ℤ, leb_ℤ, eq_ℤ}
use mesh_alot.Prelude.Text.{Text}

-- Modes and behaviors are strings in the source: `unsupported` is any that is not named there.
pub data ProviderMode : Type 0 where
  normal away maximum_earnings : ProviderMode
  unsupported : Text → ProviderMode

pub data LocalReturnBehavior : Type 0 where
  stop_new_work continue : LocalReturnBehavior
  unknown : Text → LocalReturnBehavior

pub record ProviderResourceControls : Type 0 where
  pub max_gpu_percent : ℤ
  pub max_vram_bytes : ℕ
  pub max_ram_bytes : ℕ
  pub max_cpu_percent : ℤ
  pub allowed_start_hour : ℤ
  pub allowed_end_hour : ℤ
  pub manual_pause : Bool
  pub mode : ProviderMode
  pub local_return_behavior : LocalReturnBehavior

pub record ProviderWorkloadResources : Type 0 where
  pub gpu_percent : ℤ
  pub vram_bytes : ℕ
  pub ram_bytes : ℕ
  pub cpu_percent : ℤ

pub data ControlsError : Type 0 where
  gpu_percent_range cpu_percent_range start_hour_range end_hour_range : ControlsError
  unsupported_mode : Text → ControlsError
  unsupported_behavior : Text → ControlsError

pub data Limitation : Type 0 where
  gpu_outside gpu_exceeds vram_exceeds ram_exceeds cpu_outside cpu_exceeds : Limitation
  invalid_controls : ControlsError → Limitation
  manually_paused outside_allowed_hours local_user_active : Limitation

pub record ProviderResourceDecision : Type 0 where
  pub allowed : Bool
  pub limitations : List Limitation

abbrev outside : ℤ → ℕ → Bool
outside value top = ltb_ℤ value (pos 0) || ltb_ℤ (pos top) value

abbrev mode_error : ProviderMode → Option ControlsError
mode_error (unsupported m) = some (unsupported_mode m)
mode_error _ = none

abbrev behavior_error : LocalReturnBehavior → Option ControlsError
behavior_error (unknown b) = some (unsupported_behavior b)
behavior_error _ = none

abbrev first_error : Option ControlsError → Option ControlsError → Option ControlsError
first_error (some e) later = some e
first_error none later = later

pub validate_provider_resource_controls : ProviderResourceControls → Option ControlsError
validate_provider_resource_controls controls =
    if outside controls.max_gpu_percent 100
    then some gpu_percent_range
    else if outside controls.max_cpu_percent 100
    then some cpu_percent_range
    else if outside controls.allowed_start_hour 23
    then some start_hour_range
    else if outside controls.allowed_end_hour 23
    then some end_hour_range
    else first_error (mode_error controls.mode) (behavior_error controls.local_return_behavior)

abbrev percent_limitation : ℤ → ℤ → Limitation → Limitation → List Limitation
percent_limitation requested maximum out_of_range exceeds =
    if outside requested 100
    then out_of_range ∷ []
    else if ltb_ℤ maximum requested
    then exceeds ∷ []
    else []

abbrev bytes_limitation : ℕ → ℕ → Limitation → List Limitation
bytes_limitation requested maximum exceeds = if ltb maximum requested then exceeds ∷ [] else []

-- The four tests append in this order.
request_limitations : ProviderResourceControls → ProviderWorkloadResources → List Limitation
request_limitations controls request =
    percent_limitation request.gpu_percent controls.max_gpu_percent gpu_outside gpu_exceeds
    ++ (bytes_limitation request.vram_bytes controls.max_vram_bytes vram_exceeds
        ++ (bytes_limitation request.ram_bytes controls.max_ram_bytes ram_exceeds
            ++ percent_limitation request.cpu_percent controls.max_cpu_percent cpu_outside
                cpu_exceeds))

pub evaluate_provider_resource_request :
    ProviderResourceControls → ProviderWorkloadResources → ProviderResourceDecision
evaluate_provider_resource_request controls request =
    let limitations = request_limitations controls request in
    record { allowed = is_empty limitations; limitations = limitations }

abbrev refused : Limitation → ProviderResourceDecision
refused l = record { allowed = false; limitations = l ∷ [] }

abbrev unless_invalid : Option ControlsError → ProviderResourceDecision → ProviderResourceDecision
unless_invalid (some e) decision = refused (invalid_controls e)
unless_invalid none decision = decision

pub evaluate_provider_new_work :
    ProviderResourceControls → ProviderWorkloadResources → ProviderResourceDecision
evaluate_provider_new_work controls request =
    unless_invalid (validate_provider_resource_controls controls) (
      if controls.manual_pause
      then refused manually_paused
      else evaluate_provider_resource_request controls request)

pub is_provider_hour_allowed : ProviderResourceControls → ℤ → Bool
is_provider_hour_allowed controls local_hour =
    let start = controls.allowed_start_hour in
    let end = controls.allowed_end_hour in
    if outside local_hour 23
    then false
    else if eq_ℤ start end
    then true
    else if ltb_ℤ start end
    then leb_ℤ start local_hour && ltb_ℤ local_hour end
    else leb_ℤ start local_hour || ltb_ℤ local_hour end

pub evaluate_provider_new_work_at_hour :
    ProviderResourceControls → ProviderWorkloadResources → ℤ → ProviderResourceDecision
evaluate_provider_new_work_at_hour controls request local_hour =
    if is_provider_hour_allowed controls local_hour
    then evaluate_provider_new_work controls request
    else refused outside_allowed_hours

abbrev stops_new_work : LocalReturnBehavior → Bool
stops_new_work stop_new_work = true
stops_new_work _ = false

pub evaluate_provider_new_work_with_activity :
    ProviderResourceControls → ProviderWorkloadResources → ℤ → Bool → ProviderResourceDecision
evaluate_provider_new_work_with_activity controls request local_hour local_active =
    if local_active && stops_new_work controls.local_return_behavior
    then refused local_user_active
    else evaluate_provider_new_work_at_hour controls request local_hour

pub data ActiveProviderWorkAction : Type 0 where
  continue terminate : ActiveProviderWorkAction

pub evaluate_active_provider_work : Bool → Bool → ActiveProviderWorkAction
evaluate_active_provider_work safety_required explicitly_allowed =
    if safety_required || explicitly_allowed then terminate else ActiveProviderWorkAction.continue
