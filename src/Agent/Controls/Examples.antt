-- ===== src/Agent/Controls/Examples.antt =====
-- Owners' controls at which the theorems on agent/provider_controls.go apply.
use mesh_alot.Prelude.{ℕ, ◌<◌, true, false, ◌≡◌, refl, ◌↔◌, ◌⊎◌, [], ◌∷◌, arith}
use mesh_alot.Prelude.Int.{pos}
use mesh_alot.Agent.Controls.{
  normal, stop_new_work, ProviderResourceControls, ProviderWorkloadResources, gpu_exceeds,
  ram_exceeds, validate_provider_resource_controls, request_limitations,
  evaluate_provider_resource_request, evaluate_provider_new_work, is_provider_hour_allowed,
  evaluate_provider_new_work_at_hour, evaluate_provider_new_work_with_activity,
}
use mesh_alot.Agent.Controls.Admission.{IsAdmissible, admitted_iff}
use mesh_alot.Agent.Controls.Hours.{hours_from, allowed_iff}

-- Overnight, from 22 to 6.
abbrev night : ProviderResourceControls
night = record {
  max_gpu_percent = pos 80;
  max_vram_bytes = 8000;
  max_ram_bytes = 16000;
  max_cpu_percent = pos 50;
  allowed_start_hour = pos 22;
  allowed_end_hour = pos 6;
  manual_pause = false;
  mode = normal;
  local_return_behavior = stop_new_work;
}

abbrev day : ProviderResourceControls
day = record night { allowed_start_hour = pos 6; allowed_end_hour = pos 22 }

abbrev small : ProviderWorkloadResources
small = record { gpu_percent = pos 50; vram_bytes = 4000; ram_bytes = 4000; cpu_percent = pos 10 }

abbrev large : ProviderWorkloadResources
large = record { gpu_percent = pos 90; vram_bytes = 4000; ram_bytes = 20000; cpu_percent = pos 10 }

large_refused :
    (evaluate_provider_new_work_with_activity night large (pos 23) false).limitations
    ≡ gpu_exceeds ∷ ram_exceeds ∷ []
unfolding evaluate_provider_new_work_with_activity evaluate_provider_new_work_at_hour
    evaluate_provider_new_work evaluate_provider_resource_request request_limitations
    is_provider_hour_allowed validate_provider_resource_controls
large_refused = refl

admitted_iff_example :
    ((evaluate_provider_new_work_with_activity night small (pos 23) false).allowed ≡ true)
    ↔ IsAdmissible night small (pos 23) false
admitted_iff_example = admitted_iff night small (pos 23) false

allowed_iff_example :
    (is_provider_hour_allowed night (pos 3) ≡ true)
    ↔ (◌≡◌ {A = ℕ} 22 6 ⊎ (hours_from 22 3 < hours_from 22 6))
allowed_iff_example = allowed_iff night 22 6 refl refl 3 (omega arith) (omega arith) (omega arith)
