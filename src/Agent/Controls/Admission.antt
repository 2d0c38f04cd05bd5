-- ===== src/Agent/Controls/Admission.antt =====
-- When agent/provider_controls.go admits new work.
use mesh_alot.Prelude.{ℕ, ◌≤◌, Bool, true, false, ◌&&◌, ◌≡◌, refl, ◌≢◌, ◌↔◌, none, arith, is_empty}
use mesh_alot.Prelude.Int.{ℤ, pos, ◌≤ℤ◌}
use mesh_alot.Agent.Controls.{
  ProviderMode, unsupported, LocalReturnBehavior, stop_new_work, continue, unknown,
  ProviderResourceControls, ProviderWorkloadResources, validate_provider_resource_controls,
  request_limitations, evaluate_provider_resource_request, evaluate_provider_new_work,
  is_provider_hour_allowed, evaluate_provider_new_work_at_hour,
  evaluate_provider_new_work_with_activity, stops_new_work,
}

abbrev pub InRange : ℤ → ℕ → Type 0
InRange v top = (pos 0 ≤ℤ v) × (v ≤ℤ pos top)

abbrev pub IsSupportedMode : ProviderMode → Type 0
IsSupportedMode (unsupported m) = ⊥
IsSupportedMode _ = Unit

abbrev pub IsSupportedBehavior : LocalReturnBehavior → Type 0
IsSupportedBehavior (unknown b) = ⊥
IsSupportedBehavior _ = Unit

pub record IsValid (c : ProviderResourceControls) : Type 0 where
  pub gpu : InRange c.max_gpu_percent 100
  pub cpu : InRange c.max_cpu_percent 100
  pub start : InRange c.allowed_start_hour 23
  pub end : InRange c.allowed_end_hour 23
  pub mode : IsSupportedMode c.mode
  pub behavior : IsSupportedBehavior c.local_return_behavior

-- A request within the owner's ceilings.
pub record Fits (c : ProviderResourceControls) (q : ProviderWorkloadResources) : Type 0 where
  pub gpu_range : InRange q.gpu_percent 100
  pub gpu : q.gpu_percent ≤ℤ c.max_gpu_percent
  pub vram : q.vram_bytes ≤ c.max_vram_bytes
  pub ram : q.ram_bytes ≤ c.max_ram_bytes
  pub cpu_range : InRange q.cpu_percent 100
  pub cpu : q.cpu_percent ≤ℤ c.max_cpu_percent

validate_lem :
    (c : ProviderResourceControls) → (validate_provider_resource_controls c ≡ none) ↔ IsValid c
unfolding validate_provider_resource_controls
validate_lem c = ground arith

request_lem :
    (c : ProviderResourceControls) (q : ProviderWorkloadResources)
    → ((evaluate_provider_resource_request c q).allowed ≡ true) ↔ Fits c q
unfolding evaluate_provider_resource_request request_limitations
request_lem c q = ground arith

new_work_lem :
    (c : ProviderResourceControls) (q : ProviderWorkloadResources)
    → ((evaluate_provider_new_work c q).allowed ≡ true)
      ↔ (IsValid c × (c.manual_pause ≡ false) × Fits c q)
unfolding evaluate_provider_new_work
new_work_lem c q = ground (arith, validate_lem c, request_lem c q)

-- Everything that `EvaluateProviderNewWorkWithActivity` asks of new work.
pub record IsAdmissible (c : ProviderResourceControls) (q : ProviderWorkloadResources) (hour : ℤ)
    (active : Bool) : Type 0 where
  pub idle_or_continuing : (active ≡ true) → c.local_return_behavior ≢ stop_new_work
  pub in_hours : is_provider_hour_allowed c hour ≡ true
  pub valid : IsValid c
  pub not_paused : c.manual_pause ≡ false
  pub fits : Fits c q

layers :
    (c : ProviderResourceControls) (q : ProviderWorkloadResources) (hour : ℤ) (active : Bool)
    → ((evaluate_provider_new_work_with_activity c q hour active).allowed ≡ true) ↔ (
        ((active && stops_new_work c.local_return_behavior) ≡ false)
        × (is_provider_hour_allowed c hour ≡ true)
        × ((evaluate_provider_new_work c q).allowed ≡ true))
unfolding evaluate_provider_new_work_with_activity evaluate_provider_new_work_at_hour
layers c q hour active = ground arith

idle_iff :
    (b : LocalReturnBehavior) (active : Bool)
    → ((active && stops_new_work b) ≡ false) ↔ (active ≡ true → b ≢ stop_new_work)
idle_iff stop_new_work true = ((λ h. cc), (λ h. absurd (h refl refl)))
idle_iff stop_new_work false = ((λ h a. cc), (λ h. refl))
idle_iff continue active = ground arith
idle_iff (unknown b) active = ground arith

-- New work is admitted exactly when no local user whose return stops new work is active, the hour
-- is allowed, the controls are valid, sharing is not paused, and the request is within the
-- ceilings.
pub admitted_iff :
    (c : ProviderResourceControls) (q : ProviderWorkloadResources) (hour : ℤ) (active : Bool)
    → ((evaluate_provider_new_work_with_activity c q hour active).allowed ≡ true)
      ↔ IsAdmissible c q hour active
admitted_iff c q hour active =
    let split = layers c q hour active in
    let idle = idle_iff c.local_return_behavior active in
    let work = new_work_lem c q in
    (
      λ h.
          let (i, t, w) = split.0 h in
          let (v, n, f) = work.0 w in
          record {
            idle_or_continuing = idle.0 i;
            in_hours = t;
            valid = v;
            not_paused = n;
            fits = f;
          },
      λ h.
          split.1 (idle.1 h.idle_or_continuing, h.in_hours, work.1 (h.valid, h.not_paused, h.fits)),
    )

-- A decision is a refusal exactly when it gives some limitation.
pub refusal_explained :
    (c : ProviderResourceControls) (q : ProviderWorkloadResources) (hour : ℤ) (active : Bool)
    → let decision = evaluate_provider_new_work_with_activity c q hour active in
      (decision.allowed ≡ is_empty decision.limitations)
unfolding evaluate_provider_new_work_with_activity evaluate_provider_new_work_at_hour
    evaluate_provider_new_work evaluate_provider_resource_request
refusal_explained c q hour active = ground arith
