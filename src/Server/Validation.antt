-- ===== src/Server/Validation.antt =====
-- What the server asks of a submission before it looks at its signature:
-- server/inventory_auth.go, server/network_benchmark_auth.go, server/compute_benchmark_auth.go.
pub mod Samples
pub mod Fresh
mod Examples
use mesh_alot.Prelude.{
  ℕ, suc, Bool, true, false, not, ◌&&◌, ◌||◌, Option, none, some, List, [], ◌∷◌, length, is_empty,
  ltb, leb, ◌==◌, if◌then◌else◌,
}
use mesh_alot.Prelude.Int.{ℤ, pos, negsuc, ltb_ℤ, leb_ℤ, eq_ℤ}
use mesh_alot.Prelude.Text.{Text, text_eq, trim_space}
use mesh_alot.Prelude.Time.{Instant, is_zero}
use mesh_alot.Prelude.Float.{Float64}
use mesh_alot.Protocol.{
  ComputeBenchmarkSample, ComputeBenchmark, NetworkBenchmark, HardwareInventory, Submission,
  compute_schema_version, compute_submission_version, network_schema_version,
  network_submission_version, inventory_schema_version, inventory_submission_version,
}
use mesh_alot.Server.Uuid.{valid_uuid_v4}
use mesh_alot.Server.Window.{outside_window}

-- `ErrInvalid…Submission` and `Err…Timestamp`.
pub data ValidationError : Type 0 where
  invalid timestamp : ValidationError

-- The first test of all three validators.
abbrev pub wrong_envelope {ℓ} : {B : Type ℓ} → Submission B → Text → Bool
wrong_envelope s version =
    not (text_eq s.version version)
    || not (valid_uuid_v4 s.node_id)
    || not (valid_uuid_v4 s.report_id)

abbrev pub is_blank : Text → Bool
is_blank s = is_empty (trim_space s)

unfoldable pub valid_compute_benchmark_text : Text → ℕ → Bool
valid_compute_benchmark_text value max_length =
    let trimmed = trim_space value in not (is_empty trimmed) && leb (length trimmed) max_length

abbrev pub contains : List ℤ → ℤ → Bool
contains [] r = false
contains (x ∷ xs) r = eq_ℤ x r || contains xs r

unfoldable pub validate_inventory_submission :
    Submission HardwareInventory → Instant → Option ValidationError
validate_inventory_submission s now =
    let i = s.benchmark in
    if wrong_envelope s inventory_submission_version
    then some invalid
    else if is_zero s.signed_at
    then some timestamp
    else if outside_window now s.signed_at
    then some timestamp
    else if outside_window s.signed_at i.collected_at
    then some timestamp
    else if not (text_eq i.schema_version inventory_schema_version)
        || is_zero i.collected_at
        || is_blank i.os_name
        || is_blank i.cpu_model
        || leb_ℤ i.cpu_logical_cores (pos 0)
        || (i.memory_total_bytes == 0)
    then some invalid
    else if ltb 32 (length i.gpus)
        || ltb 64 (length i.acceleration)
        || ltb 64 (length i.ai_runtimes)
        || ltb 200 (length i.models)
    then some invalid
    else none

module _ {ℓ} {F : Type ℓ} ⦃f : Float64 F⦄ where
  open f use {lit, lt, le, is_nan, is_inf}

  pub validate_network_benchmark_submission :
      Submission (NetworkBenchmark F) → Instant → Option ValidationError
  validate_network_benchmark_submission s now =
      let b = s.benchmark in
      if wrong_envelope s network_submission_version
      then some invalid
      else if is_zero s.signed_at
      then some timestamp
      else if outside_window now s.signed_at
      then some timestamp
      else if outside_window s.signed_at b.collected_at
      then some timestamp
      else if not (text_eq b.schema_version network_schema_version)
          || is_zero b.collected_at
          || is_blank b.preferred_path
      then some invalid
      else if lt b.download_mbps (lit (pos 0))
          || lt b.upload_mbps (lit (pos 0))
          || lt b.latency_ms (lit (pos 0))
          || lt b.jitter_ms (lit (pos 0))
          || lt b.packet_loss_percent (lit (pos 0))
          || lt (lit (pos 100)) b.packet_loss_percent
      then some invalid
      else none

  unfoldable pub finite_compute_benchmark_non_negative : F → Bool
  finite_compute_benchmark_non_negative value =
      not (is_nan value) && not (is_inf value) && le (lit (pos 0)) value

  abbrev pub bad_temperature : Option F → Bool
  bad_temperature none = false
  bad_temperature (some t) = is_nan t || is_inf t || lt t (lit (negsuc 99)) || lt (lit (pos 250)) t

  -- The tests of one sample that do not look at the others; each ends the loop in one way.
  unfoldable pub bad_sample : ComputeBenchmarkSample F → Bool
  bad_sample s =
      (ltb_ℤ s.prompt_tokens (pos 0) || ltb_ℤ s.generated_tokens (pos 0))
      || (not (finite_compute_benchmark_non_negative s.prompt_tokens_per_second)
          || not (finite_compute_benchmark_non_negative s.generation_tokens_per_second)
          || not (finite_compute_benchmark_non_negative s.time_to_first_token_ms))
      || bad_temperature s.temperature_celsius
      || (if s.success
          then leb_ℤ s.prompt_tokens (pos 0)
            || leb_ℤ s.generated_tokens (pos 0)
            || le s.prompt_tokens_per_second (lit (pos 0))
            || le s.generation_tokens_per_second (lit (pos 0))
            || (s.peak_system_ram_bytes == 0)
            || not (is_blank s.error)
          else (is_blank s.error || ltb 1024 (length s.error)))

  -- The loop over the samples; `seen` holds the keys of `seenRuns`.
  unfoldable pub validate_samples :
      List ℤ → List (ComputeBenchmarkSample F) → Option ValidationError
  validate_samples seen [] = none
  validate_samples seen (s ∷ rest) =
      if leb_ℤ s.run (pos 0)
      then some invalid
      else if contains seen s.run
      then some invalid
      else if bad_sample s
      then some invalid
      else validate_samples (s.run ∷ seen) rest

  unfoldable pub validate_compute_benchmark_submission :
      Submission (ComputeBenchmark F) → Instant → Option ValidationError
  validate_compute_benchmark_submission s now =
      let b = s.benchmark in
      if wrong_envelope s compute_submission_version
      then some invalid
      else if is_zero s.signed_at
      then some timestamp
      else if outside_window now s.signed_at
      then some timestamp
      else if is_zero b.collected_at
      then some timestamp
      else if outside_window s.signed_at b.collected_at
      then some timestamp
      else if not (text_eq b.schema_version compute_schema_version)
      then some invalid
      else if not (valid_compute_benchmark_text b.workload_id 128)
          || not (valid_compute_benchmark_text b.condition 64)
          || not (valid_compute_benchmark_text b.runtime 128)
          || not (valid_compute_benchmark_text b.model 512)
      then some invalid
      else if ltb 128 (length b.runtime_version) || ltb 128 (length b.quantization)
      then some invalid
      else if leb_ℤ b.context_size (pos 0) || ltb_ℤ (pos 1048576) b.context_size
      then some invalid
      else if is_empty b.samples || ltb 50 (length b.samples)
      then some invalid
      else validate_samples [] b.samples
