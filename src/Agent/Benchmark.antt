-- ===== src/Agent/Benchmark.antt =====
-- agent/compute_benchmark_*.go: what one llama-bench process reports, and what is measured beside it.
pub mod Checks
pub mod Metadata
pub mod Parse
pub mod Combine
pub mod Finalize
pub mod Assemble
pub mod Orchestrate
mod Examples
use mesh_alot.Prelude.{
  ℕ, Bool, true, false, not, ◌&&◌, ◌||◌, Option, none, some, List, [], ◌∷◌, ◌++◌, length, is_empty,
  ◌==◌, if◌then◌else◌,
}
use mesh_alot.Prelude.Int.{ℤ, pos, leb_ℤ, eq_ℤ}
use mesh_alot.Prelude.Text.{Text, codes, text_eq, trim_space, decimal}
use mesh_alot.Prelude.Time.{Duration}
use mesh_alot.Prelude.Float.{Float64}
use mesh_alot.Prelude.Outcome.{Outcome, ok, err, ◌>>=◌, ◌>>◌, guard}

abbrev pub standard_workload_id : Text
standard_workload_id = codes "m9-standard-v1"

abbrev pub standard_prompt_tokens : ℕ
standard_prompt_tokens = 512

abbrev pub standard_generated_tokens : ℕ
standard_generated_tokens = 128

abbrev pub standard_repetitions : ℕ
standard_repetitions = 5

abbrev pub standard_context_size : ℕ
standard_context_size = 4096

abbrev pub invocation_repetitions : ℕ
invocation_repetitions = 1

-- `llamaBenchJSONResult`; its average is not read.
pub record BenchRow {ℓ} (F : Type ℓ) : Type ℓ where
  pub build_commit : Text
  pub build_number : ℤ
  pub backends : Text
  pub model_filename : Text
  pub model_type : Text
  pub n_prompt : ℤ
  pub n_gen : ℤ
  pub samples_ts : List F

pub record LlamaBenchThroughput {ℓ} (F : Type ℓ) : Type ℓ where
  pub runtime_version : Text
  pub model_filename : Text
  pub model_type : Text
  pub backend : Text
  pub prompt_tokens : ℤ
  pub generated_tokens : ℤ
  pub prompt_tokens_per_second : List F
  pub generation_tokens_per_second : List F

pub record RunTelemetry {ℓ} (F : Type ℓ) : Type ℓ where
  pub time_to_first_token : Duration
  pub peak_system_ram : ℕ
  pub peak_vram_bytes : Option ℕ
  pub temperature_celsius : Option F
  pub throttled : Option Bool

pub record RunMeasurement {ℓ} (F : Type ℓ) : Type ℓ where
  pub throughput : LlamaBenchThroughput F
  pub telemetry : RunTelemetry F
  pub error : Text

-- The errors of the functions below; a number is that of the run.
pub data BenchmarkError : Type 0 where
  empty_output invalid_json duplicate_prompt duplicate_generation missing_prompt : BenchmarkError
  missing_generation model_mismatch model_type_mismatch version_mismatch : BenchmarkError
  backend_mismatch samples_empty sample_invalid counts_mismatch wrong_repetitions : BenchmarkError
  no_model_path no_collection_time no_condition bad_model_name wrong_run_count : BenchmarkError
  token_workload model_missing version_missing throughput_sample ttft_sample : BenchmarkError
  ram_sample metadata_changed canceled no_context no_collector : BenchmarkError
  not_one_repetition bad_token_counts incomplete_metadata unexpected_model : ℕ → BenchmarkError
  bad_ttft bad_peak_ram error_too_long bad_partial_ttft : ℕ → BenchmarkError
  bad_prompt_rate bad_generation_rate : ℕ → BenchmarkError → BenchmarkError

module _ {ℓ} {F : Type ℓ} ⦃f : Float64 F⦄ where
  open f use {lit, le, is_nan, is_inf}

  unfoldable pub finite_non_negative : F → Bool
  finite_non_negative value = not (is_nan value) && not (is_inf value) && le (lit (pos 0)) value

  pub validate_all : List F → Option BenchmarkError
  validate_all [] = none
  validate_all (v ∷ vs) =
      let rest = validate_all vs in
      if not (finite_non_negative v) || le v (lit (pos 0)) then some sample_invalid else rest

  pub validate_llama_bench_samples : List F → Option BenchmarkError
  validate_llama_bench_samples values =
      if is_empty values then some samples_empty else validate_all values

abbrev pub no_error : Option BenchmarkError → Outcome BenchmarkError (Unit {0})
no_error none = ok tt
no_error (some e) = err e

-- `m9LlamaBenchArgs`
unfoldable pub llama_bench_args : Text → Outcome BenchmarkError (List Text)
llama_bench_args path = do
  let model = trim_space path
  guard (not (is_empty model)) no_model_path
  ok (
      codes "-m"
      ∷ (model
          ∷ (codes "-p"
              ∷ (decimal (pos standard_prompt_tokens)
                  ∷ (codes "-n"
                      ∷ (decimal (pos standard_generated_tokens)
                          ∷ (codes "-r"
                              ∷ (decimal (pos invocation_repetitions)
                                  ∷ (codes "-o" ∷ (codes "json" ∷ []))))))))))

module _ {ℓ} {F : Type ℓ} ⦃f : Float64 F⦄ where
  abbrev pub is_prompt_row : BenchRow F → Bool
  is_prompt_row r = eq_ℤ r.n_prompt (pos standard_prompt_tokens) && eq_ℤ r.n_gen (pos 0)

  abbrev pub is_generation_row : BenchRow F → Bool
  is_generation_row r = eq_ℤ r.n_prompt (pos 0) && eq_ℤ r.n_gen (pos standard_generated_tokens)

-- The loop over the rows, from the two that have been found.
pub select_rows {ℓ} :
    {F : Type ℓ} ⦃f : Float64 F⦄
    → Option (BenchRow F)
    → Option (BenchRow F)
    → List (BenchRow F)
    → Outcome BenchmarkError (Option (BenchRow F) × Option (BenchRow F))
select_rows prompt generation [] = ok (prompt, generation)
select_rows prompt generation (r ∷ rest) = elim (is_prompt_row r) [
  | true ↦ elim prompt [
    | some p ↦ err duplicate_prompt
    | none ↦ select_rows (some r) generation rest
  ]
  | false ↦ elim (is_generation_row r) [
    | true ↦ elim generation [
      | some g ↦ err duplicate_generation
      | none ↦ select_rows prompt (some r) rest
    ]
    | false ↦ select_rows prompt generation rest
  ]
]
