-- ===== src/Agent/Benchmark/Metadata.antt =====
-- When two throughputs count as runs of one workload, in agent/compute_benchmark_runs.go and
-- agent/compute_benchmark_finalize.go.
use mesh_alot.Prelude.{◌≡◌, refl, ◌∙◌, true, false, arith}
use mesh_alot.Prelude.Int.{ℤ, eq_ℤ, eq_of_parts}
use mesh_alot.Prelude.Text.{text_eq_iff}
use mesh_alot.Prelude.Float.{Float64}
use mesh_alot.Agent.Benchmark.{LlamaBenchThroughput}
use mesh_alot.Agent.Benchmark.Checks.{changed}

pub record SameWorkload {ℓ} {F : Type ℓ} (t u : LlamaBenchThroughput F) : Type 0 where
  pub version : t.runtime_version ≡ u.runtime_version
  pub filename : t.model_filename ≡ u.model_filename
  pub model_type : t.model_type ≡ u.model_type
  pub backend : t.backend ≡ u.backend
  pub prompt : t.prompt_tokens ≡ u.prompt_tokens
  pub generated : t.generated_tokens ≡ u.generated_tokens

pub SameWorkload-refl {ℓ} : {F : Type ℓ} (t : LlamaBenchThroughput F) → SameWorkload t t
SameWorkload-refl t = record {
  version = refl;
  filename = refl;
  model_type = refl;
  backend = refl;
  prompt = refl;
  generated = refl;
}

pub SameWorkload-trans {ℓ} :
    {F : Type ℓ} {t u v : LlamaBenchThroughput F}
    → SameWorkload t u
    → SameWorkload u v
    → SameWorkload t v
SameWorkload-trans a b = record {
  version = a.version ∙ b.version;
  filename = a.filename ∙ b.filename;
  model_type = a.model_type ∙ b.model_type;
  backend = a.backend ∙ b.backend;
  prompt = a.prompt ∙ b.prompt;
  generated = a.generated ∙ b.generated;
}

eq_ℤ_lem : (a b : ℤ) → eq_ℤ a b ≡ true → a ≡ b
eq_ℤ_lem a b h = eq_of_parts a b (ground arith)

pub changed_lem {ℓ} :
    {F : Type ℓ} ⦃f : Float64 F⦄ (t u : LlamaBenchThroughput F)
    → changed t u ≡ false
    → SameWorkload t u
unfolding changed
changed_lem t u h = record {
  version = (text_eq_iff t.runtime_version u.runtime_version).0 (ground arith);
  filename = (text_eq_iff t.model_filename u.model_filename).0 (ground arith);
  model_type = (text_eq_iff t.model_type u.model_type).0 (ground arith);
  backend = (text_eq_iff t.backend u.backend).0 (ground arith);
  prompt = eq_ℤ_lem t.prompt_tokens u.prompt_tokens (ground arith);
  generated = eq_ℤ_lem t.generated_tokens u.generated_tokens (ground arith);
}
