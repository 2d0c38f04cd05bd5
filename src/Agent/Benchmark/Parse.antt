-- ===== src/Agent/Benchmark/Parse.antt =====
-- `parseLlamaBenchJSON` of agent/compute_benchmark_llama_bench.go; JSON decoding is a parameter.
pub mod Rows
use mesh_alot.Prelude.{
  ℕ, Bool, true, false, not, ◌&&◌, ◌||◌, Option, none, some, List, [], ◌∷◌, ◌++◌, length, is_empty,
  ◌==◌, if◌then◌else◌,
}
use mesh_alot.Prelude.Int.{ℤ, pos, eq_ℤ}
use mesh_alot.Prelude.Text.{Text, codes, text_eq, trim_space, decimal}
use mesh_alot.Prelude.Float.{Float64}
use mesh_alot.Prelude.Outcome.{Outcome, ok, err, ◌>>=◌, ◌>>◌, guard}
use mesh_alot.Agent.Benchmark.{
  BenchRow, LlamaBenchThroughput, BenchmarkError, empty_output, invalid_json, missing_prompt,
  missing_generation, model_mismatch, model_type_mismatch, version_mismatch, backend_mismatch,
  counts_mismatch, wrong_repetitions, validate_llama_bench_samples, no_error, select_rows,
  standard_prompt_tokens, standard_generated_tokens, invocation_repetitions,
}

abbrev pub found {ℓ} : {A : Type ℓ} → Option A → BenchmarkError → Outcome BenchmarkError A
found none e = err e
found (some a) e = ok a

module _ {ℓ} {F : Type ℓ} ⦃f : Float64 F⦄ where
  -- The tests that two rows come from one run of one program.
  unfoldable pub check_rows : BenchRow F → BenchRow F → Outcome BenchmarkError (Unit {0})
  check_rows p g = do
    guard (not (is_empty p.model_filename || not (text_eq p.model_filename g.model_filename)))
        model_mismatch
    guard (not (is_empty p.model_type || not (text_eq p.model_type g.model_type)))
        model_type_mismatch
    guard
        (not (
          is_empty p.build_commit
          || not (text_eq p.build_commit g.build_commit)
          || not (eq_ℤ p.build_number g.build_number)))
        version_mismatch
    guard (not (is_empty p.backends || not (text_eq p.backends g.backends))) backend_mismatch
    no_error (validate_llama_bench_samples p.samples_ts)
    no_error (validate_llama_bench_samples g.samples_ts)
    guard (length p.samples_ts == length g.samples_ts) counts_mismatch
    guard (length p.samples_ts == invocation_repetitions) wrong_repetitions

  unfoldable pub throughput_of : BenchRow F → BenchRow F → LlamaBenchThroughput F
  throughput_of p g = record {
    runtime_version = p.build_commit ++ (codes "-" ++ decimal p.build_number);
    model_filename = p.model_filename;
    model_type = p.model_type;
    backend = p.backends;
    prompt_tokens = pos standard_prompt_tokens;
    generated_tokens = pos standard_generated_tokens;
    prompt_tokens_per_second = p.samples_ts;
    generation_tokens_per_second = g.samples_ts;
  }

  unfoldable pub parse_llama_bench_json :
      (Text → Option (List (BenchRow F))) → Text → Outcome BenchmarkError (LlamaBenchThroughput F)
  parse_llama_bench_json decode raw = do
    guard (not (is_empty (trim_space raw))) empty_output
    rows ← found (decode raw) invalid_json
    selected ← select_rows none none rows
    p ← found selected.0 missing_prompt
    g ← found selected.1 missing_generation
    check_rows p g
    ok (throughput_of p g)
