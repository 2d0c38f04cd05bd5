-- ===== src/Agent/Benchmark/Finalize/Workload.antt =====
-- The runs that worked in `finalizeComputeBenchmarkRuns` of agent/compute_benchmark_finalize.go are
-- of one workload.
use mathlib.Core.Path.{subst}
use mesh_alot.Prelude.{
  ℕ, suc, ◌≡◌, refl, sym, ap, ◌∙◌, Bool, true, false, Option, none, some, List, [], ◌∷◌, is_empty,
  All, arith,
}
use mesh_alot.Prelude.Text.{Text, trim_space, base_name, text_eq_iff}
use mesh_alot.Prelude.Float.{Float64}
use mesh_alot.Prelude.Outcome.{ok, ok_inj, >>=-eq-ok, >>-eq-ok}
use mesh_alot.Protocol.{ComputeBenchmarkSample, ComputeBenchmark}
use mesh_alot.Agent.Benchmark.{LlamaBenchThroughput, RunMeasurement}
use mesh_alot.Agent.Benchmark.Checks.{check_counts, check_rates, check_telemetry}
use mesh_alot.Agent.Benchmark.Metadata.{SameWorkload, SameWorkload-refl, changed_lem}
use mesh_alot.Agent.Benchmark.Finalize.{
  FinalizeInput, finalize_failure, same_metadata, reference_or, check_metadata, check_success,
  finalize_case, finalize_run, finalize_from, finalized, check_input, version_of,
  finalize_compute_benchmark_runs,
}

module _ {ℓ} {F : Type ℓ} ⦃f : Float64 F⦄ where
  -- A run that worked is of the workload of the reference, and of the model named.
  abbrev pub Agrees : Text → Option (LlamaBenchThroughput F) → RunMeasurement F → Type ℓ
  Agrees model reference r =
      is_empty (trim_space r.error) ≡ true
      → (t : LlamaBenchThroughput F) × (reference ≡ some t)
        × SameWorkload r.throughput t
        × (base_name r.throughput.model_filename ≡ model)

  -- A reference, once it is set, stays.
  abbrev Stays : Option (LlamaBenchThroughput F) → Option (LlamaBenchThroughput F) → Type ℓ
  Stays before after = (t : LlamaBenchThroughput F) → before ≡ some t → after ≡ some t

  same_metadata_lem :
      (ref : Option (LlamaBenchThroughput F)) (t : LlamaBenchThroughput F)
      → same_metadata ref t ≡ ok tt
      → SameWorkload t (reference_or ref t)
  same_metadata_lem none t h = SameWorkload-refl t
  same_metadata_lem (some u) t h = changed_lem t u (ground arith)

  named :
      (n : ℕ) (model : Text) (t : LlamaBenchThroughput F)
      → check_metadata n model t ≡ ok tt
      → base_name t.model_filename ≡ model
  unfolding check_metadata
  named n model t h = (text_eq_iff (base_name t.model_filename) model).0 (ground arith)

  reference-Stays :
      (ref : Option (LlamaBenchThroughput F)) (t : LlamaBenchThroughput F)
      → Stays ref (some (reference_or ref t))
  reference-Stays none t u h = cc
  reference-Stays (some v) t u h = h

  case_lem :
      (b : Bool) (n : ℕ) (model : Text) (ref : Option (LlamaBenchThroughput F))
      (r : RunMeasurement F) (done : ComputeBenchmarkSample F × Option (LlamaBenchThroughput F))
      → is_empty (trim_space r.error) ≡ b
      → finalize_case b n model ref r ≡ ok done
      → Stays ref done.1 × Agrees model done.1 r
  unfolding finalize_case check_success
  case_lem false n model ref r done e h =
      let (s, a, k) = >>=-eq-ok (finalize_failure n (trim_space r.error) r.telemetry) _ h in
      let same =
        ap (λ (d : ComputeBenchmarkSample F × Option (LlamaBenchThroughput F)). d.1) (ok_inj k) in
      ((λ t q. sym same ∙ q), λ w. absurd (ground arith))
  case_lem true n model ref r done e h =
      let (a, k) = >>-eq-ok (check_success n model ref r) _ h in
      let (_, a1) = >>-eq-ok (check_counts n r.throughput) _ a in
      let (m, a2) = >>-eq-ok (check_metadata n model r.throughput) _ a1 in
      let (_, a3) = >>-eq-ok (check_rates n r.throughput) _ a2 in
      let (_, a4) = >>-eq-ok (check_telemetry n r.telemetry) _ a3 in
      let same =
        ap (λ (d : ComputeBenchmarkSample F × Option (LlamaBenchThroughput F)). d.1) (ok_inj k) in
      (
        (λ t q. sym same ∙ reference-Stays ref r.throughput t q),
        λ w. (
          reference_or ref r.throughput,
          sym same,
          same_metadata_lem ref r.throughput a4,
          named n model r.throughput m,
        ),
      )

  Agrees-later :
      (model : Text) (before after : Option (LlamaBenchThroughput F)) (r : RunMeasurement F)
      → Stays before after
      → Agrees model before r
      → Agrees model after r
  Agrees-later model before after r s a w = let (t, e, same, name) = a w in (t, s t e, same, name)

  from_lem :
      (n : ℕ) (model : Text) (ref : Option (LlamaBenchThroughput F)) (rs : List (RunMeasurement F))
      (done : List (ComputeBenchmarkSample F) × Option (LlamaBenchThroughput F))
      → finalize_from n model ref rs ≡ ok done
      → Stays ref done.1 × All (Agrees model done.1) rs
  unfolding finalize_from finalize_run
  from_lem n model ref [] done h =
      let same =
        ap (λ (d : List (ComputeBenchmarkSample F) × Option (LlamaBenchThroughput F)). d.1)
          (ok_inj h) in
      ((λ t q. sym same ∙ q), tt)
  from_lem n model ref (r ∷ rs) done h =
      let (one, a, h1) = >>=-eq-ok (finalize_run n model ref r) _ h in
      let (later, b, h2) = >>=-eq-ok (finalize_from (suc n) model one.1 rs) _ h1 in
      let same =
        ap (λ (d : List (ComputeBenchmarkSample F) × Option (LlamaBenchThroughput F)). d.1)
          (ok_inj h2) in
      let (s1, g1) = case_lem _ n model ref r one refl a in
      let (s2, g2) = from_lem (suc n) model one.1 rs later b in
      subst (λ z. Stays ref z × All (Agrees model z) (r ∷ rs)) same
        ((λ t q. s2 t (s1 t q)), (Agrees-later model one.1 later.1 r s2 g1, g2))

  -- In a benchmark that is made, all runs that worked are of one workload, a reference whose runtime
  -- version the benchmark has, and ran the model that the benchmark names.
  pub finalized_workload :
      (input : FinalizeInput F) (b : ComputeBenchmark F)
      → finalize_compute_benchmark_runs input ≡ ok b
      → (reference : Option (LlamaBenchThroughput F)) × (b.runtime_version ≡ version_of reference)
        × All (Agrees b.model reference) input.runs
  unfolding finalize_compute_benchmark_runs finalized
  finalized_workload input b h =
      let (_, h1) = >>-eq-ok (check_input input) _ h in
      let (done, a, h2) = >>=-eq-ok (finalize_from 1 _ none input.runs) _ h1 in
      let (_, all) = from_lem 1 _ none input.runs done a in
      subst
        (λ (z : ComputeBenchmark F).
          (reference : Option (LlamaBenchThroughput F)) × (z.runtime_version ≡ version_of reference)
          × All (Agrees z.model reference) input.runs)
        (ok_inj h2) (done.1, refl, all)
