-- ===== src/Agent/Benchmark/Finalize/Samples.antt =====
-- What the samples of `finalizeComputeBenchmarkRuns` in agent/compute_benchmark_finalize.go say of
-- the runs.
use mathlib.Core.Path.{subst}
use mesh_alot.Prelude.{
  ℕ, suc, Bool, true, false, ◌≡◌, refl, sym, ap, ◌∙◌, Option, none, List, [], ◌∷◌, length, is_empty,
  ltb, ==_iff, arith,
}
use mesh_alot.Prelude.Int.{pos, ltb_ℤ}
use mesh_alot.Prelude.Text.{Text, trim_space}
use mesh_alot.Prelude.Float.{Float64}
use mesh_alot.Prelude.Outcome.{ok, ok_inj, >>=-eq-ok, >>-eq-ok}
use mesh_alot.Protocol.{ComputeBenchmarkSample, ComputeBenchmark}
use mesh_alot.Agent.Benchmark.{LlamaBenchThroughput, RunTelemetry, RunMeasurement}
use mesh_alot.Agent.Benchmark.Checks.{first_rate, check_counts}
use mesh_alot.Agent.Benchmark.Finalize.{
  FinalizeInput, failed_sample, finalize_failure, successful_sample, check_success, finalize_case,
  finalize_run, finalize_from, finalized, check_input, finalize_compute_benchmark_runs,
}

-- A sample reports run number `n`: how it ended, its resources and, if it worked, its two rates.
pub record Reports {ℓ} {F : Type ℓ} (n : ℕ) (r : RunMeasurement F) (s : ComputeBenchmarkSample F)
    : Type ℓ where
  pub number : s.run ≡ pos n
  pub success : s.success ≡ is_empty (trim_space r.error)
  pub error : s.error ≡ trim_space r.error
  pub ram : s.peak_system_ram_bytes ≡ r.telemetry.peak_system_ram
  pub vram : s.peak_vram_bytes ≡ r.telemetry.peak_vram_bytes
  pub temperature : s.temperature_celsius ≡ r.telemetry.temperature_celsius
  pub throttled : s.throttled ≡ r.telemetry.throttled
  pub prompt_rate :
      (s.success ≡ true) → r.throughput.prompt_tokens_per_second ≡ s.prompt_tokens_per_second ∷ []
  pub generation_rate :
      (s.success ≡ true)
      → r.throughput.generation_tokens_per_second ≡ s.generation_tokens_per_second ∷ []

-- The samples report the runs one by one, from number `n` on.
abbrev pub ReportsAll {ℓ} :
    {F : Type ℓ} → ℕ → List (RunMeasurement F) → List (ComputeBenchmarkSample F) → Type ℓ
ReportsAll n [] samples = samples ≡ []
ReportsAll {F = F} n (r ∷ rs) samples =
    (s : ComputeBenchmarkSample F) × (ss : List (ComputeBenchmarkSample F)) × (samples ≡ s ∷ ss)
    × Reports n r s
    × ReportsAll (suc n) rs ss

is_empty-eq {ℓ} : {A : Type ℓ} (xs : List A) → is_empty xs ≡ true → xs ≡ []
is_empty-eq [] h = refl
is_empty-eq (x ∷ xs) h = ground arith

singleton {ℓ} : {F : Type ℓ} ⦃f : Float64 F⦄ (xs : List F) → length xs ≡ 1 → xs ≡ first_rate xs ∷ []
singleton [] h = absurd (omega (arith, h))
singleton (x ∷ []) h = refl
singleton (x ∷ (y ∷ xs)) h = absurd (omega (arith, h))

module _ {ℓ} {F : Type ℓ} ⦃f : Float64 F⦄ where
  pub counts_lem :
      (n : ℕ) (t : LlamaBenchThroughput F)
      → check_counts n t ≡ ok tt
      → (t.prompt_tokens_per_second ≡ first_rate t.prompt_tokens_per_second ∷ [])
        × (t.generation_tokens_per_second ≡ first_rate t.generation_tokens_per_second ∷ [])
  unfolding check_counts
  counts_lem n t h = (
    singleton _ (ground (arith, ==_iff (length t.prompt_tokens_per_second) 1)),
    singleton _ (ground (arith, ==_iff (length t.generation_tokens_per_second) 1)),
  )

  failed-Reports :
      (n : ℕ) (r : RunMeasurement F)
      → is_empty (trim_space r.error) ≡ false
      → Reports n r (failed_sample n (trim_space r.error) r.telemetry)
  unfolding failed_sample
  failed-Reports n r e = record {
    number = refl;
    success = sym e;
    error = refl;
    ram = refl;
    vram = refl;
    temperature = refl;
    throttled = refl;
    prompt_rate = λ h. absurd (ground arith);
    generation_rate = λ h. absurd (ground arith);
  }

  successful-Reports :
      (n : ℕ) (r : RunMeasurement F)
      → is_empty (trim_space r.error) ≡ true
      → check_counts n r.throughput ≡ ok tt
      → Reports n r (successful_sample n r)
  unfolding successful_sample
  successful-Reports n r e c = record {
    number = refl;
    success = sym e;
    error = sym (is_empty-eq _ e);
    ram = refl;
    vram = refl;
    temperature = refl;
    throttled = refl;
    prompt_rate = λ _. (counts_lem n r.throughput c).0;
    generation_rate = λ _. (counts_lem n r.throughput c).1;
  }

  pub failure_lem :
      (n : ℕ) (error : Text) (m : RunTelemetry F) {s : ComputeBenchmarkSample F}
      → finalize_failure n error m ≡ ok s
      → (failed_sample n error m ≡ s)
        × (ltb 1024 (length error) ≡ false)
        × (ltb_ℤ m.time_to_first_token (pos 0) ≡ false)
  unfolding finalize_failure
  failure_lem n error m h = (ground arith, ground arith, ground arith)

  pub case-Reports :
      (b : Bool) (n : ℕ) (model : Text) (ref : Option (LlamaBenchThroughput F))
      (r : RunMeasurement F) {done : ComputeBenchmarkSample F × Option (LlamaBenchThroughput F)}
      → is_empty (trim_space r.error) ≡ b
      → finalize_case b n model ref r ≡ ok done
      → Reports n r done.0
  unfolding finalize_case check_success
  case-Reports false n model ref r e h =
      let (s, a, k) = >>=-eq-ok (finalize_failure n (trim_space r.error) r.telemetry) _ h in
      let same =
        (failure_lem n _ _ a).0
        ∙ ap (λ (d : ComputeBenchmarkSample F × Option (LlamaBenchThroughput F)). d.0) (ok_inj k) in
      subst (λ s. Reports n r s) same (failed-Reports n r e)
  case-Reports true n model ref r e h =
      let (a, k) = >>-eq-ok (check_success n model ref r) _ h in
      subst (λ (d : ComputeBenchmarkSample F × Option (LlamaBenchThroughput F)). Reports n r d.0)
        (ok_inj k) (successful-Reports n r e (>>-eq-ok (check_counts n r.throughput) _ a).0)

  from-ReportsAll :
      (n : ℕ) (model : Text) (ref : Option (LlamaBenchThroughput F)) (rs : List (RunMeasurement F))
      {done : List (ComputeBenchmarkSample F) × Option (LlamaBenchThroughput F)}
      → finalize_from n model ref rs ≡ ok done
      → ReportsAll n rs done.0
  unfolding finalize_from finalize_run
  from-ReportsAll n model ref [] h =
      subst
        (λ (d : List (ComputeBenchmarkSample F) × Option (LlamaBenchThroughput F)).
          ReportsAll n [] d.0)
        (ok_inj h) refl
  from-ReportsAll n model ref (r ∷ rs) h =
      let (one, a, h1) = >>=-eq-ok (finalize_run n model ref r) _ h in
      let (later, b, h2) = >>=-eq-ok (finalize_from (suc n) model one.1 rs) _ h1 in
      subst
        (λ (d : List (ComputeBenchmarkSample F) × Option (LlamaBenchThroughput F)).
          ReportsAll n (r ∷ rs) d.0)
        (ok_inj h2)
        (
          one.0,
          later.0,
          refl,
          case-Reports _ n model ref r refl a,
          from-ReportsAll (suc n) model one.1 rs b,
        )

  runs_counted : (input : FinalizeInput F) → check_input input ≡ ok tt → length input.runs ≡ 5
  unfolding check_input
  runs_counted input h = ground (arith, ==_iff (length input.runs) 5)

  -- A benchmark that is made of five runs has five samples, numbered 1 to 5 in the order of the runs;
  -- each keeps the error text, trimmed, the peak memory, temperature and throttling of its run, is
  -- marked as a success exactly if that text is empty, and then has the run's two rates.
  pub finalized-ReportsAll :
      (input : FinalizeInput F) (b : ComputeBenchmark F)
      → finalize_compute_benchmark_runs input ≡ ok b
      → (length input.runs ≡ 5) × ReportsAll 1 input.runs b.samples
  unfolding finalize_compute_benchmark_runs finalized
  finalized-ReportsAll input b h =
      let (checked, h1) = >>-eq-ok (check_input input) _ h in
      let (done, a, h2) = >>=-eq-ok (finalize_from 1 _ none input.runs) _ h1 in
      (
        runs_counted input checked,
        subst (λ (z : ComputeBenchmark F). ReportsAll 1 input.runs z.samples) (ok_inj h2)
            (from-ReportsAll 1 _ none input.runs a),
      )
