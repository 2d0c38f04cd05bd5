-- ===== src/Agent/Benchmark/Combine/Order.antt =====
-- What `combineComputeBenchmarkRuns` of agent/compute_benchmark_runs.go combines, and in which order.
use mathlib.Core.Path.{subst}
use mesh_alot.Prelude.{
  ℕ, suc, ◌≡◌, refl, sym, ap, ◌∙◌, not, List, [], ◌∷◌, ◌++◌, map, length, All, ◌==◌, ==_iff, arith,
}
use mesh_alot.Prelude.Float.{Float64}
use mesh_alot.Prelude.Outcome.{ok, guard, ok_inj, >>=-eq-ok, >>-eq-ok}
use mesh_alot.Agent.Benchmark.{
  LlamaBenchThroughput, RunTelemetry, RunMeasurement, metadata_changed, standard_repetitions,
  wrong_run_count,
}
use mesh_alot.Agent.Benchmark.Checks.{first_rate, changed}
use mesh_alot.Agent.Benchmark.Metadata.{
  SameWorkload, SameWorkload-refl, SameWorkload-trans, changed_lem,
}
use mesh_alot.Agent.Benchmark.Combine.{
  no_throughput, check_run, match_metadata, combine_from, combine_compute_benchmark_runs,
}

append-snoc {ℓ} :
    {A : Type ℓ} (xs : List A) (y : A) (zs : List A) → (xs ++ (y ∷ [])) ++ zs ≡ xs ++ (y ∷ zs)
append-snoc [] y zs = refl
append-snoc (x ∷ xs) y zs = ap (λ u. x ∷ u) (append-snoc xs y zs)

append-nil {ℓ} : {A : Type ℓ} (xs : List A) → xs ++ [] ≡ xs
append-nil [] = refl
append-nil (x ∷ xs) = ap (λ u. x ∷ u) (append-nil xs)

module _ {ℓ} {F : Type ℓ} ⦃f : Float64 F⦄ where
  abbrev pub prompt_rate : RunMeasurement F → F
  prompt_rate r = first_rate r.throughput.prompt_tokens_per_second

  abbrev pub generation_rate : RunMeasurement F → F
  generation_rate r = first_rate r.throughput.generation_tokens_per_second

  abbrev pub telemetry_of : RunMeasurement F → RunTelemetry F
  telemetry_of r = r.telemetry

  -- From what `c` and `tel` hold, the loop has added these runs.
  pub record HasAdded (c : LlamaBenchThroughput F) (tel : List (RunTelemetry F))
      (rs : List (RunMeasurement F)) (done : LlamaBenchThroughput F × List (RunTelemetry F))
      : Type ℓ where
    pub same : SameWorkload c done.0
    pub runs : All (λ (r : RunMeasurement F). SameWorkload r.throughput done.0) rs
    pub prompts : done.0.prompt_tokens_per_second ≡ c.prompt_tokens_per_second ++ map prompt_rate rs
    pub generations :
        done.0.generation_tokens_per_second
        ≡ c.generation_tokens_per_second ++ map generation_rate rs
    pub telemetry : done.1 ≡ tel ++ map telemetry_of rs

  -- What one turn hands on.
  abbrev added : LlamaBenchThroughput F → RunMeasurement F → LlamaBenchThroughput F
  added base r = record base {
    prompt_tokens_per_second = base.prompt_tokens_per_second ++ (prompt_rate r ∷ []);
    generation_tokens_per_second = base.generation_tokens_per_second ++ (generation_rate r ∷ []);
  }

  turn-HasAdded :
      (base : LlamaBenchThroughput F) (tel : List (RunTelemetry F)) (r : RunMeasurement F)
      (rs : List (RunMeasurement F)) (done : LlamaBenchThroughput F × List (RunTelemetry F))
      → SameWorkload r.throughput base
      → HasAdded (added base r) (tel ++ (r.telemetry ∷ [])) rs done
      → HasAdded base tel (r ∷ rs) done
  turn-HasAdded base tel r rs done m h =
      let same' : SameWorkload base done.0 = record {
        version = h.same.version;
        filename = h.same.filename;
        model_type = h.same.model_type;
        backend = h.same.backend;
        prompt = h.same.prompt;
        generated = h.same.generated;
      } in
      record {
        same = same';
        runs = (SameWorkload-trans m same', h.runs);
        prompts = h.prompts ∙ append-snoc _ _ _;
        generations = h.generations ∙ append-snoc _ _ _;
        telemetry = h.telemetry ∙ append-snoc _ _ _;
      }

  matched :
      (i : ℕ) (c t base : LlamaBenchThroughput F)
      → match_metadata (suc i) c t ≡ ok base
      → (SameWorkload t c) × (c ≡ base)
  unfolding match_metadata
  matched i c t base h =
      let (test, k) = >>-eq-ok (guard (not (changed t c)) metadata_changed) _ h in
      (changed_lem t c (ground arith), ok_inj k)

  later-HasAdded :
      (i : ℕ) (c : LlamaBenchThroughput F) (tel : List (RunTelemetry F))
      (rs : List (RunMeasurement F)) (done : LlamaBenchThroughput F × List (RunTelemetry F))
      → combine_from (suc i) c tel rs ≡ ok done
      → HasAdded c tel rs done
  unfolding combine_from
  later-HasAdded i c tel [] done h =
      subst (λ d. HasAdded c tel [] d) (ok_inj h)
        (record {
          same = SameWorkload-refl c;
          runs = tt;
          prompts = sym (append-nil _);
          generations = sym (append-nil _);
          telemetry = sym (append-nil _);
        })
  later-HasAdded i c tel (r ∷ rs) done h =
      let (_, h0) = >>-eq-ok (check_run (suc (suc i)) r) _ h in
      let (base, a, h1) = >>=-eq-ok (match_metadata (suc i) c r.throughput) _ h0 in
      let (m, same) = matched i c r.throughput base a in
      let rest = later-HasAdded (suc i) (added base r) (tel ++ (r.telemetry ∷ [])) rs done h1 in
      subst (λ z. HasAdded z tel (r ∷ rs) done) (sym same)
        (turn-HasAdded base tel r rs done (subst (λ z. SameWorkload r.throughput z) same m) rest)

  first_lem :
      (rs : List (RunMeasurement F)) (t : LlamaBenchThroughput F) (tel : List (RunTelemetry F))
      → length rs ≡ 5
      → combine_from 0 no_throughput [] rs ≡ ok (t, tel)
      → (length rs ≡ 5)
        × All (λ (r : RunMeasurement F). SameWorkload r.throughput t) rs
        × (t.prompt_tokens_per_second ≡ map prompt_rate rs)
        × (t.generation_tokens_per_second ≡ map generation_rate rs)
        × (tel ≡ map telemetry_of rs)
  unfolding combine_from match_metadata
  first_lem [] t tel five h = absurd (omega (arith, five))
  first_lem (r ∷ rs) t tel five h =
      let (_, h0) = >>-eq-ok (check_run 1 r) _ h in
      let base = record r.throughput {
        prompt_tokens_per_second = [];
        generation_tokens_per_second = [];
      } in
      let rest = later-HasAdded 0 (added base r) (r.telemetry ∷ []) rs (t, tel) h0 in
      let all =
        turn-HasAdded base [] r rs (t, tel)
          (record {
            version = refl;
            filename = refl;
            model_type = refl;
            backend = refl;
            prompt = refl;
            generated = refl;
          })
          rest in
      (five, all.runs, all.prompts, all.generations, all.telemetry)

  -- Five runs that are combined are of one workload, whose metadata the result has; its rates are
  -- those of the runs, in their order, and so is the telemetry.
  pub combined_runs :
      (rs : List (RunMeasurement F)) (t : LlamaBenchThroughput F) (tel : List (RunTelemetry F))
      → combine_compute_benchmark_runs rs ≡ ok (t, tel)
      → (length rs ≡ 5)
        × All (λ (r : RunMeasurement F). SameWorkload r.throughput t) rs
        × (t.prompt_tokens_per_second ≡ map prompt_rate rs)
        × (t.generation_tokens_per_second ≡ map generation_rate rs)
        × (tel ≡ map telemetry_of rs)
  unfolding combine_compute_benchmark_runs
  combined_runs rs t tel h =
      let (five, h1) = >>-eq-ok (guard (length rs == standard_repetitions) wrong_run_count) _ h in
      first_lem rs t tel (ground (arith, ==_iff (length rs) 5)) h1
