-- ===== src/Agent/Benchmark/Orchestrate/Outcomes.antt =====
-- How `orchestrateComputeBenchmarkRuns` of agent/compute_benchmark_orchestrate.go treats failures.
use mathlib.Core.Path.{subst}
use mesh_alot.Prelude.{
  ℕ, zero, suc, ◌+◌, ◌*◌, ◌≤◌, ◌<◌, ◌≡◌, ◌↔◌, ◌⊎◌, inl, inr, refl, sym, ap, ◌∙◌, Bool, true, false,
  not, Option, none, some, List, [], ◌∷◌, is_empty, arith,
}
use mesh_alot.Prelude.Text.{Text, trim_space}
use mesh_alot.Prelude.Text.Trim.{visible-not_blank}
use mesh_alot.Prelude.Float.{Float64}
use mesh_alot.Prelude.Outcome.{ok, guard, ok_inj, >>=-eq-ok, >>-eq-ok}
use mesh_alot.Protocol.{ComputeBenchmark}
use mesh_alot.Agent.Benchmark.{RunMeasurement, canceled}
use mesh_alot.Agent.Benchmark.Finalize.Samples.{ReportsAll, finalized-ReportsAll}
use mesh_alot.Agent.Benchmark.Orchestrate.{
  ThroughputCollector, TtftCollector, OrchestratorInput, throughput_failure, ttft_failure, join,
  compute_benchmark_run_failure, measured, orchestrate_from, orchestrate_with, given,
  orchestrate_compute_benchmark_runs,
}

nil-blank : is_empty (trim_space []) ≡ true
unfolding trim_space
nil-blank = refl

-- Both failures begin with a `t`.
failure-not_blank : (t : Text) → is_empty (trim_space (b't' ∷ t)) ≡ true → ⊥
failure-not_blank t h = ground (arith, visible-not_blank b't' (omega arith) t)

-- The error text of a run, once trimmed, is empty exactly if neither measurement has failed,
-- whatever the texts of the two errors are.
pub run_failure-blank_iff :
    (throughput ttft : Option Text)
    → (is_empty (trim_space (compute_benchmark_run_failure throughput ttft)) ≡ true)
      ↔ (throughput ≡ none) × (ttft ≡ none)
unfolding compute_benchmark_run_failure throughput_failure ttft_failure join
run_failure-blank_iff none none = ((λ h. (refl, refl)), (λ h. nil-blank))
run_failure-blank_iff none (some e) =
    ((λ h. absurd (failure-not_blank _ h)), (λ h. ground (arith, h)))
run_failure-blank_iff (some e) none =
    ((λ h. absurd (failure-not_blank _ h)), (λ h. ground (arith, h)))
run_failure-blank_iff (some e) (some e') =
    ((λ h. absurd (failure-not_blank _ h)), (λ h. ground (arith, h)))

-- The checks of one run, and those of the later runs.
checks : (i j : ℕ) → 3 * i ≤ j → (j ≡ 3 * i) ⊎ (j ≡ 3 * i + 1) ⊎ (j ≡ 3 * i + 2) ⊎ (3 * suc i ≤ j)
checks i j h = omega arith

given_lem {ℓ} : {A : Type ℓ} (o : Option A) {a : A} → given o ≡ ok a → o ≡ some a
given_lem none h = cc
given_lem (some a) h = ap some (ok_inj h)

module _ {ℓ} {F : Type ℓ} where
  abbrev pub measured_from : ThroughputCollector F → TtftCollector → ℕ → ℕ → List (RunMeasurement F)
  measured_from throughput ttft zero i = []
  measured_from throughput ttft (suc left) i =
      measured throughput ttft (suc i) ∷ measured_from throughput ttft left (suc i)

module _ {ℓ} {F : Type ℓ} ⦃f : Float64 F⦄ (ended : ℕ → Bool) (throughput : ThroughputCollector F)
    (ttft : TtftCollector) where
  from_lem :
      (left i : ℕ) (rs : List (RunMeasurement F))
      → orchestrate_from ended throughput ttft left i ≡ ok rs
      → (rs ≡ measured_from throughput ttft left i)
        × ((j : ℕ) → 3 * i ≤ j → j < 3 * (i + left) → ended j ≡ false)
  unfolding orchestrate_from
  from_lem zero i rs h = (sym (ok_inj h), λ j p q. absurd (omega arith))
  from_lem (suc left) i rs h =
      let (a, h1) = >>-eq-ok (guard (not (ended (3 * i))) canceled) _ h in
      let (b, h2) = >>-eq-ok (guard (not (ended (3 * i + 1))) canceled) _ h1 in
      let (c, h3) = >>-eq-ok (guard (not (ended (3 * i + 2))) canceled) _ h2 in
      let (later, d, h4) = >>=-eq-ok (orchestrate_from ended throughput ttft left (suc i)) _ h3 in
      let (same, quiet) = from_lem left (suc i) later d in
      (
        sym (ok_inj h4) ∙ ap (λ l. measured throughput ttft (suc i) ∷ l) same,
        λ j p q. elim (checks i j p) [
          | inl e ↦ rw e (ground arith)
          | inr (inl e) ↦ rw e (ground arith)
          | inr (inr (inl e)) ↦ rw e (ground arith)
          | inr (inr (inr k)) ↦ quiet j k (omega arith)
        ],
      )

  -- What `orchestrate_with` returns is made of five runs, and the context ended at none of its fifteen
  -- checks.
  with_lem :
      (input : OrchestratorInput F) (b : ComputeBenchmark F)
      → orchestrate_with ended throughput ttft input ≡ ok b
      → ReportsAll 1 (measured_from throughput ttft 5 0) b.samples
        × ((j : ℕ) → j < 15 → ended j ≡ false)
  unfolding orchestrate_with
  with_lem input b h =
      let (rs, a, h1) = >>=-eq-ok (orchestrate_from ended throughput ttft 5 0) _ h in
      let (same, quiet) = from_lem 5 0 rs a in
      (
        subst (λ l. ReportsAll 1 l b.samples) same (finalized-ReportsAll _ b h1).1,
        λ j q. quiet j (omega arith) (omega arith),
      )

-- If a benchmark is returned, both collectors were given, the context had ended at none of its
-- fifteen checks, and the benchmark has one sample for each of the five runs, in order, whether the
-- run failed or not.
pub orchestrated-ReportsAll {ℓ} :
    {F : Type ℓ} ⦃f : Float64 F⦄ (ended : ℕ → Bool) (input : OrchestratorInput F)
    (b : ComputeBenchmark F)
    → orchestrate_compute_benchmark_runs (some ended) input ≡ ok b
    → (throughput : ThroughputCollector F) × (ttft : TtftCollector) × (input.collect_throughput
        ≡ some throughput)
      × (input.collect_ttft ≡ some ttft)
      × ReportsAll 1 (measured_from throughput ttft 5 0) b.samples
      × ((j : ℕ) → j < 15 → ended j ≡ false)
unfolding orchestrate_compute_benchmark_runs
orchestrated-ReportsAll ended input b h =
    let (throughput, a, h1) = >>=-eq-ok (given input.collect_throughput) _ h in
    let (ttft, c, h2) = >>=-eq-ok (given input.collect_ttft) _ h1 in
    let (all, quiet) = with_lem ended throughput ttft input b h2 in
    (throughput, ttft, given_lem _ a, given_lem _ c, all, quiet)
