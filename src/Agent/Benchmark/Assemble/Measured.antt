-- ===== src/Agent/Benchmark/Assemble/Measured.antt =====
-- The samples of `assembleComputeBenchmark` in agent/compute_benchmark_assemble.go.
use mathlib.Core.Path.{subst}
use mesh_alot.Prelude.{
  ℕ, zero, suc, ◌≡◌, refl, ap, ◌∙◌, true, List, [], ◌∷◌, map, length, All, ==_iff, arith,
}
use mesh_alot.Prelude.Int.{ℤ, pos}
use mesh_alot.Prelude.Float.{Float64}
use mesh_alot.Prelude.Outcome.{ok, ok_inj, >>=-eq-ok, >>-eq-ok}
use mesh_alot.Protocol.{ComputeBenchmarkSample, ComputeBenchmark}
use mesh_alot.Agent.Benchmark.{LlamaBenchThroughput, RunTelemetry}
use mesh_alot.Agent.Benchmark.Finalize.{milliseconds}
use mesh_alot.Agent.Benchmark.Assemble.{
  AssemblyInput, check_repetition, assembled_sample, assemble_run, assemble_from, check_assembly,
  assemble_compute_benchmark,
}

-- `count` numbers from `n` on.
abbrev pub numbers : ℕ → ℕ → List ℤ
numbers n zero = []
numbers n (suc count) = pos n ∷ numbers (suc n) count

module _ {ℓ} {F : Type ℓ} ⦃f : Float64 F⦄ where
  -- The samples hold these measurements, in order, all as successes.
  pub record Holds (n : ℕ) (prompts generations : List F) (telemetry : List (RunTelemetry F))
      (ss : List (ComputeBenchmarkSample F)) : Type ℓ where
    pub run : map (λ (s : ComputeBenchmarkSample F). s.run) ss ≡ numbers n (length prompts)
    pub prompt : map (λ (s : ComputeBenchmarkSample F). s.prompt_tokens_per_second) ss ≡ prompts
    pub generation :
        map (λ (s : ComputeBenchmarkSample F). s.generation_tokens_per_second) ss ≡ generations
    pub ttft :
        map (λ (s : ComputeBenchmarkSample F). s.time_to_first_token_ms) ss
        ≡ map (λ (m : RunTelemetry F). milliseconds m.time_to_first_token) telemetry
    pub ram :
        map (λ (s : ComputeBenchmarkSample F). s.peak_system_ram_bytes) ss
        ≡ map (λ (m : RunTelemetry F). m.peak_system_ram) telemetry
    pub success : All (λ (s : ComputeBenchmarkSample F). s.success ≡ true) ss

  cons-Holds :
      (n : ℕ) (t : LlamaBenchThroughput F) (p g : F) (m : RunTelemetry F) (ps gs : List F)
      (ms : List (RunTelemetry F)) (ss : List (ComputeBenchmarkSample F))
      → Holds (suc n) ps gs ms ss
      → Holds n (p ∷ ps) (g ∷ gs) (m ∷ ms) (assembled_sample n t p g m ∷ ss)
  unfolding assembled_sample
  cons-Holds n t p g m ps gs ms ss h = record {
    run = ap (λ l. pos n ∷ l) h.run;
    prompt = ap (λ l. p ∷ l) h.prompt;
    generation = ap (λ l. g ∷ l) h.generation;
    ttft = ap (λ l. milliseconds m.time_to_first_token ∷ l) h.ttft;
    ram = ap (λ l. m.peak_system_ram ∷ l) h.ram;
    success = (refl, h.success);
  }

  from-Holds :
      (n : ℕ) (t : LlamaBenchThroughput F) (ps gs : List F) (ms : List (RunTelemetry F))
      (ss : List (ComputeBenchmarkSample F))
      → length gs ≡ length ps
      → length ms ≡ length ps
      → assemble_from n t ps gs ms ≡ ok ss
      → Holds n ps gs ms ss
  unfolding assemble_from assemble_run
  from-Holds n t [] [] [] ss eg em h =
      subst (λ ss. Holds n [] [] [] ss) (ok_inj h)
        (record {
          run = refl;
          prompt = refl;
          generation = refl;
          ttft = refl;
          ram = refl;
          success = tt;
        })
  from-Holds n t [] (g ∷ gs) ms ss eg em h = absurd (omega (arith, eg))
  from-Holds n t [] [] (m ∷ ms) ss eg em h = absurd (omega (arith, em))
  from-Holds n t (p ∷ ps) [] ms ss eg em h = absurd (omega (arith, eg))
  from-Holds n t (p ∷ ps) (g ∷ gs) [] ss eg em h = absurd (omega (arith, em))
  from-Holds n t (p ∷ ps) (g ∷ gs) (m ∷ ms) ss eg em h =
      let (s, a, h1) = >>=-eq-ok (assemble_run n t p g m) _ h in
      let (later, b, h2) = >>=-eq-ok (assemble_from (suc n) t ps gs ms) _ h1 in
      let (_, k) = >>-eq-ok (check_repetition p g m) _ a in
      let rest = from-Holds (suc n) t ps gs ms later (omega (arith, eg)) (omega (arith, em)) b in
      subst (λ ss. Holds n (p ∷ ps) (g ∷ gs) (m ∷ ms) ss)
        (ap (λ s. s ∷ later) (ok_inj k) ∙ ok_inj h2) (cons-Holds n t p g m ps gs ms later rest)

  counts_lem :
      (input : AssemblyInput F)
      → check_assembly input ≡ ok tt
      → let t = input.throughput in
        (length t.prompt_tokens_per_second ≡ 5)
        × (length t.generation_tokens_per_second ≡ length t.prompt_tokens_per_second)
        × (length input.telemetry ≡ length t.prompt_tokens_per_second)
  unfolding check_assembly
  counts_lem input h =
      let t = input.throughput in
      let n = length t.prompt_tokens_per_second in
      (
        ground (arith, ==_iff n 5),
        ground (arith, ==_iff (length t.generation_tokens_per_second) n),
        ground (arith, ==_iff (length input.telemetry) n),
      )

  -- A benchmark that is assembled has five samples, numbered 1 to 5, that hold the rates, the times
  -- to the first token and the memory peaks of the input, in their order, all as successes.
  pub assembled-Holds :
      (input : AssemblyInput F) (b : ComputeBenchmark F)
      → assemble_compute_benchmark input ≡ ok b
      → let t = input.throughput in
        (length t.prompt_tokens_per_second ≡ 5)
        × Holds 1 t.prompt_tokens_per_second t.generation_tokens_per_second input.telemetry
            b.samples
  unfolding assemble_compute_benchmark
  assembled-Holds input b h =
      let t = input.throughput in
      let ps = t.prompt_tokens_per_second in
      let gs = t.generation_tokens_per_second in
      let (checked, h1) = >>-eq-ok (check_assembly input) _ h in
      let (ss, a, h2) = >>=-eq-ok (assemble_from 1 t ps gs input.telemetry) _ h1 in
      let (five, eg, em) = counts_lem input checked in
      (
        five,
        subst (λ (z : ComputeBenchmark F). Holds 1 ps gs input.telemetry z.samples) (ok_inj h2)
            (from-Holds 1 t ps gs input.telemetry ss eg em a),
      )
