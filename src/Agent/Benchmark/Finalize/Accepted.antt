-- ===== src/Agent/Benchmark/Finalize/Accepted.antt =====
-- The agent and the server agree: the samples that agent/compute_benchmark_finalize.go makes pass the
-- loop of server/compute_benchmark_auth.go.
use mathlib.Core.Path.{subst}
use Prim.Native.Nat.{◌^◌}
use mesh_alot.Prelude.{
  ℕ, suc, ◌≤◌, ◌<◌, Bool, true, false, ◌≡◌, refl, ap, ◌∙◌, Option, none, List, [], ◌∷◌, length,
  is_empty, ltb, ◌==◌, All, arith,
}
use mesh_alot.Prelude.Int.{ℤ, pos, negsuc, ◌≤ℤ◌, ltb_ℤ, leb_ℤ}
use mesh_alot.Prelude.Text.{Text, trim_space}
use mesh_alot.Prelude.Text.Trim.{trim_space-trim_space}
use mesh_alot.Prelude.Float.{Float64, ◌≼◌, IsFinite, IsFloat64}
use mesh_alot.Prelude.Outcome.{ok, ok_inj, >>=-eq-ok, >>-eq-ok}
use mesh_alot.Protocol.{ComputeBenchmarkSample, ComputeBenchmark}
use mesh_alot.Server.Validation.{
  is_blank, contains, bad_temperature, bad_sample, validate_samples,
  finite_compute_benchmark_non_negative,
}
use mesh_alot.Agent.Benchmark.{
  LlamaBenchThroughput, RunTelemetry, RunMeasurement, validate_all, validate_llama_bench_samples,
  finite_non_negative,
}
use mesh_alot.Agent.Benchmark.Checks.{first_rate, check_counts, check_rates, check_telemetry}
use mesh_alot.Agent.Benchmark.Finalize.{
  FinalizeInput, milliseconds, failed_sample, finalize_failure, successful_sample, check_metadata,
  check_success, finalize_case, finalize_run, finalize_from, finalized, check_input,
  finalize_compute_benchmark_runs,
}
use mesh_alot.Agent.Benchmark.Finalize.Samples.{failure_lem, counts_lem, case-Reports}

-- What the server asks of a run and the agent does not test: a temperature in range, and a time to
-- the first token below 2^53 nanoseconds, 104 days, which a `float64` holds exactly.
pub record IsPlausible {ℓ} {F : Type ℓ} ⦃f : Float64 F⦄ (r : RunMeasurement F) : Type 0 where
  pub temperature : bad_temperature r.telemetry.temperature_celsius ≡ false
  pub ttft : r.telemetry.time_to_first_token ≤ℤ pos (2 ^ 53)

module _ {ℓ} {F : Type ℓ} ⦃f : Float64 F⦄ (laws : IsFloat64 F) where
  open f use {lit, le, div, is_nan, is_inf}
  open laws use {lit_finite, lit_mono, div_mono, div_lit_zero, div_lit_finite, not_nan}

  measurement_passes :
      (v : F) → IsFinite v → lit (pos 0) ≼ v → finite_compute_benchmark_non_negative v ≡ true
  unfolding finite_compute_benchmark_non_negative
  measurement_passes v h p = ground (arith, not_nan v)

  zero_passes : finite_compute_benchmark_non_negative (lit (pos 0)) ≡ true
  zero_passes = let z = lit_finite 0 (omega arith) in measurement_passes (lit (pos 0)) z z.0

  milliseconds_pass :
      (d : ℤ)
      → ltb_ℤ (pos 0) d ≡ true
      → d ≤ℤ pos (2 ^ 53)
      → finite_compute_benchmark_non_negative (milliseconds {F = F} d) ≡ true
  unfolding milliseconds
  milliseconds_pass (pos n) h b =
      let scale = pos 1_000_000 in
      measurement_passes (div (lit (pos n)) (lit scale))
        (div_lit_finite n 1_000_000 (omega (arith, b)) (omega arith) (omega arith))
        (subst (λ z. z ≼ div (lit (pos n)) (lit scale))
          (div_lit_zero 1_000_000 (omega arith) (omega arith))
          (div_mono _ _ 1_000_000 (lit_mono 0 n (omega arith) (omega (arith, b))) (omega arith)
            (omega arith)))
  milliseconds_pass (negsuc n) h b = ground arith

  failed_passes :
      (n : ℕ) (e : Text) (m : RunTelemetry F)
      → is_blank e ≡ false
      → ltb 1024 (length e) ≡ false
      → bad_temperature m.temperature_celsius ≡ false
      → m.time_to_first_token ≤ℤ pos (2 ^ 53)
      → bad_sample (failed_sample n e m) ≡ false
  unfolding bad_sample failed_sample
  failed_passes n e m blank short temperature bound =
      let timed : (ltb_ℤ (pos 0) m.time_to_first_token ≡ true)
          → finite_compute_benchmark_non_negative (milliseconds {F = F} m.time_to_first_token)
            ≡ true =
        λ h. milliseconds_pass m.time_to_first_token h bound in
      ground (arith, zero_passes, timed)

  -- The tests of a run that worked, as tests of its sample.
  single_rate :
      (v : F)
      → validate_llama_bench_samples (v ∷ []) ≡ none
      → (finite_compute_benchmark_non_negative v ≡ true) × (le v (lit (pos 0)) ≡ false)
  unfolding validate_llama_bench_samples validate_all finite_non_negative
      finite_compute_benchmark_non_negative
  single_rate v h = ground arith

  rates_lem :
      (n : ℕ) (t : LlamaBenchThroughput F)
      → check_rates n t ≡ ok tt
      → (validate_llama_bench_samples t.prompt_tokens_per_second ≡ none)
        × (validate_llama_bench_samples t.generation_tokens_per_second ≡ none)
  unfolding check_rates
  rates_lem n t h = ground arith

  positive_counts :
      (n : ℕ) (t : LlamaBenchThroughput F)
      → check_counts n t ≡ ok tt
      → (leb_ℤ t.prompt_tokens (pos 0) ≡ false) × (leb_ℤ t.generated_tokens (pos 0) ≡ false)
  unfolding check_counts
  positive_counts n t h = ground arith

  telemetry_lem :
      (n : ℕ) (m : RunTelemetry F)
      → check_telemetry n m ≡ ok tt
      → (ltb_ℤ (pos 0) m.time_to_first_token ≡ true) × ((m.peak_system_ram == 0) ≡ false)
  unfolding check_telemetry
  telemetry_lem n m h = ground arith

  successful_passes :
      (n : ℕ) (r : RunMeasurement F)
      → check_counts n r.throughput ≡ ok tt
      → check_rates n r.throughput ≡ ok tt
      → check_telemetry n r.telemetry ≡ ok tt
      → IsPlausible r
      → bad_sample (successful_sample n r) ≡ false
  unfolding bad_sample successful_sample trim_space
  successful_passes n r c q t p =
      let (ep, eg) = counts_lem n r.throughput c in
      let (vp, vg) = rates_lem n r.throughput q in
      let (kp, kg) = positive_counts n r.throughput c in
      let (late, ram) = telemetry_lem n r.telemetry t in
      let (fp, lp) =
        single_rate (first_rate r.throughput.prompt_tokens_per_second)
          (subst (λ vs. validate_llama_bench_samples vs ≡ none) ep vp) in
      let (fg, lg) =
        single_rate (first_rate r.throughput.generation_tokens_per_second)
          (subst (λ vs. validate_llama_bench_samples vs ≡ none) eg vg) in
      let timed = milliseconds_pass r.telemetry.time_to_first_token late p.ttft in
      let temperature = p.temperature in ground arith

  case_passes :
      (b : Bool) (n : ℕ) (model : Text) (ref : Option (LlamaBenchThroughput F))
      (r : RunMeasurement F) {done : ComputeBenchmarkSample F × Option (LlamaBenchThroughput F)}
      → is_empty (trim_space r.error) ≡ b
      → finalize_case b n model ref r ≡ ok done
      → IsPlausible r
      → bad_sample done.0 ≡ false
  unfolding finalize_case check_success
  case_passes false n model ref r e h p =
      let error = trim_space r.error in
      let (s, a, k) = >>=-eq-ok (finalize_failure n error r.telemetry) _ h in
      let (same, short, _) = failure_lem n _ _ a in
      let blank : is_blank error ≡ false = ap is_empty (trim_space-trim_space r.error) ∙ e in
      let passes = failed_passes n error r.telemetry blank short p.temperature p.ttft in
      subst
        (λ (d : ComputeBenchmarkSample F × Option (LlamaBenchThroughput F)). bad_sample d.0 ≡ false)
        (ok_inj k) (subst (λ s. bad_sample s ≡ false) same passes)
  case_passes true n model ref r e h p =
      let (a, k) = >>-eq-ok (check_success n model ref r) _ h in
      let (c, a1) = >>-eq-ok (check_counts n r.throughput) _ a in
      let (_, a2) = >>-eq-ok (check_metadata n model r.throughput) _ a1 in
      let (q, a3) = >>-eq-ok (check_rates n r.throughput) _ a2 in
      let (t, _) = >>-eq-ok (check_telemetry n r.telemetry) _ a3 in
      subst
        (λ (d : ComputeBenchmarkSample F × Option (LlamaBenchThroughput F)). bad_sample d.0 ≡ false)
        (ok_inj k) (successful_passes n r c q t p)

  -- One turn of the server's loop.
  turn_passes :
      (seen : List ℤ) (s : ComputeBenchmarkSample F) (rest : List (ComputeBenchmarkSample F))
      (n : ℕ)
      → 0 < n
      → s.run ≡ pos n
      → contains seen (pos n) ≡ false
      → bad_sample s ≡ false
      → validate_samples (pos n ∷ seen) rest ≡ none
      → validate_samples seen (s ∷ rest) ≡ none
  unfolding validate_samples
  turn_passes seen s rest n p e fresh good later = rw (good, e, fresh) (ground arith)

  abbrev pub IsBelow : ℕ → List ℤ → Type 0
  IsBelow n seen = (m : ℕ) → n ≤ m → contains seen (pos m) ≡ false

  IsBelow-suc : (n : ℕ) (seen : List ℤ) → IsBelow n seen → IsBelow (suc n) (pos n ∷ seen)
  IsBelow-suc n seen h m k = ground (arith, h m (omega arith))

  from_passes :
      (n : ℕ) (model : Text) (ref : Option (LlamaBenchThroughput F)) (rs : List (RunMeasurement F))
      (seen : List ℤ) {done : List (ComputeBenchmarkSample F) × Option (LlamaBenchThroughput F)}
      → 0 < n
      → IsBelow n seen
      → All IsPlausible rs
      → finalize_from n model ref rs ≡ ok done
      → validate_samples seen done.0 ≡ none
  unfolding finalize_from finalize_run validate_samples
  from_passes n model ref [] seen p below all h =
      subst
        (λ (d : List (ComputeBenchmarkSample F) × Option (LlamaBenchThroughput F)).
          validate_samples seen d.0 ≡ none)
        (ok_inj h) refl
  from_passes n model ref (r ∷ rs) seen p below (ok_r, all) h =
      let (one, a, h1) = >>=-eq-ok (finalize_run n model ref r) _ h in
      let (later, b, h2) = >>=-eq-ok (finalize_from (suc n) model one.1 rs) _ h1 in
      let rest =
        from_passes (suc n) model one.1 rs (pos n ∷ seen) (omega arith) (IsBelow-suc n seen below)
          all b in
      subst
        (λ (d : List (ComputeBenchmarkSample F) × Option (LlamaBenchThroughput F)).
          validate_samples seen d.0 ≡ none)
        (ok_inj h2)
        (turn_passes seen one.0 later.0 n p (case-Reports _ n model ref r refl a).number
          (below n (omega arith)) (case_passes _ n model ref r refl a ok_r) rest)

  -- If the runs' temperatures are numbers from -100 to 250, where they are known, and each time to
  -- the first token is at most 2^53 nanoseconds, then the server's loop over the samples accepts
  -- every benchmark that the agent makes of the runs, those that failed included.
  pub finalized_accepted :
      (input : FinalizeInput F) (b : ComputeBenchmark F)
      → All IsPlausible input.runs
      → finalize_compute_benchmark_runs input ≡ ok b
      → validate_samples [] b.samples ≡ none
  unfolding finalize_compute_benchmark_runs finalized
  finalized_accepted input b all h =
      let (_, h1) = >>-eq-ok (check_input input) _ h in
      let (done, a, h2) = >>=-eq-ok (finalize_from 1 _ none input.runs) _ h1 in
      subst (λ (z : ComputeBenchmark F). validate_samples [] z.samples ≡ none) (ok_inj h2)
        (from_passes 1 _ none input.runs [] (omega arith) (λ m k. refl) all a)
