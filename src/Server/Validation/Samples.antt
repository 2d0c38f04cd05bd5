-- ===== src/Server/Validation/Samples.antt =====
-- What the loop of `validateComputeBenchmarkSubmission` (server/compute_benchmark_auth.go) ensures.
use mesh_alot.Prelude.{
  ◌≤◌, ◌<◌, true, false, ◌≡◌, ◌≢◌, none, List, [], ◌∷◌, length, arith, All, ap, map,
}
use mesh_alot.Prelude.Int.{ℤ, pos, pos_part, neg_part, ◌<ℤ◌}
use mesh_alot.Prelude.Time.{Instant}
use mesh_alot.Prelude.Float.{Float64, ◌≼◌}
use mesh_alot.Protocol.{ComputeBenchmarkSample, ComputeBenchmark, Submission}
use mesh_alot.Server.Validation.{
  contains, bad_sample, validate_samples, validate_compute_benchmark_submission,
  finite_compute_benchmark_non_negative,
}

-- No two of the numbers are equal.
abbrev pub Distinct : List ℤ → Type 0
Distinct [] = Unit
Distinct (x ∷ xs) = All (λ y. x ≢ y) xs × Distinct xs

contains_self : (seen : List ℤ) (r : ℤ) → contains (r ∷ seen) r ≡ true
contains_self seen r = ground arith

contradiction : (r y : ℤ) (seen : List ℤ) → r ≡ y → contains (r ∷ seen) y ≡ false → ⊥
contradiction r y seen e h = ground (arith, ap pos_part e, ap neg_part e)

not_seen :
    (r : ℤ) (seen rs : List ℤ)
    → All (λ y. contains (r ∷ seen) y ≡ false) rs
    → All (λ y. r ≢ y) rs × All (λ y. contains seen y ≡ false) rs
not_seen r seen [] h = (tt, tt)
not_seen r seen (y ∷ rs) (h, hs) =
    let (apart, unseen) = not_seen r seen rs hs in
    ((λ e. absurd (contradiction r y seen e h), apart), (ground arith, unseen))

module _ {ℓ} {F : Type ℓ} ⦃f : Float64 F⦄ where
  open f use {lit, le, is_nan, is_inf}

  abbrev pub IsMeasurement : F → Type 0
  IsMeasurement v = (is_nan v ≡ false) × (is_inf v ≡ false) × (lit (pos 0) ≼ v)

  -- A sample that counts: its rates are measurements, and if it was a success, it did work.
  pub record IsSound (s : ComputeBenchmarkSample F) : Type 0 where
    pub run : pos 0 <ℤ s.run
    pub prompt_rate : IsMeasurement s.prompt_tokens_per_second
    pub generation_rate : IsMeasurement s.generation_tokens_per_second
    pub ttft : IsMeasurement s.time_to_first_token_ms
    pub worked :
        s.success ≡ true
        → (pos 0 <ℤ s.prompt_tokens)
          × (pos 0 <ℤ s.generated_tokens)
          × (le s.prompt_tokens_per_second (lit (pos 0)) ≡ false)
          × (le s.generation_tokens_per_second (lit (pos 0)) ≡ false)
          × (0 < s.peak_system_ram_bytes)

  abbrev pub runs : List (ComputeBenchmarkSample F) → List ℤ
  runs = map (λ s. s.run)

  sound : (s : ComputeBenchmarkSample F) → pos 0 <ℤ s.run → bad_sample s ≡ false → IsSound s
  unfolding bad_sample finite_compute_benchmark_non_negative
  sound s p h = record {
    run = p;
    prompt_rate = ground arith;
    generation_rate = ground arith;
    ttft = ground arith;
    worked = λ w. ground arith;
  }

  step_inversion :
      (seen : List ℤ) (s : ComputeBenchmarkSample F) (rest : List (ComputeBenchmarkSample F))
      → validate_samples seen (s ∷ rest) ≡ none
      → (pos 0 <ℤ s.run)
        × (contains seen s.run ≡ false)
        × (bad_sample s ≡ false)
        × (validate_samples (s.run ∷ seen) rest ≡ none)
  unfolding validate_samples
  step_inversion seen s rest h = ground arith

  validate_samples-IsSound :
      (seen : List ℤ) (xs : List (ComputeBenchmarkSample F))
      → validate_samples seen xs ≡ none
      → All IsSound xs × Distinct (runs xs) × All (λ y. contains seen y ≡ false) (runs xs)
  unfolding validate_samples
  validate_samples-IsSound seen [] h = (tt, tt, tt)
  validate_samples-IsSound seen (s ∷ rest) h =
      let (positive, unseen, good, tail) = step_inversion seen s rest h in
      let (sounds, distinct, fresh) = validate_samples-IsSound (s.run ∷ seen) rest tail in
      let (apart, before) = not_seen s.run seen (runs rest) fresh in
      ((sound s positive good, sounds), (apart, distinct), (unseen, before))

  reaches_samples :
      (s : Submission (ComputeBenchmark F)) (now : Instant)
      → validate_compute_benchmark_submission s now ≡ none
      → (0 < length s.benchmark.samples)
        × (length s.benchmark.samples ≤ 50)
        × (validate_samples [] s.benchmark.samples ≡ none)
  unfolding validate_compute_benchmark_submission
  reaches_samples s now h = ground arith

  -- An accepted compute benchmark has from 1 to 50 samples with distinct positive run numbers; every
  -- rate and time is a finite number of at least 0, and a successful sample has positive token counts,
  -- no rate that is `<= 0`, and a peak of memory.
  pub accepted_samples :
      (s : Submission (ComputeBenchmark F)) (now : Instant)
      → validate_compute_benchmark_submission s now ≡ none
      → let samples = s.benchmark.samples in
        (0 < length samples) × (length samples ≤ 50) × All IsSound samples × Distinct (runs samples)
  accepted_samples s now h =
      let (some_, few, ok) = reaches_samples s now h in
      let (sounds, distinct, _) = validate_samples-IsSound [] s.benchmark.samples ok in
      (some_, few, sounds, distinct)
