-- ===== src/Server/ComputeScore/Bounds.antt =====
-- `CalculateComputeScore` of server/compute_score.go: the range of the score and of its parts.
use mathlib.Core.Path.{subst}
use Prim.Native.Nat.{◌^◌}
use mesh_alot.Prelude.{
  ℕ, suc, ◌+◌, ◌≤◌, ◌<◌, Bool, false, true, ◌≡◌, refl, List, [], ◌∷◌, length, is_empty, ◌==◌,
  if◌then◌else◌, arith,
}
use mesh_alot.Prelude.Int.{pos, ◌≤ℤ◌}
use mesh_alot.Prelude.Float.{Float64, ◌≼◌, IsFloat64}
use mesh_alot.Protocol.{ComputeBenchmarkSample, ComputeBenchmark}
use mesh_alot.Server.Score.{clamp}
use mesh_alot.Server.Score.Points.{clamp_bounds}
use mesh_alot.Server.ComputeScore.{
  ComputeScoreBreakdown, Gathered, gather, gather_all, nothing_gathered, throttle_multiplier,
  final_score, score_gathered, calculate_compute_score, unscored,
}
use mesh_alot.Server.ComputeScore.Shares.{
  IsShare, scale_points-IsShare, ttft_points_of-IsShare, stability_points_of-IsShare,
  success_points_of-IsShare,
}

-- The medians and the variation coefficient are numbers, not NaN.
pub record IsMeasured {ℓ} {F : Type ℓ} ⦃f : Float64 F⦄ (r : ComputeScoreBreakdown F) : Type 0 where
  pub prompt : r.median_prompt_tokens_per_second ≼ r.median_prompt_tokens_per_second
  pub generation : r.median_generation_tokens_per_second ≼ r.median_generation_tokens_per_second
  pub ttft : r.median_time_to_first_token_ms ≼ r.median_time_to_first_token_ms
  pub cv : r.variation_coefficient ≼ r.variation_coefficient

-- Each part lies within its share, and the score within 0 to 100.
pub record IsBounded {ℓ} {F : Type ℓ} ⦃f : Float64 F⦄ (r : ComputeScoreBreakdown F) : Type 0 where
  pub prompt : IsShare 20 r.prompt_points
  pub generation : IsShare 40 r.generation_points
  pub ttft : IsShare 15 r.ttft_points
  pub stability : IsShare 15 r.stability_points
  pub success : IsShare 10 r.success_points
  pub score : (pos 0 ≤ℤ r.score) × (r.score ≤ℤ pos 100)
  pub runs : r.successful_runs ≤ r.total_runs

module _ {ℓ} {F : Type ℓ} ⦃f : Float64 F⦄ where
  gather-le :
      (g : Gathered F) (s : ComputeBenchmarkSample F) → (gather g s).successful ≤ suc g.successful
  unfolding gather
  gather-le g s = ground arith

  -- The loop counts no sample twice.
  pub gather_all-le :
      (g : Gathered F) (ss : List (ComputeBenchmarkSample F))
      → (gather_all g ss).successful ≤ g.successful + length ss
  unfolding gather_all
  gather_all-le g [] = omega arith
  gather_all-le g (s ∷ ss) = omega (arith, gather_all-le (gather g s) ss, gather-le g s)

length-pos {ℓ} : {A : Type ℓ} (xs : List A) → is_empty xs ≡ false → 0 < length xs
length-pos [] h = ground arith
length-pos (x ∷ xs) h = omega arith

module _ {ℓ} {F : Type ℓ} ⦃f : Float64 F⦄ (laws : IsFloat64 F) where
  open f use {lit, lt, le, add, mul, round, is_inf}
  open laws use {
    refl_of_le, lit_finite, lit_mono, finite_of_le, add_mono, add_nonneg, add_lit, mul_nonneg,
    round_mono, round_lit, div_lit_finite, div_lit_zero, div_mono,
  }

  add-IsShare :
      (p q : ℕ) (x y : F) → p + q ≤ 2 ^ 53 → IsShare p x → IsShare q y → IsShare (p + q) (add x y)
  add-IsShare p q x y h (xl, xh) (yl, yh) = (
    add_nonneg _ _ xl yl,
    subst (λ z. add x y ≼ z) (add_lit p q h) (add_mono _ _ _ _ xl xh yl yh),
  )

  -- A number at least 0 is rounded, after the clamp, into 0 to 100.
  round-bounds :
      (t : F)
      → lit (pos 0) ≼ t
      → let r = round (clamp t (lit (pos 0)) (lit (pos 100))) in (pos 0 ≤ℤ r) × (r ≤ℤ pos 100)
  round-bounds t n =
      let top = lit_finite 100 (omega arith) in
      let (low, high) =
        clamp_bounds laws t _ _ (refl_of_le _ _ n).1 (lit_mono 0 100 (omega arith) (omega arith)) in
      let fin = finite_of_le _ _ low high top.1 in
      let r = round (clamp t (lit (pos 0)) (lit (pos 100))) in
      (
        subst (λ z. z ≤ℤ r) (round_lit 0 (omega arith))
            (round_mono _ _ low (lit_finite 0 (omega arith)).1 fin),
        subst (λ z. r ≤ℤ z) (round_lit 100 (omega arith)) (round_mono _ _ high fin top.1),
      )

  multiplier_nonneg : lit (pos 0) ≼ throttle_multiplier
  multiplier_nonneg =
      subst (λ z. z ≼ throttle_multiplier) (div_lit_zero 100 (omega arith) (omega arith))
        (div_mono _ _ 100 (lit_mono 0 90 (omega arith) (omega arith)) (omega arith) (omega arith))

  throttled_nonneg : (t : F) → IsShare 100 t → lit (pos 0) ≼ mul t throttle_multiplier
  throttled_nonneg t (low, high) =
      mul_nonneg _ _ low multiplier_nonneg
        (finite_of_le _ _ low high (lit_finite 100 (omega arith)).1)
        (div_lit_finite 90 100 (omega arith) (omega arith) (omega arith)).1

  final_score-bounds :
      (a b c d e : F) (throttled : Bool)
      → IsShare 20 a
      → IsShare 40 b
      → IsShare 15 c
      → IsShare 15 d
      → IsShare 10 e
      → (pos 0 ≤ℤ final_score a b c d e throttled) × (final_score a b c d e throttled ≤ℤ pos 100)
  unfolding final_score
  final_score-bounds a b c d e throttled ha hb hc hd he =
      let total =
        add-IsShare 90 10 _ e (omega arith)
          (add-IsShare 75 15 _ d (omega arith)
            (add-IsShare 60 15 _ c (omega arith) (add-IsShare 20 40 a b (omega arith) ha hb) hc) hd)
          he in
      elim throttled
        as (λ k. (pos 0 ≤ℤ final_score a b c d e k) × (final_score a b c d e k ≤ℤ pos 100)) [
          | true ↦ round-bounds _ (throttled_nonneg _ total)
          | false ↦ round-bounds _ total.0
        ]

  zero-IsShare : (p : ℕ) → p ≤ 100 → IsShare p (lit (pos 0))
  zero-IsShare p h = ((lit_finite 0 (omega arith)).0, lit_mono 0 p (omega arith) (omega arith))

  unscored-IsBounded : (n : ℕ) (t : Bool) → IsBounded (unscored {F = F} n t)
  unfolding unscored
  unscored-IsBounded n t = record {
    prompt = zero-IsShare 20 (omega arith);
    generation = zero-IsShare 40 (omega arith);
    ttft = zero-IsShare 15 (omega arith);
    stability = zero-IsShare 15 (omega arith);
    success = zero-IsShare 10 (omega arith);
    score = omega arith;
    runs = omega arith;
  }

  score_gathered-IsBounded :
      (n : ℕ) (g : Gathered F)
      → g.successful ≤ n
      → 0 < n
      → n ≤ 2 ^ 53
      → IsMeasured (score_gathered n g)
      → IsBounded (score_gathered n g)
  unfolding score_gathered
  score_gathered-IsBounded n g h p b m =
      let p1 =
        scale_points-IsShare laws 20 _ 1000 (omega arith) (omega arith) (omega arith) m.prompt in
      let p2 =
        scale_points-IsShare laws 40 _ 100 (omega arith) (omega arith) (omega arith) m.generation in
      let p3 = ttft_points_of-IsShare laws _ m.ttft in
      let p4 = stability_points_of-IsShare laws g.successful _ m.cv in
      let p5 = success_points_of-IsShare laws g.successful n h p b in
      record {
        prompt = p1;
        generation = p2;
        ttft = p3;
        stability = p4;
        success = p5;
        score = final_score-bounds _ _ _ _ _ g.throttling p1 p2 p3 p4 p5;
        runs = h;
      }

  -- The early returns and the full path, chosen by two tests.
  chosen-IsBounded :
      (empty failed : Bool) (n : ℕ) (g : Gathered F)
      → g.successful ≤ n
      → ((empty ≡ false) → 0 < n)
      → n ≤ 2 ^ 53
      → let r =
          if empty
          then unscored 0 false
          else if failed
          then unscored n g.throttling
          else score_gathered n g in
        IsMeasured r → IsBounded r
  chosen-IsBounded true failed n g h p b m = unscored-IsBounded 0 false
  chosen-IsBounded false true n g h p b m = unscored-IsBounded n g.throttling
  chosen-IsBounded false false n g h p b m = score_gathered-IsBounded n g h (p refl) b m

  -- For a benchmark of at most 2^53 samples whose medians and variation coefficient are numbers, the
  -- prompt, generation, TTFT, stability and success points lie within their shares 20, 40, 15, 15 and
  -- 10, the score lies from 0 to 100, and no more runs are counted as successful than there are.
  pub compute_score-IsBounded :
      (b : ComputeBenchmark F)
      → length b.samples ≤ 2 ^ 53
      → IsMeasured (calculate_compute_score b)
      → IsBounded (calculate_compute_score b)
  unfolding calculate_compute_score
  compute_score-IsBounded b h m =
      let g = gather_all nothing_gathered b.samples in
      chosen-IsBounded (is_empty b.samples) (g.successful == 0) (length b.samples) g
        (omega (arith, gather_all-le nothing_gathered b.samples)) (length-pos b.samples) h m
