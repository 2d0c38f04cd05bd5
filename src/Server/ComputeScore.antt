-- ===== src/Server/ComputeScore.antt =====
-- server/compute_score.go: the authoritative score of a compute benchmark, over any `float64`.
pub mod Shares
pub mod Bounds
pub mod Failures
mod Examples
use mesh_alot.Prelude.{
  ℕ, suc, ◌-◌, ◌/◌, ◌%◌, Bool, true, false, not, ◌&&◌, ◌||◌, Option, none, some, List, [], ◌∷◌,
  ◌++◌, length, get_elem?, is_empty, ltb, leb, ◌==◌, if◌then◌else◌,
}
use mesh_alot.Prelude.Int.{ℤ, pos}
use mesh_alot.Prelude.Float.{Float64}
use mesh_alot.Protocol.{ComputeBenchmarkSample, ComputeBenchmark}
use mesh_alot.Server.Score.{clamp, clamp01, decreasing_linear_score}

pub record ComputeScoreBreakdown {ℓ} (F : Type ℓ) : Type ℓ where
  pub score : ℤ
  pub successful_runs : ℕ
  pub total_runs : ℕ
  pub median_prompt_tokens_per_second : F
  pub median_generation_tokens_per_second : F
  pub median_time_to_first_token_ms : F
  pub prompt_points : F
  pub generation_points : F
  pub ttft_points : F
  pub stability_points : F
  pub success_points : F
  pub variation_coefficient : F
  pub throttling_observed : Bool

-- What the loop over the samples has gathered.
pub record Gathered {ℓ} (F : Type ℓ) : Type ℓ where
  pub throttling : Bool
  pub successful : ℕ
  pub prompt_rates : List F
  pub generation_rates : List F
  pub ttfts : List F

abbrev pub is_set : Option Bool → Bool
is_set none = false
is_set (some b) = b

module _ {ℓ} {F : Type ℓ} ⦃f : Float64 F⦄ where
  open f use {lit, lt, le, add, sub, mul, div, sqrt, is_nan, round}

  -- The order of `sort.Float64s`, in which NaN comes first.
  unfoldable pub less : F → F → Bool
  less x y = lt x y || (is_nan x && not (is_nan y))

  unfoldable pub insert : F → List F → List F
  insert x [] = x ∷ []
  insert x (y ∷ ys) = let rest = insert x ys in if less y x then y ∷ rest else x ∷ (y ∷ ys)

  unfoldable pub sort : List F → List F
  sort [] = []
  sort (x ∷ xs) = insert x (sort xs)

  -- `values[i]`, for the `i` in range with which it is used.
  abbrev pub value_at : List F → ℕ → F
  value_at xs i = elim (get_elem? xs i) [ none ↦ lit (pos 0) | some x ↦ x ]

  pub median_float64 : List F → F
  median_float64 values =
      let sorted = sort values in
      let middle = length sorted / 2 in
      if is_empty values
      then lit (pos 0)
      else if length sorted % 2 == 1
      then value_at sorted middle
      else div (add (value_at sorted (middle - 1)) (value_at sorted middle)) (lit (pos 2))

  pub sum_from : F → List F → F
  sum_from total [] = total
  sum_from total (v ∷ vs) = sum_from (add total v) vs

  pub variance_from : F → F → List F → F
  variance_from mean variance [] = variance
  variance_from mean variance (v ∷ vs) =
      let delta = sub v mean in variance_from mean (add variance (mul delta delta)) vs

  pub coefficient_of_variation : List F → F
  coefficient_of_variation values =
      let n = lit (pos (length values)) in
      let mean = div (sum_from (lit (pos 0)) values) n in
      if ltb (length values) 2
      then lit (pos 1)
      else if le mean (lit (pos 0))
      then lit (pos 1)
      else div (sqrt (div (variance_from mean (lit (pos 0)) values) n)) mean

  pub compute_benchmark_variation_coefficient : List F → List F → List F → F
  compute_benchmark_variation_coefficient prompts generations ttfts =
      div
        (sum_from (lit (pos 0)) (
          coefficient_of_variation prompts
          ∷ (coefficient_of_variation generations ∷ (coefficient_of_variation ttfts ∷ []))))
        (lit (pos 3))

  pub gather : Gathered F → ComputeBenchmarkSample F → Gathered F
  gather g s =
      let seen = g.throttling || is_set s.throttled in
      if s.success
      then record {
        throttling = seen;
        successful = suc g.successful;
        prompt_rates = g.prompt_rates ++ (s.prompt_tokens_per_second ∷ []);
        generation_rates = g.generation_rates ++ (s.generation_tokens_per_second ∷ []);
        ttfts = g.ttfts ++ (s.time_to_first_token_ms ∷ []);
      }
      else record g { throttling = seen }

  pub gather_all : Gathered F → List (ComputeBenchmarkSample F) → Gathered F
  gather_all g [] = g
  gather_all g (s ∷ rest) = gather_all (gather g s) rest

  abbrev pub nothing_gathered : Gathered F
  nothing_gathered = record {
    throttling = false;
    successful = 0;
    prompt_rates = [];
    generation_rates = [];
    ttfts = [];
  }

  -- The zero breakdown, with what the early returns have set.
  pub unscored : ℕ → Bool → ComputeScoreBreakdown F
  unscored total throttling = record {
    score = pos 0;
    successful_runs = 0;
    total_runs = total;
    median_prompt_tokens_per_second = lit (pos 0);
    median_generation_tokens_per_second = lit (pos 0);
    median_time_to_first_token_ms = lit (pos 0);
    prompt_points = lit (pos 0);
    generation_points = lit (pos 0);
    ttft_points = lit (pos 0);
    stability_points = lit (pos 0);
    success_points = lit (pos 0);
    variation_coefficient = lit (pos 0);
    throttling_observed = throttling;
  }

  -- The constants 0.05, 0.30 and 0.90.
  abbrev pub stable_cv : F
  stable_cv = div (lit (pos 5)) (lit (pos 100))

  abbrev pub poor_cv : F
  poor_cv = div (lit (pos 30)) (lit (pos 100))

  abbrev pub throttle_multiplier : F
  throttle_multiplier = div (lit (pos 90)) (lit (pos 100))

  pub scale_points : ℕ → F → ℕ → F
  scale_points points value full = mul (lit (pos points)) (clamp01 (div value (lit (pos full))))

  pub ttft_points_of : F → F
  ttft_points_of ms = decreasing_linear_score ms (lit (pos 100)) (lit (pos 5000)) (lit (pos 15))

  pub stability_points_of : ℕ → F → F
  stability_points_of successful cv =
      if leb 3 successful
      then decreasing_linear_score cv stable_cv poor_cv (lit (pos 15))
      else lit (pos 0)

  pub success_points_of : ℕ → ℕ → F
  success_points_of successful total =
      mul (lit (pos 10)) (div (lit (pos successful)) (lit (pos total)))

  pub final_score : F → F → F → F → F → Bool → ℤ
  final_score prompt generation ttft stability success throttled =
      let total = add (add (add (add prompt generation) ttft) stability) success in
      round (
        clamp (if throttled then mul total throttle_multiplier else total) (lit (pos 0))
          (lit (pos 100)))

  -- From the medians on.
  pub score_gathered : ℕ → Gathered F → ComputeScoreBreakdown F
  score_gathered total g =
      let prompt = median_float64 g.prompt_rates in
      let generation = median_float64 g.generation_rates in
      let ttft = median_float64 g.ttfts in
      let cv = compute_benchmark_variation_coefficient g.prompt_rates g.generation_rates g.ttfts in
      let p1 = scale_points 20 prompt 1000 in
      let p2 = scale_points 40 generation 100 in
      let p3 = ttft_points_of ttft in
      let p4 = stability_points_of g.successful cv in
      let p5 = success_points_of g.successful total in
      record {
        score = final_score p1 p2 p3 p4 p5 g.throttling;
        successful_runs = g.successful;
        total_runs = total;
        median_prompt_tokens_per_second = prompt;
        median_generation_tokens_per_second = generation;
        median_time_to_first_token_ms = ttft;
        prompt_points = p1;
        generation_points = p2;
        ttft_points = p3;
        stability_points = p4;
        success_points = p5;
        variation_coefficient = cv;
        throttling_observed = g.throttling;
      }

  pub calculate_compute_score : ComputeBenchmark F → ComputeScoreBreakdown F
  calculate_compute_score b =
      let total = length b.samples in
      let g = gather_all nothing_gathered b.samples in
      if is_empty b.samples
      then unscored 0 false
      else if g.successful == 0
      then unscored total g.throttling
      else score_gathered total g
