-- ===== src/Server/ComputeScore/Failures.antt =====
-- `CalculateComputeScore` of server/compute_score.go and the samples that failed.
use mesh_alot.Prelude.{
  ℕ, suc, ◌+◌, Bool, true, false, ◌≡◌, refl, inl, inr, ◌==◌, ==_iff, ap, ◌∙◌, sym, Bool-cases, List,
  [], ◌∷◌, map, length, length-map, is_empty, if◌then◌else◌, arith,
}
use mesh_alot.Prelude.Int.{pos}
use mesh_alot.Prelude.Float.{Float64}
use mesh_alot.Protocol.{ComputeBenchmarkSample, ComputeBenchmark}
use mesh_alot.Server.ComputeScore.{
  Gathered, gather, gather_all, nothing_gathered, calculate_compute_score, unscored, score_gathered,
}

module _ {ℓ} {F : Type ℓ} ⦃f : Float64 F⦄ where
  -- The samples that worked, counted.
  pub count_successes : List (ComputeBenchmarkSample F) → ℕ
  count_successes [] = 0
  count_successes (s ∷ ss) = let rest = count_successes ss in if s.success then suc rest else rest

  -- A failed sample with other measurements.
  abbrev pub remeasured : F → F → F → ComputeBenchmarkSample F → ComputeBenchmarkSample F
  remeasured p g t s = if s.success then s else record s {
    prompt_tokens_per_second = p;
    generation_tokens_per_second = g;
    time_to_first_token_ms = t;
  }

  gather-successful :
      (g : Gathered F) (s : ComputeBenchmarkSample F)
      → (gather g s).successful ≡ (if s.success then suc g.successful else g.successful)
  unfolding gather
  gather-successful g s = ground arith

  gather_all-successful :
      (g : Gathered F) (ss : List (ComputeBenchmarkSample F))
      → (gather_all g ss).successful ≡ g.successful + count_successes ss
  unfolding gather_all count_successes
  gather_all-successful g [] = omega arith
  gather_all-successful g (s ∷ ss) =
      ground (arith, gather_all-successful (gather g s) ss, gather-successful g s)

  gather-remeasured :
      (p q t : F) (g : Gathered F) (s : ComputeBenchmarkSample F)
      → gather g (remeasured p q t s) ≡ gather g s
  unfolding gather
  gather-remeasured p q t g s = elim (Bool-cases s.success) [
    | inl h ↦ rw h refl
    | inr h ↦ rw h refl
  ]

  gather_all-remeasured :
      (p q t : F) (g : Gathered F) (ss : List (ComputeBenchmarkSample F))
      → gather_all g (map (remeasured p q t) ss) ≡ gather_all g ss
  unfolding gather_all
  gather_all-remeasured p q t g [] = refl
  gather_all-remeasured p q t g (s ∷ ss) =
      gather_all-remeasured p q t (gather g (remeasured p q t s)) ss
      ∙ ap (λ h. gather_all h ss) (gather-remeasured p q t g s)

  is_empty-map :
      (h : ComputeBenchmarkSample F → ComputeBenchmarkSample F)
      (ss : List (ComputeBenchmarkSample F))
      → is_empty (map h ss) ≡ is_empty ss
  is_empty-map h [] = refl
  is_empty-map h (s ∷ ss) = refl

  -- What a failed sample says it measured changes nothing in the breakdown, the score included.
  pub failed_measurements_ignored :
      (p q t : F) (b : ComputeBenchmark F)
      → calculate_compute_score (record b { samples = map (remeasured p q t) b.samples })
        ≡ calculate_compute_score b
  unfolding calculate_compute_score
  failed_measurements_ignored p q t b =
      rw
        (
          is_empty-map (remeasured p q t) b.samples,
          length-map (remeasured p q t) b.samples,
          gather_all-remeasured p q t nothing_gathered b.samples,
        )
        refl

  chosen-counts :
      (empty failed : Bool) (n : ℕ) (g : Gathered F)
      → ((empty ≡ true) → (n ≡ 0) × (g.successful ≡ 0))
      → (g.successful == 0) ≡ failed
      → let r =
          if empty
          then unscored 0 false
          else if failed
          then unscored n g.throttling
          else score_gathered n g in
        (r.total_runs ≡ n)
        × (r.successful_runs ≡ g.successful)
        × ((g.successful ≡ 0) → r.score ≡ pos 0)
  unfolding unscored score_gathered
  chosen-counts true failed n g e h = let (a, b) = e refl in (sym a, sym b, λ z. refl)
  chosen-counts false true n g e h = (refl, sym ((==_iff g.successful 0).0 h), λ z. refl)
  chosen-counts false false n g e h =
      (refl, refl, λ z. absurd (ground (arith, ==_iff g.successful 0)))

  count_successes-empty :
      (ss : List (ComputeBenchmarkSample F))
      → is_empty ss ≡ true
      → (length ss ≡ 0) × (count_successes ss ≡ 0)
  unfolding count_successes
  count_successes-empty [] h = (refl, refl)
  count_successes-empty (s ∷ ss) h = ground arith

  -- The breakdown counts every run, and as successful those whose sample worked; if none did, the
  -- score is 0.
  pub compute_score-counts :
      (b : ComputeBenchmark F)
      → let r = calculate_compute_score b in
        (r.total_runs ≡ length b.samples)
        × (r.successful_runs ≡ count_successes b.samples)
        × ((count_successes b.samples ≡ 0) → r.score ≡ pos 0)
  unfolding calculate_compute_score
  compute_score-counts b =
      let g = gather_all nothing_gathered b.samples in
      let e : g.successful ≡ count_successes b.samples =
        omega (arith, gather_all-successful nothing_gathered b.samples) in
      let (total, successful, zero) =
        chosen-counts (is_empty b.samples) (g.successful == 0) (length b.samples) g
          (λ h. let (m, k) = count_successes-empty b.samples h in (m, e ∙ k)) refl in
      (total, successful ∙ e, λ h. zero (e ∙ h))
