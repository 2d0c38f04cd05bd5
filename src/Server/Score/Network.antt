-- ===== src/Server/Score/Network.antt =====
-- `CalculateNetworkScore` of server/network_score.go: its range and its direction.
use mathlib.Core.Path.{subst}
use mesh_alot.Prelude.{Bool, false, ◌≡◌, arith}
use mesh_alot.Prelude.Int.{pos, ◌≤ℤ◌}
use mesh_alot.Prelude.Float.{Float64, ◌≼◌, IsFloat64}
use mesh_alot.Server.Score.{clamp, network_total, calculate_network_score}
use mesh_alot.Server.Score.Points.{clamp_bounds, clamp_mono, linear_antitone}
use mesh_alot.Server.Score.Terms.{
  bandwidth_nonneg, bandwidth_mono, loss_nonneg, loss_antitone, family_nonneg, latency_nonneg,
  jitter_nonneg,
}

-- The five measurements are numbers, not NaN.
abbrev pub AreNumbers {ℓ} : {F : Type ℓ} ⦃f : Float64 F⦄ → F → F → F → F → F → Type 0
AreNumbers d u l j p = (d ≼ d) × (u ≼ u) × (l ≼ l) × (j ≼ j) × (p ≼ p)

module _ {ℓ} {F : Type ℓ} ⦃f : Float64 F⦄ (laws : IsFloat64 F) where
  open f use {lit, lt, le, add, round, is_inf}
  open laws use {
    refl_of_le, lit_finite, lit_mono, finite_of_le, add_mono, add_nonneg, round_mono, round_lit,
  }

  total_nonneg :
      (ipv4 ipv6 : Bool) (d u l j p : F)
      → AreNumbers d u l j p
      → lit (pos 0) ≼ network_total ipv4 ipv6 d u l j p
  unfolding network_total
  total_nonneg ipv4 ipv6 d u l j p (nd, nu, nl, nj, np) =
      add_nonneg _ _
        (add_nonneg _ _
          (add_nonneg _ _
            (add_nonneg _ _
              (add_nonneg _ _ (family_nonneg laws ipv4 ipv6) (bandwidth_nonneg laws d nd))
              (bandwidth_nonneg laws u nu))
            (latency_nonneg laws l nl))
          (jitter_nonneg laws j nj))
        (loss_nonneg laws p np)

  abbrev final : F → F
  final total = clamp total (lit (pos 0)) (lit (pos 100))

  final_bounds :
      (t : F)
      → t ≼ t
      → (lit (pos 0) ≼ final t) × (final t ≼ lit (pos 100)) × (is_inf (final t) ≡ false)
  final_bounds t n =
      let (low, high) = clamp_bounds laws t _ _ n (lit_mono 0 100 (omega arith) (omega arith)) in
      (low, high, finite_of_le _ _ low high (lit_finite 100 (omega arith)).1)

  round_final_bounds : (t : F) → t ≼ t → (pos 0 ≤ℤ round (final t)) × (round (final t) ≤ℤ pos 100)
  round_final_bounds t n =
      let (low, high, finite) = final_bounds t n in
      (
        subst (λ z. z ≤ℤ round (final t)) (round_lit 0 (omega arith))
            (round_mono _ _ low (lit_finite 0 (omega arith)).1 finite),
        subst (λ z. round (final t) ≤ℤ z) (round_lit 100 (omega arith))
            (round_mono _ _ high finite (lit_finite 100 (omega arith)).1),
      )

  -- If none of the five measurements is NaN, the network score is from 0 to 100.
  pub network_score_bounds :
      (ipv4 ipv6 : Bool) (d u l j p : F)
      → AreNumbers d u l j p
      → (pos 0 ≤ℤ calculate_network_score ipv4 ipv6 d u l j p)
        × (calculate_network_score ipv4 ipv6 d u l j p ≤ℤ pos 100)
  unfolding calculate_network_score
  network_score_bounds ipv4 ipv6 d u l j p n =
      let t = network_total ipv4 ipv6 d u l j p in
      let num = (refl_of_le _ _ (total_nonneg ipv4 ipv6 d u l j p n)).1 in
      ground (arith, round_final_bounds t num)

  total_mono :
      (ipv4 ipv6 : Bool) (d d' u u' l l' j j' p p' : F)
      → d ≼ d'
      → u ≼ u'
      → l' ≼ l
      → j' ≼ j
      → p' ≼ p
      → network_total ipv4 ipv6 d u l j p ≼ network_total ipv4 ipv6 d' u' l' j' p'
  unfolding network_total
  total_mono ipv4 ipv6 d d' u u' l l' j j' p p' hd hu hl hj hp =
      let z0 = family_nonneg laws ipv4 ipv6 in
      let zd = bandwidth_nonneg laws d (refl_of_le _ _ hd).0 in
      let zu = bandwidth_nonneg laws u (refl_of_le _ _ hu).0 in
      let zl = latency_nonneg laws l (refl_of_le _ _ hl).1 in
      let zj = jitter_nonneg laws j (refl_of_le _ _ hj).1 in
      let zp = loss_nonneg laws p (refl_of_le _ _ hp).1 in
      let z1 = add_nonneg _ _ z0 zd in
      let z2 = add_nonneg _ _ z1 zu in
      let z3 = add_nonneg _ _ z2 zl in
      let z4 = add_nonneg _ _ z3 zj in
      let m1 = add_mono _ _ _ _ z0 (refl_of_le _ _ z0).1 zd (bandwidth_mono laws d d' hd) in
      let m2 = add_mono _ _ _ _ z1 m1 zu (bandwidth_mono laws u u' hu) in
      let m3 =
        add_mono _ _ _ _ z2 m2 zl
          (linear_antitone laws 10 200 20 (omega arith) (omega arith) (omega arith) l' l hl) in
      let m4 =
        add_mono _ _ _ _ z3 m3 zj
          (linear_antitone laws 2 50 10 (omega arith) (omega arith) (omega arith) j' j hj) in
      add_mono _ _ _ _ z4 m4 zp (loss_antitone laws p' p hp)

  -- With the same address families, more bandwidth each way and less latency, jitter and loss never
  -- lower the network score.
  pub network_score_mono :
      (ipv4 ipv6 : Bool) (d d' u u' l l' j j' p p' : F)
      → d ≼ d'
      → u ≼ u'
      → l' ≼ l
      → j' ≼ j
      → p' ≼ p
      → calculate_network_score ipv4 ipv6 d u l j p
        ≤ℤ calculate_network_score ipv4 ipv6 d' u' l' j' p'
  unfolding calculate_network_score
  network_score_mono ipv4 ipv6 d d' u u' l l' j j' p p' hd hu hl hj hp =
      let m = total_mono ipv4 ipv6 d d' u u' l l' j j' p p' hd hu hl hj hp in
      let (n, n') = refl_of_le _ _ m in
      let rounded =
        round_mono _ _ (clamp_mono laws _ _ _ _ m (lit_mono 0 100 (omega arith) (omega arith)))
          (final_bounds _ n).2 (final_bounds _ n').2 in
      ground (arith, rounded)
