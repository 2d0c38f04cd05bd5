-- ===== src/Server/Rating/Tiers.antt =====
-- The tiers of `DetermineNodeTier` of server/node_rating.go, and how they bear on eligibility.
use mesh_alot.Prelude.{true, ◌≡◌, refl, ◌⊎◌, inl, inr, arith}
use mesh_alot.Prelude.Int.{ℤ, pos, ◌≤ℤ◌}
use mesh_alot.Server.Rating.{
  NodeTier, unrated, basic, standard, gold, platinum, datacenter, text_inference, large_data,
  NodeRating, determine_node_tier, lowest_score, tier_of_lowest, evaluate_node_eligibility,
}
use mesh_alot.Server.Rating.Eligibility.{eligible_iff}

-- Every one of the five scores is at least `n`.
abbrev pub AllReach : NodeRating → ℤ → Type 0
AllReach r n =
    (n ≤ℤ r.compute_score)
    × (n ≤ℤ r.network_score)
    × (n ≤ℤ r.reliability_score)
    × (n ≤ℤ r.availability_score)
    × (n ≤ℤ r.trust_score)

abbrev pub AllKnown : NodeRating → Type 0
AllKnown r =
    (r.compute_known ≡ true)
    × (r.network_known ≡ true)
    × (r.reliability_known ≡ true)
    × (r.availability_known ≡ true)
    × (r.trust_known ≡ true)

-- The scores that a tier stands for: at least the first, and not all at least the second.
abbrev pub InBand : NodeRating → NodeTier → Type 0
InBand r unrated = ¬ (AllKnown r)
InBand r basic = AllKnown r × (¬ (AllReach r (pos 50)))
InBand r standard = AllKnown r × AllReach r (pos 50) × (¬ (AllReach r (pos 70)))
InBand r gold = AllKnown r × AllReach r (pos 70) × (¬ (AllReach r (pos 80)))
InBand r platinum = AllKnown r × AllReach r (pos 80) × (¬ (AllReach r (pos 90)))
InBand r datacenter = AllKnown r × AllReach r (pos 90)

-- The minimum reaches a bound exactly when all five scores do.
lowest_reach : (r : NodeRating) (n : ℤ) → (n ≤ℤ lowest_score r) → AllReach r n
unfolding lowest_score
lowest_reach r n h = ground arith

reach_lowest : (r : NodeRating) (n : ℤ) → AllReach r n → n ≤ℤ lowest_score r
unfolding lowest_score
reach_lowest r n h = ground arith

-- The same bands for the lowest score alone.
abbrev LowestIn : ℤ → NodeTier → Type 0
LowestIn l unrated = ⊥
LowestIn l basic = ¬ (pos 50 ≤ℤ l)
LowestIn l standard = (pos 50 ≤ℤ l) × (¬ (pos 70 ≤ℤ l))
LowestIn l gold = (pos 70 ≤ℤ l) × (¬ (pos 80 ≤ℤ l))
LowestIn l platinum = (pos 80 ≤ℤ l) × (¬ (pos 90 ≤ℤ l))
LowestIn l datacenter = pos 90 ≤ℤ l

tier_of_lowest-LowestIn : (l : ℤ) (t : NodeTier) → tier_of_lowest l ≡ t → LowestIn l t
unfolding tier_of_lowest
tier_of_lowest-LowestIn l unrated h = ground arith
tier_of_lowest-LowestIn l basic h = ground arith
tier_of_lowest-LowestIn l standard h = ground arith
tier_of_lowest-LowestIn l gold h = ground arith
tier_of_lowest-LowestIn l platinum h = ground arith
tier_of_lowest-LowestIn l datacenter h = ground arith

LowestIn-InBand :
    (r : NodeRating) (t : NodeTier) → AllKnown r → LowestIn (lowest_score r) t → InBand r t
LowestIn-InBand r unrated k h = absurd h
LowestIn-InBand r basic k h = (k, λ all. h (reach_lowest r (pos 50) all))
LowestIn-InBand r standard k h =
    (k, lowest_reach r (pos 50) h.0, λ all. h.1 (reach_lowest r (pos 70) all))
LowestIn-InBand r gold k h =
    (k, lowest_reach r (pos 70) h.0, λ all. h.1 (reach_lowest r (pos 80) all))
LowestIn-InBand r platinum k h =
    (k, lowest_reach r (pos 80) h.0, λ all. h.1 (reach_lowest r (pos 90) all))
LowestIn-InBand r datacenter k h = (k, lowest_reach r (pos 90) h)

determine_node_tier-cases :
    (r : NodeRating)
    → (AllKnown r × (determine_node_tier r ≡ tier_of_lowest (lowest_score r)))
      ⊎ ((¬ (AllKnown r)) × (determine_node_tier r ≡ unrated))
unfolding determine_node_tier
determine_node_tier-cases r = ground arith

-- The tier of a node is `unrated` when some score is unknown; else it is the band of its weakest
-- score: 90 and above, from 80, from 70, from 50, or below 50.
pub determine_node_tier-InBand : (r : NodeRating) → InBand r (determine_node_tier r)
determine_node_tier-InBand r = elim (determine_node_tier-cases r) [
  | inl (k, e) ↦ rw e (
      LowestIn-InBand r (tier_of_lowest (lowest_score r)) k
        (tier_of_lowest-LowestIn (lowest_score r) _ refl))
  | inr (n, e) ↦ rw e n
]

abbrev pub IsRated : NodeTier → Type 0
IsRated unrated = ⊥
IsRated basic = ⊥
IsRated _ = Unit

abbrev pub IsTop : NodeTier → Type 0
IsTop gold = Unit
IsTop platinum = Unit
IsTop datacenter = Unit
IsTop _ = ⊥

IsRated-AllReach :
    (r : NodeRating) (t : NodeTier) → IsRated t → InBand r t → AllKnown r × AllReach r (pos 50)
IsRated-AllReach r standard h b = (b.0, b.1)
IsRated-AllReach r gold h b = (b.0, omega arith)
IsRated-AllReach r platinum h b = (b.0, omega arith)
IsRated-AllReach r datacenter h b = (b.0, omega arith)
IsRated-AllReach r unrated h b = absurd h
IsRated-AllReach r basic h b = absurd h

IsTop-AllReach :
    (r : NodeRating) (t : NodeTier) → IsTop t → InBand r t → AllKnown r × AllReach r (pos 70)
IsTop-AllReach r gold h b = (b.0, b.1)
IsTop-AllReach r platinum h b = (b.0, omega arith)
IsTop-AllReach r datacenter h b = (b.0, omega arith)
IsTop-AllReach r unrated h b = absurd h
IsTop-AllReach r basic h b = absurd h
IsTop-AllReach r standard h b = absurd h

-- A node of tier `standard` or better is eligible for text inference, and one of tier `gold` or
-- better for large data too.
pub tier_eligible :
    (r : NodeRating)
    → (IsRated (determine_node_tier r)
        → (evaluate_node_eligibility r text_inference).eligible ≡ true)
      × (IsTop (determine_node_tier r) → (evaluate_node_eligibility r large_data).eligible ≡ true)
tier_eligible r = (
  λ h.
      let (k, all) = IsRated-AllReach r (determine_node_tier r) h (determine_node_tier-InBand r) in
      (eligible_iff r text_inference).1 (tt, ground arith),
  λ h.
      let (k, all) = IsTop-AllReach r (determine_node_tier r) h (determine_node_tier-InBand r) in
      (eligible_iff r large_data).1 (tt, ground arith),
)
