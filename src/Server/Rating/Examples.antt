-- ===== src/Server/Rating/Examples.antt =====
-- Ratings at which the theorems on server/node_rating.go apply, and runs of its functions.
use mesh_alot.Prelude.{ℕ, true, false, ◌≡◌, refl, ◌↔◌, [], ◌∷◌, arith}
use mesh_alot.Prelude.Int.{pos}
use mesh_alot.Server.Rating.{
  NodeRating, unrated, gold, text_inference, large_data, network, trust, evidence_unavailable,
  below_requirement, evaluate_node_eligibility, check_all, check_known_minimum, conclude,
  determine_node_tier, lowest_score, tier_of_lowest,
}
use mesh_alot.Server.Rating.Eligibility.{IsSupported, MeetsAll, eligible_iff}

abbrev rated : ℕ → ℕ → ℕ → ℕ → ℕ → NodeRating
rated c n r a t = record {
  compute_score = pos c;
  network_score = pos n;
  reliability_score = pos r;
  availability_score = pos a;
  trust_score = pos t;
  compute_known = true;
  network_known = true;
  reliability_known = true;
  availability_known = true;
  trust_known = true;
  tier = unrated;
}

abbrev strong : NodeRating
strong = rated 72 75 80 90 78

abbrev weak : NodeRating
weak = record (rated 43 20 80 90 0) { trust_known = false }

weak_limited :
    (evaluate_node_eligibility weak text_inference).limitations
    ≡ below_requirement network ∷ evidence_unavailable trust ∷ []
unfolding evaluate_node_eligibility check_all check_known_minimum conclude
weak_limited = refl

strong_tier : determine_node_tier strong ≡ gold
unfolding determine_node_tier lowest_score tier_of_lowest
strong_tier = refl

strong_eligible : (evaluate_node_eligibility strong large_data).eligible ≡ true
strong_eligible = (eligible_iff strong large_data).1 (ground arith)

eligible_iff_example :
    ((evaluate_node_eligibility weak text_inference).eligible ≡ true)
    ↔ (IsSupported text_inference × MeetsAll weak text_inference)
eligible_iff_example = eligible_iff weak text_inference
