-- ===== src/Server/Rating.antt =====
-- server/node_rating.go: workload eligibility and the provider-facing tier. The text of a reason
-- or a limitation is a constructor; a score is an `int`, which the code only compares.
pub mod Eligibility
pub mod Tiers
mod Examples
use mesh_alot.Prelude.{
  ℕ, Bool, true, false, not, ◌&&◌, ◌||◌, List, [], ◌∷◌, ◌++◌, is_empty, if◌then◌else◌,
}
use mathlib.Core.List.{foldl}
use mesh_alot.Prelude.Int.{ℤ, pos, ltb_ℤ, leb_ℤ}
use mesh_alot.Prelude.Text.{Text}

pub data NodeTier : Type 0 where
  unrated basic standard gold platinum datacenter : NodeTier

-- A class is a string in the source: `other` is any but the two supported ones.
pub data WorkloadClass : Type 0 where
  text_inference large_data : WorkloadClass
  other : Text → WorkloadClass

pub data Dimension : Type 0 where
  compute network reliability availability trust : Dimension

pub record NodeRating : Type 0 where
  pub compute_score : ℤ
  pub network_score : ℤ
  pub reliability_score : ℤ
  pub availability_score : ℤ
  pub trust_score : ℤ
  pub compute_known : Bool
  pub network_known : Bool
  pub reliability_known : Bool
  pub availability_known : Bool
  pub trust_known : Bool
  pub tier : NodeTier

pub data Reason : Type 0 where
  satisfies_requirements : Reason

pub data Limitation : Type 0 where
  evidence_unavailable : Dimension → Limitation
  below_requirement : Dimension → Limitation
  unsupported_workload : Limitation

pub record EligibilityResult : Type 0 where
  pub eligible : Bool
  pub reasons : List Reason
  pub limitations : List Limitation

abbrev no_result : EligibilityResult
no_result = record { eligible = false; reasons = []; limitations = [] }

abbrev limited : EligibilityResult → Limitation → EligibilityResult
limited result l = record result { limitations = result.limitations ++ (l ∷ []) }

pub check_known_minimum : EligibilityResult → Dimension → ℤ → Bool → ℤ → EligibilityResult
check_known_minimum result dimension value known minimum =
    if not known
    then limited result (evidence_unavailable dimension)
    else if leb_ℤ minimum value
    then result
    else limited result (below_requirement dimension)

-- The five calls of the `switch`, with the minimum of each dimension.
check_all : NodeRating → ℤ → ℤ → ℤ → ℤ → ℤ → EligibilityResult
check_all rating c n r a t =
    let r1 = check_known_minimum no_result compute rating.compute_score rating.compute_known c in
    let r2 = check_known_minimum r1 network rating.network_score rating.network_known n in
    let r3 =
      check_known_minimum r2 reliability rating.reliability_score rating.reliability_known r in
    let r4 =
      check_known_minimum r3 availability rating.availability_score rating.availability_known a in
    check_known_minimum r4 trust rating.trust_score rating.trust_known t

-- What follows the `switch`.
conclude : EligibilityResult → EligibilityResult
conclude result =
    if is_empty result.limitations
    then record result {
      eligible = true;
      reasons = result.reasons ++ (satisfies_requirements ∷ []);
    }
    else record result { eligible = false }

pub evaluate_node_eligibility : NodeRating → WorkloadClass → EligibilityResult
evaluate_node_eligibility rating text_inference =
    conclude (check_all rating (pos 40) (pos 25) (pos 50) (pos 50) (pos 50))
evaluate_node_eligibility rating large_data =
    conclude (check_all rating (pos 50) (pos 70) (pos 60) (pos 60) (pos 60))
evaluate_node_eligibility rating (other w) = limited no_result unsupported_workload

abbrev lower : ℤ → ℤ → ℤ
lower lowest value = if ltb_ℤ value lowest then value else lowest

lowest_score : NodeRating → ℤ
lowest_score rating = foldl lower rating.compute_score (
    rating.network_score ∷ rating.reliability_score ∷ rating.availability_score ∷ rating.trust_score
    ∷ [])

tier_of_lowest : ℤ → NodeTier
tier_of_lowest lowest =
    if leb_ℤ (pos 90) lowest
    then datacenter
    else if leb_ℤ (pos 80) lowest
    then platinum
    else if leb_ℤ (pos 70) lowest
    then gold
    else if leb_ℤ (pos 50) lowest
    then standard
    else basic

pub determine_node_tier : NodeRating → NodeTier
determine_node_tier rating =
    if not rating.compute_known
      || not rating.network_known
      || not rating.reliability_known
      || not rating.availability_known
      || not rating.trust_known
    then unrated
    else tier_of_lowest (lowest_score rating)
