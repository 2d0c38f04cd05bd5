-- ===== src/Server/Rating/Eligibility.antt =====
-- When `EvaluateNodeEligibility` of server/node_rating.go admits a node.
use mesh_alot.Prelude.{
  Bool, true, ◌≡◌, ◌∙◌, ◌↔◌, List, [], ◌∷◌, refl, arith, ◌++◌, ◌&&◌, is_empty, if◌then◌else◌,
}
use mesh_alot.Prelude.Int.{ℤ, pos, ◌≤ℤ◌, leb_ℤ}
use mathlib.Core.List.{append-nil, append_assoc}
use mesh_alot.Server.Rating.{
  WorkloadClass, text_inference, large_data, other, NodeRating, Dimension, compute, network,
  reliability, availability, trust, EligibilityResult, Limitation, evidence_unavailable,
  below_requirement, satisfies_requirements, evaluate_node_eligibility, check_all,
  check_known_minimum, conclude,
}

abbrev pub score_of : NodeRating → Dimension → ℤ
score_of r compute = r.compute_score
score_of r network = r.network_score
score_of r reliability = r.reliability_score
score_of r availability = r.availability_score
score_of r trust = r.trust_score

abbrev pub is_known : NodeRating → Dimension → Bool
is_known r compute = r.compute_known
is_known r network = r.network_known
is_known r reliability = r.reliability_known
is_known r availability = r.availability_known
is_known r trust = r.trust_known

-- The requirements of a workload as a table.
abbrev pub requirement : WorkloadClass → Dimension → ℤ
requirement text_inference compute = pos 40
requirement text_inference network = pos 25
requirement text_inference _ = pos 50
requirement large_data compute = pos 50
requirement large_data network = pos 70
requirement large_data _ = pos 60
requirement (other w) _ = pos 0

abbrev pub IsSupported : WorkloadClass → Type 0
IsSupported (other w) = ⊥
IsSupported _ = Unit

abbrev pub Meets : NodeRating → WorkloadClass → Dimension → Type 0
Meets r w d = (is_known r d ≡ true) × (requirement w d ≤ℤ score_of r d)

abbrev pub MeetsAll : NodeRating → WorkloadClass → Type 0
MeetsAll r w =
    Meets r w compute
    × Meets r w network
    × Meets r w reliability
    × Meets r w availability
    × Meets r w trust

-- What one dimension adds to the limitations.
abbrev pub shortfall : NodeRating → WorkloadClass → Dimension → List Limitation
shortfall r w d =
    if is_known r d
    then if leb_ℤ (requirement w d) (score_of r d) then [] else (below_requirement d ∷ [])
    else (evidence_unavailable d ∷ [])

passes : ℤ → Bool → ℤ → Bool
passes value known minimum = known && leb_ℤ minimum value

is_empty-append {ℓ} :
    {A : Type ℓ} (xs ys : List A) → is_empty (xs ++ ys) ≡ (is_empty xs && is_empty ys)
is_empty-append [] ys = refl
is_empty-append (x ∷ xs) ys = refl

-- A check leaves the list of limitations empty when it was so and the dimension passes.
is_empty-check :
    (result : EligibilityResult) (d : Dimension) (v : ℤ) (k : Bool) (m : ℤ)
    → is_empty (check_known_minimum result d v k m).limitations
      ≡ (is_empty result.limitations && passes v k m)
unfolding check_known_minimum passes
is_empty-check result d v k m = ground (
  arith,
  is_empty-append result.limitations (evidence_unavailable d ∷ []),
  is_empty-append result.limitations (below_requirement d ∷ []),
)

is_empty-check_all :
    (r : NodeRating) (c n l a t : ℤ)
    → is_empty (check_all r c n l a t).limitations ≡ (
        ((((true && passes r.compute_score r.compute_known c)
              && passes r.network_score r.network_known n)
            && passes r.reliability_score r.reliability_known l)
          && passes r.availability_score r.availability_known a)
        && passes r.trust_score r.trust_known t)
unfolding check_all
is_empty-check_all r c n l a t = simp is_empty-check

conclude_lem :
    (result : EligibilityResult)
    → result.reasons ≡ []
    → ((conclude result).eligible ≡ is_empty result.limitations)
      × ((conclude result).limitations ≡ result.limitations)
      × ((conclude result).reasons
          ≡ (if is_empty result.limitations then satisfies_requirements ∷ [] else []))
unfolding conclude
conclude_lem result h = ground arith

check_reasons :
    (result : EligibilityResult) (d : Dimension) (v : ℤ) (k : Bool) (m : ℤ)
    → (check_known_minimum result d v k m).reasons ≡ result.reasons
unfolding check_known_minimum
check_reasons result d v k m = ground arith

check_all_reasons : (r : NodeRating) (c n l a t : ℤ) → (check_all r c n l a t).reasons ≡ []
unfolding check_all
check_all_reasons r c n l a t = simp check_reasons

-- The verdict in terms of the five tests, for given minimums.
concluded :
    (r : NodeRating) (c n l a t : ℤ)
    → (conclude (check_all r c n l a t)).eligible ≡ (
        ((((true && passes r.compute_score r.compute_known c)
              && passes r.network_score r.network_known n)
            && passes r.reliability_score r.reliability_known l)
          && passes r.availability_score r.availability_known a)
        && passes r.trust_score r.trust_known t)
concluded r c n l a t =
    (conclude_lem (check_all r c n l a t) (check_all_reasons r c n l a t)).0
    ∙ is_empty-check_all r c n l a t

passes_iff : (v : ℤ) (k : Bool) (m : ℤ) → (passes v k m ≡ true) ↔ ((k ≡ true) × (m ≤ℤ v))
unfolding passes
passes_iff v k m = ground arith

all_five :
    {A B C D E : Type 0} (a b c d e : Bool)
    → (a ≡ true) ↔ A
    → (b ≡ true) ↔ B
    → (c ≡ true) ↔ C
    → (d ≡ true) ↔ D
    → (e ≡ true) ↔ E
    → ((((((true && a) && b) && c) && d) && e) ≡ true) ↔ (A × B × C × D × E)
all_five a b c d e p q r s t = ground arith

concluded_iff :
    (r : NodeRating) (c n l a t : ℤ)
    → ((conclude (check_all r c n l a t)).eligible ≡ true) ↔ (
        ((r.compute_known ≡ true) × (c ≤ℤ r.compute_score))
        × ((r.network_known ≡ true) × (n ≤ℤ r.network_score))
        × ((r.reliability_known ≡ true) × (l ≤ℤ r.reliability_score))
        × ((r.availability_known ≡ true) × (a ≤ℤ r.availability_score))
        × ((r.trust_known ≡ true) × (t ≤ℤ r.trust_score)))
concluded_iff r c n l a t = rw (concluded r c n l a t) (
    all_five _ _ _ _ _ (passes_iff r.compute_score r.compute_known c)
      (passes_iff r.network_score r.network_known n)
      (passes_iff r.reliability_score r.reliability_known l)
      (passes_iff r.availability_score r.availability_known a)
      (passes_iff r.trust_score r.trust_known t))

-- A node is eligible for a workload exactly when the class is a supported one and the node's
-- measurement of each of the five dimensions is known and reaches the minimum for that class.
pub eligible_iff :
    (r : NodeRating) (w : WorkloadClass)
    → ((evaluate_node_eligibility r w).eligible ≡ true) ↔ (IsSupported w × MeetsAll r w)
unfolding evaluate_node_eligibility
eligible_iff r text_inference =
    let e = concluded_iff r (pos 40) (pos 25) (pos 50) (pos 50) (pos 50) in
    ((λ h. (tt, e.0 h)), (λ h. e.1 h.1))
eligible_iff r large_data =
    let e = concluded_iff r (pos 50) (pos 70) (pos 60) (pos 60) (pos 60) in
    ((λ h. (tt, e.0 h)), (λ h. e.1 h.1))
eligible_iff r (other w) = ground arith

abbrev added : Dimension → ℤ → Bool → ℤ → List Limitation
added d v k m =
    if k
    then if leb_ℤ m v then [] else (below_requirement d ∷ [])
    else (evidence_unavailable d ∷ [])

limitations-check :
    (result : EligibilityResult) (d : Dimension) (v : ℤ) (k : Bool) (m : ℤ)
    → (check_known_minimum result d v k m).limitations ≡ result.limitations ++ added d v k m
unfolding check_known_minimum
limitations-check result d v k m = ground (arith, append-nil result.limitations)

limitations-check_all :
    (r : NodeRating) (c n l a t : ℤ)
    → (conclude (check_all r c n l a t)).limitations
      ≡ added compute r.compute_score r.compute_known c
        ++ (added network r.network_score r.network_known n
            ++ (added reliability r.reliability_score r.reliability_known l
                ++ (added availability r.availability_score r.availability_known a
                    ++ added trust r.trust_score r.trust_known t)))
unfolding check_all
limitations-check_all r c n l a t =
    rw ((conclude_lem (check_all r c n l a t) (check_all_reasons r c n l a t)).1)
      (simp (limitations-check, append_assoc))

-- For a supported class the limitations are, in the order of the dimensions, one for each
-- dimension that is unknown or below its minimum, and none for the others.
pub limitations_lem :
    (r : NodeRating) (w : WorkloadClass)
    → IsSupported w
    → (evaluate_node_eligibility r w).limitations
      ≡ shortfall r w compute
        ++ (shortfall r w network
            ++ (shortfall r w reliability ++ (shortfall r w availability ++ shortfall r w trust)))
unfolding evaluate_node_eligibility
limitations_lem r text_inference s =
    limitations-check_all r (pos 40) (pos 25) (pos 50) (pos 50) (pos 50)
limitations_lem r large_data s =
    limitations-check_all r (pos 50) (pos 70) (pos 60) (pos 60) (pos 60)
limitations_lem r (other w) s = absurd s

-- A node that is eligible for large data is eligible for text inference.
pub large_data-text_inference :
    (r : NodeRating)
    → (evaluate_node_eligibility r large_data).eligible ≡ true
    → (evaluate_node_eligibility r text_inference).eligible ≡ true
large_data-text_inference r h =
    let m = ((eligible_iff r large_data).0 h).1 in
    (eligible_iff r text_inference).1 (tt, ground arith)
