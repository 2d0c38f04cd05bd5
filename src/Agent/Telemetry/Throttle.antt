-- ===== src/Agent/Telemetry/Throttle.antt =====
-- When agent/compute_benchmark_linux.go calls a run throttled.
use mesh_alot.Prelude.{
  ℕ, ◌<◌, ◌≡◌, ◌↔◌, ◌⊎◌, refl, Bool, true, false, Option, none, some, [], ◌∷◌, arith, inl, inr,
}
use mesh_alot.Agent.Telemetry.{
  Counts, count_at, grown, either_grown, throttle_loop, linux_benchmark_throttle_delta,
}

-- A file whose count is greater after the run than before.
abbrev pub HasGrown : Counts → Counts → Type 0
HasGrown [] after = ⊥
HasGrown ((path, n) ∷ rest) after =
    ((m : ℕ) × (count_at path after ≡ some m) × (n < m)) ⊎ HasGrown rest after

grown_iff : (n : ℕ) (o : Option ℕ) → (grown n o ≡ some true) ↔ ((m : ℕ) × (o ≡ some m) × (n < m))
grown_iff n none = (λ h. absurd (cc), λ (m, e, l). absurd (cc))
grown_iff n (some m) = (λ h. (m, refl, ground (arith, h)), λ (k, e, l). ground (arith, e, l))

either_true :
    (a b : Option Bool) → (either_grown a b ≡ some true) ↔ ((a ≡ some true) ⊎ (b ≡ some true))
either_true none b = (λ h. inr h, λ s. elim s [ inl e ↦ absurd (cc) | inr e ↦ e ])
either_true (some a) none = (λ h. inl h, λ s. elim s [ inl e ↦ e | inr e ↦ absurd (cc) ])
either_true (some true) (some b) = (λ h. inl refl, λ s. refl)
either_true (some false) (some b) =
    (λ h. inr h, λ s. elim s [ inl e ↦ absurd (ground (arith, e)) | inr e ↦ e ])

loop_iff :
    (before after : Counts) → (throttle_loop before after ≡ some true) ↔ HasGrown before after
unfolding throttle_loop
loop_iff [] after = (λ h. absurd (cc), λ h. absurd h)
loop_iff ((path, n) ∷ rest) after =
    let here = grown_iff n (count_at path after) in
    let there = loop_iff rest after in
    let both = either_true (grown n (count_at path after)) (throttle_loop rest after) in
    (
      λ h. elim (both.0 h) [ inl e ↦ inl (here.0 e) | inr e ↦ inr (there.0 e) ],
      λ s. both.1 (elim s [ inl e ↦ inl (here.1 e) | inr e ↦ inr (there.1 e) ]),
    )

nothing_grown : (before : Counts) → HasGrown before [] → ⊥
nothing_grown [] h = h
nothing_grown ((path, n) ∷ rest) (inl (m, e, l)) = absurd (cc)
nothing_grown ((path, n) ∷ rest) (inr h) = nothing_grown rest h

-- A run is called throttled exactly if a count that was read before it is there after it, and greater.
pub throttled_iff :
    (before after : Counts)
    → (linux_benchmark_throttle_delta before after ≡ some true) ↔ HasGrown before after
unfolding linux_benchmark_throttle_delta
throttled_iff [] after = (λ h. absurd (cc), λ h. absurd h)
throttled_iff (b ∷ before) [] = (λ h. absurd (cc), λ h. absurd (nothing_grown (b ∷ before) h))
throttled_iff (b ∷ before) (a ∷ after) = loop_iff (b ∷ before) (a ∷ after)
