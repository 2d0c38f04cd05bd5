-- ===== src/Server/Validation/Fresh.antt =====
-- The two freshness tests of each validator of server/*_auth.go, and the gap that they leave.
use mesh_alot.Prelude.{false, ◌≡◌, ◌⊎◌, inl, inr, none, arith}
use mesh_alot.Prelude.Int.{sub_parts}
use mesh_alot.Prelude.Time.{Instant, is_zero}
use mesh_alot.Prelude.Float.{Float64}
use mesh_alot.Protocol.{ComputeBenchmark, NetworkBenchmark, HardwareInventory, Submission}
use mesh_alot.Server.Window.{outside_window, IsClose, IsSaturated, outside_window_iff}
use mesh_alot.Server.Validation.{
  validate_inventory_submission, validate_network_benchmark_submission,
  validate_compute_benchmark_submission,
}

-- What acceptance says of the three instants: each pair passes the freshness test.
abbrev pub IsFresh : Instant → Instant → Instant → Type 0
IsFresh now signed collected =
    (IsClose now signed ⊎ IsSaturated now signed)
    × (IsClose signed collected ⊎ IsSaturated signed collected)

abbrev Passes : Instant → Instant → Instant → Type 0
Passes now signed collected =
    (outside_window now signed ≡ false) × (outside_window signed collected ≡ false)

Passes-IsFresh : (n s c : Instant) → Passes n s c → IsFresh n s c
Passes-IsFresh n s c (p, q) = ((outside_window_iff n s).0 p, (outside_window_iff s c).0 q)

inventory-Passes :
    (s : Submission HardwareInventory) (now : Instant)
    → validate_inventory_submission s now ≡ none
    → Passes now s.signed_at s.benchmark.collected_at
unfolding validate_inventory_submission
inventory-Passes s now h = ground arith

-- A submission signed and collected at other instants.
abbrev pub redated {ℓ} :
    {F : Type ℓ} → Submission (ComputeBenchmark F) → Instant → Submission (ComputeBenchmark F)
redated s t = record s { signed_at = t; benchmark = record (s.benchmark) { collected_at = t } }

same_instant : (t : Instant) → outside_window t t ≡ false
same_instant t = (outside_window_iff t t).1 (inl (omega (arith, sub_parts t t)))

module _ {ℓ} {F : Type ℓ} ⦃f : Float64 F⦄ where
  network-Passes :
      (s : Submission (NetworkBenchmark F)) (now : Instant)
      → validate_network_benchmark_submission s now ≡ none
      → Passes now s.signed_at s.benchmark.collected_at
  unfolding validate_network_benchmark_submission
  network-Passes s now h = ground arith

  compute-Passes :
      (s : Submission (ComputeBenchmark F)) (now : Instant)
      → validate_compute_benchmark_submission s now ≡ none
      → Passes now s.signed_at s.benchmark.collected_at
  unfolding validate_compute_benchmark_submission
  compute-Passes s now h = ground arith

  -- Whatever any of the three validators accepts was signed within five minutes of the server's
  -- clock and collected within five minutes of its signature, but for instants that lie 2^63
  -- nanoseconds or more ahead.
  pub accepted-IsFresh :
      (i : Submission HardwareInventory) (n : Submission (NetworkBenchmark F))
      (c : Submission (ComputeBenchmark F)) (now : Instant)
      → (validate_inventory_submission i now ≡ none
          → IsFresh now i.signed_at i.benchmark.collected_at)
        × (validate_network_benchmark_submission n now ≡ none
            → IsFresh now n.signed_at n.benchmark.collected_at)
        × (validate_compute_benchmark_submission c now ≡ none
            → IsFresh now c.signed_at c.benchmark.collected_at)
  accepted-IsFresh i n c now = (
    λ h. Passes-IsFresh _ _ _ (inventory-Passes i now h),
    λ h. Passes-IsFresh _ _ _ (network-Passes n now h),
    λ h. Passes-IsFresh _ _ _ (compute-Passes c now h),
  )

  -- The gap is real: an accepted compute benchmark stays accepted when it is redated to any instant
  -- that lies 2^63 nanoseconds or more after the server's clock and is not the zero time.
  pub far_future-accepted :
      (s : Submission (ComputeBenchmark F)) (now t : Instant)
      → validate_compute_benchmark_submission s now ≡ none
      → is_zero t ≡ false
      → IsSaturated now t
      → validate_compute_benchmark_submission (redated s t) now ≡ none
  unfolding validate_compute_benchmark_submission
  far_future-accepted s now t h z far =
      ground (arith, (outside_window_iff now t).1 (inr far), same_instant t)
