-- ===== src/Server/Window.antt =====
-- The freshness test that server/inventory_auth.go, server/network_benchmark_auth.go and
-- server/compute_benchmark_auth.go all make twice: the distance of two instants, as a `Duration`.
mod Examples
use Prim.Native.Nat.{◌^◌}
use mesh_alot.Prelude.{
  ℕ, suc, ◌+◌, ◌*◌, Bool, true, false, ◌≡◌, refl, ◌↔◌, ◌⊎◌, inl, inr, arith, if◌then◌else◌,
}
use mesh_alot.Prelude.Int.{ℤ, pos, negsuc, ◌-ℤ◌, ◌≤ℤ◌, ltb_ℤ}
use mesh_alot.Prelude.Time.{Instant, Duration, max_duration, minute, sub, negate}

abbrev pub signature_max_skew : ℕ
signature_max_skew = 5 * minute

unfoldable pub skew : Instant → Instant → Duration
unfolding sub negate
skew t u = let d = sub t u in if ltb_ℤ d (pos 0) then negate d else d

unfoldable pub outside_window : Instant → Instant → Bool
unfolding skew
outside_window t u = ltb_ℤ (pos signature_max_skew) (skew t u)

-- What the test is for: the two instants are at most five minutes apart.
abbrev pub IsClose : Instant → Instant → Type 0
IsClose t u = (t -ℤ u ≤ℤ pos signature_max_skew) × (u -ℤ t ≤ℤ pos signature_max_skew)

-- The second instant is so far after the first (2^63 nanoseconds, 292 years) that the difference
-- saturates at the least `Duration`, whose negation is itself.
abbrev pub IsSaturated : Instant → Instant → Type 0
IsSaturated t u = pos (suc max_duration) ≤ℤ u -ℤ t

-- The test passes exactly when the instants are at most five minutes apart, or the second is 2^63
-- nanoseconds or more after the first.
pub outside_window_iff :
    (t u : Instant) → (outside_window t u ≡ false) ↔ (IsClose t u ⊎ IsSaturated t u)
unfolding outside_window ◌-ℤ◌
outside_window_iff t u = ground arith
