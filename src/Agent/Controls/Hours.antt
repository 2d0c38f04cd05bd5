-- ===== src/Agent/Controls/Hours.antt =====
-- The sharing window of agent/provider_controls.go, on a 24-hour clock.
use mesh_alot.Prelude.{ℕ, ◌+◌, ◌-◌, ◌%◌, ◌<◌, true, not, ◌≡◌, ◌≢◌, ◌↔◌, ◌⊎◌, arith}
use mesh_alot.Prelude.Int.{pos, eq_of_parts}
use mesh_alot.Agent.Controls.{ProviderResourceControls, is_provider_hour_allowed}

-- Hours from `a` on to `b`, going forward on the clock.
abbrev pub hours_from : ℕ → ℕ → ℕ
hours_from a b = (b + 24 - a) % 24

module _ (c : ProviderResourceControls) (s e : ℕ) (starts : c.allowed_start_hour ≡ pos s)
    (ends : c.allowed_end_hour ≡ pos e) where
  -- For a window from hour s to hour e, both on the clock, an hour is allowed exactly when s and e
  -- are equal, or it comes fewer hours after s than e does. So a window may pass midnight, its start
  -- is inside and its end is not.
  pub allowed_iff :
      (hour : ℕ)
      → s < 24
      → e < 24
      → hour < 24
      → (is_provider_hour_allowed c (pos hour) ≡ true)
        ↔ ((s ≡ e) ⊎ (hours_from s hour < hours_from s e))
  unfolding is_provider_hour_allowed
  allowed_iff hour hs he hh = rw (starts, ends) (ground arith)

-- Two owners whose windows are each other's reverse share the day between them: every hour of the
-- clock is allowed by exactly one of the two.
pub reverse_windows :
    (c d : ProviderResourceControls) (hour : ℕ)
    → c.allowed_start_hour ≡ d.allowed_end_hour
    → c.allowed_end_hour ≡ d.allowed_start_hour
    → c.allowed_start_hour ≢ c.allowed_end_hour
    → hour < 24
    → is_provider_hour_allowed c (pos hour) ≡ not (is_provider_hour_allowed d (pos hour))
unfolding is_provider_hour_allowed
reverse_windows c d hour p q n h =
    rw (← p, ← q) (ground (arith, eq_of_parts c.allowed_start_hour c.allowed_end_hour))
