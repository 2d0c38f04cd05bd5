-- ===== src/Server/RateLimit/Examples.antt =====
-- Attempts around the limit of server/enrollment.go.
use mesh_alot.Prelude.{◌≡◌, refl, true, [], ◌∷◌, arith}
use mesh_alot.Prelude.Int.{pos}
use mesh_alot.Prelude.Time.{sub}
use mesh_alot.Server.RateLimit.{Rate, allow_secure_enrollment}
use mesh_alot.Server.RateLimit.Window.{attempt_all, allowed-InWindow}

abbrev nearly : Rate
nearly = record { window = pos 1_000; attempts = 118 }

next_minute :
    (allow_secure_enrollment (record nearly { attempts = 120 }) (pos 60_000_001_000)).1 ≡ true
unfolding allow_secure_enrollment sub
next_minute = refl

-- Three calls, of which two are allowed.
allowed-InWindow_example : (attempt_all nearly (pos 1_005 ∷ pos 1_006 ∷ pos 1_007 ∷ [])).1 ≡ 2
allowed-InWindow_example = allowed-InWindow nearly (pos 1_005 ∷ pos 1_006 ∷ pos 1_007 ∷ []) (
  (1_000, 5, refl, omega arith, refl, omega arith),
  (
    (1_000, 6, refl, omega arith, refl, omega arith),
    ((1_000, 7, refl, omega arith, refl, omega arith), tt),
  ),
)
