-- ===== src/Agent/BenchmarkServer/Examples.antt =====
-- A server that is healthy in its third round.
use mesh_alot.Prelude.{ℕ, ◌*◌, ◌≡◌, refl, false, some, ltb, leb, if◌then◌else◌}
use mesh_alot.Prelude.Outcome.{ok}
use mesh_alot.Agent.BenchmarkServer.{polled, context_done, Poll, wait_for_health}

-- Rounds a quarter of a second apart, until the context is done.
abbrev dead : ℕ → Poll
dead k = record {
  healthy = false;
  selected = if ltb k 720 then polled else context_done;
  at = 250 * k;
}

abbrev slow : ℕ → Poll
slow k = record (dead k) { healthy = leb 2 k }

slow_is_healthy : wait_for_health 3 slow 0 ≡ some (ok tt)
unfolding wait_for_health
slow_is_healthy = refl
