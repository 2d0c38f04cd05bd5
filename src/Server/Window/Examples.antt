-- ===== src/Server/Window/Examples.antt =====
-- The freshness test at instants near and far.
use mesh_alot.Prelude.{true, false, ◌≡◌, refl}
use mesh_alot.Prelude.Int.{pos}
use mesh_alot.Server.Window.{outside_window}

six_minutes : outside_window (pos 360_000_000_000) (pos 0) ≡ true
unfolding outside_window
six_minutes = refl

centuries_ahead : outside_window (pos 0) (pos 9_300_000_000_000_000_000) ≡ false
unfolding outside_window
centuries_ahead = refl
