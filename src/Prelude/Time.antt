-- ===== src/Prelude/Time.antt =====
-- Go's `time.Time` and `time.Duration`. An instant is its distance in nanoseconds from the zero
-- time, January 1 of year 1, UTC; a duration is an `int64` of nanoseconds.
use Prim.Native.Nat.{ℕ, suc}
use mathlib.Core.Bool.{Bool}
use mesh_alot.Prelude.Tests.{ltb, ◌==◌, if◌then◌else◌}
use mesh_alot.Prelude.Int.{ℤ, pos, negsuc, pos_part, neg_part, ◌-ℤ◌, eq_ℤ}

abbrev pub Instant : Type 0
Instant = ℤ

abbrev pub Duration : Type 0
Duration = ℤ

-- `Time.IsZero`
abbrev pub is_zero : Instant → Bool
is_zero t = eq_ℤ t (pos 0)

-- 2^63 - 1; the least duration is one further from zero.
abbrev pub max_duration : ℕ
max_duration = 9_223_372_036_854_775_807

abbrev pub minute : ℕ
minute = 60_000_000_000

-- `Time.Sub`, which saturates at the ends of `int64`.
unfoldable pub sub : Instant → Instant → Duration
unfolding ◌-ℤ◌
sub t u =
    let d = t -ℤ u in
    if ltb max_duration (pos_part d)
    then pos max_duration
    else if ltb (suc max_duration) (neg_part d)
    then negsuc max_duration
    else d

-- `-d` on `int64`: the least duration is its own negative.
unfoldable pub negate : Duration → Duration
unfolding ◌-ℤ◌
negate d = if neg_part d == suc max_duration then d else pos 0 -ℤ d
