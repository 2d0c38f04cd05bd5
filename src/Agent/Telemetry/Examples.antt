-- ===== src/Agent/Telemetry/Examples.antt =====
-- A run on a machine with two counters.
use mesh_alot.Prelude.{ℕ, ◌*◌, ◌<◌, ◌≡◌, refl, true, some, [], ◌∷◌}
use Prim.Native.Nat.{◌^◌}
use mesh_alot.Prelude.Text.{Text, codes, text_eq, trim_space}
use mesh_alot.Prelude.Text.Fields.{has_prefix}
use mesh_alot.Prelude.Text.Split.{lines, split, trim_prefix, parse_uint}
use mesh_alot.Prelude.Outcome.{ok}
use mesh_alot.Agent.Telemetry.{
  Counts, parse_linux_time_peak_rss, linux_benchmark_throttle_delta, throttle_loop,
}
use mesh_alot.Agent.Telemetry.Memory.{IsLineOf, peak_rss-IsExact}

abbrev output : Text
output = codes "Exit status: 0\n\tMaximum resident set size (kbytes): 2048\n"

two_megabytes : parse_linux_time_peak_rss output ≡ ok 2_097_152
unfolding parse_linux_time_peak_rss split trim_space has_prefix trim_prefix parse_uint
two_megabytes = refl

peak_rss-IsExact_example :
    (kib : ℕ) × IsLineOf (lines output) kib
    × (2_097_152 ≡ kib * 1024)
    × (0 < 2_097_152)
    × (2_097_152 < 2 ^ 64)
peak_rss-IsExact_example = peak_rss-IsExact output 2_097_152 two_megabytes

abbrev before : Counts
before = (codes "cpu0", 3) ∷ (codes "cpu1", 5) ∷ []

abbrev after : Counts
after = (codes "cpu0", 3) ∷ (codes "cpu1", 6) ∷ []

throttled : linux_benchmark_throttle_delta before after ≡ some true
unfolding linux_benchmark_throttle_delta throttle_loop text_eq
throttled = refl
