-- ===== src/Agent/Telemetry/Memory.antt =====
-- The peak memory that agent/compute_benchmark_linux.go reads from `time -v`.
use Prim.Native.Nat.{◌^◌}
use mesh_alot.Prelude.{
  ◌⊎◌, ℕ, ◌*◌, ◌<◌, ◌≡◌, refl, true, not, Option, none, some, List, [], ◌∷◌, arith, Bool-cases, inl,
  inr, ltb, ◌==◌,
}
use mesh_alot.Prelude.Text.{Text, trim_space}
use mesh_alot.Prelude.Text.Fields.{has_prefix}
use mesh_alot.Prelude.Text.Split.{lines, trim_prefix, parse_uint}
use mesh_alot.Prelude.Outcome.{ok, guard, >>-eq-ok, ok_inj}
use mesh_alot.Agent.Telemetry.{
  RunError, invalid_peak_rss, overflowing_peak_rss, rss_prefix, rss_value, rss_lines,
  parse_linux_time_peak_rss,
}

-- A line of the output gives this many kilobytes.
abbrev pub IsLineOf : List Text → ℕ → Type 0
IsLineOf [] kib = ⊥
IsLineOf (line ∷ rest) kib =
    ((has_prefix (trim_space line) rss_prefix ≡ true)
      × (parse_uint (trim_space (trim_prefix (trim_space line) rss_prefix)) ≡ some kib))
    ⊎ IsLineOf rest kib

abbrev IsExact : List Text → ℕ → Type 0
IsExact output bytes =
    (kib : ℕ) × IsLineOf output kib × (bytes ≡ kib * 1024) × (0 < bytes) × (bytes < 2 ^ 64)

value-IsExact :
    (o : Option ℕ) (bytes : ℕ)
    → rss_value o ≡ ok bytes
    → (kib : ℕ) × (o ≡ some kib) × (bytes ≡ kib * 1024) × (0 < bytes) × (bytes < 2 ^ 64)
value-IsExact none bytes h = absurd (cc)
value-IsExact (some kib) bytes h =
    let (nonzero, h1) = >>-eq-ok (guard (not (kib == 0)) invalid_peak_rss) _ h in
    let (fits, h2) =
      >>-eq-ok (guard (not (ltb 18_014_398_509_481_983 kib)) overflowing_peak_rss) _ h1 in
    let same : kib * 1024 ≡ bytes = ok_inj {E = RunError} h2 in
    (kib, refl, ground (arith, same), ground (arith, same, nonzero), ground (arith, same, fits))

lines-IsExact :
    (output : List Text) (bytes : ℕ) → rss_lines output ≡ ok bytes → IsExact output bytes
lines-IsExact [] bytes h = absurd (cc)
lines-IsExact (line ∷ rest) bytes h = elim (Bool-cases (has_prefix (trim_space line) rss_prefix)) [
  | inl here ↦
      let (kib, read, same, more, fits) =
        value-IsExact (parse_uint (trim_space (trim_prefix (trim_space line) rss_prefix))) bytes
          (ground (arith, h, here)) in
      (kib, inl (here, read), same, more, fits)
  | inr other ↦
      let (kib, found, same, more, fits) = lines-IsExact rest bytes (ground (arith, h, other)) in
      (kib, inr found, same, more, fits)
]

-- A peak memory that is reported is the kilobytes of a line of the output as bytes, exactly: it is
-- positive, and 64 bits hold it.
pub peak_rss-IsExact :
    (raw : Text) (bytes : ℕ)
    → parse_linux_time_peak_rss raw ≡ ok bytes
    → (kib : ℕ) × IsLineOf (lines raw) kib × (bytes ≡ kib * 1024) × (0 < bytes) × (bytes < 2 ^ 64)
unfolding parse_linux_time_peak_rss
peak_rss-IsExact raw bytes h = lines-IsExact (lines raw) bytes h
