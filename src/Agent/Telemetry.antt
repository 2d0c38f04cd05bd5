-- ===== src/Agent/Telemetry.antt =====
-- One throughput run of agent/compute_benchmark_linux.go: peak memory, temperature and throttling
-- beside `llama-bench`. Files and the program are parameters.
pub mod Memory
pub mod Throttle
mod Examples
use mesh_alot.Prelude.{
  ℕ, ◌*◌, Bool, true, false, not, ◌&&◌, ◌||◌, Option, none, some, List, [], ◌∷◌, is_empty, ltb,
  ◌==◌, if◌then◌else◌,
}
use mesh_alot.Prelude.Int.{ℤ, pos, leb_ℤ}
use mesh_alot.Prelude.Text.{Text, codes, text_eq, trim_space}
use mesh_alot.Prelude.Text.Fields.{has_prefix, atoi}
use mesh_alot.Prelude.Text.Split.{lines, trim_prefix, parse_uint}
use mesh_alot.Prelude.Float.{Float64}
use mesh_alot.Prelude.Outcome.{Outcome, ok, err, ◌>>=◌, ◌>>◌, guard}
use mesh_alot.Agent.Benchmark.{BenchRow, LlamaBenchThroughput, BenchmarkError, llama_bench_args}
use mesh_alot.Agent.Benchmark.Parse.{parse_llama_bench_json}
use mesh_alot.Agent.Network.{Command}

pub data RunError : Type 0 where
  invalid_peak_rss overflowing_peak_rss no_peak_rss : RunError
  no_bench_path execution_failed : RunError
  benchmark_error : BenchmarkError → RunError

abbrev pub rss_prefix : Text
rss_prefix = codes "Maximum resident set size (kbytes):"

-- The value of the line, in kilobytes, as bytes of a `uint64`.
abbrev pub rss_value : Option ℕ → Outcome RunError ℕ
rss_value none = err invalid_peak_rss
rss_value (some kib) = do
  guard (not (kib == 0)) invalid_peak_rss
  guard (not (ltb 18_014_398_509_481_983 kib)) overflowing_peak_rss
  ok (kib * 1024)

abbrev pub rss_lines : List Text → Outcome RunError ℕ
rss_lines [] = err no_peak_rss
rss_lines (line ∷ rest) =
    let later = rss_lines rest in
    if has_prefix (trim_space line) rss_prefix
    then rss_value (parse_uint (trim_space (trim_prefix (trim_space line) rss_prefix)))
    else later

-- `parseLinuxTimePeakRSS`
unfoldable pub parse_linux_time_peak_rss : Text → Outcome RunError ℕ
parse_linux_time_peak_rss raw = rss_lines (lines raw)

pub record TelemetryReader : Type 0 where
  pub glob : Text → Option (List Text)
  pub read_file : Text → Option Text

abbrev pub Counts : Type 0
Counts = List (Text × ℕ)

pub record TelemetrySnapshot {ℓ} (F : Type ℓ) : Type ℓ where
  pub temperature_celsius : Option F
  pub throttle_counts : Counts

abbrev count_of : Text → Option ℕ → Counts → Counts
count_of path none counts = counts
count_of path (some n) counts = (path, n) ∷ counts

abbrev read_count : Text → Option Text → Counts → Counts
read_count path none counts = counts
read_count path (some raw) counts = count_of path (parse_uint (trim_space raw)) counts

-- The counts of the files; `filepath.Glob` names a path once.
unfoldable pub read_counts : TelemetryReader → List Text → Counts
read_counts reader [] = []
read_counts reader (path ∷ paths) =
    read_count path (reader.read_file path) (read_counts reader paths)

abbrev globbed : Option (List Text) → List Text
globbed none = []
globbed (some paths) = paths

abbrev pub count_at : Text → Counts → Option ℕ
count_at path [] = none
count_at path ((p, n) ∷ rest) =
    let later = count_at path rest in if text_eq p path then some n else later

-- What one path says: nothing, or whether its count has grown.
abbrev pub grown : ℕ → Option ℕ → Option Bool
grown before none = none
grown before (some after) = if ltb after before then none else some (ltb before after)

abbrev pub either_grown : Option Bool → Option Bool → Option Bool
either_grown none other = other
either_grown (some b) none = some b
either_grown (some b) (some c) = some (b || c)

unfoldable pub throttle_loop : Counts → Counts → Option Bool
throttle_loop [] after = none
throttle_loop ((path, n) ∷ before) after =
    either_grown (grown n (count_at path after)) (throttle_loop before after)

-- `linuxBenchmarkThrottleDelta`
unfoldable pub linux_benchmark_throttle_delta : Counts → Counts → Option Bool
linux_benchmark_throttle_delta before after =
    if is_empty before || is_empty after then none else throttle_loop before after

pub record LlamaBenchRunResult {ℓ} (F : Type ℓ) : Type ℓ where
  pub throughput : LlamaBenchThroughput F
  pub peak_system_ram : ℕ
  pub temperature_celsius : Option F
  pub throttled : Option Bool

abbrev benchmarked {κ} : {A : Type κ} → Outcome BenchmarkError A → Outcome RunError A
benchmarked (err e) = err (benchmark_error e)
benchmarked (ok a) = ok a

abbrev executed : Option (Text × Text) → Outcome RunError (Text × Text)
executed none = err execution_failed
executed (some output) = ok output

module _ {ℓ} {F : Type ℓ} ⦃f : Float64 F⦄ where
  open f use {lit, lt, div}

  abbrev celsius_of : Option ℤ → Option F
  celsius_of none = none
  celsius_of (some milli) =
      if leb_ℤ milli (pos 0) || lt (lit (pos 150)) (div (lit milli) (lit (pos 1000)))
      then none
      else some (div (lit milli) (lit (pos 1000)))

  -- `parseLinuxMilliCelsius`
  unfoldable pub parse_linux_milli_celsius : Text → Option F
  parse_linux_milli_celsius raw = celsius_of (atoi (trim_space raw))

  -- The greater of two temperatures, if there are two.
  unfoldable pub max_optional_temperature : Option F → Option F → Option F
  max_optional_temperature none b = b
  max_optional_temperature (some a) none = some a
  max_optional_temperature (some a) (some b) = some (if lt a b then b else a)

  abbrev temperature_at : Option Text → Option F
  temperature_at none = none
  temperature_at (some raw) = parse_linux_milli_celsius raw

  unfoldable pub hottest : TelemetryReader → List Text → Option F → Option F
  hottest reader [] so_far = so_far
  hottest reader (path ∷ paths) so_far =
      hottest reader paths
        (max_optional_temperature so_far (temperature_at (reader.read_file path)))

  -- `readLinuxComputeTelemetry`
  unfoldable pub read_linux_compute_telemetry : TelemetryReader → TelemetrySnapshot F
  read_linux_compute_telemetry reader = record {
    temperature_celsius =
        hottest reader (globbed (reader.glob (codes "/sys/class/hwmon/hwmon*/temp*_input"))) (
          hottest reader (globbed (reader.glob (codes "/sys/class/thermal/thermal_zone*/temp")))
            none);
    throttle_counts = read_counts reader (
        globbed
          (reader.glob (codes "/sys/devices/system/cpu/cpu*/thermal_throttle/*_throttle_count")));
  }

  -- `measureLinuxLlamaBenchRun`, with the files as they are before and after the run of a command,
  -- whose two outputs are `none` where it fails.
  unfoldable pub measure_linux_llama_bench_run :
      (Text → Option (List (BenchRow F)))
      → (Command → Option (Text × Text))
      → TelemetryReader
      → TelemetryReader
      → Text
      → Text
      → Outcome RunError (LlamaBenchRunResult F)
  measure_linux_llama_bench_run decode run before after bench_path model_path = do
    guard (not (is_empty (trim_space bench_path))) no_bench_path
    arguments ← benchmarked (llama_bench_args model_path)
    output ← executed (
        run (record {
          program = codes "/usr/bin/time";
          arguments = codes "-v" ∷ trim_space bench_path ∷ arguments;
        }))
    throughput ← benchmarked (parse_llama_bench_json decode output.0)
    peak ← parse_linux_time_peak_rss output.1
    let first = read_linux_compute_telemetry before
    let last = read_linux_compute_telemetry after
    ok (record {
      throughput = throughput;
      peak_system_ram = peak;
      temperature_celsius =
          max_optional_temperature first.temperature_celsius last.temperature_celsius;
      throttled = linux_benchmark_throttle_delta first.throttle_counts last.throttle_counts;
    })
