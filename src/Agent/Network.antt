-- ===== src/Agent/Network.antt =====
-- The network benchmark of agent/network_benchmark_linux.go. The programs that it runs are a
-- parameter: the output of the n-th command, or nothing where the command fails. So are
-- `strconv.ParseFloat`, the clock and the path of the file to upload.
pub mod Samples
pub mod Collected
mod Examples
use mesh_alot.Prelude.{
  ℕ, zero, suc, ◌+◌, ◌-◌, Bool, true, false, not, ◌&&◌, ◌||◌, Option, none, some, List, [], ◌∷◌,
  ◌++◌, length, is_empty, ◌==◌, if◌then◌else◌,
}
use mesh_alot.Prelude.Int.{ℤ, pos, pos_part, ltb_ℤ}
use mesh_alot.Prelude.Text.{Text, codes, text_eq, trim_space}
use mesh_alot.Prelude.Text.Fields.{fields, has_prefix, atoi}
use mesh_alot.Prelude.Time.{Instant}
use mesh_alot.Prelude.Float.{Float64}
use mesh_alot.Prelude.Outcome.{Outcome, ok, err, ◌>>=◌, ◌>>◌, guard}
use mesh_alot.Protocol.{NetworkBenchmark, network_schema_version}
use mesh_alot.Server.ComputeScore.{sort, value_at}
use mesh_alot.Agent.Benchmark.{finite_non_negative}
use mesh_alot.Agent.Probes.{ProbeSample, ProbeSummary, ProbeError, summarize_network_probes}

pub record Command : Type 0 where
  pub program : Text
  pub arguments : List Text

-- The number counts the commands of one benchmark.
abbrev pub Runner : Type 0
Runner = ℕ → Command → Option Text

pub data NetworkError : Type 0 where
  no_interface tailscale_path region_unavailable no_payload : NetworkError
  invalid_result invalid_status invalid_bytes incomplete invalid_speed : NetworkError
  upload_failed download_failed no_throughput_samples invalid_percentile : NetworkError
  probe_error : ProbeError → NetworkError

-- The first field after a field `dev`.
abbrev pub device : List Text → Outcome NetworkError Text
device [] = err no_interface
device (x ∷ []) = err no_interface
device (x ∷ (y ∷ rest)) =
    let later = device (y ∷ rest) in
    if text_eq x (codes "dev") && not (is_empty (trim_space y)) then ok (trim_space y) else later

pub parse_linux_route_interface : Text → Outcome NetworkError Text
parse_linux_route_interface raw = device (fields raw)

abbrev pub route_command : Text → Text → Command
route_command family address = record {
  program = codes "/usr/sbin/ip";
  arguments = family ∷ codes "route" ∷ codes "get" ∷ address ∷ [];
}

-- The interface of a route, if the command worked and its output has one.
abbrev pub route_of : Option Text → Outcome NetworkError Text
unfolding parse_linux_route_interface
route_of none = err no_interface
route_of (some raw) = parse_linux_route_interface raw

abbrev pub or_else :
    Outcome NetworkError Text → Outcome NetworkError Text → Outcome NetworkError Text
or_else (ok path) other = ok path
or_else (err e) other = other

-- The route to an IPv4 address, or else to an IPv6 one.
pub determine_linux_preferred_path : Runner → Outcome NetworkError Text
determine_linux_preferred_path run =
    or_else (route_of (run 0 (route_command (codes "-4") (codes "1.1.1.1"))))
      (route_of (run 1 (route_command (codes "-6") (codes "2606:4700:4700::1111"))))

abbrev pub in_range : ℤ → ℤ → Option ℤ → Bool
in_range low high none = false
in_range low high (some n) = not (ltb_ℤ n low) && not (ltb_ℤ high n)

abbrev pub throughput_samples : ℕ
throughput_samples = 3

abbrev pub probe_count : ℕ
probe_count = 10

abbrev pub curl : Text → Text → Text → Text → List Text → Command
curl family path connect total rest = record {
  program = codes "/usr/bin/curl";
  arguments =
      family
      ∷ codes "--interface"
      ∷ path
      ∷ codes "--connect-timeout"
      ∷ connect
      ∷ codes "--max-time"
      ∷ total
      ∷ codes "-sS"
      ∷ rest;
}

abbrev pub upload_command : Text → Text → Text → Command
upload_command family path file = curl family path (codes "5") (codes "45") (
    codes "-H"
    ∷ codes "Content-Type: application/octet-stream"
    ∷ codes "--data-binary"
    ∷ (codes "@" ++ file)
    ∷ codes "-o"
    ∷ codes "/dev/null"
    ∷ codes "-w"
    ∷ codes "%{http_code} %{size_upload} %{speed_upload}\n"
    ∷ codes "https://speed.cloudflare.com/__up"
    ∷ [])

abbrev pub download_command : Text → Text → Command
download_command family path = curl family path (codes "5") (codes "45") (
    codes "-o"
    ∷ codes "/dev/null"
    ∷ codes "-w"
    ∷ codes "%{http_code} %{size_download} %{speed_download}\n"
    ∷ codes "https://speed.cloudflare.com/__down?bytes=25000000"
    ∷ [])

abbrev pub probe_command : Text → Text → Command
probe_command family path = curl family path (codes "3") (codes "6") (
    codes "-o"
    ∷ codes "/dev/null"
    ∷ codes "-w"
    ∷ codes "%{http_code} %{time_connect}\n"
    ∷ codes "https://api.meshalot.com/v1/health"
    ∷ [])

abbrev pub failed_probe : ProbeSample
failed_probe = record { connect_duration = pos 0; success = false }

abbrev pub payload : Option Text → Outcome NetworkError Text
payload none = err no_payload
payload (some file) = ok file

module _ {ℓ} {F : Type ℓ} ⦃f : Float64 F⦄ where
  open f use {lit, lt, le, add, sub, mul, truncate}

  abbrev pub number : NetworkError → Option F → Outcome NetworkError F
  number e none = err e
  number e (some x) = if finite_non_negative x then ok x else err e

  -- `sorted[lower]`, or a point on the way to the next value.
  pub interpolated : List F → F → ℤ → F
  interpolated sorted index lower =
      let low = value_at sorted (pos_part lower) in
      if not (le (lit lower) index && le index (lit lower))
      then add low (mul (sub (value_at sorted (suc (pos_part lower))) low) (sub index (lit lower)))
      else low

  pub linux_percentile : List F → F → Outcome NetworkError F
  linux_percentile values percentile = do
    guard (not (is_empty values)) no_throughput_samples
    guard (not (lt percentile (lit (pos 0)) || lt (lit (pos 1)) percentile)) invalid_percentile
    let index = mul (lit (pos (length values - 1))) percentile
    ok (interpolated (sort values) index (truncate index))

  abbrev pub probed : ProbeSummary F × Option ProbeError → Outcome NetworkError (ProbeSummary F)
  probed (summary, none) = ok summary
  probed (summary, some e) = err (probe_error e)

module _ {ℓ} {F : Type ℓ} ⦃f : Float64 F⦄ (parse_float : Text → Option F) where
  open f use {lit, lt, le, mul, div, truncate}

  abbrev pub parse_three : Text → Text → Text → ℤ → Outcome NetworkError F
  parse_three status bytes speed expected = do
    guard (in_range (pos 200) (pos 299) (atoi status)) invalid_status
    transferred ← number invalid_bytes (parse_float bytes)
    guard (not (lt transferred (lit expected))) incomplete
    rate ← number invalid_speed (parse_float speed)
    guard (not (le rate (lit (pos 0)))) invalid_speed
    ok (div (mul rate (lit (pos 8))) (lit (pos 1_000_000)))

  abbrev pub parse_throughput_fields : List Text → ℤ → Outcome NetworkError F
  parse_throughput_fields (status ∷ (bytes ∷ (speed ∷ []))) expected =
      parse_three status bytes speed expected
  parse_throughput_fields _ expected = err invalid_result

  pub parse_linux_throughput_result : Text → ℤ → Outcome NetworkError F
  parse_linux_throughput_result raw expected = parse_throughput_fields (fields raw) expected

  abbrev pub parse_output : Bool → ℤ → Option Text → Outcome NetworkError F
  unfolding parse_linux_throughput_result
  parse_output upload expected none = err (if upload then upload_failed else download_failed)
  parse_output upload expected (some raw) = parse_linux_throughput_result raw expected

  -- The loop, over the commands that are left, of which `k` is the first one's number.
  pub throughput_loop : Runner → ℕ → ℕ → Bool → Command → ℤ → Outcome NetworkError (List F)
  throughput_loop run k zero upload command expected = ok []
  throughput_loop run k (suc left) upload command expected = do
    mbps ← parse_output upload expected (run k command)
    rest ← throughput_loop run (suc k) left upload command expected
    ok (mbps ∷ rest)

  pub collect_linux_throughput_samples :
      Runner → ℕ → Text → Text → Bool → Text → ℤ → Outcome NetworkError F
  collect_linux_throughput_samples run k family path upload file expected = do
    samples ←
        throughput_loop run k throughput_samples upload
          (if upload then upload_command family path file else download_command family path)
          expected
    linux_percentile samples (div (lit (pos 9)) (lit (pos 10)))

  -- A probe of a connection time, for any answer with an HTTP status.
  abbrev pub timed_probe : Text → Option F → ProbeSample
  timed_probe status none = failed_probe
  timed_probe status (some seconds) =
      if finite_non_negative seconds
        && not (le seconds (lit (pos 0)))
        && in_range (pos 100) (pos 599) (atoi status)
      then record {
        connect_duration = truncate (mul seconds (lit (pos 1_000_000_000)));
        success = true;
      }
      else failed_probe

  abbrev pub probe_of_fields : List Text → ProbeSample
  probe_of_fields (status ∷ (seconds ∷ [])) = timed_probe status (parse_float seconds)
  probe_of_fields _ = failed_probe

  abbrev pub probe_of : Option Text → ProbeSample
  probe_of none = failed_probe
  probe_of (some raw) = probe_of_fields (fields raw)

  pub run_network_control_probe : Runner → ℕ → Text → Text → ProbeSample
  run_network_control_probe run k family path = probe_of (run k (probe_command family path))

  pub probe_loop : Runner → ℕ → ℕ → Text → Text → List ProbeSample
  probe_loop run k zero family path = []
  probe_loop run k (suc left) family path =
      run_network_control_probe run k family path ∷ probe_loop run (suc k) left family path

  -- `collectNetworkBenchmarkLinux`: two commands for the route, one for each family, three
  -- downloads, three uploads, one probe that does not count, and ten that do.
  pub collect_network_benchmark_linux :
      Runner → Option Text → Instant → Outcome NetworkError (NetworkBenchmark F)
  collect_network_benchmark_linux run file now = do
    path ← determine_linux_preferred_path run
    guard (not (has_prefix path (codes "tailscale"))) tailscale_path
    let ipv4 = (run_network_control_probe run 2 (codes "-4") path).success
    let ipv6 = (run_network_control_probe run 3 (codes "-6") path).success
    guard (ipv4 || ipv6) region_unavailable
    let family = if ipv4 then codes "-4" else codes "-6"
    download ← collect_linux_throughput_samples run 4 family path false [] (pos 25_000_000)
    upload_path ← payload file
    upload ← collect_linux_throughput_samples run 7 family path true upload_path (pos 10_000_000)
    summary ← probed (summarize_network_probes (probe_loop run 11 probe_count family path))
    ok (record {
      schema_version = network_schema_version;
      collected_at = now;
      ipv4_available = ipv4;
      ipv6_available = ipv6;
      download_mbps = download;
      upload_mbps = upload;
      latency_ms = summary.latency_ms;
      jitter_ms = summary.jitter_ms;
      packet_loss_percent = summary.packet_loss_percent;
      preferred_path = path;
    })
