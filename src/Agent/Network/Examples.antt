-- ===== src/Agent/Network/Examples.antt =====
-- A benchmark on a machine with IPv4 only.
use mesh_alot.Prelude.{
  ◌≡◌, refl, true, false, Option, none, some, List, [], length, if◌then◌else◌, ◌==◌, ltb,
}
use mesh_alot.Prelude.Int.{ℤ, pos}
use mesh_alot.Prelude.Text.{Text, codes, text_eq, trim_space}
use mesh_alot.Prelude.Text.Fields.{fields, has_prefix, atoi}
use mesh_alot.Prelude.Float.{thousandths_float, Thousandths}
use mesh_alot.Prelude.Outcome.{ok}
use mesh_alot.Protocol.{NetworkBenchmark, network_schema_version}
use mesh_alot.Server.ComputeScore.{sort, insert, less}
use mesh_alot.Agent.Benchmark.{finite_non_negative}
use mesh_alot.Agent.Probes.{
  successful_times, packet_loss, median_time, variation_from, jitter, summarize,
  summarize_network_probes,
}
use mesh_alot.Agent.Network.{
  Runner, parse_linux_route_interface, determine_linux_preferred_path,
  parse_linux_throughput_result, interpolated, linux_percentile, throughput_loop,
  collect_linux_throughput_samples, run_network_control_probe, probe_loop,
  collect_network_benchmark_linux, download_command,
}
use mesh_alot.Agent.Network.Samples.{AreTransfers, collected_throughput}
use mesh_alot.Agent.Network.Collected.{IsCollected, collect-IsCollected}

-- Whole numbers are enough here.
abbrev whole : Option ℤ → Option Thousandths
whole none = none
whole (some n) = some (thousandths_float.lit n)

abbrev parse : Text → Option Thousandths
parse t = whole (atoi t)

abbrev eth0 : Text
eth0 = codes "eth0"

-- The route, the two first probes, the transfers, and the probes that count.
abbrev machine : Runner
machine n command =
    if n == 0
    then some (codes "1.1.1.1 via 10.0.0.1 dev eth0 src 10.0.0.2\n")
    else if n == 3
    then none
    else if ltb n 3
    then some (codes "200 1\n")
    else if ltb n 10
    then some (codes "200 25000000 1000000\n")
    else some (codes "404 2\n")

throughput_is :
    collect_linux_throughput_samples parse machine 4 (codes "-4") eth0 false [] (pos 25_000_000)
    ≡ ok (some 8000)
unfolding collect_linux_throughput_samples throughput_loop parse_linux_throughput_result fields atoi
    finite_non_negative linux_percentile interpolated sort insert less
throughput_is = refl

collected_throughput_example :
    (xs : List Thousandths) × (length xs ≡ 3)
    × AreTransfers parse machine 4 (download_command (codes "-4") eth0) (pos 25_000_000) xs
    × (linux_percentile xs
          (thousandths_float.div (thousandths_float.lit (pos 9)) (thousandths_float.lit (pos 10)))
        ≡ ok (some 8000))
collected_throughput_example =
    collected_throughput parse machine 4 (codes "-4") eth0 false [] (pos 25_000_000) (some 8000)
      throughput_is

abbrev benchmark : NetworkBenchmark Thousandths
benchmark = record {
  schema_version = network_schema_version;
  collected_at = pos 5;
  ipv4_available = true;
  ipv6_available = false;
  download_mbps = some 8000;
  upload_mbps = some 8000;
  latency_ms = some 2_000_000;
  jitter_ms = some 0;
  packet_loss_percent = some 0;
  preferred_path = eth0;
}

benchmark_is :
    collect_network_benchmark_linux parse machine (some (codes "/tmp/f")) (pos 5) ≡ ok benchmark
unfolding collect_network_benchmark_linux determine_linux_preferred_path parse_linux_route_interface
    has_prefix trim_space text_eq run_network_control_probe probe_loop
    collect_linux_throughput_samples throughput_loop parse_linux_throughput_result fields atoi
    finite_non_negative linux_percentile interpolated sort insert less summarize_network_probes
    successful_times summarize packet_loss median_time jitter variation_from
benchmark_is = refl

collect-IsCollected_example : IsCollected parse machine (some (codes "/tmp/f")) (pos 5) benchmark
collect-IsCollected_example =
    collect-IsCollected parse machine (some (codes "/tmp/f")) (pos 5) benchmark benchmark_is
