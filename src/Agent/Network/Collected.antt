-- ===== src/Agent/Network/Collected.antt =====
-- What a network benchmark of agent/network_benchmark_linux.go rests on.
use mathlib.Core.Path.{subst}
use mesh_alot.Prelude.{
  ◌≡◌, refl, Bool, true, false, not, ◌&&◌, ◌||◌, Option, none, some, List, [], ◌∷◌, arith,
  if◌then◌else◌, Bool-cases, inl, inr, is_empty, ap, ◌∙◌,
}
use mesh_alot.Prelude.Int.{pos}
use mesh_alot.Prelude.Text.{Text, codes, trim_space, text_eq}
use mesh_alot.Prelude.Text.Trim.{trim_space-trim_space}
use mesh_alot.Prelude.Text.Fields.{has_prefix, fields}
use mesh_alot.Prelude.Time.{Instant}
use mesh_alot.Prelude.Float.{Float64}
use mesh_alot.Prelude.Outcome.{Outcome, ok, err, guard, >>=-eq-ok, >>-eq-ok, ok_inj}
use mesh_alot.Protocol.{NetworkBenchmark, network_schema_version}
use mesh_alot.Agent.Probes.{ProbeSummary, ProbeError, summarize_network_probes}
use mesh_alot.Agent.Network.{
  Runner, NetworkError, tailscale_path, region_unavailable, device, route_of, route_command,
  or_else, parse_linux_route_interface, determine_linux_preferred_path,
  collect_linux_throughput_samples, run_network_control_probe, probe_loop, probe_count, probed,
  payload, collect_network_benchmark_linux,
}

device-not_blank :
    (xs : List Text) (path : Text) → device xs ≡ ok path → is_empty (trim_space path) ≡ false
device-not_blank [] path h = cc
device-not_blank (x ∷ []) path h = cc
device-not_blank (x ∷ (y ∷ rest)) path h =
    elim (Bool-cases (text_eq x (codes "dev") && not (is_empty (trim_space y)))) [
      | inl here ↦
          let same : trim_space y ≡ path = ok_inj {E = NetworkError} (ground (arith, h, here)) in
          let filled : is_empty (trim_space y) ≡ false = ground (arith, here) in
          subst (λ (t : Text). is_empty (trim_space t) ≡ false) same
            (ground (arith, ap is_empty (trim_space-trim_space y), filled))
      | inr later ↦ device-not_blank (y ∷ rest) path (ground (arith, h, later))
    ]

route-not_blank :
    (o : Option Text) (path : Text) → route_of o ≡ ok path → is_empty (trim_space path) ≡ false
unfolding parse_linux_route_interface
route-not_blank none path h = cc
route-not_blank (some raw) path h = device-not_blank (fields raw) path h

preferred-not_blank :
    (run : Runner) (path : Text)
    → determine_linux_preferred_path run ≡ ok path
    → is_empty (trim_space path) ≡ false
unfolding determine_linux_preferred_path
preferred-not_blank run path h =
    go (route_of (run 0 (route_command (codes "-4") (codes "1.1.1.1")))) refl h
  where
    second : Outcome NetworkError Text
    second = route_of (run 1 (route_command (codes "-6") (codes "2606:4700:4700::1111")))

    go :
        (o : Outcome NetworkError Text)
        → route_of (run 0 (route_command (codes "-4") (codes "1.1.1.1"))) ≡ o
        → or_else o second ≡ ok path
        → is_empty (trim_space path) ≡ false
    go (ok p) e k = route-not_blank _ path (e ∙ k)
    go (err x) e k = route-not_blank _ path k

abbrev pub family_of : Bool → Text
family_of ipv4 = if ipv4 then codes "-4" else codes "-6"

module _ {ℓ} {F : Type ℓ} ⦃f : Float64 F⦄ (parse_float : Text → Option F) where
  -- The path has a name and is no tunnel; the control region answered over a family that is said to
  -- be available, and the benchmark used IPv4 if it is; the throughputs come from that family and
  -- path, and the rest from ten probes over them.
  pub record IsCollected (run : Runner) (file : Option Text) (now : Instant)
      (b : NetworkBenchmark F) : Type ℓ where
    pub named : is_empty (trim_space b.preferred_path) ≡ false
    pub direct : has_prefix b.preferred_path (codes "tailscale") ≡ false
    pub reachable : (b.ipv4_available || b.ipv6_available) ≡ true
    pub over_ipv4 :
        b.ipv4_available
        ≡ (run_network_control_probe parse_float run 2 (codes "-4") b.preferred_path).success
    pub over_ipv6 :
        b.ipv6_available
        ≡ (run_network_control_probe parse_float run 3 (codes "-6") b.preferred_path).success
    pub downloaded :
        collect_linux_throughput_samples parse_float run 4
          (family_of b.ipv4_available)
          b.preferred_path
          false
          []
          (pos 25_000_000)
        ≡ ok b.download_mbps
    pub upload_file : Text
    pub created : file ≡ some upload_file
    pub uploaded :
        collect_linux_throughput_samples parse_float run 7
          (family_of b.ipv4_available)
          b.preferred_path
          true
          upload_file
          (pos 10_000_000)
        ≡ ok b.upload_mbps
    pub summarized :
        summarize_network_probes
          (probe_loop parse_float run 11 10 (family_of b.ipv4_available) b.preferred_path)
        ≡ (
          record {
            latency_ms = b.latency_ms;
            jitter_ms = b.jitter_ms;
            packet_loss_percent = b.packet_loss_percent;
          },
          none,
        )
    pub versioned : b.schema_version ≡ network_schema_version
    pub dated : b.collected_at ≡ now

  probed-eq-ok :
      (r : ProbeSummary F × Option ProbeError) (s : ProbeSummary F)
      → probed r ≡ ok s
      → r ≡ (s, none)
  probed-eq-ok (t, none) s h = ground (arith, ok_inj {E = NetworkError} h)
  probed-eq-ok (t, some e) s h = cc

  payload-eq-ok : (file : Option Text) (t : Text) → payload file ≡ ok t → file ≡ some t
  payload-eq-ok none t h = cc
  payload-eq-ok (some u) t h = ground (arith, ok_inj {E = NetworkError} h)

  -- Whatever the programs answer, a network benchmark is reported only if the interface has a name
  -- and is not one of Tailscale's, a probe over IPv4 or IPv6 reached the control region, and the
  -- file for the upload was made. It then says which of the two probes worked; its throughputs are
  -- those of the samples over IPv4 if that worked and over IPv6 otherwise, through that interface;
  -- and its latency, jitter and loss are the summary of ten probes over the same, none of which is
  -- one of the three probes before.
  pub collect-IsCollected :
      (run : Runner) (file : Option Text) (now : Instant) (b : NetworkBenchmark F)
      → collect_network_benchmark_linux parse_float run file now ≡ ok b
      → IsCollected run file now b
  unfolding collect_network_benchmark_linux
  collect-IsCollected run file now b h =
      let (path, found, h1) = >>=-eq-ok (determine_linux_preferred_path run) _ h in
      let (direct, h2) =
        >>-eq-ok (guard (not (has_prefix path (codes "tailscale"))) tailscale_path) _ h1 in
      let ipv4 = (run_network_control_probe parse_float run 2 (codes "-4") path).success in
      let ipv6 = (run_network_control_probe parse_float run 3 (codes "-6") path).success in
      let family = family_of ipv4 in
      let (reached, h3) = >>-eq-ok (guard (ipv4 || ipv6) region_unavailable) _ h2 in
      let (download, downloaded, h4) =
        >>=-eq-ok
          (collect_linux_throughput_samples parse_float run 4 family path false [] (pos 25_000_000))
          _ h3 in
      let (upload_file, created, h5) = >>=-eq-ok (payload file) _ h4 in
      let (upload, uploaded, h6) =
        >>=-eq-ok
          (collect_linux_throughput_samples parse_float run 7 family path true upload_file
            (pos 10_000_000))
          _ h5 in
      let (summary, summarized, h7) =
        >>=-eq-ok
          (probed
            (summarize_network_probes (probe_loop parse_float run 11 probe_count family path)))
          _ h6 in
      subst (IsCollected run file now) (ok_inj {E = NetworkError} h7) (record {
        named = preferred-not_blank run path found;
        direct = ground (arith, direct);
        reachable = ground (arith, reached);
        over_ipv4 = refl;
        over_ipv6 = refl;
        downloaded = downloaded;
        upload_file = upload_file;
        created = payload-eq-ok file upload_file created;
        uploaded = uploaded;
        summarized =
            probed-eq-ok
              (summarize_network_probes (probe_loop parse_float run 11 probe_count family path))
              summary summarized;
        versioned = refl;
        dated = refl;
      })
