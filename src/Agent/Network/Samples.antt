-- ===== src/Agent/Network/Samples.antt =====
-- What the numbers of agent/network_benchmark_linux.go were read from.
use mesh_alot.Prelude.{
  ℕ, zero, suc, ◌≡◌, refl, Bool, true, false, not, Option, none, some, List, [], ◌∷◌, length, arith,
  if◌then◌else◌, Bool-cases, inl, inr,
}
use mathlib.Core.Path.{subst}
use mesh_alot.Prelude.Int.{ℤ, pos, ◌≤ℤ◌}
use mesh_alot.Prelude.Text.{Text}
use mesh_alot.Prelude.Text.Fields.{fields, atoi}
use mesh_alot.Prelude.Float.{Float64}
use mesh_alot.Prelude.Outcome.{ok, guard, >>=-eq-ok, >>-eq-ok, ok_inj}
use mesh_alot.Agent.Benchmark.{finite_non_negative}
use mesh_alot.Agent.Network.{
  Runner, Command, NetworkError, invalid_status, invalid_bytes, invalid_speed, incomplete, in_range,
  number, parse_three, parse_throughput_fields, parse_linux_throughput_result, parse_output,
  throughput_loop, throughput_samples, linux_percentile, collect_linux_throughput_samples,
  upload_command, download_command,
}

module _ {ℓ} {F : Type ℓ} ⦃f : Float64 F⦄ (parse_float : Text → Option F) where
  open f use {lit, lt, le, mul, div}

  -- An output of `curl` for a transfer that went through: its status, its bytes, its speed.
  pub record IsTransfer (raw : Text) (expected : ℤ) (mbps : F) : Type ℓ where
    pub status : Text
    pub bytes : Text
    pub speed : Text
    pub code : ℤ
    pub transferred : F
    pub rate : F
    pub split : fields raw ≡ status ∷ bytes ∷ speed ∷ []
    pub coded : atoi status ≡ some code
    pub success : (pos 200 ≤ℤ code) × (code ≤ℤ pos 299)
    pub counted : parse_float bytes ≡ some transferred
    pub countable : finite_non_negative transferred ≡ true
    pub complete : lt transferred (lit expected) ≡ false
    pub timed : parse_float speed ≡ some rate
    pub finite : finite_non_negative rate ≡ true
    pub positive : le rate (lit (pos 0)) ≡ false
    pub converted : mbps ≡ div (mul rate (lit (pos 8))) (lit (pos 1_000_000))

  in_range-code :
      (low high : ℤ) (n : Option ℤ)
      → in_range low high n ≡ true
      → (code : ℤ) × (n ≡ some code) × (low ≤ℤ code) × (code ≤ℤ high)
  in_range-code low high none h = absurd (ground (arith, h))
  in_range-code low high (some n) h = (n, refl, ground (arith, h), ground (arith, h))

  number-eq-ok :
      (e : NetworkError) (o : Option F) (x : F)
      → number e o ≡ ok x
      → (o ≡ some x) × (finite_non_negative x ≡ true)
  number-eq-ok e none x h = cc
  number-eq-ok e (some y) x h = elim (Bool-cases (finite_non_negative y)) [
    | inl finite ↦
        let same : y ≡ x = ok_inj {E = NetworkError} (ground (arith, h, finite)) in
        (ground (arith, same), ground (arith, same, finite))
    | inr other ↦ absurd (ground (arith, h, other))
  ]

  three-IsTransfer :
      (raw status bytes speed : Text) (expected : ℤ) (mbps : F)
      → fields raw ≡ status ∷ bytes ∷ speed ∷ []
      → parse_three parse_float status bytes speed expected ≡ ok mbps
      → IsTransfer raw expected mbps
  three-IsTransfer raw status bytes speed expected mbps split h =
      let (ranged, h1) =
        >>-eq-ok (guard (in_range (pos 200) (pos 299) (atoi status)) invalid_status) _ h in
      let (transferred, counted, h2) = >>=-eq-ok (number invalid_bytes (parse_float bytes)) _ h1 in
      let (complete, h3) = >>-eq-ok (guard (not (lt transferred (lit expected))) incomplete) _ h2 in
      let (rate, timed, h4) = >>=-eq-ok (number invalid_speed (parse_float speed)) _ h3 in
      let (positive, h5) = >>-eq-ok (guard (not (le rate (lit (pos 0)))) invalid_speed) _ h4 in
      let (code, coded, least, most) =
        in_range-code (pos 200) (pos 299) (atoi status) (ground (arith, ranged)) in
      record {
        status = status;
        bytes = bytes;
        speed = speed;
        code = code;
        transferred = transferred;
        rate = rate;
        split = split;
        coded = coded;
        success = (least, most);
        counted = (number-eq-ok invalid_bytes (parse_float bytes) transferred counted).0;
        countable = (number-eq-ok invalid_bytes (parse_float bytes) transferred counted).1;
        complete = ground (arith, complete);
        timed = (number-eq-ok invalid_speed (parse_float speed) rate timed).0;
        finite = (number-eq-ok invalid_speed (parse_float speed) rate timed).1;
        positive = ground (arith, positive);
        converted = ok_inj {E = NetworkError} (ground (arith, h5));
      }

  fields-IsTransfer :
      (raw : Text) (parts : List Text) (expected : ℤ) (mbps : F)
      → fields raw ≡ parts
      → parse_throughput_fields parse_float parts expected ≡ ok mbps
      → IsTransfer raw expected mbps
  fields-IsTransfer raw [] expected mbps e h = cc
  fields-IsTransfer raw (a ∷ []) expected mbps e h = cc
  fields-IsTransfer raw (a ∷ (b ∷ [])) expected mbps e h = cc
  fields-IsTransfer raw (a ∷ (b ∷ (c ∷ []))) expected mbps e h =
      three-IsTransfer raw a b c expected mbps e h
  fields-IsTransfer raw (a ∷ (b ∷ (c ∷ (d ∷ rest)))) expected mbps e h = cc

  -- One sample for each command from the k-th, read from its output.
  abbrev pub AreTransfers : Runner → ℕ → Command → ℤ → List F → Type ℓ
  AreTransfers run k command expected [] = Unit
  AreTransfers run k command expected (x ∷ xs) =
      ((raw : Text) × (run k command ≡ some raw) × IsTransfer raw expected x)
      × AreTransfers run (suc k) command expected xs

  output-IsTransfer :
      (upload : Bool) (expected : ℤ) (o : Option Text) (x : F)
      → parse_output parse_float upload expected o ≡ ok x
      → (raw : Text) × (o ≡ some raw) × IsTransfer raw expected x
  unfolding parse_linux_throughput_result
  output-IsTransfer upload expected none x h = absurd (cc)
  output-IsTransfer upload expected (some raw) x h =
      (raw, refl, fields-IsTransfer raw (fields raw) expected x refl h)

  loop-AreTransfers :
      (run : Runner) (k left : ℕ) (upload : Bool) (command : Command) (expected : ℤ) (xs : List F)
      → throughput_loop parse_float run k left upload command expected ≡ ok xs
      → (length xs ≡ left) × AreTransfers run k command expected xs
  unfolding throughput_loop
  loop-AreTransfers run k zero upload command expected xs h =
      subst (λ (ys : List F). (length ys ≡ 0) × AreTransfers run k command expected ys)
        (ok_inj {E = NetworkError} h) (refl, tt)
  loop-AreTransfers run k (suc left) upload command expected xs h =
      let (x, read, h1) =
        >>=-eq-ok (parse_output parse_float upload expected (run k command)) _ h in
      let (rest, later, h2) =
        >>=-eq-ok (throughput_loop parse_float run (suc k) left upload command expected) _ h1 in
      let more = loop-AreTransfers run (suc k) left upload command expected rest later in
      subst (λ (ys : List F). (length ys ≡ suc left) × AreTransfers run k command expected ys)
        (ok_inj {E = NetworkError} h2)
        (ground (arith, more.0), (output-IsTransfer upload expected (run k command) x read, more.1))

  -- The command of a throughput sample.
  abbrev pub transfer_command : Text → Text → Bool → Text → Command
  transfer_command family path upload file =
      if upload then upload_command family path file else download_command family path

  -- A throughput is reported only after three transfers through the interface and over the family
  -- that were asked for, each of which the endpoint answered with a status from 200 to 299, moved a
  -- finite number of bytes that is at least the one expected, and had a finite, positive speed; it
  -- is the 90th percentile of their speeds in megabits.
  pub collected_throughput :
      (run : Runner) (k : ℕ) (family path : Text) (upload : Bool) (file : Text) (expected : ℤ)
      (mbps : F)
      → collect_linux_throughput_samples parse_float run k family path upload file expected
        ≡ ok mbps
      → (xs : List F) × (length xs ≡ 3)
        × AreTransfers run k (transfer_command family path upload file) expected xs
        × (linux_percentile xs (div (lit (pos 9)) (lit (pos 10))) ≡ ok mbps)
  unfolding collect_linux_throughput_samples
  collected_throughput run k family path upload file expected mbps h =
      let command = transfer_command family path upload file in
      let (xs, looped, h1) =
        >>=-eq-ok (throughput_loop parse_float run k throughput_samples upload command expected) _
          h in
      let made = loop-AreTransfers run k 3 upload command expected xs looped in
      (xs, made.0, made.1, h1)
