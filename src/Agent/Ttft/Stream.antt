-- ===== src/Agent/Ttft/Stream.antt =====
-- What a measured time to the first token rests on, in agent/compute_benchmark_ttft.go.
use mesh_alot.Prelude.{
  ◌≤◌, ◌≡◌, ap, sym, refl, ◌⊎◌, inl, inr, Bool, true, false, not, ◌||◌, Option, none, some, List,
  [], ◌∷◌, ◌++◌, ltb, arith, All, Bool-cases, is_empty,
}
use mesh_alot.Prelude.Int.{pos, ltb_ℤ}
use mesh_alot.Prelude.Text.{Text, codes, trim_space}
use mesh_alot.Prelude.Time.{Duration, sub}
use mesh_alot.Prelude.Outcome.{Outcome, ok, guard, >>=-eq-ok, >>-eq-ok, ok_inj}
use mesh_alot.Agent.Ttft.{
  TtftError, StreamEvent, ParsedUrl, Response, Client, Clock, Web, given, invalid_url, not_base_url,
  not_loopback, is_base_url, is_loopback, trim_slashes, validate_local_base_url, event_data,
  is_skipped, has_token, on_event, wait_for_first_token, ttft_request, measure_llama_server_ttft,
  empty_prompt, not_encoded, no_request, request_failed, bad_status, invalid_duration,
}

-- A line that carries a token, and one that the wait passes over.
abbrev pub IsToken : (Text → Option StreamEvent) → Text → Type 0
IsToken decode raw =
    (is_skipped (trim_space raw) ≡ false)
    × (e : StreamEvent) × (decode (event_data (trim_space raw)) ≡ some e)
    × (has_token e ≡ true)

abbrev pub IsQuiet : (Text → Option StreamEvent) → Text → Type 0
IsQuiet decode raw =
    (is_skipped (trim_space raw) ≡ true)
    ⊎ ((e : StreamEvent) × (decode (event_data (trim_space raw)) ≡ some e)
        × (has_token e ≡ false)
        × (e.stop ≡ false))

-- The first line with a token is read in this world; the lines before it are passed over.
abbrev pub IsFirst : {W : Type 0} → (Text → Option StreamEvent) → List (Text × W) → W → Type 0
IsFirst {W = W} decode lines after =
    (before : List (Text × W)) × (raw : Text) × (rest : List (Text × W)) × (lines
      ≡ before ++ ((raw, after) ∷ rest))
    × All (λ (l : Text × W). IsQuiet decode l.0) before
    × IsToken decode raw

module _ {W : Type 0} (decode : Text → Option StreamEvent) where
  later-IsFirst :
      (raw : Text) (at after : W) (rest : List (Text × W))
      → IsQuiet decode raw
      → IsFirst decode rest after
      → IsFirst decode ((raw, at) ∷ rest) after
  later-IsFirst raw at after rest quiet (before, token, behind, same, all, is) =
      ((raw, at) ∷ before, token, behind, ap (λ l. (raw, at) ∷ l) same, (quiet, all), is)

  event-IsFirst :
      (raw : Text) (at after : W) (rest : List (Text × W)) (later : Outcome TtftError W)
      (o : Option StreamEvent)
      → decode (event_data (trim_space raw)) ≡ o
      → is_skipped (trim_space raw) ≡ false
      → (later ≡ ok after → IsFirst decode rest after)
      → on_event at o later ≡ ok after
      → IsFirst decode ((raw, at) ∷ rest) after
  event-IsFirst raw at after rest later none read carries more h = absurd (cc)
  event-IsFirst raw at after rest later (some e) read carries more h =
      elim (Bool-cases (has_token e)) [
        | inl token ↦
            let same : at ≡ after = ok_inj {E = TtftError} (ground (arith, h, token)) in
            ([], raw, rest, ap (λ z. (raw, z) ∷ rest) same, tt, (carries, e, read, token))
        | inr without ↦ elim (Bool-cases e.stop) [
          | inl stop ↦ absurd (ground (arith, h, without, stop))
          | inr on ↦
              later-IsFirst raw at after rest (inr (e, read, without, on))
                (more (ground (arith, h, without, on)))
        ]
      ]

  stream-IsFirst :
      (failed : Bool) (lines : List (Text × W)) (after : W)
      → wait_for_first_token decode failed lines ≡ ok after
      → IsFirst decode lines after
  unfolding wait_for_first_token
  stream-IsFirst failed [] after h = absurd (cc)
  stream-IsFirst failed ((raw, at) ∷ rest) after h =
      elim (Bool-cases (is_skipped (trim_space raw))) [
        | inl skipped ↦
            later-IsFirst raw at after rest (inl skipped)
              (stream-IsFirst failed rest after (ground (arith, h, skipped)))
        | inr carries ↦
            event-IsFirst raw at after rest (wait_for_first_token decode failed rest)
              (decode (event_data (trim_space raw))) refl carries (stream-IsFirst failed rest after)
              (ground (arith, h, carries))
      ]

given-eq-ok {ℓ} :
    {A : Type ℓ} {a : A} (e : TtftError) (o : Option A) → given e o ≡ ok a → o ≡ some a
given-eq-ok e none h = cc
given-eq-ok e (some b) h = ap some (ok_inj {E = TtftError} h)

-- The base URL is one of this machine, over HTTP.
abbrev pub IsLocal : Web → Text → Text → Type 0
IsLocal w value base =
    (u : ParsedUrl) × (w.parse_url (trim_space value) ≡ some u)
    × (is_base_url u ≡ true)
    × (is_loopback (w.lower u.hostname) ≡ true)
    × (base ≡ trim_slashes (trim_space value))

guard-true : (test : Bool) (e : TtftError) → guard test e ≡ ok tt → test ≡ true
guard-true true e h = refl
guard-true false e h = cc

validated-IsLocal :
    (w : Web) (value base : Text) → validate_local_base_url w value ≡ ok base → IsLocal w value base
unfolding validate_local_base_url
validated-IsLocal w value base h =
    let (u, parsed, h1) = >>=-eq-ok (given invalid_url (w.parse_url (trim_space value))) _ h in
    let (shape, h2) = >>-eq-ok (guard (is_base_url u) not_base_url) _ h1 in
    let (loop, h3) = >>-eq-ok (guard (is_loopback (w.lower u.hostname)) not_loopback) _ h2 in
    (
      u,
      given-eq-ok _ _ parsed,
      guard-true _ _ shape,
      guard-true _ _ loop,
      sym (ok_inj {E = TtftError} h3),
    )

-- A time that is measured is positive, and the difference of two readings of the clock. In the world
-- after the first, a request was posted to a server of this machine, over HTTP, and was answered
-- with a status from 200 to 299; the second was made in the world after the first line of the answer
-- that carried a token had been read, and no line before it was invalid or ended the stream.
pub measured_ttft :
    {W : Type 0} (w : Web) (post : Client W) (now : Clock W) (base_url prompt : Text) (world : W)
    (d : Duration)
    → measure_llama_server_ttft w (some post) (some now) base_url prompt world ≡ ok d
    → (ltb_ℤ (pos 0) d ≡ true)
      × (base : Text) × (body : Text) × (answer : Response W) × (after : W) × (d
          ≡ sub (now after).0 (now world).0)
      × IsLocal w base_url base
      × (w.encode (ttft_request prompt) ≡ some body)
      × (post (base ++ codes "/completion") body (now world).1 ≡ some answer)
      × (200 ≤ answer.status_code)
      × (answer.status_code ≤ 299)
      × IsFirst w.decode answer.lines after
unfolding measure_llama_server_ttft
measured_ttft w post now base_url prompt world d h =
    let (nonempty, h1) = >>-eq-ok (guard (not (is_empty (trim_space prompt))) empty_prompt) _ h in
    let (base, validated, h2) = >>=-eq-ok (validate_local_base_url w base_url) _ h1 in
    let (body, encoded, h3) = >>=-eq-ok (given not_encoded (w.encode (ttft_request prompt))) _ h2 in
    let (made, h4) =
      >>-eq-ok (guard (w.makes_request (base ++ codes "/completion")) no_request) _ h3 in
    let (answer, posted, h5) =
      >>=-eq-ok (given request_failed (post (base ++ codes "/completion") body (now world).1)) _
        h4 in
    let (status, h6) =
      >>-eq-ok
        (guard (not (ltb answer.status_code 200 || ltb 299 answer.status_code))
          (bad_status answer.status_code))
        _ h5 in
    let (after, first, h7) =
      >>=-eq-ok (wait_for_first_token w.decode answer.failed answer.lines) _ h6 in
    let (positive, h8) =
      >>-eq-ok (guard (ltb_ℤ (pos 0) (sub (now after).0 (now world).0)) invalid_duration) _ h7 in
    let same : sub (now after).0 (now world).0 ≡ d = ok_inj {E = TtftError} h8 in
    let within = guard-true _ _ status in
    (
      rw (sym same) (guard-true _ _ positive),
      base,
      body,
      answer,
      after,
      sym same,
      validated-IsLocal w base_url base validated,
      given-eq-ok _ _ encoded,
      given-eq-ok _ _ posted,
      ground (arith, within),
      ground (arith, within),
      stream-IsFirst w.decode answer.failed answer.lines after first,
    )
