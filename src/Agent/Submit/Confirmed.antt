-- ===== src/Agent/Submit/Confirmed.antt =====
-- What a submission of agent/compute_benchmark_submit_flow.go says when it ends without an error, and
-- what it keeps when it ends with one.
use mesh_alot.Prelude.{
  ℕ, ◌≡◌, ◌⊎◌, inl, inr, ap, sym, refl, ◌∙◌, Bool, true, false, not, Option, none, some, List, ◌++◌,
  is_empty, ◌==◌, arith,
}
use mesh_alot.Prelude.Text.{Text, codes, trim_space, text_eq, text_eq_iff}
use mesh_alot.Prelude.Time.{Instant}
use mesh_alot.Prelude.Outcome.{Outcome, ok, err, guard, ok_inj, >>=-eq-ok, >>-eq-ok}
use mesh_alot.Protocol.{Submission}
use mesh_alot.Agent.Ttft.{ParsedUrl, is_loopback, trim_slashes}
use mesh_alot.Agent.Submit.{
  SubmitError, no_url, invalid_url, not_base_url, no_body, no_signature, no_report_id, no_request,
  post_failed, read_failed, rejected, invalid_response, not_accepted, other_report, Identity, Keys,
  Signing, given, SubmissionResponse, HttpAnswer, Transport, is_server_url, check_scheme,
  normalize_server_url, submission_path, post_signed_compute_benchmark, SubmitResult, posted,
  submit_to, submit_compute_benchmark, build_signed_submission,
}
use mesh_alot.Agent.Submit.Signed.{given-eq-ok, guard-true}

-- The address is over TLS, or of this machine.
abbrev pub IsSecure : Transport → Text → Type 0
IsSecure t url =
    (u : ParsedUrl) × (t.parse_url (trim_space url) ≡ some u)
    × ((u.scheme ≡ codes "https") ⊎ (is_loopback (t.lower u.hostname) ≡ true))

scheme_lem :
    (scheme host : Text)
    → check_scheme scheme host ≡ ok tt
    → (scheme ≡ codes "https") ⊎ (is_loopback host ≡ true)
unfolding check_scheme
scheme_lem scheme host h =
    elim (text_eq scheme (codes "https"))
        as (λ x.
          text_eq scheme (codes "https") ≡ x
          → (scheme ≡ codes "https") ⊎ (is_loopback host ≡ true)) [
            | true ↦ λ e. inl ((text_eq_iff scheme (codes "https")).0 e)
            | false ↦ λ e. inr (ground (arith, h, e))
          ]
      refl

secure_lem :
    (t : Transport) (url base : Text)
    → normalize_server_url t url ≡ ok base
    → IsSecure t url × (base ≡ trim_slashes (trim_space url))
unfolding normalize_server_url
secure_lem t url base h =
    let (a, h1) = >>-eq-ok (guard (not (is_empty (trim_space url))) no_url) _ h in
    let (u, parsed, h2) = >>=-eq-ok (given invalid_url (t.parse_url (trim_space url))) _ h1 in
    let (b, h3) = >>-eq-ok (guard (is_server_url u) not_base_url) _ h2 in
    let (c, h4) = >>-eq-ok (check_scheme u.scheme (t.lower u.hostname)) _ h3 in
    ((u, given-eq-ok invalid_url _ parsed, scheme_lem _ _ c), sym (ok_inj {E = SubmitError} h4))

-- The server at the address was sent this body with this signature, and has answered 201 and this.
abbrev pub IsConfirmed : Transport → Text → Text → Text → Text → SubmissionResponse → Type 0
IsConfirmed t url body signature report_id r =
    IsSecure t url
    × (answer : HttpAnswer) × (raw : Text) × (t.post
          (trim_slashes (trim_space url) ++ submission_path) body (trim_space signature)
        ≡ some answer)
    × (answer.status_code ≡ 201)
    × (answer.body ≡ some raw)
    × (t.decode raw ≡ some r)
    × (r.accepted ≡ true)
    × (r.report_id ≡ trim_space report_id)

posted-IsConfirmed :
    (t : Transport) (url body signature report_id : Text) (r : SubmissionResponse)
    → post_signed_compute_benchmark t true url body signature report_id ≡ ok r
    → IsConfirmed t url body signature report_id r
unfolding post_signed_compute_benchmark
posted-IsConfirmed t url body signature report_id r h =
    let (base, normal, h1) = >>=-eq-ok (normalize_server_url t url) _ h in
    let (secure, same) = secure_lem t url base normal in
    let (a, h2) = >>-eq-ok (guard (not (is_empty body)) no_body) _ h1 in
    let (b, h3) = >>-eq-ok (guard (not (is_empty (trim_space signature))) no_signature) _ h2 in
    let (c, h4) = >>-eq-ok (guard (not (is_empty (trim_space report_id))) no_report_id) _ h3 in
    let (d, h5) = >>-eq-ok (guard (t.makes_request (base ++ submission_path)) no_request) _ h4 in
    let (answer, sent, h6) =
      >>=-eq-ok (given post_failed (t.post (base ++ submission_path) body (trim_space signature))) _
        h5 in
    let (raw, read, h7) = >>=-eq-ok (given read_failed answer.body) _ h6 in
    let (created, h8) = >>-eq-ok (guard (answer.status_code == 201) rejected) _ h7 in
    let (response, decoded, h9) = >>=-eq-ok (given invalid_response (t.decode raw)) _ h8 in
    let (yes_accepted, h10) = >>-eq-ok (guard response.accepted not_accepted) _ h9 in
    let (named, h11) =
      >>-eq-ok (guard (text_eq response.report_id (trim_space report_id)) other_report) _ h10 in
    let one : response ≡ r = ok_inj {E = SubmitError} h11 in
    let status = guard-true _ _ created in
    (
      secure,
      answer,
      raw,
      rw (sym same) (given-eq-ok post_failed _ sent),
      ground (arith, status),
      given-eq-ok read_failed _ read,
      given-eq-ok invalid_response _ decoded ∙ ap some one,
      ap (λ (x : SubmissionResponse). x.accepted) (sym one) ∙ guard-true _ _ yes_accepted,
      ap (λ (x : SubmissionResponse). x.report_id) (sym one)
          ∙ (text_eq_iff _ _).0 (guard-true _ _ named),
    )

module _ {ℓ} {B : Type ℓ} (t : Transport) where
  -- What a result without an error consists of.
  abbrev pub IsSubmitted :
      Text → Outcome SubmitError (Submission B × Text × Text) → SubmitResult B → Type ℓ
  IsSubmitted url built result =
      (s : Submission B) × (body : Text) × (signature : Text) × (base : Text)
      × (r : SubmissionResponse) × (built ≡ ok (s, body, signature))
      × (normalize_server_url t url ≡ ok base)
      × IsSecure t url
      × (result.submission ≡ some s)
      × (result.response ≡ some r)
      × IsConfirmed t base body signature s.report_id r

  posted_lem :
      (s : Submission B) (o : Outcome SubmitError SubmissionResponse)
      → (posted s o).error ≡ none
      → (r : SubmissionResponse) × (o ≡ ok r)
        × ((posted s o).submission ≡ some s)
        × ((posted s o).response ≡ some r)
  posted_lem s (err e) h = absurd (cc)
  posted_lem s (ok r) h = (r, refl, refl, refl)

  submit_to-IsSubmitted :
      (url : Text) (built : Outcome SubmitError (Submission B × Text × Text))
      (normal : Outcome SubmitError Text)
      → normalize_server_url t url ≡ normal
      → (submit_to t built normal).error ≡ none
      → IsSubmitted url built (submit_to t built normal)
  submit_to-IsSubmitted url built (err e) same h = absurd (cc)
  submit_to-IsSubmitted url (err e) (ok base) same h = absurd (cc)
  submit_to-IsSubmitted url (ok (s, body, signature)) (ok base) same h =
      let (r, done, kept, told) =
        posted_lem s (post_signed_compute_benchmark t true base body signature s.report_id) h in
      (
        s,
        body,
        signature,
        base,
        r,
        refl,
        same,
        (secure_lem t url base same).0,
        kept,
        told,
        posted-IsConfirmed t base body signature s.report_id r done,
      )

  posted_submission :
      (s : Submission B) (o : Outcome SubmitError SubmissionResponse)
      → (posted s o).submission ≡ some s
  posted_submission s (err e) = refl
  posted_submission s (ok r) = refl

  module _ (k : Keys) (g : Signing B) (i : Identity) (random : Option (List ℕ)) (benchmark : B)
      (url : Text) (now : Instant) where
    -- A submission that ends without an error was signed with the agent's identity and sent as it was
    -- signed, over TLS or to this machine, and the server has answered 201 and accepted a report
    -- with its id.
    pub submit_compute_benchmark-IsSubmitted :
        (has_context : Bool)
        → (submit_compute_benchmark k g t has_context i random benchmark url now).error ≡ none
        → IsSubmitted url
            (build_signed_submission k g i random benchmark now)
            (submit_compute_benchmark k g t has_context i random benchmark url now)
    unfolding submit_compute_benchmark
    submit_compute_benchmark-IsSubmitted false h = absurd (cc)
    submit_compute_benchmark-IsSubmitted true h =
        submit_to-IsSubmitted url (build_signed_submission k g i random benchmark now)
          (normalize_server_url t url) refl h

    -- A submission that was signed is in the result, whether or not it is posted with success.
    signed_kept :
        (s : Submission B) (body signature base : Text)
        → build_signed_submission k g i random benchmark now ≡ ok (s, body, signature)
        → normalize_server_url t url ≡ ok base
        → (submit_compute_benchmark k g t true i random benchmark url now).submission ≡ some s
    unfolding submit_compute_benchmark
    signed_kept s body signature base built normal = rw normal (
        rw built (
          posted_submission s
            (post_signed_compute_benchmark t true base body signature s.report_id)))
