-- ===== src/Agent/Submit/Enroll.antt =====
-- agent/secure_enroll.go: the client of the enrollment, with JSON and HTTP as parameters.
use mesh_alot.Prelude.{ℕ, ◌≡◌, Bool, true, not, ◌&&◌, Option, some, ◌++◌, is_empty, ◌==◌, arith}
use mesh_alot.Prelude.Text.{Text, codes, text_eq, text_eq_iff, trim_space}
use mesh_alot.Prelude.Outcome.{Outcome, ok, ◌>>=◌, ◌>>◌, guard, >>=-eq-ok, >>-eq-ok}
use mesh_alot.Server.Enrollment.Handlers.{SecureEnrollRequest}
use mesh_alot.Agent.Ttft.{trim_slashes}
use mesh_alot.Agent.Submit.{
  SubmitError, no_url, no_code, not_encoded, no_request, post_failed, rejected, invalid_response,
  not_accepted, Identity, Keys, given, validate_identity,
}
use mesh_alot.Agent.Submit.Signed.{given-eq-ok, guard-true}

-- `EnrollResponse`
pub record EnrollResponse : Type 0 where
  pub node_id : Text
  pub accepted : Bool

-- `post` answers a body at an address with a status and the body that could be read, up to 32 KiB.
pub record EnrollTransport : Type 0 where
  pub encode : SecureEnrollRequest → Option Text
  pub makes_request : Text → Bool
  pub post : Text → Text → Option (ℕ × Text)
  pub decode : Text → Option EnrollResponse

abbrev pub secure_enrollment_version : Text
secure_enrollment_version = codes "0.1.0-m6"

abbrev pub enroll_path : Text
enroll_path = codes "/v1/agent/enroll"

unfoldable pub enroll_request : Identity → Text → SecureEnrollRequest
enroll_request i code = record {
  node_id = i.node_id;
  enrollment_code = trim_space code;
  agent_version = secure_enrollment_version;
  public_key = i.public_key;
}

-- `EnrollSecure`
unfoldable pub enroll_secure :
    Keys → EnrollTransport → Text → Identity → Text → Outcome SubmitError (Unit {0})
enroll_secure k t url i code = do
  guard (not (is_empty (trim_slashes (trim_space url)))) no_url
  validate_identity k i
  guard (not (is_empty (trim_space code))) no_code
  body ← given not_encoded (t.encode (enroll_request i code))
  guard (t.makes_request (trim_slashes (trim_space url) ++ enroll_path)) no_request
  answer ← given post_failed (t.post (trim_slashes (trim_space url) ++ enroll_path) body)
  guard (answer.0 == 201) rejected
  response ← given invalid_response (t.decode answer.1)
  guard (response.accepted && text_eq response.node_id i.node_id) not_accepted
  ok tt

-- An enrollment that ends without an error sent the code and the public key of the identity, and the
-- server has answered 201 and accepted this very node.
enroll_secure-confirmed :
    (k : Keys) (t : EnrollTransport) (url : Text) (i : Identity) (code : Text)
    → enroll_secure k t url i code ≡ ok tt
    → (body : Text) × (answer : ℕ × Text) × (r : EnrollResponse) × (t.encode (enroll_request i code)
        ≡ some body)
      × (t.post (trim_slashes (trim_space url) ++ enroll_path) body ≡ some answer)
      × (answer.0 ≡ 201)
      × (t.decode answer.1 ≡ some r)
      × (r.accepted ≡ true)
      × (r.node_id ≡ i.node_id)
unfolding enroll_secure
enroll_secure-confirmed k t url i code h =
    let base = trim_slashes (trim_space url) in
    let (a, h1) = >>-eq-ok (guard (not (is_empty base)) no_url) _ h in
    let (b, h2) = >>-eq-ok (validate_identity k i) _ h1 in
    let (c, h3) = >>-eq-ok (guard (not (is_empty (trim_space code))) no_code) _ h2 in
    let (body, encoded, h4) =
      >>=-eq-ok (given not_encoded (t.encode (enroll_request i code))) _ h3 in
    let (d, h5) = >>-eq-ok (guard (t.makes_request (base ++ enroll_path)) no_request) _ h4 in
    let (answer, sent, h6) =
      >>=-eq-ok (given post_failed (t.post (base ++ enroll_path) body)) _ h5 in
    let (created, h7) = >>-eq-ok (guard (answer.0 == 201) rejected) _ h6 in
    let (r, decoded, h8) = >>=-eq-ok (given invalid_response (t.decode answer.1)) _ h7 in
    let (confirmed, h9) =
      >>-eq-ok (guard (r.accepted && text_eq r.node_id i.node_id) not_accepted) _ h8 in
    let both = guard-true _ _ confirmed in
    let status = guard-true _ _ created in
    let same : text_eq r.node_id i.node_id ≡ true = ground (arith, both) in
    (
      body,
      answer,
      r,
      given-eq-ok not_encoded _ encoded,
      given-eq-ok post_failed _ sent,
      ground (arith, status),
      given-eq-ok invalid_response _ decoded,
      ground (arith, both),
      (text_eq_iff _ _).0 same,
    )
