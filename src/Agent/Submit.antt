-- ===== src/Agent/Submit.antt =====
-- How the agent signs what it submits, agent/identity.go and agent/*_submit.go, and how it posts a
-- compute benchmark, agent/compute_benchmark_transport.go and agent/compute_benchmark_submit_flow.go.
-- The three functions that sign differ in the fields of `Signing`. Ed25519, base64, JSON, URLs and
-- HTTP are parameters.
pub mod Signed
pub mod Confirmed
pub mod Enroll
mod Examples
use mesh_alot.Prelude.{
  ℕ, ◌*◌, Bool, true, false, not, ◌&&◌, ◌||◌, Option, none, some, List, [], ◌∷◌, ◌++◌, length,
  is_empty, ◌==◌, if◌then◌else◌,
}
use mesh_alot.Prelude.Text.{Text, codes, text_eq, trim_space}
use mesh_alot.Prelude.Time.{Instant}
use mesh_alot.Prelude.Outcome.{Outcome, ok, err, ◌>>=◌, ◌>>◌, guard}
use mesh_alot.Protocol.{Submission}
use mesh_alot.Server.Uuid.{valid_uuid_v4, new_uuid_v4}
use mesh_alot.Agent.Ttft.{ParsedUrl, is_loopback, trim_slashes}

pub data SubmitError : Type 0 where
  bad_version bad_node_id bad_public_key bad_private_key keys_differ : SubmitError
  bad_schema no_code no_random not_encoded no_context no_url invalid_url not_base_url : SubmitError
  plain_http bad_scheme no_body no_signature no_report_id no_request : SubmitError
  post_failed read_failed rejected invalid_response not_accepted other_report : SubmitError

-- `Identity`
pub record Identity : Type 0 where
  pub version : ℕ
  pub node_id : Text
  pub public_key : Text
  pub private_key : Text

-- `public_of` is the public half of a private key.
pub record Keys : Type 0 where
  pub base64 : Text → Option Text
  pub encode : Text → Text
  pub public_of : Text → Text
  pub sign : Text → Text → Text

pub record Signing {ℓ} (B : Type ℓ) : Type ℓ where
  pub schema_of : B → Text
  pub schema_version : Text
  pub submission_version : Text
  pub marshal : Submission B → Option Text
  pub signing_message : Text → Text

abbrev pub given {κ} : {A : Type κ} → SubmitError → Option A → Outcome SubmitError A
given e none = err e
given e (some a) = ok a

-- `DecodeString`, with the test of the length.
abbrev pub key_of_length : Keys → ℕ → Text → SubmitError → Outcome SubmitError Text
key_of_length k n value e = do raw ← given e (k.base64 value); guard (length raw == n) e; ok raw

-- `validateIdentity`
unfoldable pub validate_identity : Keys → Identity → Outcome SubmitError (Unit {0})
validate_identity k i = do
  guard (i.version == 1) bad_version
  guard (valid_uuid_v4 i.node_id) bad_node_id
  public ← key_of_length k 32 i.public_key bad_public_key
  private ← key_of_length k 64 i.private_key bad_private_key
  guard (text_eq public (k.public_of private)) keys_differ
  ok tt

unfoldable pub submission_of {ℓ} :
    {B : Type ℓ} → Signing B → Identity → List ℕ → B → Instant → Submission B
submission_of g i raw benchmark now = record {
  version = g.submission_version;
  node_id = i.node_id;
  report_id = new_uuid_v4 raw;
  signed_at = now;
  benchmark = benchmark;
}

-- `BuildSigned…Submission`, with the 16 random bytes of `newUUIDv4`.
unfoldable pub build_signed_submission {ℓ} :
    {B : Type ℓ}
    → Keys
    → Signing B
    → Identity
    → Option (List ℕ)
    → B
    → Instant
    → Outcome SubmitError (Submission B × Text × Text)
build_signed_submission k g i random benchmark now = do
  validate_identity k i
  guard (text_eq (g.schema_of benchmark) g.schema_version) bad_schema
  raw ← given no_random random
  body ← given not_encoded (g.marshal (submission_of g i raw benchmark now))
  private ← key_of_length k 64 i.private_key bad_private_key
  ok (submission_of g i raw benchmark now, body, k.encode (k.sign private (g.signing_message body)))

-- `ComputeBenchmarkSubmissionResponse`
pub record SubmissionResponse : Type 0 where
  pub report_id : Text
  pub accepted : Bool

-- An answer: its status and its body up to 64 KiB, if it can be read.
pub record HttpAnswer : Type 0 where
  pub status_code : ℕ
  pub body : Option Text

-- `post` takes the address, the body and the header with the signature.
pub record Transport : Type 0 where
  pub parse_url : Text → Option ParsedUrl
  pub lower : Text → Text
  pub makes_request : Text → Bool
  pub post : Text → Text → Text → Option HttpAnswer
  pub decode : Text → Option SubmissionResponse

unfoldable pub is_server_url : ParsedUrl → Bool
is_server_url u =
    not (is_empty u.host)
    && not u.has_user
    && is_empty u.raw_query
    && is_empty u.fragment
    && (is_empty u.path || text_eq u.path (codes "/"))

-- The `switch` on the scheme.
unfoldable pub check_scheme : Text → Text → Outcome SubmitError (Unit {0})
check_scheme scheme host =
    if text_eq scheme (codes "https")
    then ok tt
    else if text_eq scheme (codes "http")
    then guard (is_loopback host) plain_http
    else err bad_scheme

-- `normalizeComputeBenchmarkServerURL`
unfoldable pub normalize_server_url : Transport → Text → Outcome SubmitError Text
normalize_server_url t value = do
  guard (not (is_empty (trim_space value))) no_url
  parsed ← given invalid_url (t.parse_url (trim_space value))
  guard (is_server_url parsed) not_base_url
  check_scheme parsed.scheme (t.lower parsed.hostname)
  ok (trim_slashes (trim_space value))

abbrev pub submission_path : Text
submission_path = codes "/v1/agent/compute-benchmark"

-- `PostSignedComputeBenchmark`; the texts of a refusal are left out.
unfoldable pub post_signed_compute_benchmark :
    Transport → Bool → Text → Text → Text → Text → Outcome SubmitError SubmissionResponse
post_signed_compute_benchmark t has_context url body signature report_id = do
  guard has_context no_context
  base ← normalize_server_url t url
  guard (not (is_empty body)) no_body
  guard (not (is_empty (trim_space signature))) no_signature
  guard (not (is_empty (trim_space report_id))) no_report_id
  guard (t.makes_request (base ++ submission_path)) no_request
  answer ← given post_failed (t.post (base ++ submission_path) body (trim_space signature))
  raw ← given read_failed answer.body
  guard (answer.status_code == 201) rejected
  response ← given invalid_response (t.decode raw)
  guard response.accepted not_accepted
  guard (text_eq response.report_id (trim_space report_id)) other_report
  ok response

-- `ComputeBenchmarkSubmitResult`, with the error.
pub record SubmitResult {ℓ} (B : Type ℓ) : Type ℓ where
  pub submission : Option (Submission B)
  pub response : Option SubmissionResponse
  pub error : Option SubmitError

abbrev pub failed {ℓ} : {B : Type ℓ} → SubmitError → SubmitResult B
failed e = record { submission = none; response = none; error = some e }

abbrev pub posted {ℓ} :
    {B : Type ℓ} → Submission B → Outcome SubmitError SubmissionResponse → SubmitResult B
posted s (err e) = record { submission = some s; response = none; error = some e }
posted s (ok r) = record { submission = some s; response = some r; error = none }

abbrev pub post_built {ℓ} :
    {B : Type ℓ}
    → Transport
    → Text
    → Outcome SubmitError (Submission B × Text × Text)
    → SubmitResult B
post_built t base (err e) = failed e
post_built t base (ok (s, body, signature)) =
    posted s (post_signed_compute_benchmark t true base body signature s.report_id)

abbrev pub submit_to {ℓ} :
    {B : Type ℓ}
    → Transport
    → Outcome SubmitError (Submission B × Text × Text)
    → Outcome SubmitError Text
    → SubmitResult B
submit_to t built (err e) = failed e
submit_to t built (ok base) = post_built t base built

-- `SubmitComputeBenchmark`
unfoldable pub submit_compute_benchmark {ℓ} :
    {B : Type ℓ}
    → Keys
    → Signing B
    → Transport
    → Bool
    → Identity
    → Option (List ℕ)
    → B
    → Text
    → Instant
    → SubmitResult B
submit_compute_benchmark k g t has_context i random benchmark url now =
    if has_context
    then submit_to t (build_signed_submission k g i random benchmark now)
        (normalize_server_url t url)
    else failed no_context
