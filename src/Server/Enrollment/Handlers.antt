-- ===== src/Server/Enrollment/Handlers.antt =====
-- The two handlers of server/enrollment.go. SHA-256, base64 and random bytes are parameters.
pub mod Issued
pub mod Examples
use mesh_alot.Prelude.{
  ℕ, ◌*◌, Bool, true, false, not, ◌&&◌, ◌||◌, Option, none, some, ◌++◌, is_empty, length, ltb, ◌==◌,
  if◌then◌else◌,
}
use mesh_alot.Prelude.Int.{pos, ◌+ℤ◌}
use mesh_alot.Prelude.Text.{Text, codes, trim_space}
use mesh_alot.Prelude.Time.{Instant, Duration, minute}
use mesh_alot.Server.Uuid.{hex_encode, valid_uuid_v4}
use mesh_alot.Server.RateLimit.{Rate, allow_secure_enrollment}
use mesh_alot.Server.Database.{Database, StoreError, invalid_enrollment_code, Faults}
use mesh_alot.Server.Submission.{
  Status, bad_request, unauthorized, too_many_requests, internal_error, unavailable, database_error,
}
use mesh_alot.Server.Enrollment.{create_enrollment_token, redeem_enrollment_token}

pub record SecureEnrollRequest : Type 0 where
  pub node_id : Text
  pub enrollment_code : Text
  pub agent_version : Text
  pub public_key : Text

-- 201, with the code and its end or with the node id, or an error.
pub data Reply : Type 0 where
  code_created : Text → Instant → Reply
  enrolled : Text → Reply
  refused : Status → Reply

pub record Codecs : Type 0 where
  pub sha256 : Text → Text
  pub base64_url : Text → Text
  pub base64_raw : Text → Option Text

abbrev pub enrollment_code_lifetime : Duration
enrollment_code_lifetime = pos (10 * minute)

abbrev pub hash_enrollment_code : Codecs → Text → Text
hash_enrollment_code c code = hex_encode (c.sha256 code)

-- `newEnrollmentCode`, from the 32 random bytes.
abbrev pub enrollment_code : Codecs → Text → Text
enrollment_code c raw = codes "mesh_" ++ c.base64_url raw

abbrev pub is_public_key : Option Text → Bool
is_public_key none = false
is_public_key (some decoded) = length decoded == 32

-- `validEd25519PublicKey`
abbrev pub valid_public_key : Codecs → Text → Bool
valid_public_key c value = is_public_key (c.base64_raw value)

abbrev pub trimmed : SecureEnrollRequest → SecureEnrollRequest
trimmed r = record {
  node_id = trim_space r.node_id;
  enrollment_code = trim_space r.enrollment_code;
  agent_version = trim_space r.agent_version;
  public_key = trim_space r.public_key;
}

unfoldable pub bad_enrollment : Codecs → SecureEnrollRequest → Bool
bad_enrollment c r =
    not (valid_uuid_v4 r.node_id)
    || is_empty r.enrollment_code
    || ltb 128 (length r.enrollment_code)
    || is_empty r.agent_version
    || ltb 128 (length r.agent_version)
    || not (valid_public_key c r.public_key)

abbrev redemption_status : StoreError → Status
redemption_status invalid_enrollment_code = unauthorized
redemption_status e = database_error e

abbrev pub enrolled_reply : Text → Option StoreError → Reply
enrolled_reply node none = enrolled node
enrolled_reply node (some e) = refused (redemption_status e)

abbrev pub code_reply : Text → Instant → Option StoreError → Reply
code_reply code expires none = code_created code expires
code_reply code expires (some e) = refused (database_error e)

abbrev issue_for : Codecs → Faults → Instant → ℕ → ℕ → Option Text → Database → Reply × Database
issue_for c fault now fresh user none db = (refused internal_error, db)
issue_for c fault now fresh user (some raw) db =
    let code = enrollment_code c raw in
    let expires = now +ℤ enrollment_code_lifetime in
    let (error, db') =
      create_enrollment_token fault now fresh user (hash_enrollment_code c code) expires db in
    (code_reply code expires error, db')

-- `issueEnrollmentCode`, behind `requireSession`
unfoldable pub issue_enrollment_code :
    Codecs → Bool → Faults → Instant → ℕ → ℕ → Option Text → Database → Reply × Database
issue_enrollment_code c connected fault now fresh user random db =
    if connected then issue_for c fault now fresh user random db else (refused unavailable, db)

unfoldable pub redeem_request :
    Codecs → Faults → Instant → ℕ → SecureEnrollRequest → Database → Reply × Database
redeem_request c fault now fresh r db =
    if bad_enrollment c r
    then (refused bad_request, db)
    else let (error, db') =
        redeem_enrollment_token fault now fresh (hash_enrollment_code c r.enrollment_code) r.node_id
          r.public_key r.agent_version db in
      (enrolled_reply r.node_id error, db')

abbrev pub decoded :
    Codecs → Faults → Instant → ℕ → Option SecureEnrollRequest → Database → Reply × Database
decoded c fault now fresh none db = (refused bad_request, db)
decoded c fault now fresh (some r) db = redeem_request c fault now fresh (trimmed r) db

abbrev pub limited :
    Codecs
    → Faults
    → Instant
    → ℕ
    → Option SecureEnrollRequest
    → Database
    → Rate × Bool
    → Reply × Rate × Database
limited c fault now fresh body db (rate, false) = (refused too_many_requests, rate, db)
limited c fault now fresh body db (rate, true) =
    let (reply, db') = decoded c fault now fresh body db in (reply, rate, db')

-- `secureEnroll`; a body that does not decode is `none`.
unfoldable pub secure_enroll :
    Codecs
    → Bool
    → Faults
    → Instant
    → ℕ
    → Option SecureEnrollRequest
    → Rate
    → Database
    → Reply × Rate × Database
secure_enroll c connected fault now fresh body rate db =
    if connected
    then limited c fault now fresh body db (allow_secure_enrollment rate now)
    else (refused unavailable, rate, db)
