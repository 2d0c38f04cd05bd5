-- ===== src/Agent/Submit/Examples.antt =====
-- An inventory that is signed, posted and accepted, in a base64 that puts an `A` at both ends.
use mesh_alot.Prelude.{
  ℕ, zero, suc, ◌≡◌, refl, ap, Bool, true, false, Option, none, some, [], ◌∷◌, ◌++◌, length-append,
  arith,
}
use mesh_alot.Prelude.Int.{pos}
use mesh_alot.Prelude.Text.{Text, codes, text_eq, text_eq_iff, trim_space}
use mesh_alot.Prelude.Text.Trim.{enclosed-trim_space}
use mesh_alot.Prelude.Time.{Instant}
use mesh_alot.Prelude.Outcome.{ok}
use mesh_alot.Protocol.{
  HardwareInventory, Submission, inventory_submission_version, inventory_schema_version,
  inventory_signing_message,
}
use mesh_alot.Server.Uuid.{
  valid_uuid_v4, new_uuid_v4, hex_digit, hex_value, hex_decode, remove_dashes, byte_at,
}
use mesh_alot.Server.Window.{outside_window}
use mesh_alot.Server.Validation.{validate_inventory_submission}
use mesh_alot.Server.Database.{Database, Faults, find_node}
use mesh_alot.Server.Submission.{
  accepted, Kind, inventory_kind, put_row, row_of, inventories, uuid_bytes, has_report, submit,
}
use mesh_alot.Agent.Submit.{
  Identity, Keys, Signing, Transport, validate_identity, submission_of, build_signed_submission,
  is_server_url, check_scheme, normalize_server_url, post_signed_compute_benchmark,
  submit_compute_benchmark,
}
use mesh_alot.Agent.Submit.Signed.{IsSigner, built-submit}
use mesh_alot.Agent.Submit.Confirmed.{IsSubmitted, submit_compute_benchmark-IsSubmitted}

abbrev noon : Instant
noon = pos 63_900_000_000_000_000_000

abbrev zeros : ℕ → Text
zeros zero = []
zeros (suc n) = 0 ∷ zeros n

abbrev take : ℕ → Text → Text
take zero t = []
take (suc n) [] = []
take (suc n) (c ∷ t) = c ∷ take n t

abbrev prepend : ℕ → Option Text → Option Text
prepend c none = none
prepend c (some t) = some (c ∷ t)

abbrev without_last : Text → Option Text
without_last [] = none
without_last (c ∷ []) = some []
without_last (c ∷ d ∷ t) = prepend c (without_last (d ∷ t))

abbrev decode64 : Text → Option Text
decode64 [] = none
decode64 (c ∷ t) = without_last t

abbrev encode64 : Text → Text
encode64 t = 65 ∷ (t ++ (65 ∷ []))

abbrev keys : Keys
keys = record {
  base64 = decode64;
  encode = encode64;
  public_of = take 32;
  sign = λ key message. key;
}

abbrev verify : Text → Text → Text → Bool
verify key message signature = text_eq key (take 32 signature)

without_last-append : (t : Text) → without_last (t ++ (65 ∷ [])) ≡ some t
without_last-append [] = refl
without_last-append (c ∷ []) = refl
without_last-append (c ∷ d ∷ t) = ap (prepend c) (without_last-append (d ∷ t))

abbrev new_key : Text → Text
new_key seed = seed ++ seed

keys-IsSigner : IsSigner keys new_key verify
keys-IsSigner = record {
  decodes = without_last-append;
  trimmed = enclosed-trim_space 65 (omega arith, omega arith);
  signs_64 = λ seed m h. ground (arith, h, length-append seed seed);
  verifies = λ seed m h. (text_eq_iff (take 32 (seed ++ seed)) (take 32 (seed ++ seed))).1 refl;
}

abbrev identity : Identity
identity = record {
  version = 1;
  node_id = codes "0a0b0c0d-0000-4000-8000-000000000001";
  public_key = encode64 (zeros 32);
  private_key = encode64 (zeros 64);
}

abbrev inventory : HardwareInventory
inventory = record {
  schema_version = inventory_schema_version;
  collected_at = noon;
  os_name = codes "linux";
  cpu_model = codes "x";
  cpu_logical_cores = pos 8;
  memory_total_bytes = 64;
  gpus = [];
  acceleration = [];
  ai_runtimes = [];
  models = [];
}

abbrev signing : Signing HardwareInventory
signing = record {
  schema_of = λ b. b.schema_version;
  schema_version = inventory_schema_version;
  submission_version = inventory_submission_version;
  marshal = λ s. some s.report_id;
  signing_message = inventory_signing_message (λ t. t);
}

abbrev sent : Submission HardwareInventory
sent = record {
  version = inventory_submission_version;
  node_id = identity.node_id;
  report_id = codes "00000000-0000-4000-8000-000000000000";
  signed_at = noon;
  benchmark = inventory;
}

abbrev signature : Text
signature = encode64 (zeros 64)

built :
    build_signed_submission keys signing identity (some (zeros 16)) inventory noon
    ≡ ok (sent, sent.report_id, signature)
unfolding build_signed_submission validate_identity submission_of text_eq valid_uuid_v4 hex_value
    hex_decode remove_dashes byte_at hex_digit new_uuid_v4
built = refl

abbrev kind : Kind HardwareInventory
kind = inventory_kind (λ t. t) (λ t. some sent) (λ b. some (codes "{}"))

abbrev no_fault : Faults
no_fault n = false

abbrev start : Database
start = record {
  nodes =
      record {
        id = 40;
        user_id = 7;
        node_key = identity.node_id;
        agent_version = codes "0.1";
        identity_public_key = some identity.public_key;
      }
      ∷ [];
  statuses = [];
  tokens = [];
  inventories = [];
  network_benchmarks = [];
  compute_benchmarks = [];
}

built-submit_example :
    submit decode64 verify kind true no_fault noon signature (some sent.report_id) start ≡ (
      accepted,
      put_row inventories (row_of (uuid_bytes sent.report_id) 40 (codes "{}") none noon) start,
    )
unfolding validate_inventory_submission find_node text_eq trim_space valid_uuid_v4 hex_decode
    hex_value remove_dashes byte_at outside_window has_report
built-submit_example =
    built-submit keys signing identity (some (zeros 16)) inventory noon sent sent.report_id
      signature new_key verify keys-IsSigner (zeros 32, refl, refl) kind no_fault noon start _
      (codes "{}") built refl (omega arith) refl refl refl refl refl refl refl refl refl refl

abbrev transport : Transport
transport = record {
  parse_url = λ t. some (record {
    scheme = codes "https";
    host = codes "mesh";
    hostname = codes "mesh";
    path = [];
    raw_query = [];
    fragment = [];
    has_user = false;
  });
  lower = λ t. t;
  makes_request = λ t. true;
  post = λ address body header. some (record { status_code = 201; body = some body });
  decode = λ t. some (record { report_id = t; accepted = true });
}

submit_compute_benchmark-IsSubmitted_example :
    IsSubmitted transport
      (codes "https://mesh")
      (build_signed_submission keys signing identity (some (zeros 16)) inventory noon)
      (submit_compute_benchmark keys signing transport true identity
        (some (zeros 16))
        inventory
        (codes "https://mesh")
        noon)
unfolding submit_compute_benchmark build_signed_submission validate_identity submission_of text_eq
    valid_uuid_v4 hex_value hex_decode remove_dashes byte_at hex_digit new_uuid_v4
    normalize_server_url is_server_url check_scheme post_signed_compute_benchmark trim_space
submit_compute_benchmark-IsSubmitted_example =
    submit_compute_benchmark-IsSubmitted transport keys signing identity (some (zeros 16)) inventory
      (codes "https://mesh") noon true refl
