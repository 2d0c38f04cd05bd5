-- ===== src/Server/Submission/Examples.antt =====
-- Requests to the handler of server/inventory.go.
use mesh_alot.Prelude.{
  ℕ, zero, suc, ◌≡◌, ◌≢◌, refl, Bool, true, false, Option, none, some, [], ◌∷◌, is_empty, ◌==◌,
  if◌then◌else◌, not, arith,
}
use mesh_alot.Prelude.Int.{pos}
use mesh_alot.Prelude.Text.{Text, codes, text_eq, trim_space}
use mesh_alot.Prelude.Time.{Instant}
use mesh_alot.Protocol.{
  HardwareInventory, Submission, inventory_submission_version, inventory_schema_version,
  inventory_signing_message,
}
use mesh_alot.Server.Uuid.{valid_uuid_v4, hex_value, hex_decode, remove_dashes, byte_at}
use mesh_alot.Server.Window.{outside_window}
use mesh_alot.Server.Validation.{validate_inventory_submission}
use mesh_alot.Server.Database.{Database, Faults, find_node}
use mesh_alot.Server.Submission.{
  accepted, refused, conflict, Kind, inventory_kind, has_report, put_row, row_of, inventories,
  inventory_public_key, insert_report, verify_signature, submit_steps, submit,
}
use mesh_alot.Server.Submission.Accepted.{IsAccepted, submit-IsAccepted, IsAccepted-submit}
use mesh_alot.Server.Submission.Once.{Request, handle, handle_all, accepted_once}

abbrev noon : Instant
noon = pos 63_900_000_000_000_000_000

abbrev laptop_id : Text
laptop_id = codes "0a0b0c0d-0000-4000-8000-000000000001"

abbrev report : Submission HardwareInventory
report = record {
  version = inventory_submission_version;
  node_id = laptop_id;
  report_id = codes "0a0b0c0d-0000-4000-8000-0000000000aa";
  signed_at = noon;
  benchmark = record {
    schema_version = inventory_schema_version;
    collected_at = noon;
    os_name = codes "linux";
    cpu_model = codes "x";
    cpu_logical_cores = pos 8;
    memory_total_bytes = 64;
    gpus = [];
    acceleration = [];
    ai_runtimes = [];
    models = [];
  };
}

-- The same report id in capital letters.
abbrev again : Submission HardwareInventory
again = record report { report_id = codes "0A0B0C0D-0000-4000-8000-0000000000AA" }

abbrev zeros : ℕ → Text
zeros zero = []
zeros (suc n) = 0 ∷ zeros n

-- A key is 32 zeros, and a signature 64.
abbrev base64 : Text → Option Text
base64 t = if text_eq t (codes "key") then some (zeros 32) else some (zeros 64)

abbrev verify : Text → Text → Text → Bool
verify key message signature = not (is_empty message)

abbrev decode : Text → Option (Submission HardwareInventory)
decode [] = none
decode (c ∷ cs) = if c == 49 then some report else some again

abbrev kind : Kind HardwareInventory
kind = inventory_kind (λ t. []) decode (λ b. some (codes "{}"))

abbrev no_fault : Faults
no_fault n = false

abbrev start : Database
start = record {
  nodes =
      record {
        id = 40;
        user_id = 7;
        node_key = laptop_id;
        agent_version = codes "0.1";
        identity_public_key = some (codes "key");
      }
      ∷ [];
  statuses = [];
  tokens = [];
  inventories = [];
  network_benchmarks = [];
  compute_benchmarks = [];
}

abbrev request : Text → Request
request body = record {
  connected = true;
  fault = no_fault;
  now = noon;
  header = codes "signature";
  body = some body;
}

abbrev stored : Database
stored =
    put_row inventories
      (row_of (10 ∷ 11 ∷ 12 ∷ 13 ∷ 0 ∷ 0 ∷ 64 ∷ 0 ∷ 128 ∷ 0 ∷ 0 ∷ 0 ∷ 0 ∷ 0 ∷ 0 ∷ 170 ∷ []) 40
        (codes "{}") none noon)
      start

first_accepted : handle base64 verify kind (request (codes "1")) start ≡ (accepted, stored)
unfolding submit submit_steps inventory_public_key insert_report verify_signature has_report
    validate_inventory_submission find_node text_eq trim_space valid_uuid_v4 hex_decode hex_value
    remove_dashes byte_at outside_window inventory_signing_message
first_accepted = refl

second_refused : handle base64 verify kind (request (codes "2")) stored ≡ (refused conflict, stored)
unfolding submit submit_steps inventory_public_key insert_report verify_signature has_report
    validate_inventory_submission find_node text_eq trim_space valid_uuid_v4 hex_decode hex_value
    remove_dashes byte_at outside_window inventory_signing_message
second_refused = refl

submit-IsAccepted_example :
    (true ≡ true)
    × (raw : Text) × (s : Submission HardwareInventory) × (some (codes "1") ≡ some raw)
    × IsAccepted base64 verify kind noon (codes "signature") raw start stored s
submit-IsAccepted_example =
    submit-IsAccepted base64 verify kind no_fault noon (codes "signature") true (some (codes "1"))
      start stored first_accepted

report-IsAccepted :
    IsAccepted base64 verify kind noon (codes "signature") (codes "1") start stored report
unfolding verify_signature has_report validate_inventory_submission find_node text_eq trim_space
    valid_uuid_v4 hex_decode hex_value remove_dashes byte_at outside_window
    inventory_signing_message
report-IsAccepted = record {
  fits = omega arith;
  decoded = refl;
  valid = refl;
  node = _;
  found = refl;
  key = codes "key";
  enrolled = refl;
  signed = refl;
  payload = codes "{}";
  marshaled = refl;
  fresh = refl;
  stored = refl;
}

IsAccepted-submit_example :
    submit base64 verify kind true no_fault noon (codes "signature") (some (codes "1")) start
    ≡ (accepted, stored)
unfolding report-IsAccepted
IsAccepted-submit_example =
    IsAccepted-submit base64 verify kind no_fault noon (codes "signature") (codes "1") start stored
      report report-IsAccepted refl refl refl

accepted_once_example :
    handle base64 verify kind
      (request (codes "2"))
      (handle_all base64 verify kind (request (codes "2") ∷ []) stored)
    ≢ (accepted, start)
unfolding hex_decode hex_value remove_dashes
accepted_once_example =
    accepted_once base64 verify kind (request (codes "1")) (request (codes "2"))
      (request (codes "2") ∷ []) (codes "1") (codes "2") report again start stored start refl refl
      first_accepted refl refl refl
