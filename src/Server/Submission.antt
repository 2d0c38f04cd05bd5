-- ===== src/Server/Submission.antt =====
-- The handlers of server/inventory.go, server/network_benchmark.go and server/compute_benchmark.go,
-- with their statements in server/*_postgres.go. The three differ in the fields of `Kind`, over which
-- the steps are written once. JSON, base64, Ed25519 and SHA-256 are parameters; a refused statement
-- is one that `fault` holds of.
pub mod Accepted
pub mod Once
pub mod Compute
mod Examples
use mesh_alot.Prelude.{
  ℕ, ◌*◌, ◌≡◌, Bool, true, false, not, ◌&&◌, ◌||◌, Option, none, some, List, [], ◌∷◌, length,
  is_empty, ltb, ◌==◌, if◌then◌else◌,
}
use mesh_alot.Prelude.Int.{ℤ}
use mesh_alot.Prelude.Text.{Text, text_eq, trim_space}
use mesh_alot.Prelude.Time.{Instant}
use mesh_alot.Prelude.Float.{Float64}
use mesh_alot.Prelude.Outcome.{Outcome, ok, err, ◌>>=◌, ◌>>◌, guard}
use mesh_alot.Protocol.{
  ComputeBenchmark, NetworkBenchmark, HardwareInventory, Submission, inventory_signing_message,
  network_signing_message, compute_signing_message,
}
use mesh_alot.Server.Uuid.{hex_decode, remove_dashes}
use mesh_alot.Server.Database.{
  NodeRow, ReportRow, Database, StoreError, no_rows, node_ownership, node_identity_conflict,
  too_many_active_enrollment_codes, replay, Result, Faults, statement, find_node,
}
use mesh_alot.Server.Score.{calculate_network_score}
use mesh_alot.Server.ComputeScore.{calculate_compute_score}
use mesh_alot.Server.Validation.{
  ValidationError, validate_inventory_submission, validate_network_benchmark_submission,
  validate_compute_benchmark_submission,
}

-- The status codes of the refusals: 400, 401, 404, 409, 413, 429, 500 and 503.
pub data Status : Type 0 where
  bad_request unauthorized not_found conflict too_large too_many_requests : Status
  internal_error unavailable : Status

-- 201, with the report id, or an error.
pub data Answer : Type 0 where
  accepted : Answer
  refused : Status → Answer

-- `databaseError`
unfoldable pub database_error : StoreError → Status
database_error no_rows = not_found
database_error node_ownership = conflict
database_error node_identity_conflict = conflict
database_error too_many_active_enrollment_codes = too_many_requests
database_error _ = unavailable

pub data Table : Type 0 where
  inventories network_benchmarks compute_benchmarks : Table

abbrev pub rows_of : Table → Database → List ReportRow
rows_of inventories db = db.inventories
rows_of network_benchmarks db = db.network_benchmarks
rows_of compute_benchmarks db = db.compute_benchmarks

abbrev pub put_row : Table → ReportRow → Database → Database
put_row inventories row db = record db { inventories = row ∷ db.inventories }
put_row network_benchmarks row db = record db { network_benchmarks = row ∷ db.network_benchmarks }
put_row compute_benchmarks row db = record db { compute_benchmarks = row ∷ db.compute_benchmarks }

-- `$1::uuid`, by its bytes, so that two spellings of one UUID are one.
abbrev pub uuid_bytes : Text → Text
uuid_bytes id = elim (hex_decode (remove_dashes id)) [ none ↦ [] | some bytes ↦ bytes ]

unfoldable pub has_report : Text → List ReportRow → Bool
has_report id [] = false
has_report id (r ∷ rs) = text_eq r.id id || has_report id rs

-- `identity_public_key IS NOT NULL AND identity_public_key<>''`
abbrev pub usable_key : Option Text → Result Text
usable_key none = err no_rows
usable_key (some key) = if is_empty key then err no_rows else ok key

abbrev pub stored_key : Option NodeRow → Result Text
stored_key none = err no_rows
stored_key (some n) = usable_key n.identity_public_key

-- `InventoryPublicKey`
pub inventory_public_key : Faults → Text → Database → Result Text
inventory_public_key fault key db = do statement fault 0; stored_key (find_node key db.nodes)

abbrev pub row_of : Text → ℕ → Text → Option ℤ → Instant → ReportRow
row_of id node payload score now = record {
  id = id;
  node_id = node;
  payload = payload;
  score = score;
  observed_at = now;
}

-- The insertion selects the node; `id` is the primary key of the table.
abbrev pub insert_for :
    Table → Text → Text → Option ℤ → Instant → Database → Option NodeRow → Result Database
insert_for table id payload score now db none = err no_rows
insert_for table id payload score now db (some n) = do
  guard (not (has_report id (rows_of table db))) replay
  ok (put_row table (row_of id n.id payload score now) db)

-- `InsertInventory`, `InsertNetworkBenchmark`, `InsertComputeBenchmark`
pub insert_report :
    Faults → Table → Text → Text → Text → Option ℤ → Instant → Database → Result Database
insert_report fault table report_id node_key payload score now db = do
  statement fault 1
  insert_for table (uuid_bytes report_id) payload score now db (find_node node_key db.nodes)

abbrev pub lookup_error : StoreError → Status
lookup_error no_rows = unauthorized
lookup_error e = database_error e

abbrev pub insertion_error : StoreError → Status
insertion_error replay = conflict
insertion_error no_rows = unauthorized
insertion_error e = database_error e

-- A step of the store, with the status that answers each of its errors.
abbrev pub answered : {A : Type 0} → (StoreError → Status) → Result A → Outcome Status A
answered status (ok a) = ok a
answered status (err e) = err (status e)

-- `verify…Signature`, after the two texts are decoded: 32 bytes of key, 64 bytes of signature.
abbrev check_signature : (Text → Text → Text → Bool) → Text → Option Text → Option Text → Bool
check_signature verify message (some key) (some signature) =
    length key == 32 && length signature == 64 && verify key message signature
check_signature verify message _ _ = false

unfoldable pub verify_signature :
    (Text → Option Text) → (Text → Text → Text → Bool) → Text → Text → Text → Bool
verify_signature base64 verify key signature message =
    check_signature verify message (base64 (trim_space key)) (base64 (trim_space signature))

pub record Kind {ℓ} (B : Type ℓ) : Type ℓ where
  pub table : Table
  pub decode : Text → Option (Submission B)
  pub validate : Submission B → Instant → Option ValidationError
  pub signing_message : Text → Text
  pub score : B → Option ℤ
  pub marshal : B → Option Text

abbrev pub max_body : ℕ
max_body = 1024 * 1024

abbrev pub present {ℓ} : {A : Type ℓ} → Option A → Status → Outcome Status A
present none s = err s
present (some a) s = ok a

abbrev pub absent : Option ValidationError → Status → Outcome Status (Unit {0})
absent none s = ok tt
absent (some e) s = err s

abbrev pub answer : Database → Outcome Status Database → Answer × Database
answer db (ok db') = (accepted, db')
answer db (err s) = (refused s, db)

module _ {ℓ} {B : Type ℓ} (base64 : Text → Option Text) (verify : Text → Text → Text → Bool)
    (k : Kind B) where
  -- From the body that was read to the answer, with what is stored.
  pub submit_steps : Faults → Instant → Text → Option Text → Database → Outcome Status Database
  submit_steps fault now header body db = do
    raw ← present body bad_request
    guard (not (ltb max_body (length raw))) too_large
    submission ← present (k.decode raw) bad_request
    absent (k.validate submission now) bad_request
    key ← answered lookup_error (inventory_public_key fault submission.node_id db)
    guard (verify_signature base64 verify key header (k.signing_message raw)) unauthorized
    payload ← present (k.marshal submission.benchmark) bad_request
    answered insertion_error (
        insert_report fault k.table submission.report_id submission.node_id payload
          (k.score submission.benchmark) now db)

  -- The whole handler; `connected` is false where the service has no database.
  pub submit : Bool → Faults → Instant → Text → Option Text → Database → Answer × Database
  submit connected fault now header body db =
      if connected
      then answer db (submit_steps fault now header body db)
      else (refused unavailable, db)

abbrev pub inventory_kind :
    (Text → Text)
    → (Text → Option (Submission HardwareInventory))
    → (HardwareInventory → Option Text)
    → Kind HardwareInventory
inventory_kind digest decode marshal = record {
  table = inventories;
  decode = decode;
  validate = validate_inventory_submission;
  signing_message = inventory_signing_message digest;
  score = λ b. none;
  marshal = marshal;
}

module _ {ℓ} {F : Type ℓ} ⦃f : Float64 F⦄ where
  abbrev pub network_benchmark_kind :
      (Text → Text)
      → (Text → Option (Submission (NetworkBenchmark F)))
      → (NetworkBenchmark F → Option Text)
      → Kind (NetworkBenchmark F)
  network_benchmark_kind digest decode marshal = record {
    table = network_benchmarks;
    decode = decode;
    validate = validate_network_benchmark_submission;
    signing_message = network_signing_message digest;
    score = λ b. some (
        calculate_network_score b.ipv4_available b.ipv6_available b.download_mbps b.upload_mbps
          b.latency_ms b.jitter_ms b.packet_loss_percent);
    marshal = marshal;
  }

  abbrev pub compute_benchmark_kind :
      (Text → Text)
      → (Text → Option (Submission (ComputeBenchmark F)))
      → (ComputeBenchmark F → Option Text)
      → Kind (ComputeBenchmark F)
  compute_benchmark_kind digest decode marshal = record {
    table = compute_benchmarks;
    decode = decode;
    validate = validate_compute_benchmark_submission;
    signing_message = compute_signing_message digest;
    score = λ b. some (calculate_compute_score b).score;
    marshal = marshal;
  }
