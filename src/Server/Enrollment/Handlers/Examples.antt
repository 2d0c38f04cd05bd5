-- ===== src/Server/Enrollment/Handlers/Examples.antt =====
-- A code given out and used, at which the theorem on the handlers of server/enrollment.go applies.
use mesh_alot.Prelude.{ℕ, ◌≡◌, refl, true, false, some, List, []}
use mesh_alot.Prelude.Int.{pos, ◌+ℤ◌}
use mesh_alot.Prelude.Text.{codes, text_eq, trim_space}
use mesh_alot.Prelude.Time.{sub}
use mesh_alot.Server.Uuid.{
  hex_digit, hex_value, hex_decode, remove_dashes, byte_at, valid_uuid_v4, hex_encode,
}
use mesh_alot.Server.RateLimit.{Rate, allow_secure_enrollment}
use mesh_alot.Server.Database.{Database, Faults, find_node, key_taken}
use mesh_alot.Server.Enrollment.{
  create_enrollment_token, check_quota, insert_token, count_active, has_hash,
}
use mesh_alot.Server.Enrollment.Handlers.{
  Codecs, hash_enrollment_code, SecureEnrollRequest, enrolled, bad_enrollment,
  issue_enrollment_code, secure_enroll,
}
use mesh_alot.Server.Enrollment.Handlers.Issued.{issued, enrolled_database, issued_code-enrolls}

abbrev no_fault : Faults
no_fault n = false

abbrev thirty_two : List ℕ
thirty_two = codes "0123456789abcdef0123456789abcdef"

abbrev codecs : Codecs
codecs = record { sha256 = λ t. codes "s"; base64_url = λ t. t; base64_raw = λ t. some thirty_two }

abbrev empty : Database
empty = record {
  nodes = [];
  statuses = [];
  tokens = [];
  inventories = [];
  network_benchmarks = [];
  compute_benchmarks = [];
}

abbrev request : SecureEnrollRequest
request = record {
  node_id = codes " 00010203-0405-4f07-bf09-0a0b0c0d0e0f";
  enrollment_code = codes "mesh_r ";
  agent_version = codes "0.2";
  public_key = codes "K";
}

abbrev fresh_rate : Rate
fresh_rate = record { window = pos 1_000; attempts = 3 }

issued_code-enrolls_example :
    secure_enroll codecs true no_fault
      (pos 2_000)
      9
      (some request)
      fresh_rate
      (issued codecs no_fault (pos 1_000) 5 7 (codes "r") empty).1
    ≡ (
      enrolled (codes "00010203-0405-4f07-bf09-0a0b0c0d0e0f"),
      (allow_secure_enrollment fresh_rate (pos 2_000)).0,
      enrolled_database
          (pos 2_000)
          5
          9
          7
          (hash_enrollment_code codecs (codes "mesh_r"))
          (codes "00010203-0405-4f07-bf09-0a0b0c0d0e0f")
          (codes "K")
          (codes "0.2")
          (pos 600_000_001_000)
          empty,
    )
unfolding create_enrollment_token check_quota insert_token count_active has_hash text_eq trim_space
    issue_enrollment_code bad_enrollment allow_secure_enrollment sub valid_uuid_v4 hex_value
    hex_decode remove_dashes byte_at hex_encode find_node key_taken hex_digit ◌+ℤ◌
issued_code-enrolls_example =
    issued_code-enrolls codecs no_fault (pos 1_000) 5 7 (codes "r") empty refl no_fault (pos 2_000)
      9 request fresh_rate (λ i. refl) refl refl refl refl tt refl refl
