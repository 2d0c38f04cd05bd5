-- ===== src/Server/Enrollment/Examples.antt =====
-- Accounts, codes and nodes at which the theorems on server/enrollment.go apply.
use mesh_alot.Prelude.{ℕ, ◌≤◌, ◌<◌, ◌≡◌, refl, false, Option, none, some, List, [], ◌∷◌, arith}
use mesh_alot.Prelude.Int.{pos}
use mesh_alot.Prelude.Text.{Text, codes, text_eq}
use mesh_alot.Server.Database.{
  too_many_active_enrollment_codes, NodeRow, TokenRow, Database, Faults, StoreError,
  invalid_enrollment_code, node_identity_conflict, find_node, key_taken, insert_status,
}
use mesh_alot.Server.Enrollment.{
  counting, created, failed, max_active_enrollment_codes, count_active, has_hash,
  create_enrollment_token, find_live, bind_node, consume, count_taken, finish_redemption,
  redeem_steps, redeem_enrollment_token,
}
use mesh_alot.Server.Enrollment.SingleUse.{redeemed_once}
use mesh_alot.Server.Enrollment.Binding.{HasKey, IsKept, redeem-IsKept, redeem-binds}
use mesh_alot.Server.Enrollment.Quota.{
  Turn, first, second, Race, run, create-count_active-le, racing_requests,
}

abbrev no_fault : Faults
no_fault n = false

abbrev token : ℕ → Text → TokenRow
token id hash = record {
  id = id;
  user_id = 7;
  token_hash = hash;
  expires_at = pos 1000;
  consumed_at = none;
  consumed_node_id = none;
}

abbrev laptop : NodeRow
laptop = record {
  id = 40;
  user_id = 7;
  node_key = codes "laptop";
  agent_version = codes "0.1";
  identity_public_key = some (codes "K1");
}

abbrev start : Database
start = record {
  nodes = laptop ∷ [];
  statuses = [];
  tokens = token 1 (codes "a") ∷ token 2 (codes "b") ∷ [];
  inventories = [];
  network_benchmarks = [];
  compute_benchmarks = [];
}

abbrev redeem : Text → Text → Text → Database → Option StoreError × Database
redeem hash key public_key db =
    redeem_enrollment_token no_fault (pos 500) 41 hash key public_key (codes "0.2") db

abbrev committed : Database
committed = record start {
  nodes =
      record {
        id = 41;
        user_id = 7;
        node_key = codes "desktop";
        agent_version = codes "0.2";
        identity_public_key = some (codes "K2");
      }
      ∷ laptop
      ∷ [];
  statuses = insert_status 41 (pos 500) [];
  tokens =
      record (token 1 (codes "a")) { consumed_at = some (pos 500); consumed_node_id = some 41 }
      ∷ token 2 (codes "b")
      ∷ [];
}

desktop_enrolled : redeem (codes "a") (codes "desktop") (codes "K2") start ≡ (none, committed)
unfolding redeem_enrollment_token redeem_steps find_live bind_node finish_redemption consume
    count_taken text_eq find_node key_taken insert_status
desktop_enrolled = refl

stolen_key_refused :
    redeem (codes "a") (codes "desktop") (codes "K1") start ≡ (some node_identity_conflict, start)
unfolding redeem_enrollment_token redeem_steps find_live bind_node finish_redemption consume
    count_taken text_eq find_node key_taken insert_status
stolen_key_refused = refl

redeemed_once_example :
    redeem_enrollment_token no_fault
      (pos 501)
      42
      (codes "a")
      (codes "phone")
      (codes "K3")
      (codes "0.2")
      committed
    ≡ (some invalid_enrollment_code, committed)
unfolding text_eq
redeemed_once_example =
    redeemed_once no_fault (pos 500) 41 (codes "a") (codes "desktop") (codes "K2") (codes "0.2")
      start committed ((refl, tt), (tt, tt)) desktop_enrolled no_fault (pos 501) 42 (codes "phone")
      (codes "K3") (codes "0.2") refl refl

redeem-IsKept_example :
    let after = (redeem (codes "b") (codes "laptop") (codes "K9") start).1 in
    (n : NodeRow) × (find_node (codes "laptop") after.nodes ≡ some n) × IsKept laptop n
unfolding find_node text_eq
redeem-IsKept_example =
    redeem-IsKept no_fault (pos 500) 41 (codes "b") (codes "laptop") (codes "K9") (codes "0.2")
      start (codes "laptop") laptop refl

redeem-binds_example :
    (t : TokenRow) × (n : NodeRow) × (find_live (codes "a") (pos 500) start.tokens ≡ some t)
    × (find_node (codes "desktop") committed.nodes ≡ some n)
    × (n.user_id ≡ t.user_id)
    × HasKey (codes "K2") (find_node (codes "desktop") start.nodes) n
redeem-binds_example =
    redeem-binds no_fault (pos 500) 41 (codes "a") (codes "desktop") (codes "K2") (codes "0.2")
      start committed desktop_enrolled

abbrev empty : Database
empty = record start { nodes = []; tokens = [] }

create-count_active-le_example :
    count_active 7
      (pos 0)
      (create_enrollment_token no_fault (pos 0) 1 7 (codes "a") (pos 9) empty).1.tokens
    ≤ 5
unfolding count_active
create-count_active-le_example =
    create-count_active-le no_fault (pos 0) 1 7 (codes "a") (pos 9) empty (λ u. omega arith) 7

abbrev four : Database
four = record start {
  tokens =
      token 1 (codes "a") ∷ token 2 (codes "b") ∷ token 3 (codes "c") ∷ token 4 (codes "d") ∷ [];
}

abbrev race : List Turn → Race
race turns =
    run no_fault (pos 0) (pos 9) 7 5 6 (codes "e") (codes "f") turns
      (record { one = counting; two = counting; tables = four })

racing_requests_example :
    let serial = race (first ∷ first ∷ second ∷ second ∷ []) in
    let raced = race (first ∷ second ∷ first ∷ second ∷ []) in
    (serial.one ≡ created)
    × (serial.two ≡ failed too_many_active_enrollment_codes)
    × (count_active 7 (pos 0) serial.tables.tokens ≡ max_active_enrollment_codes)
    × (raced.one ≡ created)
    × (raced.two ≡ created)
    × (max_active_enrollment_codes < count_active 7 (pos 0) raced.tables.tokens)
unfolding count_active has_hash text_eq
racing_requests_example =
    racing_requests no_fault (pos 0) (pos 9) 7 5 6 (codes "e") (codes "f") four (λ n. refl) refl
      refl refl refl refl
