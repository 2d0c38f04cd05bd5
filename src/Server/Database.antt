-- ===== src/Server/Database.antt =====
-- The tables that the statements of server/*.go read and write, with the constraints on which they
-- rest. An id that the database makes is a number, and so is a user's; a fresh one is an argument.
-- A statement is one step; a transaction that fails leaves the tables as they were.
use mesh_alot.Prelude.{
  ℕ, ◌≡◌, ap, arith, Bool, false, not, ◌&&◌, ◌||◌, Option, none, some, List, [], ◌∷◌, ◌==◌,
  if◌then◌else◌,
}
use mesh_alot.Prelude.Int.{ℤ}
use mesh_alot.Prelude.Outcome.{Outcome, ok, err, guard}
use mesh_alot.Prelude.Text.{Text, codes, text_eq}
use mesh_alot.Prelude.Time.{Instant}
use mesh_alot.Protocol.{NodeStatus, enrolled}

pub record NodeRow : Type 0 where
  pub id : ℕ
  pub user_id : ℕ
  pub node_key : Text
  pub agent_version : Text
  pub identity_public_key : Option Text

pub record StatusRow : Type 0 where
  pub node_id : ℕ
  pub status : NodeStatus
  pub mode : Text
  pub observed_at : Instant
  pub last_heartbeat : Option Instant

pub record TokenRow : Type 0 where
  pub id : ℕ
  pub user_id : ℕ
  pub token_hash : Text
  pub expires_at : Instant
  pub consumed_at : Option Instant
  pub consumed_node_id : Option ℕ

-- A row of `hardware_inventory`, which has no score, `network_benchmarks` or `compute_benchmarks`.
pub record ReportRow : Type 0 where
  pub id : Text
  pub node_id : ℕ
  pub payload : Text
  pub score : Option ℤ
  pub observed_at : Instant

pub record Database : Type 0 where
  pub nodes : List NodeRow
  pub statuses : List StatusRow
  pub tokens : List TokenRow
  pub inventories : List ReportRow
  pub network_benchmarks : List ReportRow
  pub compute_benchmarks : List ReportRow

-- The errors of package `server` and of `database/sql` that the callers tell apart.
pub data StoreError : Type 0 where
  no_rows node_ownership node_identity_conflict invalid_enrollment_code : StoreError
  too_many_active_enrollment_codes replay failure : StoreError

abbrev pub Result {ℓ} : Type ℓ → Type ℓ
Result T = Outcome StoreError T

-- A statement that the connection or the server refuses is one whose number `fault` holds of.
abbrev pub Faults : Type 0
Faults = ℕ → Bool

abbrev pub statement : Faults → ℕ → Result (Unit {0})
statement fault n = guard (not (fault n)) failure

-- A transaction that ends in an error is rolled back.
abbrev pub transact : Database → Result Database → Option StoreError × Database
transact db (ok db') = (none, db')
transact db (err e) = (some e, db)

-- `SELECT … FROM nodes WHERE node_key=$1`
unfoldable pub find_node : Text → List NodeRow → Option NodeRow
find_node key [] = none
find_node key (n ∷ ns) = if text_eq n.node_key key then some n else find_node key ns

abbrev holds_key : Option Text → Text → Bool
holds_key none key = false
holds_key (some k) key = text_eq k key

-- Whether another node holds the key, which the unique index on `identity_public_key` forbids.
unfoldable pub key_taken : ℕ → Text → List NodeRow → Bool
key_taken id key [] = false
key_taken id key (n ∷ ns) =
    (not (n.id == id) && holds_key n.identity_public_key key) || key_taken id key ns

-- `INSERT … ON CONFLICT(node_id) DO NOTHING` of a first status; the mode is the column's default.
unfoldable pub insert_status : ℕ → Instant → List StatusRow → List StatusRow
insert_status id now [] =
    record {
      node_id = id;
      status = enrolled;
      mode = codes "available";
      observed_at = now;
      last_heartbeat = none;
    }
    ∷ []
insert_status id now (s ∷ ss) = if s.node_id == id then s ∷ ss else s ∷ insert_status id now ss

-- Inversion of a committed transaction.
pub transact-eq-none :
    (db db' : Database) (r : Result Database) → transact db r ≡ (none, db') → r ≡ ok db'
transact-eq-none db db' (ok x) h = ap ok (ap (λ (p : Option StoreError × Database). p.1) h)
transact-eq-none db db' (err e) h = ground (arith, ap (λ (p : Option StoreError × Database). p.0) h)
