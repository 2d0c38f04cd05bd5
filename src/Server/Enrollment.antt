-- ===== src/Server/Enrollment.antt =====
-- The statements of server/enrollment.go: enrollment codes are made, and redeemed once, for a node.
pub mod SingleUse
pub mod Binding
pub mod Quota
pub mod Handlers
mod Examples
use mesh_alot.Prelude.{
  ℕ, suc, ◌+◌, Bool, true, false, not, ◌&&◌, ◌||◌, Option, none, some, List, [], ◌∷◌, is_empty, leb,
  ◌==◌, if◌then◌else◌,
}
use mesh_alot.Prelude.Int.{ltb_ℤ}
use mesh_alot.Prelude.Text.{Text, text_eq}
use mesh_alot.Prelude.Time.{Instant}
use mesh_alot.Server.Database.{
  NodeRow, TokenRow, Database, StoreError, invalid_enrollment_code, node_ownership,
  node_identity_conflict, too_many_active_enrollment_codes, failure, Result, Faults, statement,
  transact, find_node, key_taken, insert_status,
}
use mesh_alot.Prelude.Outcome.{ok, err, ◌>>=◌, ◌>>◌, guard}

abbrev pub max_active_enrollment_codes : ℕ
max_active_enrollment_codes = 5

abbrev is_none {ℓ} : {A : Type ℓ} → Option A → Bool
is_none none = true
is_none (some a) = false

-- `consumed_at IS NULL AND expires_at>now()`
abbrev pub is_live : Instant → TokenRow → Bool
is_live now t = is_none t.consumed_at && ltb_ℤ now t.expires_at

-- `SELECT count(*) FROM enrollment_tokens WHERE user_id=$1 AND …`
pub count_active : ℕ → Instant → List TokenRow → ℕ
count_active user now [] = 0
count_active user now (t ∷ ts) =
    let rest = count_active user now ts in
    if t.user_id == user && is_live now t then suc rest else rest

pub has_hash : Text → List TokenRow → Bool
has_hash hash [] = false
has_hash hash (t ∷ ts) = text_eq t.token_hash hash || has_hash hash ts

abbrev new_token : ℕ → ℕ → Text → Instant → TokenRow
new_token fresh user hash expires = record {
  id = fresh;
  user_id = user;
  token_hash = hash;
  expires_at = expires;
  consumed_at = none;
  consumed_node_id = none;
}

-- The first statement of `CreateEnrollmentToken`, and the test of what it counts.
pub check_quota : Faults → Instant → ℕ → Database → Result (Unit {0})
check_quota fault now user db = do
  statement fault 0
  guard (not (leb max_active_enrollment_codes (count_active user now db.tokens)))
      too_many_active_enrollment_codes

-- The second; `token_hash` is unique.
pub insert_token : Faults → ℕ → ℕ → Text → Instant → Database → Result Database
insert_token fault fresh user hash expires db = do
  statement fault 1
  guard (not (has_hash hash db.tokens)) failure
  ok (record db { tokens = new_token fresh user hash expires ∷ db.tokens })

-- How far a run of `CreateEnrollmentToken` is. It has no transaction: each statement is a step of its
-- own, and other requests may come between the two.
pub data Progress : Type 0 where
  counting inserting created : Progress
  failed : StoreError → Progress

abbrev after_count : Result (Unit {0}) → Database → Progress × Database
after_count (err e) db = (failed e, db)
after_count (ok _) db = (inserting, db)

abbrev after_insert : Result Database → Database → Progress × Database
after_insert (err e) db = (failed e, db)
after_insert (ok db') db = (created, db')

unfoldable pub create_step :
    Faults → Instant → ℕ → ℕ → Text → Instant → Progress → Database → Progress × Database
create_step fault now fresh user hash expires counting db =
    after_count (check_quota fault now user db) db
create_step fault now fresh user hash expires inserting db =
    after_insert (insert_token fault fresh user hash expires db) db
create_step fault now fresh user hash expires created db = (created, db)
create_step fault now fresh user hash expires (failed e) db = (failed e, db)

-- The error of a run that has ended, as it has after two steps.
abbrev error_of : Progress → Option StoreError
error_of created = none
error_of (failed e) = some e
error_of counting = some failure
error_of inserting = some failure

-- `CreateEnrollmentToken`, with no other request between its two statements.
pub create_enrollment_token :
    Faults → Instant → ℕ → ℕ → Text → Instant → Database → Option StoreError × Database
unfolding create_step
create_enrollment_token fault now fresh user hash expires db =
    let (half, db1) = create_step fault now fresh user hash expires counting db in
    let (all, db2) = create_step fault now fresh user hash expires half db1 in (error_of all, db2)

-- `SELECT … WHERE token_hash=$1 AND consumed_at IS NULL AND expires_at>now()`
pub find_live : Text → Instant → List TokenRow → Option TokenRow
find_live hash now [] = none
find_live hash now (t ∷ ts) =
    if text_eq t.token_hash hash && is_live now t then some t else find_live hash now ts

abbrev of_option {ℓ} : {A : Type ℓ} → Option A → StoreError → Result A
of_option none e = err e
of_option (some a) e = ok a

abbrev new_node : ℕ → ℕ → Text → Text → Text → NodeRow
new_node fresh user key version public_key = record {
  id = fresh;
  user_id = user;
  node_key = key;
  agent_version = version;
  identity_public_key = some public_key;
}

-- `COALESCE(identity_public_key,$3)`
abbrev coalesce : Option Text → Text → Text
coalesce none key = key
coalesce (some k) key = k

pub update_node : ℕ → Text → Text → List NodeRow → List NodeRow
update_node id version public_key [] = []
update_node id version public_key (n ∷ ns) =
    (if n.id == id
      then record n {
        agent_version = version;
        identity_public_key = some (coalesce n.identity_public_key public_key);
      }
      else n)
    ∷ update_node id version public_key ns

-- `!existing.Valid || existing.String == "" || existing.String == publicKey`
abbrev pub key_agrees : Option Text → Text → Bool
key_agrees none key = true
key_agrees (some k) key = is_empty k || text_eq k key

-- The node of the redemption: a new one for the code's owner, or one that is the owner's already and
-- has no other key. The result is its id with the table.
pub bind_node :
    Faults
    → ℕ
    → TokenRow
    → Text
    → Text
    → Text
    → List NodeRow
    → Option NodeRow
    → Result (ℕ × List NodeRow)
bind_node fault fresh t key public_key version nodes none = do
  statement fault 3
  guard (not (key_taken fresh public_key nodes)) node_identity_conflict
  ok (fresh, new_node fresh t.user_id key version public_key ∷ nodes)
bind_node fault fresh t key public_key version nodes (some n) = do
  guard (n.user_id == t.user_id) node_ownership
  guard (key_agrees n.identity_public_key public_key) node_identity_conflict
  statement fault 3
  guard (not (key_taken n.id (coalesce n.identity_public_key public_key) nodes))
      node_identity_conflict
  ok (n.id, update_node n.id version public_key nodes)

-- `UPDATE enrollment_tokens … WHERE id=$1 AND consumed_at IS NULL`, and how many rows it changes.
abbrev takes : ℕ → TokenRow → Bool
takes id t = t.id == id && is_none t.consumed_at

pub consume : ℕ → ℕ → Instant → List TokenRow → List TokenRow
consume id node now [] = []
consume id node now (t ∷ ts) =
    (if takes id t then record t { consumed_at = some now; consumed_node_id = some node } else t)
    ∷ consume id node now ts

pub count_taken : ℕ → List TokenRow → ℕ
count_taken id [] = 0
count_taken id (t ∷ ts) = let rest = count_taken id ts in if takes id t then suc rest else rest

-- From the status on.
pub finish_redemption : Faults → Instant → TokenRow → Database → ℕ × List NodeRow → Result Database
finish_redemption fault now t db (node, nodes) = do
  statement fault 4
  statement fault 5
  statement fault 6
  guard (count_taken t.id db.tokens == 1) invalid_enrollment_code
  statement fault 7
  ok (record db {
    nodes = nodes;
    statuses = insert_status node now db.statuses;
    tokens = consume t.id node now db.tokens;
  })

pub redeem_steps : Faults → Instant → ℕ → Text → Text → Text → Text → Database → Result Database
redeem_steps fault now fresh hash key public_key version db = do
  statement fault 0
  statement fault 1
  t ← of_option (find_live hash now db.tokens) invalid_enrollment_code
  statement fault 2
  bound ← bind_node fault fresh t key public_key version db.nodes (find_node key db.nodes)
  finish_redemption fault now t db bound

-- `RedeemEnrollmentToken`
pub redeem_enrollment_token :
    Faults → Instant → ℕ → Text → Text → Text → Text → Database → Option StoreError × Database
redeem_enrollment_token fault now fresh hash key public_key version db =
    transact db (redeem_steps fault now fresh hash key public_key version db)
