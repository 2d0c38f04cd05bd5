-- ===== src/Server/Nodes.antt =====
-- The statements of server/postgres.go on the nodes of one owner.
pub mod View
pub mod Beats
pub mod Enrolls
pub mod Listing
use mesh_alot.Prelude.{
  ℕ, suc, Bool, true, false, not, ◌&&◌, ◌||◌, Option, none, some, List, [], ◌∷◌, ◌==◌,
  if◌then◌else◌,
}
use mesh_alot.Prelude.Int.{pos}
use mesh_alot.Prelude.Text.{Text, text_eq}
use mesh_alot.Prelude.Time.{Instant}
use mesh_alot.Prelude.Outcome.{ok, err, ◌>>=◌, ◌>>◌, guard}
use mesh_alot.Protocol.{Node, online}
use mesh_alot.Server.Database.{
  NodeRow, StatusRow, Database, StoreError, no_rows, node_ownership, failure, Result, Faults,
  statement, transact, find_node, insert_status,
}

abbrev pub enrolled_row : ℕ → ℕ → Text → Text → NodeRow
enrolled_row fresh owner key version = record {
  id = fresh;
  user_id = owner;
  node_key = key;
  agent_version = version;
  identity_public_key = none;
}

-- `INSERT INTO nodes … ON CONFLICT(node_key) DO NOTHING`
abbrev pub insert_unless : ℕ → ℕ → Text → Text → List NodeRow → Option NodeRow → List NodeRow
insert_unless fresh owner key version ns none = enrolled_row fresh owner key version ∷ ns
insert_unless fresh owner key version ns (some n) = ns

abbrev pub insert_node : ℕ → ℕ → Text → Text → List NodeRow → List NodeRow
insert_node fresh owner key version ns = insert_unless fresh owner key version ns (find_node key ns)

-- `UPDATE nodes SET agent_version=$2 WHERE id=$1`
unfoldable pub set_version : ℕ → Text → List NodeRow → List NodeRow
set_version id version [] = []
set_version id version (n ∷ ns) =
    (if n.id == id then record n { agent_version = version } else n) ∷ set_version id version ns

abbrev pub selected : Option NodeRow → Result NodeRow
selected none = err no_rows
selected (some n) = ok n

-- The statements of `Enroll`; `fresh` is the id that the database gives to a new row.
abbrev pub enroll_steps : Faults → Instant → ℕ → ℕ → Text → Text → Database → Result Database
enroll_steps fault now fresh owner key version db = do
  statement fault 0
  statement fault 1
  let ns = insert_node fresh owner key version db.nodes
  statement fault 2
  n ← selected (find_node key ns)
  statement fault 3
  guard (n.user_id == owner) node_ownership
  statement fault 4
  statement fault 5
  statement fault 6
  ok (record db {
    nodes = set_version n.id version ns;
    statuses = insert_status n.id now db.statuses;
  })

-- `Enroll`
unfoldable pub enroll :
    Faults → Instant → ℕ → ℕ → Text → Text → Database → Option StoreError × Database
enroll fault now fresh owner key version db =
    transact db (enroll_steps fault now fresh owner key version db)

-- `n.id=… AND n.node_key=$1 AND n.user_id=$2`
unfoldable pub owns : ℕ → Text → ℕ → List NodeRow → Bool
owns owner key id [] = false
owns owner key id (n ∷ ns) =
    (n.id == id && text_eq n.node_key key && n.user_id == owner) || owns owner key id ns

abbrev pub beaten : Instant → Text → StatusRow → StatusRow
beaten now mode s = record s {
  status = online;
  mode = mode;
  observed_at = now;
  last_heartbeat = some now;
}

-- The rows after the update of `Heartbeat`, and their number.
unfoldable pub beat_rows :
    Instant → ℕ → Text → Text → List NodeRow → List StatusRow → List StatusRow
beat_rows now owner key mode ns [] = []
beat_rows now owner key mode ns (s ∷ ss) =
    (if owns owner key s.node_id ns then beaten now mode s else s)
    ∷ beat_rows now owner key mode ns ss

unfoldable pub rows_affected : ℕ → Text → List NodeRow → List StatusRow → ℕ
rows_affected owner key ns [] = 0
rows_affected owner key ns (s ∷ ss) =
    let rest = rows_affected owner key ns ss in
    if owns owner key s.node_id ns then suc rest else rest

-- `Heartbeat`: the update is committed before its rows are counted.
unfoldable pub heartbeat :
    Faults → Instant → ℕ → Text → Text → Database → Option StoreError × Database
heartbeat fault now owner key mode db =
    let after = record db { statuses = beat_rows now owner key mode db.nodes db.statuses } in
    if fault 0
    then (some failure, db)
    else if fault 1
    then (some failure, after)
    else if rows_affected owner key db.nodes db.statuses == 0
    then (some no_rows, after)
    else (none, after)

unfoldable pub find_status : ℕ → List StatusRow → Option StatusRow
find_status id [] = none
find_status id (s ∷ ss) = if s.node_id == id then some s else find_status id ss

-- A heartbeat that is `NULL` is read as the zero time.
abbrev pub heartbeat_time : Option Instant → Instant
heartbeat_time none = pos 0
heartbeat_time (some t) = t

abbrev pub joined : NodeRow → StatusRow → Node
joined n s = record {
  node_id = n.node_key;
  agent_version = n.agent_version;
  status = s.status;
  mode = s.mode;
  last_heartbeat = heartbeat_time s.last_heartbeat;
}

abbrev pub join_status : NodeRow → Option StatusRow → List Node → List Node
join_status n none rest = rest
join_status n (some s) rest = joined n s ∷ rest

-- `nodes n JOIN node_status s … WHERE n.user_id=$1`, where a node has one status at most.
unfoldable pub join : ℕ → List StatusRow → List NodeRow → List Node
join user ss [] = []
join user ss (n ∷ ns) =
    let rest = join user ss ns in
    if n.user_id == user then join_status n (find_status n.id ss) rest else rest

-- `ORDER BY n.node_key`, for the order `before` of the database's collation.
unfoldable pub place : (Text → Text → Bool) → Node → List Node → List Node
place before x [] = x ∷ []
place before x (y ∷ ys) = if before y.node_id x.node_id then y ∷ place before x ys else x ∷ y ∷ ys

unfoldable pub order_by_key : (Text → Text → Bool) → List Node → List Node
order_by_key before [] = []
order_by_key before (x ∷ xs) = place before x (order_by_key before xs)

-- `NodesForUser`; a row that cannot be read is the fault of statement 1.
unfoldable pub nodes_for_user : (Text → Text → Bool) → Faults → ℕ → Database → Result (List Node)
nodes_for_user before fault user db = do
  statement fault 0
  statement fault 1
  ok (order_by_key before (join user db.statuses db.nodes))
