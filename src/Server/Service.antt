-- ===== src/Server/Service.antt =====
-- The handlers of server/service.go on nodes, over the in-memory map or over the store. A body that
-- does not decode is `none`.
pub mod Refines
pub mod Guarded
mod Examples
use mesh_alot.Prelude.{
  ℕ, Bool, true, false, not, ◌&&◌, ◌||◌, Option, none, some, List, [], ◌∷◌, ◌++◌, is_empty,
  if◌then◌else◌,
}
use mesh_alot.Prelude.Int.{pos}
use mesh_alot.Prelude.Text.{Text, codes, text_eq, trim_space}
use mesh_alot.Prelude.Time.{Instant}
use mesh_alot.Prelude.Outcome.{ok, err}
use mesh_alot.Protocol.{Node, online, enrolled, EnrollRequest, HeartbeatRequest}
use mesh_alot.Server.Database.{Database, StoreError, Result, Faults}
use mesh_alot.Server.Submission.{Status, bad_request, unauthorized, not_found, database_error}
use mesh_alot.Server.Nodes.{enroll, heartbeat, nodes_for_user}
use mesh_alot.Server.Nodes.View.{lookup}

-- Where the nodes are kept: `s.nodes`, one entry for a key, or `s.postgres`.
pub data Backend : Type 0 where
  in_memory : List Node → Backend
  postgres : Database → Backend

pub record Service : Type 0 where
  pub dev_token : Text
  pub backend : Backend

-- What a request finds outside the service: the owner of the store, the database's time, its next
-- id, its collation, and the statements that fail.
pub record Context : Type 0 where
  pub owner : ℕ
  pub now : Instant
  pub fresh : ℕ
  pub before : Text → Text → Bool
  pub fault : Faults

-- 201, 204, 200 with the nodes, or an error.
pub data Reply : Type 0 where
  created no_content : Reply
  listed : List Node → Reply
  refused : Status → Reply

-- `s.nodes[node.NodeID] = node`
unfoldable pub put_node : Node → List Node → List Node
put_node x [] = x ∷ []
put_node x (y ∷ ys) = if text_eq y.node_id x.node_id then x ∷ ys else y ∷ put_node x ys

abbrev pub reply_to : Reply → Option StoreError → Reply
reply_to done none = done
reply_to done (some e) = refused (database_error e)

abbrev pub new_node : EnrollRequest → Node
new_node req = record {
  node_id = req.node_id;
  agent_version = req.agent_version;
  status = enrolled;
  mode = codes "available";
  last_heartbeat = pos 0;
}

abbrev pub beaten_node : HeartbeatRequest → Node → Node
beaten_node req n = record n { status = online; mode = req.mode; last_heartbeat = req.observed_at }

abbrev pub beat_memory : HeartbeatRequest → List Node → Option Node → Reply × List Node
beat_memory req nodes none = (refused not_found, nodes)
beat_memory req nodes (some n) = (no_content, put_node (beaten_node req n) nodes)

-- The part of each handler after its tests.
abbrev pub enroll_backend : Context → EnrollRequest → Backend → Reply × Backend
enroll_backend c req (in_memory nodes) = (created, in_memory (put_node (new_node req) nodes))
enroll_backend c req (postgres db) =
    let (error, db') = enroll c.fault c.now c.fresh c.owner req.node_id req.agent_version db in
    (reply_to created error, postgres db')

abbrev pub beat_backend : Context → HeartbeatRequest → Backend → Reply × Backend
beat_backend c req (in_memory nodes) =
    let (reply, nodes') = beat_memory req nodes (lookup req.node_id nodes) in
    (reply, in_memory nodes')
beat_backend c req (postgres db) =
    let (error, db') = heartbeat c.fault c.now c.owner req.node_id req.mode db in
    (reply_to no_content error, postgres db')

abbrev pub listing : Result (List Node) → Reply
listing (err e) = refused (database_error e)
listing (ok nodes) = listed nodes

abbrev pub list_backend : Context → Backend → Reply
list_backend c (in_memory nodes) = listed nodes
list_backend c (postgres db) = listing (nodes_for_user c.before c.fault c.owner db)

abbrev pub with_backend : Service → Reply × Backend → Reply × Service
with_backend s (reply, b) = (reply, record s { backend = b })

-- `POST /v1/enroll`
unfoldable pub enroll_handler : Context → Option EnrollRequest → Service → Reply × Service
enroll_handler c none s = (refused bad_request, s)
enroll_handler c (some req) s =
    if is_empty (trim_space req.node_id)
    then (refused bad_request, s)
    else if is_empty s.dev_token || not (text_eq req.enrollment_token s.dev_token)
    then (refused unauthorized, s)
    else with_backend s (enroll_backend c req s.backend)

-- `POST /v1/heartbeat`, behind `authenticated`
unfoldable pub heartbeat_handler : Context → Option HeartbeatRequest → Service → Reply × Service
heartbeat_handler c none s = (refused bad_request, s)
heartbeat_handler c (some req) s =
    if is_empty (trim_space req.node_id)
    then (refused bad_request, s)
    else with_backend s (beat_backend c req s.backend)

-- `GET /v1/nodes`, behind `authenticated`
unfoldable pub list_nodes : Context → Service → Reply × Service
list_nodes c s = (list_backend c s.backend, s)

abbrev pub is_postgres : Backend → Bool
is_postgres (in_memory nodes) = false
is_postgres (postgres db) = true

-- `authenticated`, for the `Authorization` header of the request.
unfoldable pub authenticated : Text → (Service → Reply × Service) → Service → Reply × Service
authenticated header next s =
    if is_postgres s.backend
      && (is_empty s.dev_token || not (text_eq header (codes "Bearer " ++ s.dev_token)))
    then (refused unauthorized, s)
    else next s
