-- ===== src/Server/Service/Examples.antt =====
-- Two nodes in memory and in the store.
use mesh_alot.Prelude.{
  ℕ, ◌≡◌, refl, Bool, true, false, none, some, List, [], ◌∷◌, arith, ltb, length, if◌then◌else◌,
  map,
}
use mesh_alot.Prelude.Int.{pos}
use mesh_alot.Prelude.Text.{Text, codes, text_eq, trim_space}
use mesh_alot.Prelude.Outcome.{ok}
use mesh_alot.Protocol.{Node, EnrollRequest, HeartbeatRequest, enrolled, online}
use mesh_alot.Server.Database.{Database, NodeRow, StatusRow, find_node, node_ownership}
use mesh_alot.Server.Submission.{unauthorized}
use mesh_alot.Server.Nodes.{
  enroll, heartbeat, nodes_for_user, join, order_by_key, find_status, owns, place, beat_rows,
  rows_affected,
}
use mesh_alot.Server.Nodes.View.{lookup, IsKeyed}
use mesh_alot.Server.Nodes.Beats.{view, beat_view}
use mesh_alot.Server.Nodes.Enrolls.{first_seen, foreign, enroll_view}
use mesh_alot.Server.Nodes.Enrolls.Refines.{enroll-refines}
use mesh_alot.Server.Nodes.Listing.{IsOrdered, IsSingle, nodes_for_user-lists}
use mesh_alot.Server.Service.{
  postgres, Service, Context, Reply, refused, created, no_content, enroll_handler,
  heartbeat_handler,
}
use mesh_alot.Server.Service.Refines.{
  shown, beat_reply, heartbeat_handler-refines, enroll_handler-refines,
}

abbrev row : ℕ → ℕ → Text → NodeRow
row id user key = record {
  id = id;
  user_id = user;
  node_key = key;
  agent_version = codes "0.1";
  identity_public_key = none;
}

abbrev status : ℕ → StatusRow
status id = record {
  node_id = id;
  status = enrolled;
  mode = codes "available";
  observed_at = pos 5;
  last_heartbeat = none;
}

-- Two nodes of user 7, and one of user 8.
abbrev stored : Database
stored = record {
  nodes = row 1 7 (codes "bb") ∷ row 2 7 (codes "a") ∷ row 3 8 (codes "c") ∷ [];
  statuses = status 1 ∷ status 2 ∷ status 3 ∷ [];
  tokens = [];
  inventories = [];
  network_benchmarks = [];
  compute_benchmarks = [];
}

abbrev by_length : Text → Text → Bool
by_length a b = ltb (length a) (length b)

abbrev context : Context
context = record { owner = 7; now = pos 90; fresh = 4; before = by_length; fault = λ i. false }

abbrev service : Service
service = record { dev_token = codes "k"; backend = postgres stored }

abbrev beat_a : HeartbeatRequest
beat_a = record { node_id = codes "a"; mode = codes "paused"; observed_at = pos 80 }

abbrev enroll_d : EnrollRequest
enroll_d = record { node_id = codes "d"; agent_version = codes "0.2"; enrollment_token = codes "k" }

stored-IsKeyed : IsKeyed stored.nodes
unfolding text_eq
stored-IsKeyed = (((refl, refl), ((refl, refl), tt)), (((refl, refl), tt), (tt, tt)))

unfolded_a : heartbeat_handler context (some beat_a) service ≡ (
  no_content,
  record service {
    backend = postgres (record stored {
      statuses =
          status 1
          ∷ record (status 2) {
            status = online;
            mode = codes "paused";
            observed_at = pos 90;
            last_heartbeat = some (pos 90);
          }
          ∷ status 3
          ∷ [];
    });
  },
)
unfolding heartbeat_handler heartbeat trim_space beat_rows rows_affected owns text_eq
unfolded_a = refl

heartbeat_handler-refines_example :
    ((heartbeat_handler context (some beat_a) service).0
      ≡ beat_reply (shown 7 (postgres stored) (codes "a")))
    × ((p : Text)
        → shown 7 (heartbeat_handler context (some beat_a) service).1.backend p
          ≡ beat_view (codes "a") (codes "paused") (pos 90) (shown 7 (postgres stored)) p)
unfolding trim_space
heartbeat_handler-refines_example =
    heartbeat_handler-refines context beat_a service stored-IsKeyed (λ i. refl) refl

enroll-refines_example :
    ((enroll (λ i. false) (pos 90) 4 7 (codes "d") (codes "0.2") stored).0
      ≡ (if foreign 7 (find_node (codes "d") stored.nodes) then some node_ownership else none))
    × ((p : Text)
        → view 7 (enroll (λ i. false) (pos 90) 4 7 (codes "d") (codes "0.2") stored).1 p ≡ (
            if foreign 7 (find_node (codes "d") stored.nodes)
            then view 7 stored p
            else enroll_view (codes "d") (codes "0.2") (view 7 stored) p))
unfolding find_status
enroll-refines_example =
    enroll-refines (λ i. false) (pos 90) 4 7 (codes "d") (codes "0.2") stored stored-IsKeyed
      ((refl, (refl, (refl, tt))), refl) (λ i. refl)

enroll_handler-refines_example :
    ((enroll_handler context (some enroll_d) service).0 ≡ created)
    × ((p : Text)
        → shown 7 (enroll_handler context (some enroll_d) service).1.backend p ≡ (
            if text_eq (codes "d") p
            then some (first_seen (codes "d") (codes "0.2"))
            else view 7 stored p))
unfolding find_status find_node text_eq trim_space
enroll_handler-refines_example =
    enroll_handler-refines context enroll_d service stored-IsKeyed
      (refl, ((refl, (refl, (refl, tt))), refl)) (λ i. refl) refl refl refl refl

nodes_for_user-lists_example :
    (xs : List Node) × (nodes_for_user by_length (λ i. false) 7 stored ≡ ok xs)
    × IsOrdered by_length xs
    × IsSingle xs
    × ((p : Text) → lookup p xs ≡ view 7 stored p)
nodes_for_user-lists_example =
    nodes_for_user-lists by_length (λ i. false) 7 stored
      (λ a b h. ground arith, λ a b c h k. ground arith) stored-IsKeyed (λ i. refl)

listed_keys :
    map (λ (n : Node). n.node_id) (order_by_key by_length (join 7 stored.statuses stored.nodes))
    ≡ codes "a" ∷ codes "bb" ∷ []
unfolding order_by_key place join find_status
listed_keys = refl

-- A request for the nodes and its handler's answer, which the store gives.
abbrev is_unauthorized : Reply → Bool
is_unauthorized (refused unauthorized) = true
is_unauthorized _ = false
