-- ===== src/Server/Service/Refines.antt =====
-- The two ways in which server/service.go keeps nodes, against one map from keys to nodes.
use mesh_alot.Prelude.{
  ℕ, ◌≡◌, refl, sym, ◌∙◌, ap, true, false, Option, none, some, List, [], ◌∷◌, arith, Bool-cases,
  inl, inr, if◌then◌else◌, is_empty,
}
use mathlib.Core.Path.{subst}
use mesh_alot.Prelude.Text.{Text, text_eq, text_eq_iff, trim_space}
use mesh_alot.Prelude.Time.{Instant}
use mesh_alot.Protocol.{Node, EnrollRequest, HeartbeatRequest}
use mesh_alot.Server.Database.{find_node}
use mesh_alot.Server.Nodes.View.{lookup, IsKeyed, text_eq_comm}
use mesh_alot.Server.Nodes.Beats.{view, beat_view, unlisted, heartbeat-refines}
use mesh_alot.Server.Nodes.Enrolls.{first_seen, foreign, IsFresh}
use mesh_alot.Server.Nodes.Enrolls.Refines.{enroll-refines}
use mesh_alot.Server.Submission.{not_found, database_error}
use mesh_alot.Server.Service.{
  Backend, in_memory, postgres, Service, Context, Reply, refused, created, no_content, put_node,
  reply_to, beat_memory, beaten_node, beat_backend, heartbeat_handler, enroll_handler,
  enroll_backend, new_node,
}

abbrev pub shown : ℕ → Backend → Text → Option Node
shown owner (in_memory nodes) p = lookup p nodes
shown owner (postgres db) p = view owner db p

-- What holds of the tables by their constraints; a Go map needs nothing.
abbrev pub IsSound : Backend → Type 0
IsSound (in_memory nodes) = Unit
IsSound (postgres db) = IsKeyed db.nodes

-- The time that a heartbeat is given: the agent's in memory, the database's in the store.
abbrev pub beat_time : Context → HeartbeatRequest → Backend → Instant
beat_time c req (in_memory nodes) = req.observed_at
beat_time c req (postgres db) = c.now

abbrev pub beat_reply : Option Node → Reply
beat_reply none = refused not_found
beat_reply (some n) = no_content

pub lookup-put_node :
    (p : Text) (x : Node) (ys : List Node)
    → lookup p (put_node x ys) ≡ (if text_eq x.node_id p then some x else lookup p ys)
unfolding lookup put_node
lookup-put_node p x [] = refl
lookup-put_node p x (y ∷ ys) = elim (Bool-cases (text_eq y.node_id x.node_id)) [
  | inl same ↦
      let known : y.node_id ≡ x.node_id = (text_eq_iff y.node_id x.node_id).0 same in
      ground (arith, same, ap (λ k. text_eq k p) known)
  | inr other ↦ elim (Bool-cases (text_eq x.node_id p)) [
    | inl here ↦
        let known : x.node_id ≡ p = (text_eq_iff x.node_id p).0 here in
        let apart : text_eq y.node_id p ≡ false =
          subst (λ k. text_eq y.node_id k ≡ false) known other in
        ground (arith, other, here, apart, lookup-put_node p x ys)
    | inr there ↦ ground (arith, other, there, lookup-put_node p x ys)
  ]
]

lookup-node_id :
    (p : Text) (xs : List Node) (n : Node) → lookup p xs ≡ some n → text_eq n.node_id p ≡ true
unfolding lookup
lookup-node_id p [] n h = cc
lookup-node_id p (x ∷ xs) n h = ground (arith, lookup-node_id p xs n)

-- What a heartbeat does to a backend.
IsBeaten : Context → HeartbeatRequest → Backend → Type 0
IsBeaten c req b =
    ((beat_backend c req b).0 ≡ beat_reply (shown c.owner b req.node_id))
    × ((p : Text)
        → shown c.owner (beat_backend c req b).1 p
          ≡ beat_view req.node_id req.mode (beat_time c req b) (shown c.owner b) p)

beat_memory-shown :
    (req : HeartbeatRequest) (nodes : List Node) (f : Option Node) (p : Text)
    → lookup req.node_id nodes ≡ f
    → lookup p (beat_memory req nodes f).1
      ≡ beat_view req.node_id req.mode req.observed_at (λ q. lookup q nodes) p
beat_memory-shown req nodes none p e = elim (Bool-cases (text_eq p req.node_id)) [
  | inl same ↦
      let known : p ≡ req.node_id = (text_eq_iff p req.node_id).0 same in
      ground (arith, e, same, ap (λ q. lookup q nodes) known)
  | inr other ↦
      elim (lookup p nodes)
        as (λ f. f ≡ beat_view req.node_id req.mode req.observed_at (λ q. f) p) [
          | none ↦ refl
          | some x ↦ ground (arith, other)
        ]
]
beat_memory-shown req nodes (some n) p e =
    let put = lookup-put_node p (beaten_node req n) nodes in
    let keyed : n.node_id ≡ req.node_id =
      (text_eq_iff n.node_id req.node_id).0 (lookup-node_id req.node_id nodes n e) in
    elim (Bool-cases (text_eq p req.node_id)) [
      | inl same ↦
          let known : p ≡ req.node_id = (text_eq_iff p req.node_id).0 same in
          let here : text_eq n.node_id p ≡ true = (text_eq_iff n.node_id p).1 (keyed ∙ sym known) in
          ground (arith, e, same, put, here, ap (λ q. lookup q nodes) known)
      | inr other ↦
          let there : text_eq n.node_id p ≡ false = rw keyed (text_eq_comm req.node_id p ∙ other) in
          elim (lookup p nodes)
              as (λ f.
                lookup p nodes ≡ f
                → lookup p (put_node (beaten_node req n) nodes)
                  ≡ beat_view req.node_id req.mode req.observed_at (λ q. f) p) [
                    | none ↦ λ k. ground (arith, put, there, k)
                    | some x ↦ λ k. ground (arith, put, there, k, other)
                  ]
            refl
    ]

IsBeaten-backend :
    (c : Context) (req : HeartbeatRequest) (b : Backend)
    → IsSound b
    → ((i : ℕ) → c.fault i ≡ false)
    → IsBeaten c req b
unfolding IsBeaten database_error
IsBeaten-backend c req (in_memory nodes) k calm = (
  elim (lookup req.node_id nodes) as (λ f. (beat_memory req nodes f).0 ≡ beat_reply f) [
    | none ↦ refl
    | some n ↦ refl
  ],
  λ p. beat_memory-shown req nodes (lookup req.node_id nodes) p refl,
)
IsBeaten-backend c req (postgres db) k calm =
    let done = heartbeat-refines c.fault c.now c.owner req.node_id req.mode db k calm in
    (
      rw done.0
          (elim (view c.owner db req.node_id)
            as (λ f. reply_to no_content (unlisted f) ≡ beat_reply f) [
              | none ↦ refl
              | some n ↦ refl
            ]),
      done.1,
    )

-- In memory or in the store (whose ids and keys are unique, and when no statement fails), an
-- admitted heartbeat whose node id is not blank is one and the same change of the map from keys to
-- nodes: a key that is not in it gives 404 and any other 204; afterwards the node with this key is
-- online, has the mode of the request and was heard of at the agent's time (in memory) or the
-- database's (in the store), and every other key has what it had.
pub heartbeat_handler-refines :
    (c : Context) (req : HeartbeatRequest) (s : Service)
    → IsSound s.backend
    → ((i : ℕ) → c.fault i ≡ false)
    → is_empty (trim_space req.node_id) ≡ false
    → ((heartbeat_handler c (some req) s).0 ≡ beat_reply (shown c.owner s.backend req.node_id))
      × ((p : Text)
          → shown c.owner (heartbeat_handler c (some req) s).1.backend p
            ≡ beat_view req.node_id req.mode
                (beat_time c req s.backend)
                (shown c.owner s.backend)
                p)
unfolding heartbeat_handler IsBeaten
heartbeat_handler-refines c req s k calm named =
    let done = IsBeaten-backend c req s.backend k calm in
    (ground (arith, named, done.0), λ p. ground (arith, named, done.1 p))

-- The conditions under which the database takes a new node: its key is not another owner's, and
-- the id for the row is unused.
abbrev pub IsOpen : Context → Text → Backend → Type 0
IsOpen c key (in_memory nodes) = Unit
IsOpen c key (postgres db) = (foreign c.owner (find_node key db.nodes) ≡ false) × IsFresh c.fresh db

IsFirst : Context → EnrollRequest → Backend → Type 0
IsFirst c req b =
    ((enroll_backend c req b).0 ≡ created)
    × ((p : Text)
        → shown c.owner (enroll_backend c req b).1 p ≡ (
            if text_eq req.node_id p
            then some (first_seen req.node_id req.agent_version)
            else shown c.owner b p))

IsFirst-backend :
    (c : Context) (req : EnrollRequest) (b : Backend)
    → IsSound b
    → IsOpen c req.node_id b
    → ((i : ℕ) → c.fault i ≡ false)
    → shown c.owner b req.node_id ≡ none
    → IsFirst c req b
unfolding IsFirst
IsFirst-backend c req (in_memory nodes) k o calm new =
    (refl, λ p. lookup-put_node p (new_node req) nodes)
IsFirst-backend c req (postgres db) k o calm new =
    let done =
      enroll-refines c.fault c.now c.fresh c.owner req.node_id req.agent_version db k o.1 calm in
    (
      ground (arith, done.0, o.0),
      λ p. elim (Bool-cases (text_eq req.node_id p)) [
        | inl same ↦
            let known : req.node_id ≡ p = (text_eq_iff req.node_id p).0 same in
            ground (arith, done.1 p, o.0, same, new, ap (view c.owner db) known)
        | inr other ↦ ground (arith, done.1 p, o.0, other)
      ],
    )

-- In memory or in the store (whose ids and keys are unique, when no statement fails, with an unused
-- id for a new row and a key that is not another owner's), the first enrollment of a node key with
-- the service's token, which is not empty, and a node id that is not blank is one and the same change of the map
-- from keys to nodes: the answer is 201, the key now has a node that is enrolled, available and
-- never heard of, with the version of the request, and every other key has what it had.
pub enroll_handler-refines :
    (c : Context) (req : EnrollRequest) (s : Service)
    → IsSound s.backend
    → IsOpen c req.node_id s.backend
    → ((i : ℕ) → c.fault i ≡ false)
    → is_empty (trim_space req.node_id) ≡ false
    → is_empty s.dev_token ≡ false
    → req.enrollment_token ≡ s.dev_token
    → shown c.owner s.backend req.node_id ≡ none
    → ((enroll_handler c (some req) s).0 ≡ created)
      × ((p : Text)
          → shown c.owner (enroll_handler c (some req) s).1.backend p ≡ (
              if text_eq req.node_id p
              then some (first_seen req.node_id req.agent_version)
              else shown c.owner s.backend p))
unfolding enroll_handler IsFirst
enroll_handler-refines c req s k o calm named set same new =
    let done = IsFirst-backend c req s.backend k o calm new in
    let test = (text_eq_iff req.enrollment_token s.dev_token).1 same in
    (ground (arith, named, set, test, done.0), λ p. ground (arith, named, set, test, done.1 p))
