-- ===== src/Server/Nodes/Enrolls.antt =====
-- An enrollment of server/postgres.go, as a change of what the owner's listing shows.
pub mod Refines
use mesh_alot.Prelude.{
  ℕ, suc, ◌≡◌, refl, sym, ◌∙◌, ap, Bool, true, false, not, ◌&&◌, ◌||◌, Option, none, some, List, [],
  ◌∷◌, arith, Bool-cases, inl, inr, if◌then◌else◌, ◌==◌, All,
}
use mesh_alot.Prelude.Int.{pos}
use mesh_alot.Prelude.Text.{Text, text_eq, text_eq_iff, codes}
use mesh_alot.Prelude.Time.{Instant}
use mesh_alot.Protocol.{Node, online, enrolled}
use mesh_alot.Server.Database.{
  NodeRow, StatusRow, Database, StoreError, no_rows, Faults, find_node, insert_status,
  node_ownership,
}
use mesh_alot.Server.Nodes.{
  enroll, enroll_steps, insert_node, insert_unless, enrolled_row, set_version, find_status, joined,
}
use mesh_alot.Server.Nodes.View.{
  seen, with_status, IsKeyed, IsApart, same_id, find_node-key, text_eq_comm,
}
use mesh_alot.Server.Nodes.Beats.{view}

-- What the first enrollment of a key shows.
abbrev pub first_seen : Text → Text → Node
first_seen key version = record {
  node_id = key;
  agent_version = version;
  status = enrolled;
  mode = codes "available";
  last_heartbeat = pos 0;
}

-- An enrollment of a map from keys to nodes, which keeps the state of a node that is there.
abbrev pub enroll_view : Text → Text → (Text → Option Node) → Text → Option Node
enroll_view key version v p =
    if text_eq key p
    then elim (v p) [
      | none ↦ some (first_seen key version)
      | some n ↦ some (record n { agent_version = version })
    ]
    else v p

-- Whether the key is another owner's.
abbrev pub foreign : ℕ → Option NodeRow → Bool
foreign owner none = false
foreign owner (some n) = not (n.user_id == owner)

-- An id that neither table holds.
abbrev pub IsFresh : ℕ → Database → Type 0
IsFresh fresh db =
    All (λ n. (n.id == fresh) ≡ false) db.nodes × (find_status fresh db.statuses ≡ none)

versioned : Bool → Text → NodeRow → NodeRow
versioned b version n = if b then record n { agent_version = version } else n

map_version : ℕ → Text → Option NodeRow → Option NodeRow
map_version id version none = none
map_version id version (some n) = some (versioned (n.id == id) version n)

find_node-set_version :
    (p : Text) (id : ℕ) (version : Text) (ns : List NodeRow)
    → find_node p (set_version id version ns) ≡ map_version id version (find_node p ns)
unfolding find_node set_version map_version versioned
find_node-set_version p id version [] = refl
find_node-set_version p id version (n ∷ ns) = ground (arith, find_node-set_version p id version ns)

status_or_first : ℕ → Instant → Option StatusRow → StatusRow
status_or_first id now (some s) = s
status_or_first id now none = record {
  node_id = id;
  status = enrolled;
  mode = codes "available";
  observed_at = now;
  last_heartbeat = none;
}

find_status-insert :
    (i id : ℕ) (now : Instant) (ss : List StatusRow)
    → find_status i (insert_status id now ss)
      ≡ (if id == i then some (status_or_first id now (find_status i ss)) else find_status i ss)
unfolding find_status insert_status status_or_first
find_status-insert i id now [] = ground arith
find_status-insert i id now (s ∷ ss) = ground (arith, find_status-insert i id now ss)

absent-IsApart :
    (key version : Text) (fresh owner : ℕ) (ns : List NodeRow)
    → All (λ n. (n.id == fresh) ≡ false) ns
    → find_node key ns ≡ none
    → All (IsApart (enrolled_row fresh owner key version)) ns
unfolding find_node
absent-IsApart key version fresh owner [] a h = tt
absent-IsApart key version fresh owner (n ∷ ns) a h =
    ((a.0, ground (arith, h)), absent-IsApart key version fresh owner ns a.1 (ground (arith, h)))

-- The inserted row leaves ids and keys unique.
pub insert-IsKeyed :
    (key version : Text) (fresh owner : ℕ) (ns : List NodeRow)
    → All (λ n. (n.id == fresh) ≡ false) ns
    → IsKeyed ns
    → IsKeyed (insert_node fresh owner key version ns)
insert-IsKeyed key version fresh owner ns a k =
    elim (find_node key ns)
        as (λ f. find_node key ns ≡ f → IsKeyed (insert_unless fresh owner key version ns f)) [
          | none ↦ λ e. (absent-IsApart key version fresh owner ns a e, k)
          | some n ↦ λ e. k
        ]
      refl

module _ (now : Instant) (owner : ℕ) (key version : Text) where
  -- The update and the insertion of the status, where the node is there.
  pub view-versioned :
      (ns : List NodeRow) (ss : List StatusRow) (n : NodeRow) (p : Text)
      → IsKeyed ns
      → find_node key ns ≡ some n
      → (n.user_id == owner) ≡ true
      → seen owner (insert_status n.id now ss) (find_node p (set_version n.id version ns))
        ≡ enroll_view key version (λ q. seen owner ss (find_node q ns)) p
  unfolding map_version versioned status_or_first
  view-versioned ns ss n p k found mine = rw (find_node-set_version p n.id version ns) (
      elim (find_node p ns)
          as (λ f.
            find_node p ns ≡ f
            → seen owner (insert_status n.id now ss) (map_version n.id version f)
              ≡ enroll_view key version (λ q. seen owner ss f) p) [
                | none ↦ λ e. elim (Bool-cases (text_eq key p)) [
                  | inl same ↦
                      let known : key ≡ p = (text_eq_iff key p).0 same in
                      absurd (ground (arith, ap (λ q. find_node q ns) known, e, found))
                  | inr other ↦ ground (arith, other)
                ]
                | some m ↦ λ e.
                    let entry = find_status-insert m.id n.id now ss in
                    elim (Bool-cases (text_eq key p)) [
                      | inl same ↦
                          let known : key ≡ p = (text_eq_iff key p).0 same in
                          let whole : m ≡ n =
                            ground (arith, ap (λ q. find_node q ns) known, e, found) in
                          let mk : m.node_key ≡ p =
                            (text_eq_iff m.node_key p).0 (find_node-key p ns m e) in
                          ground (arith, entry, whole, same, mine, mk)
                      | inr other ↦
                          let ids = same_id p key ns m n k e found in
                          let mk : m.node_key ≡ p =
                            (text_eq_iff m.node_key p).0 (find_node-key p ns m e) in
                          let nk : n.node_key ≡ key =
                            (text_eq_iff n.node_key key).0 (find_node-key key ns n found) in
                          let apart : text_eq m.node_key n.node_key ≡ false =
                            rw mk (rw nk (text_eq_comm p key ∙ other)) in
                          ground (arith, entry, ids, apart, other)
                    ]
              ]
        refl)
