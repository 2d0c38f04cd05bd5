-- ===== src/Server/Nodes/Beats.antt =====
-- A heartbeat of server/postgres.go, as a change of what the owner's listing shows.
use mesh_alot.Prelude.{
  ℕ, ◌≡◌, refl, ap, Bool, true, false, not, ◌&&◌, ◌||◌, Option, none, some, List, [], ◌∷◌, arith,
  Bool-cases, inl, inr, if◌then◌else◌, ◌==◌,
}
use mesh_alot.Prelude.Text.{Text, text_eq, text_eq_iff}
use mesh_alot.Prelude.Time.{Instant}
use mesh_alot.Protocol.{Node, online}
use mesh_alot.Server.Database.{NodeRow, StatusRow, Database, StoreError, no_rows, Faults, find_node}
use mesh_alot.Server.Nodes.{owns, beat_rows, beaten, rows_affected, find_status, heartbeat}
use mesh_alot.Server.Nodes.View.{seen, IsKeyed, owns_absent, owns-found, owns-key, find_node-key}

abbrev pub view : ℕ → Database → Text → Option Node
view owner db p = seen owner db.statuses (find_node p db.nodes)

abbrev pub beat : Text → Instant → Node → Node
beat mode at n = record n { status = online; mode = mode; last_heartbeat = at }

-- A heartbeat of a map from keys to nodes.
abbrev pub beat_view : Text → Text → Instant → (Text → Option Node) → Text → Option Node
beat_view key mode at v p = elim (v p) [
  | none ↦ none
  | some n ↦ some (if text_eq p key then beat mode at n else n)
]

beaten_or : Bool → Instant → Text → StatusRow → StatusRow
beaten_or b now mode s = if b then beaten now mode s else s

map_beaten : Bool → Instant → Text → Option StatusRow → Option StatusRow
map_beaten b now mode none = none
map_beaten b now mode (some s) = some (beaten_or b now mode s)

find_status-beat_rows :
    (now : Instant) (owner : ℕ) (key mode : Text) (ns : List NodeRow) (id : ℕ) (ss : List StatusRow)
    → find_status id (beat_rows now owner key mode ns ss)
      ≡ map_beaten (owns owner key id ns) now mode (find_status id ss)
unfolding find_status beat_rows map_beaten beaten_or
find_status-beat_rows now owner key mode ns id [] = refl
find_status-beat_rows now owner key mode ns id (s ∷ ss) = elim (Bool-cases (s.node_id == id)) [
  | inl same ↦
      let e : s.node_id ≡ id = ground arith in ground (arith, ap (λ i. owns owner key i ns) e)
  | inr other ↦ ground (arith, other, find_status-beat_rows now owner key mode ns id ss)
]

module _ (now : Instant) (owner : ℕ) (key mode : Text) where
  view-beat_rows :
      (db : Database) (p : Text)
      → IsKeyed db.nodes
      → seen owner (beat_rows now owner key mode db.nodes db.statuses) (find_node p db.nodes)
        ≡ beat_view key mode now (view owner db) p
  unfolding map_beaten beaten_or
  view-beat_rows db p k =
      elim (find_node p db.nodes)
          as (λ f.
            find_node p db.nodes ≡ f
            → seen owner (beat_rows now owner key mode db.nodes db.statuses) f
              ≡ beat_view key mode now (λ q. seen owner db.statuses f) p) [
                | none ↦ λ e. refl
                | some m ↦ λ e.
                    let keyed : m.node_key ≡ p =
                      (text_eq_iff m.node_key p).0 (find_node-key p db.nodes m e) in
                    let hit = owns-found owner key p db.nodes m k e in
                    let moved =
                      find_status-beat_rows now owner key mode db.nodes m.id db.statuses in
                    ground (arith, hit, moved, ap (λ q. text_eq q key) keyed)
              ]
        refl

  rows-found :
      (b : Bool) (id : ℕ) (ns : List NodeRow) (ss : List StatusRow)
      → ((i : ℕ) → owns owner key i ns ≡ (id == i && b))
      → (rows_affected owner key ns ss == 0)
        ≡ (not b || elim (find_status id ss) [ none ↦ true | some s ↦ false ])
  unfolding rows_affected find_status
  rows-found b id ns [] h = ground arith
  rows-found b id ns (s ∷ ss) h = ground (arith, rows-found b id ns ss h, h s.node_id)

  rows_absent :
      (ns : List NodeRow) (ss : List StatusRow)
      → find_node key ns ≡ none
      → rows_affected owner key ns ss ≡ 0
  unfolding rows_affected
  rows_absent ns [] h = refl
  rows_absent ns (s ∷ ss) h =
      ground (arith, rows_absent ns ss h, owns_absent owner s.node_id key ns h)

  rows-view :
      (db : Database)
      → IsKeyed db.nodes
      → (rows_affected owner key db.nodes db.statuses == 0)
        ≡ elim (view owner db key) [ none ↦ true | some n ↦ false ]
  rows-view db k =
      elim (find_node key db.nodes)
          as (λ f.
            find_node key db.nodes ≡ f
            → (rows_affected owner key db.nodes db.statuses == 0)
              ≡ elim (seen owner db.statuses f) [ none ↦ true | some n ↦ false ]) [
                | none ↦ λ e. ground (arith, rows_absent db.nodes db.statuses e)
                | some n ↦ λ e.
                    let count =
                      rows-found (n.user_id == owner) n.id db.nodes db.statuses
                        (λ i. owns-key owner i key db.nodes n k e) in
                    ground (arith, count)
              ]
        refl

-- Whether a key that is not listed is refused.
abbrev pub unlisted : Option Node → Option StoreError
unlisted none = some no_rows
unlisted (some n) = none

-- On tables where ids and keys are unique and when no statement fails, a heartbeat of the store is a
-- heartbeat of what its owner's listing shows: a node that is not listed gives `sql.ErrNoRows`,
-- and every key shows afterwards what it showed, except that a listed node with this key is online,
-- with the new mode and the time of the update.
pub heartbeat-refines :
    (fault : Faults) (now : Instant) (owner : ℕ) (key mode : Text) (db : Database)
    → IsKeyed db.nodes
    → ((i : ℕ) → fault i ≡ false)
    → ((heartbeat fault now owner key mode db).0 ≡ unlisted (view owner db key))
      × ((p : Text)
          → view owner (heartbeat fault now owner key mode db).1 p
            ≡ beat_view key mode now (view owner db) p)
unfolding heartbeat
heartbeat-refines fault now owner key mode db k calm = (
  ground (arith, calm 0, calm 1, rows-view now owner key mode db k),
  λ p. ground (arith, calm 0, calm 1, view-beat_rows now owner key mode db p k),
)
