-- ===== src/Server/Nodes/Enrolls/Refines.antt =====
-- The transaction `Enroll` of server/postgres.go against the map that a listing shows.
use mesh_alot.Prelude.{
  ℕ, ◌≡◌, refl, ap, true, false, Option, none, some, List, ◌∷◌, arith, Bool-cases, inl, inr,
  if◌then◌else◌, ◌==◌,
}
use mesh_alot.Prelude.Text.{Text, text_eq, text_eq_iff}
use mesh_alot.Prelude.Time.{Instant}
use mesh_alot.Server.Database.{NodeRow, Database, Faults, find_node, insert_status, node_ownership}
use mesh_alot.Server.Nodes.{enroll, insert_node, enrolled_row, set_version}
use mesh_alot.Server.Nodes.View.{seen, IsKeyed}
use mesh_alot.Server.Nodes.Beats.{view}
use mesh_alot.Server.Nodes.Enrolls.{enroll_view, foreign, IsFresh, view-versioned, insert-IsKeyed}

-- The rows of the transaction, once the node is selected.
committed : Instant → Text → Database → List NodeRow → NodeRow → Database
committed now version db ns n = record db {
  nodes = set_version n.id version ns;
  statuses = insert_status n.id now db.statuses;
}

enroll_calm :
    (fault : Faults) (now : Instant) (fresh owner : ℕ) (key version : Text) (db : Database)
    (n : NodeRow)
    → ((i : ℕ) → fault i ≡ false)
    → find_node key (insert_node fresh owner key version db.nodes) ≡ some n
    → enroll fault now fresh owner key version db ≡ (
        if n.user_id == owner
        then (none, committed now version db (insert_node fresh owner key version db.nodes) n)
        else (some node_ownership, db))
unfolding enroll committed
enroll_calm fault now fresh owner key version db n calm found =
    ground (arith, calm 0, calm 1, calm 2, calm 3, calm 4, calm 5, calm 6, found)

-- A row that has no status yet is not shown.
view-row :
    (fresh owner : ℕ) (key version : Text) (db : Database) (p : Text)
    → IsFresh fresh db
    → find_node key db.nodes ≡ none
    → seen owner db.statuses (find_node p (enrolled_row fresh owner key version ∷ db.nodes))
      ≡ view owner db p
unfolding find_node
view-row fresh owner key version db p unused absent = elim (Bool-cases (text_eq key p)) [
  | inl same ↦
      let known : key ≡ p = (text_eq_iff key p).0 same in
      ground (arith, same, unused.1, absent, ap (λ q. find_node q db.nodes) known)
  | inr other ↦ ground (arith, other)
]

enrolled_view :
    (fault : Faults) (now : Instant) (fresh owner : ℕ) (key version : Text) (db : Database)
    (n : NodeRow) (p : Text)
    → IsKeyed (insert_node fresh owner key version db.nodes)
    → ((i : ℕ) → fault i ≡ false)
    → find_node key (insert_node fresh owner key version db.nodes) ≡ some n
    → (n.user_id == owner) ≡ true
    → view owner (enroll fault now fresh owner key version db).1 p
      ≡ enroll_view key version
          (λ q. seen owner db.statuses (find_node q (insert_node fresh owner key version db.nodes)))
          p
unfolding committed
enrolled_view fault now fresh owner key version db n p k calm found mine =
    let rows = insert_node fresh owner key version db.nodes in
    let done = enroll_calm fault now fresh owner key version db n calm found in
    let after = view-versioned now owner key version rows db.statuses n p k found mine in
    ground (arith, done, after, mine)

-- What an enrollment answers and shows, by the row that its key has.
abbrev IsRefined : Faults → Instant → ℕ → ℕ → Text → Text → Database → Option NodeRow → Type 0
IsRefined fault now fresh owner key version db found =
    ((enroll fault now fresh owner key version db).0
      ≡ (if foreign owner found then some node_ownership else none))
    × ((p : Text)
        → view owner (enroll fault now fresh owner key version db).1 p ≡ (
            if foreign owner found
            then view owner db p
            else enroll_view key version (view owner db) p))

module _ (fault : Faults) (now : Instant) (fresh owner : ℕ) (key version : Text) (db : Database)
    (keyed : IsKeyed db.nodes) (unused : IsFresh fresh db) (calm : (i : ℕ) → fault i ≡ false) where
  refines_new : find_node key db.nodes ≡ none → IsRefined fault now fresh owner key version db none
  unfolding find_node
  refines_new absent =
      let row = enrolled_row fresh owner key version in
      let rows : insert_node fresh owner key version db.nodes ≡ row ∷ db.nodes =
        ground (arith, absent) in
      let found : find_node key (insert_node fresh owner key version db.nodes) ≡ some row =
        ground (arith, rows, (text_eq_iff key key).1 refl) in
      let mine : (owner == owner) ≡ true = ground arith in
      let k = insert-IsKeyed key version fresh owner db.nodes unused.0 keyed in
      (
        ground (arith, enroll_calm fault now fresh owner key version db row calm found, mine),
        λ p.
            let shown =
              enrolled_view fault now fresh owner key version db row p k calm found mine in
            let before = view-row fresh owner key version db p unused absent in
            ground (arith, shown, before, rows),
      )

  refines_old :
      (n : NodeRow)
      → find_node key db.nodes ≡ some n
      → IsRefined fault now fresh owner key version db (some n)
  refines_old n there =
      let rows : insert_node fresh owner key version db.nodes ≡ db.nodes = ground (arith, there) in
      let found : find_node key (insert_node fresh owner key version db.nodes) ≡ some n =
        ground (arith, rows, there) in
      let k = insert-IsKeyed key version fresh owner db.nodes unused.0 keyed in
      let done = enroll_calm fault now fresh owner key version db n calm found in
      elim (Bool-cases (n.user_id == owner)) [
        | inl mine ↦ (
          ground (arith, done, mine),
          λ p.
              let shown =
                enrolled_view fault now fresh owner key version db n p k calm found mine in
              ground (arith, shown, rows, mine),
        )
        | inr theirs ↦ (ground (arith, done, theirs), λ p. ground (arith, done, theirs))
      ]

-- On tables where ids and keys are unique, with an id for a new row that neither table holds, and
-- when no statement fails, an enrollment of the store is one of what its owner's listing shows. A
-- key of another owner gives `ErrNodeOwnership`, and every key shows what it showed. Any other key
-- is accepted: if it was not listed, it is now, as enrolled, available and never heard of, and if it
-- was, it keeps its status, mode and heartbeat; either way with the version of the request, and
-- every other key shows what it showed.
pub enroll-refines :
    (fault : Faults) (now : Instant) (fresh owner : ℕ) (key version : Text) (db : Database)
    → IsKeyed db.nodes
    → IsFresh fresh db
    → ((i : ℕ) → fault i ≡ false)
    → ((enroll fault now fresh owner key version db).0
        ≡ (if foreign owner (find_node key db.nodes) then some node_ownership else none))
      × ((p : Text)
          → view owner (enroll fault now fresh owner key version db).1 p ≡ (
              if foreign owner (find_node key db.nodes)
              then view owner db p
              else enroll_view key version (view owner db) p))
enroll-refines fault now fresh owner key version db keyed unused calm =
    elim (find_node key db.nodes)
        as (λ f. find_node key db.nodes ≡ f → IsRefined fault now fresh owner key version db f) [
          | none ↦ λ e. refines_new fault now fresh owner key version db keyed unused calm e
          | some n ↦ λ e. refines_old fault now fresh owner key version db keyed unused calm n e
        ]
      refl
