-- ===== src/Server/Nodes/Listing.antt =====
-- The listing of server/postgres.go: sorted, and for each key what the tables show.
use mesh_alot.Prelude.{
  ℕ, ◌≡◌, refl, sym, ◌∙◌, Bool, true, false, Option, none, some, List, [], ◌∷◌, arith, Bool-cases,
  inl, inr, if◌then◌else◌, ◌==◌, All,
}
use mathlib.Core.Path.{subst}
use mesh_alot.Prelude.Text.{Text, text_eq, text_eq_iff}
use mesh_alot.Prelude.Outcome.{ok}
use mesh_alot.Protocol.{Node}
use mesh_alot.Server.Database.{NodeRow, StatusRow, Database, Faults, find_node}
use mesh_alot.Server.Nodes.{join, join_status, find_status, place, order_by_key, nodes_for_user}
use mesh_alot.Server.Nodes.View.{seen, with_status, IsKeyed, apart_key, lookup}
use mesh_alot.Server.Nodes.Beats.{view}

lookup-join-none :
    (user : ℕ) (ss : List StatusRow) (ns : List NodeRow) (p : Text)
    → find_node p ns ≡ none
    → lookup p (join user ss ns) ≡ none
unfolding lookup join find_node
lookup-join-none user ss [] p h = refl
lookup-join-none user ss (n ∷ ns) p h =
    let rest = lookup-join-none user ss ns p (ground (arith, h)) in
    elim (find_status n.id ss)
      as (λ f.
        lookup p (if n.user_id == user then join_status n f (join user ss ns) else join user ss ns)
        ≡ none) [ none ↦ ground (arith, rest) | some s ↦ ground (arith, rest, h) ]

lookup-join_status :
    (p : Text) (n : NodeRow) (f : Option StatusRow) (rest : List Node)
    → lookup p (join_status n f rest)
      ≡ elim (if text_eq n.node_key p then with_status n f else none) [
        | none ↦ lookup p rest
        | some x ↦ some x
      ]
unfolding lookup
lookup-join_status p n none rest = ground arith
lookup-join_status p n (some s) rest = ground arith

lookup-join :
    (user : ℕ) (ss : List StatusRow) (ns : List NodeRow) (p : Text)
    → IsKeyed ns
    → lookup p (join user ss ns) ≡ seen user ss (find_node p ns)
unfolding lookup join find_node
lookup-join user ss [] p k = refl
lookup-join user ss (n ∷ ns) p k =
    let rest = lookup-join user ss ns p k.1 in
    let step = lookup-join_status p n (find_status n.id ss) (join user ss ns) in
    elim (Bool-cases (text_eq n.node_key p)) [
      | inl same ↦
          let gone = lookup-join-none user ss ns p (apart_key n p ns same k.0) in
          ground (arith, gone, same, step)
      | inr other ↦ ground (arith, rest, other, step)
    ]

-- No key is listed twice.
abbrev pub IsSingle : List Node → Type 0
IsSingle [] = Unit
IsSingle (x ∷ xs) = (lookup x.node_id xs ≡ none) × IsSingle xs

joined-IsSingle :
    (b : Bool) (n : NodeRow) (f : Option StatusRow) (rest : List Node)
    → lookup n.node_key rest ≡ none
    → IsSingle rest
    → IsSingle (if b then join_status n f rest else rest)
joined-IsSingle false n f rest gone h = h
joined-IsSingle true n none rest gone h = h
joined-IsSingle true n (some s) rest gone h = (gone, h)

join-IsSingle :
    (user : ℕ) (ss : List StatusRow) (ns : List NodeRow) → IsKeyed ns → IsSingle (join user ss ns)
unfolding join
join-IsSingle user ss [] k = tt
join-IsSingle user ss (n ∷ ns) k =
    let here = (text_eq_iff n.node_key n.node_key).1 refl in
    let gone = lookup-join-none user ss ns n.node_key (apart_key n n.node_key ns here k.0) in
    joined-IsSingle (n.user_id == user) n (find_status n.id ss) (join user ss ns) gone
      (join-IsSingle user ss ns k.1)

module _ (before : Text → Text → Bool) where
  lookup-place :
      (p : Text) (x : Node) (xs : List Node)
      → lookup x.node_id xs ≡ none
      → lookup p (place before x xs) ≡ (if text_eq x.node_id p then some x else lookup p xs)
  unfolding lookup place
  lookup-place p x [] h = refl
  lookup-place p x (y ∷ ys) h = elim (Bool-cases (before y.node_id x.node_id)) [
    | inl b ↦ elim (Bool-cases (text_eq x.node_id p)) [
      | inl same ↦
          let known : x.node_id ≡ p = (text_eq_iff x.node_id p).0 same in
          let apart : text_eq y.node_id p ≡ false =
            subst (λ q. text_eq y.node_id q ≡ false) known (ground (arith, h)) in
          ground (arith, b, same, apart, lookup-place p x ys (ground (arith, h)))
      | inr other ↦ ground (arith, b, other, lookup-place p x ys (ground (arith, h)))
    ]
    | inr b ↦ ground (arith, b)
  ]

  lookup-order :
      (p : Text) (xs : List Node) → IsSingle xs → lookup p (order_by_key before xs) ≡ lookup p xs
  unfolding lookup order_by_key
  lookup-order p [] h = refl
  lookup-order p (x ∷ xs) h = ground (
    arith,
    lookup-place p x (order_by_key before xs) (lookup-order x.node_id xs h.1 ∙ h.0),
    lookup-order p xs h.1,
  )

eq_sym : (a b : Text) → text_eq a b ≡ false → text_eq b a ≡ false
eq_sym a b h = elim (Bool-cases (text_eq b a)) [
  | inl same ↦ absurd (ground (arith, h, (text_eq_iff a b).1 (sym ((text_eq_iff b a).0 same))))
  | inr other ↦ other
]

module _ (before : Text → Text → Bool) where
  place-IsSingle :
      (x : Node) (xs : List Node)
      → lookup x.node_id xs ≡ none
      → IsSingle xs
      → IsSingle (place before x xs)
  unfolding lookup place
  place-IsSingle x [] h s = (refl, tt)
  place-IsSingle x (y ∷ ys) h s =
      let apart : text_eq y.node_id x.node_id ≡ false = ground (arith, h) in
      let gone : lookup x.node_id ys ≡ none = ground (arith, h) in
      elim (before y.node_id x.node_id)
        as (λ b. IsSingle (if b then y ∷ place before x ys else x ∷ y ∷ ys)) [
          | true ↦ (
            lookup-place before y.node_id x ys gone
                ∙ ground (arith, eq_sym y.node_id x.node_id apart, s.0),
            place-IsSingle x ys gone s.1,
          )
          | false ↦ (h, s)
        ]

  order-IsSingle : (xs : List Node) → IsSingle xs → IsSingle (order_by_key before xs)
  unfolding order_by_key
  order-IsSingle [] s = tt
  order-IsSingle (x ∷ xs) s =
      place-IsSingle x (order_by_key before xs) (lookup-order before x.node_id xs s.1 ∙ s.0)
        (order-IsSingle xs s.1)

-- No node stands after one that the collation puts behind it.
abbrev pub IsOrdered : (Text → Text → Bool) → List Node → Type 0
IsOrdered before [] = Unit
IsOrdered before (x ∷ xs) = All (λ y. before y.node_id x.node_id ≡ false) xs × IsOrdered before xs

-- A collation is a strict order in which what is not before is a preorder.
abbrev pub IsCollation : (Text → Text → Bool) → Type 0
IsCollation before =
    ((a b : Text) → before a b ≡ true → before b a ≡ false)
    × ((a b c : Text) → before a b ≡ false → before b c ≡ false → before a c ≡ false)

module _ (before : Text → Text → Bool) (law : IsCollation before) where
  not_before-place :
      (y x : Node) (xs : List Node)
      → before x.node_id y.node_id ≡ false
      → All (λ z. before z.node_id y.node_id ≡ false) xs
      → All (λ z. before z.node_id y.node_id ≡ false) (place before x xs)
  unfolding place
  not_before-place y x [] h a = (h, tt)
  not_before-place y x (z ∷ zs) h a =
      elim (before z.node_id x.node_id)
        as (λ b.
          All (λ z. before z.node_id y.node_id ≡ false)
            (if b then z ∷ place before x zs else x ∷ z ∷ zs)) [
              | true ↦ (a.0, not_before-place y x zs h a.1)
              | false ↦ (h, a)
            ]

  All-after :
      (x y : Node) (zs : List Node)
      → before y.node_id x.node_id ≡ false
      → All (λ z. before z.node_id y.node_id ≡ false) zs
      → All (λ z. before z.node_id x.node_id ≡ false) zs
  All-after x y [] h a = tt
  All-after x y (z ∷ zs) h a = (law.1 z.node_id y.node_id x.node_id a.0 h, All-after x y zs h a.1)

  place-IsOrdered :
      (x : Node) (xs : List Node) → IsOrdered before xs → IsOrdered before (place before x xs)
  unfolding place
  place-IsOrdered x [] o = (tt, tt)
  place-IsOrdered x (y ∷ ys) o =
      elim (before y.node_id x.node_id)
          as (λ b.
            before y.node_id x.node_id ≡ b
            → IsOrdered before (if b then y ∷ place before x ys else x ∷ y ∷ ys)) [
              | true ↦ λ e. (
                not_before-place y x ys (law.0 y.node_id x.node_id e) o.0,
                place-IsOrdered x ys o.1,
              )
              | false ↦ λ e. ((e, All-after x y ys e o.0), o)
            ]
        refl

  order-IsOrdered : (xs : List Node) → IsOrdered before (order_by_key before xs)
  unfolding order_by_key
  order-IsOrdered [] = tt
  order-IsOrdered (x ∷ xs) = place-IsOrdered x (order_by_key before xs) (order-IsOrdered xs)

-- On tables where ids and keys are unique, under a collation that is a strict weak order, and when
-- no statement fails, the listing of a user is in the order of the node keys, holds no key twice and
-- holds, for every key, the node that the tables show to this user; a key that they do not show is
-- not in it.
pub nodes_for_user-lists :
    (before : Text → Text → Bool) (fault : Faults) (user : ℕ) (db : Database)
    → IsCollation before
    → IsKeyed db.nodes
    → ((i : ℕ) → fault i ≡ false)
    → (xs : List Node) × (nodes_for_user before fault user db ≡ ok xs)
      × IsOrdered before xs
      × IsSingle xs
      × ((p : Text) → lookup p xs ≡ view user db p)
unfolding nodes_for_user
nodes_for_user-lists before fault user db law k calm =
    let rows = join user db.statuses db.nodes in
    (
      order_by_key before rows,
      ground (arith, calm 0, calm 1),
      order-IsOrdered before law rows,
      order-IsSingle before rows (join-IsSingle user db.statuses db.nodes k),
      λ p.
          lookup-order before p rows (join-IsSingle user db.statuses db.nodes k)
          ∙ lookup-join user db.statuses db.nodes p k,
    )
