-- ===== src/Server/Nodes/View.antt =====
-- What a reader of server/postgres.go sees: for a node key, the node that the listing holds.
use mesh_alot.Prelude.{
  ℕ, ◌≡◌, refl, true, false, ◌&&◌, Option, none, some, List, [], ◌∷◌, arith, Bool-cases, inl, inr,
  if◌then◌else◌, ◌==◌, All,
}
use mathlib.Core.Path.{subst}
use mesh_alot.Prelude.Text.{Text, text_eq, text_eq_iff}
use mesh_alot.Protocol.{Node}
use mesh_alot.Server.Database.{NodeRow, StatusRow, find_node}
use mesh_alot.Server.Nodes.{owns, find_status, joined}

abbrev pub with_status : NodeRow → Option StatusRow → Option Node
with_status n none = none
with_status n (some s) = some (joined n s)

abbrev pub seen : ℕ → List StatusRow → Option NodeRow → Option Node
seen owner ss none = none
seen owner ss (some n) = if n.user_id == owner then with_status n (find_status n.id ss) else none

-- The primary key and the unique column of `nodes`.
abbrev pub IsApart : NodeRow → NodeRow → Type 0
IsApart n m = ((m.id == n.id) ≡ false) × (text_eq m.node_key n.node_key ≡ false)

abbrev pub IsKeyed : List NodeRow → Type 0
IsKeyed [] = Unit
IsKeyed (n ∷ ns) = All (IsApart n) ns × IsKeyed ns

pub find_node-key :
    (p : Text) (ns : List NodeRow) (m : NodeRow)
    → find_node p ns ≡ some m
    → text_eq m.node_key p ≡ true
unfolding find_node
find_node-key p [] m h = cc
find_node-key p (n ∷ ns) m h = ground (arith, find_node-key p ns m)

pub find_node-All :
    (P : NodeRow → Type 0) (p : Text) (ns : List NodeRow) (m : NodeRow)
    → All P ns
    → find_node p ns ≡ some m
    → P m
unfolding find_node
find_node-All P p [] m a h = absurd (cc)
find_node-All P p (n ∷ ns) m a h = elim (Bool-cases (text_eq n.node_key p)) [
  | inl same ↦ subst P (ground (arith, h)) a.0
  | inr other ↦ find_node-All P p ns m a.1 (ground (arith, h))
]

pub text_eq_comm : (s t : Text) → text_eq s t ≡ text_eq t s
unfolding text_eq
text_eq_comm [] [] = refl
text_eq_comm [] (y ∷ ys) = refl
text_eq_comm (x ∷ xs) [] = refl
text_eq_comm (x ∷ xs) (y ∷ ys) = ground (arith, text_eq_comm xs ys)

owns_unused :
    (owner id : ℕ) (key : Text) (ns : List NodeRow)
    → All (λ m. (m.id == id) ≡ false) ns
    → owns owner key id ns ≡ false
unfolding owns
owns_unused owner id key [] a = refl
owns_unused owner id key (n ∷ ns) a = ground (arith, owns_unused owner id key ns a.1)

-- Two nodes have one id only if they have one key.
pub same_id :
    (p q : Text) (ns : List NodeRow) (m n : NodeRow)
    → IsKeyed ns
    → find_node p ns ≡ some m
    → find_node q ns ≡ some n
    → (m.id == n.id) ≡ text_eq m.node_key n.node_key
unfolding find_node
same_id p q [] m n k hm hn = cc
same_id p q (x ∷ xs) m n k hm hn = elim (Bool-cases (text_eq x.node_key p)) [
  | inl mp ↦
      let em : x ≡ m = ground (arith, hm) in
      elim (Bool-cases (text_eq x.node_key q)) [
        | inl nq ↦
            let en : x ≡ n = ground (arith, hn) in
            ground (arith, em, en, (text_eq_iff x.node_key x.node_key).1 refl)
        | inr nq ↦
            let a = find_node-All (IsApart x) q xs n k.0 (ground (arith, hn)) in
            ground (arith, em, a, text_eq_comm n.node_key x.node_key)
      ]
  | inr mp ↦
      let hm' : find_node p xs ≡ some m = ground (arith, hm) in
      elim (Bool-cases (text_eq x.node_key q)) [
        | inl nq ↦
            let en : x ≡ n = ground (arith, hn) in
            let a = find_node-All (IsApart x) p xs m k.0 hm' in ground (arith, en, a)
        | inr nq ↦ same_id p q xs m n k.1 hm' (ground (arith, hn))
      ]
]

apart_ids :
    (x : NodeRow) (ns : List NodeRow) → All (IsApart x) ns → All (λ m. (m.id == x.id) ≡ false) ns
apart_ids x [] a = tt
apart_ids x (n ∷ ns) a = (a.0.0, apart_ids x ns a.1)

pub apart_key :
    (x : NodeRow) (key : Text) (ns : List NodeRow)
    → text_eq x.node_key key ≡ true
    → All (IsApart x) ns
    → find_node key ns ≡ none
unfolding find_node
apart_key x key [] e a = refl
apart_key x key (n ∷ ns) e a =
    let known : x.node_key ≡ key = (text_eq_iff x.node_key key).0 e in
    let apart : text_eq n.node_key key ≡ false =
      subst (λ k. text_eq n.node_key k ≡ false) known a.0.1 in
    ground (arith, apart, apart_key x key ns e a.1)

-- Whether the row of a node's status is the one to update.
pub owns-found :
    (owner : ℕ) (key p : Text) (ns : List NodeRow) (m : NodeRow)
    → IsKeyed ns
    → find_node p ns ≡ some m
    → owns owner key m.id ns ≡ (text_eq m.node_key key && m.user_id == owner)
unfolding owns find_node
owns-found owner key p [] m k h = cc
owns-found owner key p (x ∷ xs) m k h = elim (Bool-cases (text_eq x.node_key p)) [
  | inl same ↦
      let e : x ≡ m = ground (arith, h) in
      let none_else = owns_unused owner x.id key xs (apart_ids x xs k.0) in
      ground (arith, e, none_else)
  | inr other ↦
      let h' : find_node p xs ≡ some m = ground (arith, h) in
      let a = find_node-All (IsApart x) p xs m k.0 h' in
      ground (arith, owns-found owner key p xs m k.1 h', a)
]

pub owns_absent :
    (owner id : ℕ) (key : Text) (ns : List NodeRow)
    → find_node key ns ≡ none
    → owns owner key id ns ≡ false
unfolding owns find_node
owns_absent owner id key [] h = refl
owns_absent owner id key (x ∷ xs) h = ground (arith, owns_absent owner id key xs)

-- With one node for a key, the rows of a heartbeat are those of that node's id.
pub owns-key :
    (owner id : ℕ) (key : Text) (ns : List NodeRow) (n : NodeRow)
    → IsKeyed ns
    → find_node key ns ≡ some n
    → owns owner key id ns ≡ (n.id == id && n.user_id == owner)
unfolding owns find_node
owns-key owner id key [] n k h = cc
owns-key owner id key (x ∷ xs) n k h = elim (Bool-cases (text_eq x.node_key key)) [
  | inl same ↦
      let e : x ≡ n = ground (arith, h) in
      let gone : find_node key xs ≡ none = apart_key x key xs same k.0 in
      ground (arith, e, same, owns_absent owner id key xs gone)
  | inr other ↦ ground (arith, owns-key owner id key xs n k.1, other)
]

-- A listing's entry for a key.
unfoldable pub lookup : Text → List Node → Option Node
lookup p [] = none
lookup p (x ∷ xs) = if text_eq x.node_id p then some x else lookup p xs
