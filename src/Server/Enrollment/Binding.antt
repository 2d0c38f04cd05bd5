-- ===== src/Server/Enrollment/Binding.antt =====
-- Whom a redemption of server/enrollment.go binds a node to.
use mesh_alot.Prelude.{
  ℕ, ◌≡◌, refl, sym, ap, ◌∙◌, true, Option, none, some, List, [], ◌∷◌, arith, Bool-cases, ◌⊎◌, inl,
  inr, if◌then◌else◌, ◌==◌,
}
use mathlib.Core.Path.{subst}
use mesh_alot.Prelude.Text.{Text, text_eq, text_eq_iff}
use mesh_alot.Prelude.Time.{Instant}
use mesh_alot.Server.Database.{
  TokenRow, NodeRow, Database, Result, transact-eq-none, Faults, transact, find_node,
}
use mesh_alot.Prelude.Outcome.{ok, err}
use mesh_alot.Server.Enrollment.{
  coalesce, new_node, key_agrees, find_live, update_node, bind_node, redeem_steps,
  redeem_enrollment_token,
}
use mesh_alot.Server.Enrollment.SingleUse.{redeemed}

abbrev refreshed : ℕ → Text → Text → NodeRow → NodeRow
refreshed id version key n =
    if n.id == id
    then record n {
      agent_version = version;
      identity_public_key = some (coalesce n.identity_public_key key);
    }
    else n

find_node-update :
    (k : Text) (id : ℕ) (version key : Text) (ns : List NodeRow) (n : NodeRow)
    → find_node k ns ≡ some n
    → find_node k (update_node id version key ns) ≡ some (refreshed id version key n)
unfolding find_node update_node
find_node-update k id version key [] n h = cc
find_node-update k id version key (m ∷ ns) n h = elim (Bool-cases (text_eq m.node_key k)) [
  | inl same ↦ ground arith
  | inr other ↦ ground (arith, find_node-update k id version key ns n)
]

-- The owner and a key that is set are as before.
abbrev pub IsKept : NodeRow → NodeRow → Type 0
IsKept n n' =
    (n'.id ≡ n.id)
    × (n'.user_id ≡ n.user_id)
    × ((k : Text) → n.identity_public_key ≡ some k → n'.identity_public_key ≡ some k)

refreshed-IsKept :
    (id : ℕ) (version key : Text) (n : NodeRow) → IsKept n (refreshed id version key n)
refreshed-IsKept id version key n = (ground arith, ground arith, λ k e. ground arith)

find_node_self :
    (k : Text) (n : NodeRow) (ns : List NodeRow) → n.node_key ≡ k → find_node k (n ∷ ns) ≡ some n
unfolding find_node
find_node_self k n ns e = rw ((text_eq_iff n.node_key k).1 e)

find_node-cons :
    (k key : Text) (m n : NodeRow) (ns : List NodeRow)
    → m.node_key ≡ key
    → find_node key ns ≡ none
    → find_node k ns ≡ some n
    → find_node k (m ∷ ns) ≡ some n
unfolding find_node
find_node-cons k key m n ns e absent h = elim (Bool-cases (text_eq m.node_key k)) [
  | inl same ↦
      let known : key ≡ k = sym e ∙ (text_eq_iff m.node_key k).0 same in
      let gone : find_node k ns ≡ none = subst (λ z. find_node z ns ≡ none) known absent in
      absurd (ground (arith, gone, h))
  | inr other ↦ rw other h
]

-- The key that a redemption leaves: the one presented, but an empty key that was stored stays.
abbrev pub HasKey : Text → Option NodeRow → NodeRow → Type 0
HasKey public_key before n' =
    (n'.identity_public_key ≡ some public_key)
    ⊎ ((n : NodeRow) × (before ≡ some n)
        × (n.identity_public_key ≡ some [])
        × (n'.identity_public_key ≡ some []))

agreed_key :
    (o : Option Text) (key : Text)
    → key_agrees o key ≡ true
    → (coalesce o key ≡ key) ⊎ ((o ≡ some []) × (coalesce o key ≡ []))
agreed_key none key h = inl refl
agreed_key (some []) key h = inr (refl, refl)
agreed_key (some (c ∷ cs)) key h = inl ((text_eq_iff (c ∷ cs) key).0 (ground (arith, h)))

refreshed-HasKey :
    (version key : Text) (before : Option NodeRow) (n : NodeRow)
    → before ≡ some n
    → key_agrees n.identity_public_key key ≡ true
    → HasKey key before (refreshed n.id version key n)
refreshed-HasKey version key before n found h =
    let own : (n.id == n.id) ≡ true = ground arith in
    elim (agreed_key n.identity_public_key key h) [
      | inl same ↦ inl (rw own (ap some same))
      | inr (old, same) ↦ inr (n, found, old, rw own (ap some same))
    ]

module _ (fault : Faults) (fresh : ℕ) (t : TokenRow) (key public_key version : Text)
    (ns : List NodeRow) where
  bind-cases :
      (found : Option NodeRow) (bound : ℕ × List NodeRow)
      → bind_node fault fresh t key public_key version ns found ≡ ok bound
      → ((found ≡ none) × (bound ≡ (fresh, new_node fresh t.user_id key version public_key ∷ ns)))
        ⊎ ((n : NodeRow) × (found ≡ some n)
            × (n.user_id ≡ t.user_id)
            × (key_agrees n.identity_public_key public_key ≡ true)
            × (bound ≡ (n.id, update_node n.id version public_key ns)))
  unfolding bind_node
  bind-cases none bound h = inl (refl, ground arith)
  bind-cases (some n) bound h = inr (n, refl, ground arith, ground arith, ground arith)

  -- Whichever way the redemption goes, each node that was there keeps its owner and its key.
  bind-IsKept :
      (bound : ℕ × List NodeRow) (k : Text) (n : NodeRow)
      → bind_node fault fresh t key public_key version ns (find_node key ns) ≡ ok bound
      → find_node k ns ≡ some n
      → (n' : NodeRow) × (find_node k bound.1 ≡ some n') × IsKept n n'
  bind-IsKept bound k n h e = elim (bind-cases (find_node key ns) bound h) [
    | inl (absent, b) ↦ (
      n,
      rw b (
          find_node-cons k key (new_node fresh t.user_id key version public_key) n ns refl absent
            e),
      (refl, refl, λ z q. q),
    )
    | inr (m, found, _, _, b) ↦ (
      refreshed m.id version public_key n,
      rw b (find_node-update k m.id version public_key ns n e),
      refreshed-IsKept m.id version public_key n,
    )
  ]

  -- The node of a redemption belongs to the code's owner, and its key is the one presented.
  bound_node :
      (bound : ℕ × List NodeRow)
      → bind_node fault fresh t key public_key version ns (find_node key ns) ≡ ok bound
      → (n' : NodeRow) × (find_node key bound.1 ≡ some n')
        × (n'.user_id ≡ t.user_id)
        × HasKey public_key (find_node key ns) n'
  bound_node bound h = elim (bind-cases (find_node key ns) bound h) [
    | inl (absent, b) ↦
        let n' = new_node fresh t.user_id key version public_key in
        (n', rw b (find_node_self key n' ns refl), refl, inl refl)
    | inr (m, found, owned, agrees, b) ↦ (
      refreshed m.id version public_key m,
      rw b (find_node-update key m.id version public_key ns m found),
      ground arith,
      refreshed-HasKey version public_key (find_node key ns) m found agrees,
    )
  ]

module _ (fault : Faults) (now : Instant) (fresh : ℕ) (hash key public_key version : Text)
    (db : Database) where
  outcome-IsKept :
      (k : Text) (n : NodeRow) (r : Result Database)
      → find_node k db.nodes ≡ some n
      → redeem_steps fault now fresh hash key public_key version db ≡ r
      → (n' : NodeRow) × (find_node k (transact db r).1.nodes ≡ some n') × IsKept n n'
  outcome-IsKept k n (ok db') e h =
      let (t, bound, found, b, written) =
        redeemed fault now fresh hash key public_key version db db' h in
      let (n', at, kept) =
        bind-IsKept fault fresh t key public_key version db.nodes bound k n b e in
      (n', subst (λ d. find_node k d.nodes ≡ some n') (sym written) at, kept)
  outcome-IsKept k n (err x) e h = (n, e, (refl, refl, λ z q. q))

  -- No redemption, committed or not, gives a node that is already enrolled another owner, another id
  -- or, once it has a key, another key.
  pub redeem-IsKept :
      (k : Text) (n : NodeRow)
      → find_node k db.nodes ≡ some n
      → let after = (redeem_enrollment_token fault now fresh hash key public_key version db).1 in
        (n' : NodeRow) × (find_node k after.nodes ≡ some n') × IsKept n n'
  unfolding redeem_enrollment_token
  redeem-IsKept k n e = outcome-IsKept k n _ e refl

  -- After a redemption that commits, the node belongs to the owner of the live code and has the key
  -- that was presented, unless it had an empty key before: then it still has the empty key.
  pub redeem-binds :
      (db' : Database)
      → redeem_enrollment_token fault now fresh hash key public_key version db ≡ (none, db')
      → (t : TokenRow) × (n' : NodeRow) × (find_live hash now db.tokens ≡ some t)
        × (find_node key db'.nodes ≡ some n')
        × (n'.user_id ≡ t.user_id)
        × HasKey public_key (find_node key db.nodes) n'
  unfolding redeem_enrollment_token
  redeem-binds db' h =
      let (t, bound, found, b, e) =
        redeemed fault now fresh hash key public_key version db db' (transact-eq-none db db' _ h) in
      let (n', at, owner, agrees) =
        bound_node fault fresh t key public_key version db.nodes bound b in
      (t, n', found, subst (λ d. find_node key d.nodes ≡ some n') (sym e) at, owner, agrees)
