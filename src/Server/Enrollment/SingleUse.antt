-- ===== src/Server/Enrollment/SingleUse.antt =====
-- An enrollment code of server/enrollment.go is redeemed once.
use mesh_alot.Prelude.{
  ℕ, ◌≡◌, refl, false, none, some, List, [], ◌∷◌, All, arith, Bool-cases, inl, inr,
}
use mathlib.Core.Path.{subst}
use mesh_alot.Prelude.Text.{Text, text_eq, text_eq_iff}
use mesh_alot.Prelude.Time.{Instant}
use mesh_alot.Server.Database.{
  TokenRow, NodeRow, Database, invalid_enrollment_code, transact-eq-none, Faults, statement,
  find_node, insert_status,
}
use mesh_alot.Prelude.Outcome.{ok, >>=-eq-ok}
use mesh_alot.Server.Enrollment.{
  of_option, find_live, consume, bind_node, finish_redemption, redeem_steps,
  redeem_enrollment_token,
}

-- No row has the hash.
abbrev pub Absent : Text → List TokenRow → Type 0
Absent hash = All (λ u. text_eq u.token_hash hash ≡ false)

-- The unique constraint on `token_hash`.
abbrev pub UniqueHashes : List TokenRow → Type 0
UniqueHashes [] = Unit
UniqueHashes (t ∷ ts) = Absent t.token_hash ts × UniqueHashes ts

find_live-Absent :
    (hash : Text) (now : Instant) (ts : List TokenRow)
    → Absent hash ts
    → find_live hash now ts ≡ none
unfolding find_live
find_live-Absent hash now [] h = refl
find_live-Absent hash now (t ∷ ts) (h, hs) = rw h (find_live-Absent hash now ts hs)

consume-Absent :
    (hash : Text) (id node : ℕ) (now : Instant) (ts : List TokenRow)
    → Absent hash ts
    → Absent hash (consume id node now ts)
unfolding consume
consume-Absent hash id node now [] h = tt
consume-Absent hash id node now (t ∷ ts) (h, hs) =
    (ground arith, consume-Absent hash id node now ts hs)

-- After the code's row is consumed, no row of that hash is live at any time.
find_live-consume :
    (hash : Text) (now later at : Instant) (node : ℕ) (ts : List TokenRow) (t : TokenRow)
    → UniqueHashes ts
    → find_live hash now ts ≡ some t
    → find_live hash later (consume t.id node at ts) ≡ none
unfolding find_live consume
find_live-consume hash now later at node [] t u h = refl
find_live-consume hash now later at node (x ∷ ts) t (apart, u) h =
    elim (Bool-cases (text_eq x.token_hash hash)) [
      | inl same ↦
          let absent : Absent hash ts = subst (λ k. Absent k ts) ((text_eq_iff _ _).0 same) apart in
          ground (
            arith,
            find_live-Absent hash now ts absent,
            find_live-Absent hash later (consume t.id node at ts)
                (consume-Absent hash t.id node at ts absent),
          )
      | inr other ↦ ground (arith, find_live-consume hash now later at node ts t u)
    ]

module _ (fault : Faults) (now : Instant) (fresh : ℕ) (hash key public_key version : Text)
    (db db' : Database) where
  finish_lem :
      (t : TokenRow) (bound : ℕ × List NodeRow)
      → finish_redemption fault now t db bound ≡ ok db'
      → db' ≡ record db {
        nodes = bound.1;
        statuses = insert_status bound.0 now db.statuses;
        tokens = consume t.id bound.0 now db.tokens;
      }
  unfolding finish_redemption
  finish_lem t (node, nodes) h = ground arith

  -- What a committed redemption found and wrote.
  pub redeemed :
      redeem_steps fault now fresh hash key public_key version db ≡ ok db'
      → (t : TokenRow) × (bound : ℕ × List NodeRow) × (find_live hash now db.tokens ≡ some t)
        × (bind_node fault fresh t key public_key version db.nodes (find_node key db.nodes)
            ≡ ok bound)
        × (db' ≡ record db {
          nodes = bound.1;
          statuses = insert_status bound.0 now db.statuses;
          tokens = consume t.id bound.0 now db.tokens;
        })
  unfolding redeem_steps
  redeemed h =
      let (_, _, h1) = >>=-eq-ok (statement fault 0) _ h in
      let (_, _, h2) = >>=-eq-ok (statement fault 1) _ h1 in
      let (t, found, h3) =
        >>=-eq-ok (of_option (find_live hash now db.tokens) invalid_enrollment_code) _ h2 in
      let (_, _, h4) = >>=-eq-ok (statement fault 2) _ h3 in
      let (bound, e, h5) =
        >>=-eq-ok (bind_node fault fresh t key public_key version db.nodes (find_node key db.nodes))
          _ h4 in
      (t, bound, ground arith, e, finish_lem t bound h5)

  -- A code that a redemption has consumed is refused from then on: every later redemption of it,
  -- whoever makes it and at whatever time, fails with `ErrInvalidEnrollmentCode` and changes nothing,
  -- if its first two statements reach the database and the hashes of the table are unique.
  pub redeemed_once :
      UniqueHashes db.tokens
      → redeem_enrollment_token fault now fresh hash key public_key version db ≡ (none, db')
      → (fault' : Faults) (later : Instant) (fresh' : ℕ) (key' public_key' version' : Text)
      → fault' 0 ≡ false
      → fault' 1 ≡ false
      → redeem_enrollment_token fault' later fresh' hash key' public_key' version' db'
        ≡ (some invalid_enrollment_code, db')
  unfolding redeem_enrollment_token redeem_steps
  redeemed_once u h fault' later fresh' key' public_key' version' p q =
      let (t, bound, found, _, e) = redeemed (transact-eq-none db db' _ h) in
      let gone : find_live hash later db'.tokens ≡ none =
        rw e (find_live-consume hash now later now bound.0 db.tokens t u found) in
      rw (p, q, gone) refl
