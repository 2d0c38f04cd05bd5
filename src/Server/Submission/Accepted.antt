-- ===== src/Server/Submission/Accepted.antt =====
-- What the handlers of server/inventory.go, server/network_benchmark.go and
-- server/compute_benchmark.go accept, and what they store.
use mesh_alot.Prelude.{
  ◌≡◌, refl, sym, ap, ◌∙◌, Bool, true, false, not, Option, none, some, length, is_empty, ltb, ◌≤◌,
  arith,
}
use mesh_alot.Prelude.Int.{ℤ}
use mesh_alot.Prelude.Text.{Text}
use mesh_alot.Prelude.Time.{Instant}
use mesh_alot.Prelude.Outcome.{Outcome, ok, err, guard, ok_inj, >>=-eq-ok, >>-eq-ok}
use mesh_alot.Protocol.{Submission}
use mesh_alot.Server.Database.{
  NodeRow, Database, StoreError, replay, Result, Faults, statement, find_node,
}
use mesh_alot.Server.Validation.{ValidationError}
use mesh_alot.Server.Submission.{
  Status, Answer, accepted, refused, bad_request, too_large, unauthorized, unavailable, Table,
  rows_of, put_row, uuid_bytes, has_report, stored_key, inventory_public_key, row_of, insert_for,
  insert_report, answered, lookup_error, insertion_error, usable_key, verify_signature, Kind,
  max_body, present, absent, submit_steps, answer, submit,
}

refused-not_accepted : (s : Status) → refused s ≡ accepted → ⊥
refused-not_accepted s h = cc

present_lem {ℓ} : {A : Type ℓ} (o : Option A) (s : Status) {a : A} → present o s ≡ ok a → o ≡ some a
present_lem none s h = cc
present_lem (some a) s h = ap some (ok_inj h)

absent_lem : (o : Option ValidationError) (s : Status) → absent o s ≡ ok tt → o ≡ none
absent_lem none s h = refl
absent_lem (some e) s h = cc

answered_lem :
    {A : Type 0} (status : StoreError → Status) (r : Result A) {a : A}
    → answered status r ≡ ok a
    → r ≡ ok a
answered_lem status (ok a) h = ap ok (ok_inj h)
answered_lem status (err e) h = cc

usable_lem : (o : Option Text) {key : Text} → usable_key o ≡ ok key → o ≡ some key
usable_lem none h = cc
usable_lem (some k) h = ground arith

stored_lem :
    (o : Option NodeRow) {key : Text}
    → stored_key o ≡ ok key
    → (n : NodeRow) × (o ≡ some n) × (n.identity_public_key ≡ some key)
stored_lem none h = cc
stored_lem (some n) h = (n, refl, usable_lem n.identity_public_key h)

public_key_lem :
    (fault : Faults) (node : Text) (db : Database) {key : Text}
    → inventory_public_key fault node db ≡ ok key
    → (n : NodeRow) × (find_node node db.nodes ≡ some n) × (n.identity_public_key ≡ some key)
unfolding inventory_public_key
public_key_lem fault node db h =
    stored_lem _ (>>-eq-ok (statement fault 0) (stored_key (find_node node db.nodes)) h).1

for_lem :
    (table : Table) (id payload : Text) (score : Option ℤ) (now : Instant) (db db' : Database)
    (n : NodeRow) (o : Option NodeRow)
    → o ≡ some n
    → insert_for table id payload score now db o ≡ ok db'
    → (has_report id (rows_of table db) ≡ false)
      × (db' ≡ put_row table (row_of id n.id payload score now) db)
for_lem table id payload score now db db' n none e h = cc
for_lem table id payload score now db db' n (some m) e h =
    let (a, k) = >>-eq-ok (guard (not (has_report id (rows_of table db))) replay) _ h in
    let same : m ≡ n = ok_some e in
    (
      ground arith,
      sym (ok_inj k)
          ∙ ap (λ (m : NodeRow). put_row table (row_of id m.id payload score now) db) same,
    )
  where
    ok_some : {x y : NodeRow} → some x ≡ some y → x ≡ y
    ok_some {x = x} q = ap (λ o. elim o [ none ↦ x | some z ↦ z ]) q

answer_lem :
    (db db' : Database) (r : Outcome Status Database) → answer db r ≡ (accepted, db') → r ≡ ok db'
answer_lem db db' (ok x) h = ap ok (ap (λ (p : Answer × Database). p.1) h)
answer_lem db db' (err x) h =
    absurd (refused-not_accepted x (ap (λ (p : Answer × Database). p.0) h))

-- A submission has been accepted: it was in the body, valid, signed with the key of its node, and
-- not there before; its row, with the score that the server gives, is all that is new.
pub record IsAccepted {ℓ} {B : Type ℓ} (base64 : Text → Option Text)
    (verify : Text → Text → Text → Bool) (k : Kind B) (now : Instant) (header raw : Text)
    (db db' : Database) (s : Submission B) : Type ℓ where
  pub fits : length raw ≤ max_body
  pub decoded : k.decode raw ≡ some s
  pub valid : k.validate s now ≡ none
  pub node : NodeRow
  pub found : find_node s.node_id db.nodes ≡ some node
  pub key : Text
  pub enrolled : node.identity_public_key ≡ some key
  pub signed : verify_signature base64 verify key header (k.signing_message raw) ≡ true
  pub payload : Text
  pub marshaled : k.marshal s.benchmark ≡ some payload
  pub fresh : has_report (uuid_bytes s.report_id) (rows_of k.table db) ≡ false
  pub stored :
      db'
      ≡ put_row k.table
          (row_of (uuid_bytes s.report_id) node.id payload (k.score s.benchmark) now)
          db

module _ {ℓ} {B : Type ℓ} (base64 : Text → Option Text) (verify : Text → Text → Text → Bool)
    (k : Kind B) (fault : Faults) (now : Instant) (header : Text) where
  steps_lem :
      (body : Option Text) (db db' : Database)
      → submit_steps base64 verify k fault now header body db ≡ ok db'
      → (raw : Text) × (s : Submission B) × (body ≡ some raw)
        × IsAccepted base64 verify k now header raw db db' s
  unfolding submit_steps insert_report
  steps_lem body db db' h =
      let (raw, a, h1) = >>=-eq-ok (present body bad_request) _ h in
      let (b, h2) = >>-eq-ok (guard (not (ltb max_body (length raw))) too_large) _ h1 in
      let (s, c, h3) = >>=-eq-ok (present (k.decode raw) bad_request) _ h2 in
      let (d, h4) = >>-eq-ok (absent (k.validate s now) bad_request) _ h3 in
      let (key, e, h5) =
        >>=-eq-ok (answered lookup_error (inventory_public_key fault s.node_id db)) _ h4 in
      let (g, h6) =
        >>-eq-ok
          (guard (verify_signature base64 verify key header (k.signing_message raw)) unauthorized) _
          h5 in
      let (payload, m, h7) = >>=-eq-ok (present (k.marshal s.benchmark) bad_request) _ h6 in
      let (node, found, enrolled) =
        public_key_lem fault s.node_id db (answered_lem lookup_error _ e) in
      let inserted = answered_lem insertion_error _ h7 in
      let (fresh, stored) =
        for_lem k.table _ payload _ now db db' node (find_node s.node_id db.nodes) found
          (>>-eq-ok (statement fault 1) _ inserted).1 in
      (
        raw,
        s,
        present_lem body bad_request a,
        record {
          fits = ground arith;
          decoded = present_lem _ bad_request c;
          valid = absent_lem _ bad_request d;
          node = node;
          found = found;
          key = key;
          enrolled = enrolled;
          signed = ground arith;
          payload = payload;
          marshaled = present_lem _ bad_request m;
          fresh = fresh;
          stored = stored;
        },
      )

  -- A request that is answered with 201 came to a service with a database, and carried a submission
  -- of at most a megabyte that was valid at that time, was signed over this very body with the key
  -- of an enrolled node and had a fresh report id; stored is its one row, whose score the server
  -- has computed from it.
  pub submit-IsAccepted :
      (connected : Bool) (body : Option Text) (db db' : Database)
      → submit base64 verify k connected fault now header body db ≡ (accepted, db')
      → (connected ≡ true)
        × (raw : Text) × (s : Submission B) × (body ≡ some raw)
        × IsAccepted base64 verify k now header raw db db' s
  unfolding submit
  submit-IsAccepted true body db db' h =
      let r = submit_steps base64 verify k fault now header body db in
      let (raw, s, e, a) = steps_lem body db db' (answer_lem db db' r h) in (refl, raw, s, e, a)
  submit-IsAccepted false body db db' h =
      absurd (refused-not_accepted unavailable (ap (λ (p : Answer × Database). p.0) h))

  usable_some : (key : Text) → is_empty key ≡ false → usable_key (some key) ≡ ok key
  usable_some key h = rw h refl

  -- Conversely, every such submission, by a node whose key is not empty, is answered with 201 if the
  -- database refuses no statement.
  pub IsAccepted-submit :
      (raw : Text) (db db' : Database) (s : Submission B)
      → (a : IsAccepted base64 verify k now header raw db db' s) → is_empty a.key ≡ false
      → fault 0 ≡ false
      → fault 1 ≡ false
      → submit base64 verify k true fault now header (some raw) db ≡ (accepted, db')
  unfolding submit submit_steps insert_report inventory_public_key
  IsAccepted-submit raw db db' s a nonempty up0 up1 =
      let small : ltb max_body (length raw) ≡ false = ground (arith, a.fits) in
      rw
        (
          small, a.decoded, a.valid, up0, a.found, a.enrolled, nonempty, a.signed, a.marshaled, up1,
          a.fresh, a.stored,
        )
        refl
