-- ===== src/Server/Submission/Once.antt =====
-- Replays, in server/inventory.go, server/network_benchmark.go and server/compute_benchmark.go.
use mathlib.Core.Path.{subst}
use mesh_alot.Prelude.{
  ◌≡◌, ◌≢◌, refl, sym, ap, ◌∙◌, Bool, true, false, Option, none, some, ◌⊎◌, inl, inr, List, [], ◌∷◌,
  arith,
}
use mesh_alot.Prelude.Text.{Text, text_eq_iff}
use mesh_alot.Prelude.Time.{Instant}
use mesh_alot.Prelude.Outcome.{Outcome, ok, err}
use mesh_alot.Protocol.{Submission}
use mesh_alot.Server.Database.{ReportRow, Database, Faults}
use mesh_alot.Server.Submission.{
  Answer, Status, accepted, Table, inventories, network_benchmarks, compute_benchmarks, rows_of,
  put_row, uuid_bytes, has_report, Kind, submit, submit_steps, answer,
}
use mesh_alot.Server.Submission.Accepted.{submit-IsAccepted}

rows_of-put_row :
    (t : Table) (row : ReportRow) (db : Database)
    → rows_of t (put_row t row db) ≡ row ∷ rows_of t db
rows_of-put_row inventories row db = refl
rows_of-put_row network_benchmarks row db = refl
rows_of-put_row compute_benchmarks row db = refl

has_report-put_row :
    (t : Table) (row : ReportRow) (db : Database)
    → has_report row.id (rows_of t (put_row t row db)) ≡ true
unfolding has_report
has_report-put_row t row db =
    rw (rows_of-put_row t row db) (ground (arith, (text_eq_iff row.id row.id).1 refl))

some_inj {ℓ} : {A : Type ℓ} {x y : A} → (◌≡◌ {A = Option A} (some x) (some y)) → x ≡ y
some_inj {x = x} h = ap (λ o. elim o [ none ↦ x | some z ↦ z ]) h

contradiction : (b : Bool) → b ≡ true → b ≡ false → ⊥
contradiction b h k = ground arith

-- One body decodes to one submission.
decoded_alike {ℓ} :
    {A : Type ℓ} (decode : Text → Option A) (body : Option Text) (r raw : Text) (t s : A)
    → body ≡ some r
    → body ≡ some raw
    → decode r ≡ some t
    → decode raw ≡ some s
    → t ≡ s
decoded_alike decode body r raw t s e b d c =
    some_inj (sym d ∙ (ap decode (some_inj (sym e ∙ b)) ∙ c))

-- One request.
pub record Request : Type 0 where
  pub connected : Bool
  pub fault : Faults
  pub now : Instant
  pub header : Text
  pub body : Option Text

module _ {ℓ} {B : Type ℓ} (base64 : Text → Option Text) (verify : Text → Text → Text → Bool)
    (k : Kind B) where
  abbrev pub handle : Request → Database → Answer × Database
  handle q db = submit base64 verify k q.connected q.fault q.now q.header q.body db

  -- The tables after these requests.
  pub handle_all : List Request → Database → Database
  handle_all [] db = db
  handle_all (q ∷ qs) db = handle_all qs (handle q db).1

  answer-cases :
      (db : Database) (r : Outcome Status Database)
      → (answer db r ≡ (accepted, (answer db r).1)) ⊎ ((answer db r).1 ≡ db)
  answer-cases db (ok db') = inl refl
  answer-cases db (err s) = inr refl

  submit-cases :
      (connected : Bool) (fault : Faults) (now : Instant) (header : Text) (body : Option Text)
      (db : Database)
      → let r = submit base64 verify k connected fault now header body db in
        (r ≡ (accepted, r.1)) ⊎ (r.1 ≡ db)
  unfolding submit
  submit-cases true fault now header body db =
      answer-cases db (submit_steps base64 verify k fault now header body db)
  submit-cases false fault now header body db = inr refl

  kept_row :
      (t : Table) (row : ReportRow) (id : Text) (db : Database)
      → has_report id (rows_of t db) ≡ true
      → has_report id (rows_of t (put_row t row db)) ≡ true
  unfolding has_report
  kept_row t row id db h = rw (rows_of-put_row t row db) (ground (arith, h))

  handle-keeps :
      (q : Request) (id : Text) (db : Database)
      → has_report id (rows_of k.table db) ≡ true
      → has_report id (rows_of k.table (handle q db).1) ≡ true
  handle-keeps q id db h = elim (submit-cases q.connected q.fault q.now q.header q.body db) [
    | inl e ↦
        let (_, raw, s, _, a) =
          submit-IsAccepted base64 verify k q.fault q.now q.header q.connected q.body db
            (handle q db).1 e in
        subst (λ d. has_report id (rows_of k.table d) ≡ true) (sym a.stored)
          (kept_row k.table _ id db h)
    | inr e ↦ subst (λ d. has_report id (rows_of k.table d) ≡ true) (sym e) h
  ]

  handle_all-keeps :
      (qs : List Request) (id : Text) (db : Database)
      → has_report id (rows_of k.table db) ≡ true
      → has_report id (rows_of k.table (handle_all qs db)) ≡ true
  unfolding handle_all
  handle_all-keeps [] id db h = h
  handle_all-keeps (q ∷ qs) id db h =
      handle_all-keeps qs id (handle q db).1 (handle-keeps q id db h)

  -- Once a submission is accepted, no later request, whatever requests come between and whoever
  -- signs it, is accepted with the same report id, in this or another spelling.
  pub accepted_once :
      (q q' : Request) (between : List Request) (raw raw' : Text) (s s' : Submission B)
      (db db1 db2 : Database)
      → q.body ≡ some raw
      → k.decode raw ≡ some s
      → handle q db ≡ (accepted, db1)
      → q'.body ≡ some raw'
      → k.decode raw' ≡ some s'
      → uuid_bytes s'.report_id ≡ uuid_bytes s.report_id
      → handle q' (handle_all between db1) ≢ (accepted, db2)
  accepted_once q q' between raw raw' s s' db db1 db2 b d h b' d' same h' =
      let (_, r, t, e, a) =
        submit-IsAccepted base64 verify k q.fault q.now q.header q.connected q.body db db1 h in
      let (_, r', t', e', a') =
        submit-IsAccepted base64 verify k q'.fault q'.now q'.header q'.connected q'.body
          (handle_all between db1) db2 h' in
      let first : t ≡ s = decoded_alike k.decode q.body r raw t s e b a.decoded d in
      let second : t' ≡ s' = decoded_alike k.decode q'.body r' raw' t' s' e' b' a'.decoded d' in
      let there = handle_all-keeps between (uuid_bytes t.report_id) db1 (
        subst (λ d. has_report (uuid_bytes t.report_id) (rows_of k.table d) ≡ true) (sym a.stored)
          (has_report-put_row k.table _ db)) in
      let ids : uuid_bytes t'.report_id ≡ uuid_bytes t.report_id =
        ap (λ (z : Submission B). uuid_bytes z.report_id) second
        ∙ (same ∙ ap (λ (z : Submission B). uuid_bytes z.report_id) (sym first)) in
      contradiction (has_report (uuid_bytes t.report_id) (rows_of k.table (handle_all between db1)))
        there
        (subst (λ i. has_report i (rows_of k.table (handle_all between db1)) ≡ false) ids a'.fresh)
