-- ===== src/Server/Enrollment/Handlers/Issued.antt =====
-- A code of server/enrollment.go, from its creation to its redemption.
use mesh_alot.Prelude.{
  ap, ℕ, ◌≡◌, refl, Bool, true, false, Option, none, some, List, [], ◌∷◌, ◌==◌, arith, All,
}
use mesh_alot.Prelude.Int.{ltb_ℤ, ◌+ℤ◌}
use mesh_alot.Prelude.Text.{Text, trim_space, text_eq_iff}
use mesh_alot.Prelude.Time.{Instant}
use mesh_alot.Server.RateLimit.{Rate, allow_secure_enrollment}
use mesh_alot.Server.Database.{
  insert_status, TokenRow, Database, StoreError, Faults, find_node, key_taken,
}
use mesh_alot.Server.Enrollment.{
  consume, new_node, new_token, create_enrollment_token, check_quota, insert_token, find_live,
  count_taken, bind_node, finish_redemption, redeem_steps, redeem_enrollment_token,
}
use mesh_alot.Server.Enrollment.Handlers.{
  Codecs, SecureEnrollRequest, Reply, limited, decoded, code_reply, code_created, enrolled,
  enrollment_code, hash_enrollment_code, enrollment_code_lifetime, trimmed, bad_enrollment,
  issue_enrollment_code, redeem_request, secure_enroll,
}

created-tokens :
    (fault : Faults) (now : Instant) (fresh user : ℕ) (hash : Text) (expires : Instant)
    (db : Database)
    → (create_enrollment_token fault now fresh user hash expires db).0 ≡ none
    → (create_enrollment_token fault now fresh user hash expires db).1
      ≡ record db { tokens = new_token fresh user hash expires ∷ db.tokens }
unfolding create_enrollment_token check_quota insert_token
created-tokens fault now fresh user hash expires db h = ground (arith, h)

untaken : (id : ℕ) (ts : List TokenRow) → All (λ t. (t.id == id) ≡ false) ts → count_taken id ts ≡ 0
unfolding count_taken
untaken id [] a = refl
untaken id (t ∷ ts) a = ground (arith, a.0, untaken id ts a.1)

unconsumed :
    (id node : ℕ) (now : Instant) (ts : List TokenRow)
    → All (λ t. (t.id == id) ≡ false) ts
    → consume id node now ts ≡ ts
unfolding consume
unconsumed id node now [] a = refl
unconsumed id node now (t ∷ ts) a = ground (arith, a.0, unconsumed id node now ts a.1)

-- The tables after a new node has redeemed the newest code.
abbrev pub enrolled_database :
    Instant → ℕ → ℕ → ℕ → Text → Text → Text → Text → Instant → Database → Database
enrolled_database now id fresh user hash key public_key version expires db = record db {
  nodes = new_node fresh user key version public_key ∷ db.nodes;
  statuses = insert_status fresh now db.statuses;
  tokens =
      record (new_token id user hash expires) {
        consumed_at = some now;
        consumed_node_id = some fresh;
      }
      ∷ db.tokens;
}

module _ (fault : Faults) (now : Instant) (id fresh user : ℕ) (hash key public_key version : Text)
    (expires : Instant) (db : Database) where
  redeemed_new :
      ((i : ℕ) → fault i ≡ false)
      → ltb_ℤ now expires ≡ true
      → All (λ t. (t.id == id) ≡ false) db.tokens
      → find_node key db.nodes ≡ none
      → key_taken fresh public_key db.nodes ≡ false
      → redeem_enrollment_token fault now fresh hash key public_key version
          (record db { tokens = new_token id user hash expires ∷ db.tokens })
        ≡ (none, enrolled_database now id fresh user hash key public_key version expires db)
  unfolding redeem_enrollment_token redeem_steps find_live bind_node finish_redemption count_taken
      consume
  redeemed_new calm live unused absent free = ground (
    arith,
    calm 0,
    calm 1,
    calm 2,
    calm 3,
    calm 4,
    calm 5,
    calm 6,
    calm 7,
    live,
    absent,
    free,
    untaken id db.tokens unused,
    unconsumed id fresh now db.tokens unused,
    (text_eq_iff hash hash).1 refl,
  )

code_reply-none :
    (code : Text) (expires : Instant) (e : Option StoreError)
    → code_reply code expires e ≡ code_created code expires
    → e ≡ none
code_reply-none code expires none h = refl
code_reply-none code expires (some e) h = ground (arith, h)

limited_allowed :
    (c : Codecs) (fault : Faults) (now : Instant) (fresh : ℕ) (body : Option SecureEnrollRequest)
    (db : Database) (v : Rate × Bool) (reply : Reply) (db' : Database)
    → v.1 ≡ true
    → decoded c fault now fresh body db ≡ (reply, db')
    → limited c fault now fresh body db v ≡ (reply, v.0, db')
limited_allowed c fault now fresh body db (rate, true) reply db' h e =
    ap (λ (z : Reply × Database). (z.0, rate, z.1)) e
limited_allowed c fault now fresh body db (rate, false) reply db' h e = ground (arith, h)

redeem_request-enrolled :
    (c : Codecs) (fault : Faults) (now : Instant) (fresh : ℕ) (q : SecureEnrollRequest)
    (db db' : Database)
    → bad_enrollment c q ≡ false
    → redeem_enrollment_token fault now fresh
        (hash_enrollment_code c q.enrollment_code)
        q.node_id
        q.public_key
        q.agent_version
        db
      ≡ (none, db')
    → redeem_request c fault now fresh q db ≡ (enrolled q.node_id, db')
unfolding redeem_request
redeem_request-enrolled c fault now fresh q db db' fine h = rw fine (rw h refl)

module _ (c : Codecs) (fault : Faults) (now : Instant) (id user : ℕ) (raw : Text)
    (db : Database) where
  abbrev pub code : Text
  code = enrollment_code c raw

  abbrev pub expires : Instant
  expires = now +ℤ enrollment_code_lifetime

  abbrev pub issued : Reply × Database
  issued = issue_enrollment_code c true fault now id user (some raw) db

  issued-tokens :
      issued.0 ≡ code_created code expires
      → issued.1
        ≡ record db { tokens = new_token id user (hash_enrollment_code c code) expires ∷ db.tokens }
  unfolding issue_enrollment_code
  issued-tokens h =
      created-tokens fault now id user (hash_enrollment_code c code) expires db
        (code_reply-none code expires _ h)

  -- A code that the handler answers enrols a node whose request reaches the service before the code
  -- ends, under the rate limit and with the code as it was given out, if the request is well formed,
  -- its node and its public key are new, the number of the token row was free and no statement of
  -- the redemption fails: the reply names the node, and stored are the node with the owner of the
  -- code and the key of the request, its status, and the code as consumed by it.
  pub issued_code-enrolls :
      issued.0 ≡ code_created code expires
      → (later : Faults) (now' : Instant) (fresh : ℕ) (r : SecureEnrollRequest) (rate : Rate)
      → ((i : ℕ) → later i ≡ false)
      → (allow_secure_enrollment rate now').1 ≡ true
      → bad_enrollment c (trimmed r) ≡ false
      → trim_space r.enrollment_code ≡ code
      → ltb_ℤ now' expires ≡ true
      → All (λ t. (t.id == id) ≡ false) db.tokens
      → find_node (trim_space r.node_id) db.nodes ≡ none
      → key_taken fresh (trim_space r.public_key) db.nodes ≡ false
      → secure_enroll c true later now' fresh (some r) rate issued.1 ≡ (
        enrolled (trim_space r.node_id),
        (allow_secure_enrollment rate now').0,
        enrolled_database now' id fresh user
            (hash_enrollment_code c code)
            (trim_space r.node_id)
            (trim_space r.public_key)
            (trim_space r.agent_version)
            expires
            db,
      )
  unfolding secure_enroll
  issued_code-enrolls h later now' fresh r rate calm allowed fine same live unused absent free =
      let after =
        enrolled_database now' id fresh user (hash_enrollment_code c code) (trim_space r.node_id)
          (trim_space r.public_key) (trim_space r.agent_version) expires db in
      limited_allowed c later now' fresh (some r) issued.1 (allow_secure_enrollment rate now')
        (enrolled (trim_space r.node_id)) after allowed
        (redeem_request-enrolled c later now' fresh (trimmed r) issued.1 after fine (
          rw same (
            rw (issued-tokens h) (
              redeemed_new later now' id fresh user (hash_enrollment_code c code)
                (trim_space r.node_id) (trim_space r.public_key) (trim_space r.agent_version)
                expires db calm live unused absent free))))
