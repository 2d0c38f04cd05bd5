-- ===== src/Agent/Submit/Signed.antt =====
-- What agent/*_submit.go signs, server/inventory.go, server/network_benchmark.go and
-- server/compute_benchmark.go accept.
use mesh_alot.Prelude.{
  ℕ, ◌≡◌, ◌≤◌, ◌∙◌, sym, ap, refl, Bool, true, false, Option, none, some, List, length, is_empty,
  ◌==◌, arith,
}
use mesh_alot.Prelude.Text.{Text, trim_space, text_eq, text_eq_iff}
use mesh_alot.Prelude.Time.{Instant}
use mesh_alot.Prelude.Outcome.{ok, guard, ok_inj, >>=-eq-ok, >>-eq-ok}
use mesh_alot.Protocol.{Submission}
use mesh_alot.Server.Uuid.{valid_uuid_v4}
use mesh_alot.Server.Database.{NodeRow, Database, Faults, find_node}
use mesh_alot.Server.Submission.{
  accepted, Kind, max_body, put_row, row_of, rows_of, uuid_bytes, has_report, verify_signature,
  submit,
}
use mesh_alot.Server.Submission.Accepted.{IsAccepted-submit}
use mesh_alot.Agent.Submit.{
  SubmitError, bad_version, bad_node_id, bad_public_key, bad_private_key, keys_differ, bad_schema,
  no_random, not_encoded, Identity, Keys, Signing, given, key_of_length, validate_identity,
  submission_of, build_signed_submission,
}

-- What the code relies on of base64 and Ed25519: a text is decoded to what was encoded, and has no
-- spaces around it; the signatures of a key that `new_key`, for `NewKeyFromSeed`, makes of a seed have
-- 64 bytes and are verified with its public half. Nothing is asked of other private keys.
pub record IsSigner (k : Keys) (new_key : Text → Text) (verify : Text → Text → Text → Bool)
    : Type 0 where
  pub decodes : (t : Text) → k.base64 (k.encode t) ≡ some t
  pub trimmed : (t : Text) → trim_space (k.encode t) ≡ k.encode t
  pub signs_64 : (seed m : Text) → length seed ≡ 32 → length (k.sign (new_key seed) m) ≡ 64
  pub verifies :
      (seed m : Text)
      → length seed ≡ 32
      → verify (k.public_of (new_key seed)) m (k.sign (new_key seed) m) ≡ true

-- The private key of an identity is one that was made from a seed, as `generateIdentity` makes it.
abbrev pub IsGenerated : Keys → (Text → Text) → Identity → Type 0
IsGenerated k new_key i =
    (seed : Text) × (length seed ≡ 32) × (k.base64 i.private_key ≡ some (new_key seed))

pub given-eq-ok {κ} :
    {A : Type κ} {a : A} (e : SubmitError) (o : Option A) → given e o ≡ ok a → o ≡ some a
given-eq-ok e none h = cc
given-eq-ok e (some b) h = ap some (ok_inj {E = SubmitError} h)

pub guard-true : (test : Bool) (e : SubmitError) → guard test e ≡ ok tt → test ≡ true
guard-true true e h = refl
guard-true false e h = cc

key_lem :
    (k : Keys) (n : ℕ) (value : Text) (e : SubmitError) (raw : Text)
    → key_of_length k n value e ≡ ok raw
    → (k.base64 value ≡ some raw) × (length raw ≡ n)
key_lem k n value e raw h =
    let (bytes, decoded, h1) = >>=-eq-ok (given e (k.base64 value)) _ h in
    let (size, h2) = >>-eq-ok (guard (length bytes == n) e) _ h1 in
    let same : bytes ≡ raw = ok_inj {E = SubmitError} h2 in
    let exact = guard-true _ _ size in
    (given-eq-ok e _ decoded ∙ ap some same, rw (sym same) (ground (arith, exact)))

identity_lem :
    (k : Keys) (i : Identity)
    → validate_identity k i ≡ ok tt
    → (private : Text) × (k.base64 i.private_key ≡ some private)
      × (k.base64 i.public_key ≡ some (k.public_of private))
      × (length (k.public_of private) ≡ 32)
unfolding validate_identity
identity_lem k i h =
    let (v, h1) = >>-eq-ok (guard (i.version == 1) bad_version) _ h in
    let (u, h2) = >>-eq-ok (guard (valid_uuid_v4 i.node_id) bad_node_id) _ h1 in
    let (public, a, h3) = >>=-eq-ok (key_of_length k 32 i.public_key bad_public_key) _ h2 in
    let (private, b, h4) = >>=-eq-ok (key_of_length k 64 i.private_key bad_private_key) _ h3 in
    let (same, h5) = >>-eq-ok (guard (text_eq public (k.public_of private)) keys_differ) _ h4 in
    let equal : public ≡ k.public_of private = (text_eq_iff _ _).0 (guard-true _ _ same) in
    let (pub_decoded, pub_size) = key_lem k 32 i.public_key bad_public_key public a in
    (
      private,
      (key_lem k 64 i.private_key bad_private_key private b).0,
      pub_decoded ∙ ap some equal,
      rw (sym equal) pub_size,
    )

-- What a submission that has been built consists of.
pub record IsBuilt {ℓ} {B : Type ℓ} (k : Keys) (g : Signing B) (i : Identity) (s : Submission B)
    (body signature : Text) : Type ℓ where
  pub node : s.node_id ≡ i.node_id
  pub marshaled : g.marshal s ≡ some body
  pub private : Text
  pub private_decoded : k.base64 i.private_key ≡ some private
  pub private_size : length private ≡ 64
  pub public_decoded : k.base64 i.public_key ≡ some (k.public_of private)
  pub public_size : length (k.public_of private) ≡ 32
  pub signed : signature ≡ k.encode (k.sign private (g.signing_message body))

some_inj : {a b : Text} → some a ≡ some b → a ≡ b
some_inj {a = a} q = ap (λ o. elim o [ none ↦ a | some z ↦ z ]) q

module _ {ℓ} {B : Type ℓ} (k : Keys) (g : Signing B) (i : Identity) (random : Option (List ℕ))
    (benchmark : B) (now : Instant) (s : Submission B) (body signature : Text) where
  pub build_signed_submission-IsBuilt :
      build_signed_submission k g i random benchmark now ≡ ok (s, body, signature)
      → IsBuilt k g i s body signature
  unfolding build_signed_submission submission_of
  build_signed_submission-IsBuilt h =
      let (valid, h1) = >>-eq-ok (validate_identity k i) _ h in
      let (schema, h2) =
        >>-eq-ok (guard (text_eq (g.schema_of benchmark) g.schema_version) bad_schema) _ h1 in
      let (raw, drawn, h3) = >>=-eq-ok (given no_random random) _ h2 in
      let built : Submission B = submission_of g i raw benchmark now in
      let (bytes, encoded, h4) = >>=-eq-ok (given not_encoded (g.marshal built)) _ h3 in
      let (private, decoded, h5) =
        >>=-eq-ok (key_of_length k 64 i.private_key bad_private_key) _ h4 in
      let triple : ◌≡◌ {A = Submission B × Text × Text}
          (built, bytes, k.encode (k.sign private (g.signing_message bytes))) (s, body, signature) =
        ok_inj {E = SubmitError} h5 in
      let same_s : built ≡ s = ap (λ (p : Submission B × Text × Text). p.0) triple in
      let same_b : bytes ≡ body = ap (λ (p : Submission B × Text × Text). p.1) triple in
      let (read, size) = key_lem k 64 i.private_key bad_private_key private decoded in
      let (other, read_again, public, public_size) = identity_lem k i valid in
      let one : other ≡ private = some_inj (sym read_again ∙ read) in
      record {
        node = ap (λ (x : Submission B). x.node_id) (sym same_s);
        marshaled = rw (sym same_s) (given-eq-ok not_encoded _ encoded ∙ ap some same_b);
        private = private;
        private_decoded = read;
        private_size = size;
        public_decoded = public ∙ ap (λ p. some (k.public_of p)) one;
        public_size = ap (λ p. length (k.public_of p)) (sym one) ∙ public_size;
        signed =
            sym (ap (λ (p : Submission B × Text × Text). p.2) triple)
            ∙ ap (λ b. k.encode (k.sign private (g.signing_message b))) same_b;
      }

  -- The signature that the agent makes is one that the server verifies with the agent's public key.
  built-verify_signature :
      (new_key : Text → Text) (verify : Text → Text → Text → Bool)
      → IsSigner k new_key verify
      → IsGenerated k new_key i
      → trim_space i.public_key ≡ i.public_key
      → IsBuilt k g i s body signature
      → verify_signature k.base64 verify i.public_key signature (g.signing_message body) ≡ true
  unfolding verify_signature
  built-verify_signature new_key verify is (seed, seed_size, generated) stored b =
      let message = g.signing_message body in
      let text = k.sign (new_key seed) message in
      let same : b.private ≡ new_key seed = some_inj (sym b.private_decoded ∙ generated) in
      let signed : signature ≡ k.encode text =
        b.signed ∙ ap (λ z. k.encode (k.sign z message)) same in
      let public : k.base64 i.public_key ≡ some (k.public_of (new_key seed)) =
        b.public_decoded ∙ ap (λ z. some (k.public_of z)) same in
      let size : length (k.public_of (new_key seed)) ≡ 32 =
        ap (λ z. length (k.public_of z)) (sym same) ∙ b.public_size in
      rw signed (
        rw stored (
          rw (is.trimmed text) (
            rw public (
              rw (is.decodes text) (
                ground (
                  arith,
                  size,
                  is.signs_64 seed message seed_size,
                  is.verifies seed message seed_size,
                ))))))

  -- A submission that the agent builds is accepted by the server: if the server reads from the body
  -- what the agent wrote there and finds it valid, its node is enrolled with the public key of the
  -- agent, which is not empty and has no white space around it, its report id is new and the
  -- database refuses no statement, then the request with the agent's signature is answered
  -- with 201, and its row is stored. The agent's private key was generated from a seed (the check of
  -- an identity does not show this), the body is at most a megabyte, base64 and Ed25519 are as
  -- `IsSigner` says, and both sides sign the same message.
  pub built-submit :
      (new_key : Text → Text) (verify : Text → Text → Text → Bool)
      → IsSigner k new_key verify
      → IsGenerated k new_key i
      → (kind : Kind B) (fault : Faults) (later : Instant) (db : Database) (n : NodeRow)
        (payload : Text)
      → build_signed_submission k g i random benchmark now ≡ ok (s, body, signature)
      → kind.signing_message body ≡ g.signing_message body
      → length body ≤ max_body
      → kind.decode body ≡ some s
      → kind.validate s later ≡ none
      → find_node i.node_id db.nodes ≡ some n
      → n.identity_public_key ≡ some i.public_key
      → trim_space i.public_key ≡ i.public_key
      → is_empty i.public_key ≡ false
      → kind.marshal s.benchmark ≡ some payload
      → has_report (uuid_bytes s.report_id) (rows_of kind.table db) ≡ false
      → fault 0 ≡ false
      → fault 1 ≡ false
      → submit k.base64 verify kind true fault later signature (some body) db ≡ (
        accepted,
        put_row kind.table
            (row_of (uuid_bytes s.report_id) n.id payload (kind.score s.benchmark) later)
            db,
      )
  built-submit new_key verify is made kind fault later db n payload h message fits read valid found
        enrolled stored nonempty marshaled fresh up0 up1 =
      let b = build_signed_submission-IsBuilt h in
      IsAccepted-submit k.base64 verify kind fault later signature body db _ s
        (record {
          fits = fits;
          decoded = read;
          valid = valid;
          node = n;
          found = rw b.node found;
          key = i.public_key;
          enrolled = enrolled;
          signed = rw message (built-verify_signature new_key verify is made stored b);
          payload = payload;
          marshaled = marshaled;
          fresh = fresh;
          stored = refl;
        })
        nonempty up0 up1
