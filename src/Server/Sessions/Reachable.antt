-- ===== src/Server/Sessions/Reachable.antt =====
-- The states that the requests of server/auth.go lead to, in any order and with any failures.
use mesh_alot.Prelude.{
  ◌⊎◌, ◌≡◌, refl, sym, ap, ◌∙◌, true, false, ◌&&◌, Option, none, some, List, [], ◌∷◌, arith,
  Bool-cases, inl, inr, if◌then◌else◌, All,
}
use mathlib.Core.Path.{subst}
use mesh_alot.Prelude.Int.{ltb_ℤ, ◌+ℤ◌}
use mesh_alot.Prelude.Text.{Text, text_eq, text_eq_iff, trim_space}
use mesh_alot.Prelude.Time.{Instant}
use mesh_alot.Prelude.Outcome.{ok}
use mesh_alot.Server.Database.{Faults}
use mesh_alot.Server.Sessions.{
  UserRow, Reply, SessionRow, Accounts, LoginRequest, signed_in, session_lifetime, find_user,
  find_session, without, Primitives, hash_session_token, login, logout, require_session,
}
use mesh_alot.Server.Sessions.Lifecycle.{
  IsKeyed, account-user, login-cases, login-eq-ok, require-eq-ok,
}

module _ (p : Primitives) where
  -- A request that can change the sessions; `requireSession` only reads them.
  pub data Step (a b : Accounts) : Type 0 where
    by_login :
        (fault : Faults) (now : Instant) (random : Option Text) (body : Option LoginRequest)
        → b ≡ (login p true fault now random body a).1
        → Step a b
    by_logout :
        (fault : Faults) (cookie : Option Text) → b ≡ (logout p true fault cookie a).1 → Step a b

  pub data Reach (start : Accounts) : Accounts → Type 0 where
    here : Reach start start
    next : {a b : Accounts} → Reach start a → Step a b → Reach start b

  -- A login on this way, at this time, that was answered with a session for the user and a token of
  -- this hash.
  abbrev pub HasSignIn : {start a : Accounts} → Reach start a → UserRow → Instant → Text → Type 0
  HasSignIn here u at hash = ⊥
  HasSignIn (next {a = a} way (by_login fault now random body e)) u at hash =
      ((token : Text) × ((login p true fault now random body a).0 ≡ signed_in u token)
        × (hash_session_token p token ≡ hash)
        × (at ≡ now))
      ⊎ HasSignIn way u at hash
  HasSignIn (next way (by_logout fault cookie e)) u at hash = HasSignIn way u at hash

  IsMade : {start a : Accounts} → Reach start a → SessionRow → Type 0
  IsMade {start = start} way s =
      (u : UserRow) × (now : Instant) × (find_user s.user_id start.users ≡ some u)
      × (s.expires_at ≡ now +ℤ session_lifetime)
      × HasSignIn way u now s.token_hash

  IsRecorded : {start a : Accounts} → Reach start a → List SessionRow → Type 0
  IsRecorded way ss = All (IsMade way) ss

  All-without :
      (P : SessionRow → Type 0) (hash : Text) (ss : List SessionRow)
      → All P ss
      → All P (without hash ss)
  unfolding without
  All-without P hash [] a = tt
  All-without P hash (s ∷ ss) a =
      elim (text_eq s.token_hash hash)
        as (λ b. All P (if b then without hash ss else s ∷ without hash ss)) [
          | true ↦ All-without P hash ss a.1
          | false ↦ (a.0, All-without P hash ss a.1)
        ]

  find-All :
      (P : SessionRow → Type 0) (hash : Text) (now : Instant) (ss : List SessionRow)
      (s : SessionRow)
      → All P ss
      → find_session hash now ss ≡ some s
      → P s × (s.token_hash ≡ hash) × (ltb_ℤ now s.expires_at ≡ true)
  unfolding find_session
  find-All P hash now [] s a h = absurd (cc)
  find-All P hash now (x ∷ xs) s a h =
      elim (Bool-cases (text_eq x.token_hash hash && ltb_ℤ now x.expires_at)) [
        | inl fits ↦
            let same : x ≡ s = ground (arith, h, fits) in
            let hashed : text_eq x.token_hash hash ≡ true = ground (arith, fits) in
            subst (λ z. P z × (z.token_hash ≡ hash) × (ltb_ℤ now z.expires_at ≡ true)) same
              (a.0, (text_eq_iff x.token_hash hash).0 hashed, ground (arith, fits))
        | inr misses ↦ find-All P hash now xs s a.1 (ground (arith, h, misses))
      ]

  logout-cases :
      (fault : Faults) (cookie : Option Text) (a : Accounts)
      → ((logout p true fault cookie a).1 ≡ a)
        ⊎ ((hash : Text) × ((logout p true fault cookie a).1
              ≡ record a { sessions = without hash a.sessions }))
  unfolding logout
  logout-cases fault none a = inl refl
  logout-cases fault (some cookie) a = elim (Bool-cases (fault 0)) [
    | inl failed ↦ inl (ground (arith, failed))
    | inr calm ↦ inr (hash_session_token p cookie, ground (arith, calm))
  ]

  -- What was made on a way was made on a longer one.
  later-IsMade :
      {start a b : Accounts} (way : Reach start a) (step : Step a b) (s : SessionRow)
      → IsMade way s
      → IsMade (next way step) s
  unfolding IsMade
  later-IsMade way (by_login fault now random body e) s (u, at, known, expires, made) =
      (u, at, known, expires, inr made)
  later-IsMade way (by_logout fault cookie e) s (u, at, known, expires, made) =
      (u, at, known, expires, made)

  later-IsRecorded :
      {start a b : Accounts} (way : Reach start a) (step : Step a b) (ss : List SessionRow)
      → IsRecorded way ss
      → IsRecorded (next way step) ss
  unfolding IsRecorded
  later-IsRecorded way step [] r = tt
  later-IsRecorded way step (s ∷ ss) r =
      (later-IsMade way step s r.0, later-IsRecorded way step ss r.1)

  logout-IsRecorded :
      {start a b : Accounts} (way : Reach start a) (step : Step a b) (fault : Faults)
      (cookie : Option Text)
      → b ≡ (logout p true fault cookie a).1
      → (a.users ≡ start.users) × IsRecorded way a.sessions
      → (b.users ≡ start.users) × IsRecorded (next way step) b.sessions
  unfolding IsRecorded
  logout-IsRecorded {start = start} {a = a} way step fault cookie e r =
      elim (logout-cases fault cookie a) [
        | inl same ↦
            subst
              (λ (z : Accounts). (z.users ≡ start.users) × All (IsMade (next way step)) z.sessions)
              (sym (e ∙ same)) (r.0, later-IsRecorded way step a.sessions r.1)
        | inr (hash, after) ↦
            subst
              (λ (z : Accounts). (z.users ≡ start.users) × All (IsMade (next way step)) z.sessions)
              (sym (e ∙ after))
              (
                r.0,
                All-without (IsMade (next way step)) hash a.sessions
                    (later-IsRecorded way step a.sessions r.1),
              )
      ]

  login-IsRecorded :
      {start a b : Accounts} (way : Reach start a) (fault : Faults) (now : Instant)
      (random : Option Text) (body : Option LoginRequest)
      (e : b ≡ (login p true fault now random body a).1)
      → IsKeyed start.users
      → (a.users ≡ start.users) × IsRecorded way a.sessions
      → (b.users ≡ start.users)
        × IsRecorded (next way (by_login fault now random body e)) b.sessions
  unfolding IsRecorded IsMade
  login-IsRecorded {start = start} {a = a} {b = b} way fault now random body e k r =
      let step : Step a b = by_login fault now random body e in
      elim (login-cases p fault now random body a) [
        | inl same ↦
            subst
              (λ (z : Accounts). (z.users ≡ start.users) × All (IsMade (next way step)) z.sessions)
              (sym (e ∙ same)) (r.0, later-IsRecorded way step a.sessions r.1)
        | inr (u, token, done) ↦
            let c = (login p true fault now random body a).1 in
            let (req, found, free, after) = login-eq-ok p fault now random body a c u token done in
            let keyed : IsKeyed a.users = rw r.0 k in
            let known =
              account-user p.lower p.crypt (trim_space req.email) req.password a.users u keyed
                found in
            let row : SessionRow = record {
              user_id = u.id;
              token_hash = hash_session_token p token;
              expires_at = now +ℤ session_lifetime;
            } in
            let made : IsMade (next way step) row = (
              u,
              now,
              subst (λ us. find_user u.id us ≡ some u) r.0 known,
              refl,
              inl (token, ap (λ (z : Reply × Accounts). z.0) done, refl, refl),
            ) in
            subst
              (λ (z : Accounts). (z.users ≡ start.users) × All (IsMade (next way step)) z.sessions)
              (sym (e ∙ after)) (r.0, (made, later-IsRecorded way step a.sessions r.1))
      ]

  Reach-IsRecorded :
      {start a : Accounts} (way : Reach start a)
      → IsKeyed start.users
      → start.sessions ≡ []
      → (a.users ≡ start.users) × IsRecorded way a.sessions
  unfolding IsRecorded
  Reach-IsRecorded {start = start} here k empty = (refl, subst (All (IsMade here)) (sym empty) tt)
  Reach-IsRecorded (next way (by_login fault now random body e)) k empty =
      login-IsRecorded way fault now random body e k (Reach-IsRecorded way k empty)
  Reach-IsRecorded (next way (by_logout fault cookie e)) k empty =
      logout-IsRecorded way (by_logout fault cookie e) fault cookie e (Reach-IsRecorded way k empty)

-- From users with unique ids and no sessions, after any sequence of logins and logouts, whatever
-- statements fail: if `requireSession` lets a request through for a user, then one of the logins of
-- this very sequence was answered with a session of this user whose token has the hash of the
-- request's cookie, less than twelve hours before the request.
pub admitted-signed_in :
    (p : Primitives) (start a : Accounts) (fault : Faults) (now : Instant) (cookie : Text)
    (u : UserRow)
    → IsKeyed start.users
    → start.sessions ≡ []
    → (way : Reach p start a) → require_session p true fault now (some cookie) a ≡ ok u
    → (at : Instant) × HasSignIn p way u at (hash_session_token p cookie)
      × (ltb_ℤ now (at +ℤ session_lifetime) ≡ true)
unfolding IsRecorded IsMade
admitted-signed_in p start a fault now cookie u k empty way h =
    let recorded = Reach-IsRecorded p way k empty in
    let (s, found, user) = require-eq-ok p fault now cookie a u h in
    let ((v, at, known, expires, sign_in), hashed, live) =
      find-All p (IsMade p way) (hash_session_token p cookie) now a.sessions s recorded.1 found in
    let same : v ≡ u = ground (arith, known, user, recorded.0) in
    (
      at,
      subst (λ z. HasSignIn p way z at (hash_session_token p cookie)) same
          (subst (λ z. HasSignIn p way v at z) hashed sign_in),
      ground (arith, live, expires),
    )
