-- ===== src/Server/Sessions/Lifecycle.antt =====
-- The life of a session of server/auth.go, from the login that makes it to its end.
use mesh_alot.Prelude.{
  ◌⊎◌, ◌≡◌, refl, ap, true, false, ◌&&◌, Option, none, some, List, [], ◌∷◌, arith, Bool-cases, inl,
  inr, if◌then◌else◌, ◌==◌, All, is_empty,
}
use mathlib.Core.Path.{subst}
use mesh_alot.Prelude.Int.{ltb_ℤ, ◌+ℤ◌}
use mesh_alot.Prelude.Text.{Text, text_eq, text_eq_iff, trim_space}
use mesh_alot.Prelude.Time.{Instant}
use mesh_alot.Prelude.Outcome.{Outcome, ok, err}
use mesh_alot.Server.Database.{Faults}
use mesh_alot.Server.Submission.{Status, unauthorized, unavailable, database_error}
use mesh_alot.Server.Sessions.{
  UserRow, SessionRow, Accounts, LoginRequest, Reply, signed_in, signed_out, session_lifetime,
  find_account, find_user, has_session, password_agrees, find_session, without, Primitives,
  hash_session_token, login_steps, finish_login, login, logout, require_session,
}

-- The primary key of `users`.
abbrev pub IsKeyed : List UserRow → Type 0
IsKeyed [] = Unit
IsKeyed (u ∷ us) = All (λ v. (v.id == u.id) ≡ false) us × IsKeyed us

account-All :
    (P : UserRow → Type 0) (lower : Text → Text) (crypt : Text → Text → Text)
    (email password : Text) (us : List UserRow) (u : UserRow)
    → All P us
    → find_account lower crypt email password us ≡ some u
    → P u
unfolding find_account
account-All P lower crypt email password [] u a h = absurd (cc)
account-All P lower crypt email password (v ∷ us) u a h =
    ground (arith, account-All P lower crypt email password us u, a)

pub account-user :
    (lower : Text → Text) (crypt : Text → Text → Text) (email password : Text) (us : List UserRow)
    (u : UserRow)
    → IsKeyed us
    → find_account lower crypt email password us ≡ some u
    → find_user u.id us ≡ some u
unfolding find_account find_user
account-user lower crypt email password [] u k h = cc
account-user lower crypt email password (v ∷ us) u k h =
    let test =
      text_eq (lower v.email) (lower email) && password_agrees crypt password v.password_hash in
    elim (Bool-cases test) [
      | inl here ↦ ground (arith, h, here)
      | inr there ↦
          let h' : find_account lower crypt email password us ≡ some u = ground (arith, h, there) in
          let apart =
            account-All (λ w. (w.id == v.id) ≡ false) lower crypt email password us u k.0 h' in
          ground (arith, account-user lower crypt email password us u k.1 h', apart)
    ]

unheld-find :
    (hash : Text) (now : Instant) (ss : List SessionRow)
    → has_session hash ss ≡ false
    → find_session hash now ss ≡ none
unfolding has_session find_session
unheld-find hash now [] h = refl
unheld-find hash now (s ∷ ss) h = ground (arith, unheld-find hash now ss)

find-without :
    (hash other : Text) (now : Instant) (ss : List SessionRow)
    → find_session other now (without hash ss)
      ≡ (if text_eq hash other then none else find_session other now ss)
unfolding find_session without
find-without hash other now [] = ground arith
find-without hash other now (s ∷ ss) = elim (Bool-cases (text_eq s.token_hash hash)) [
  | inl same ↦
      let known : s.token_hash ≡ hash = (text_eq_iff s.token_hash hash).0 same in
      ground (arith, find-without hash other now ss, same, ap (λ h. text_eq h other) known)
  | inr different ↦ elim (Bool-cases (text_eq hash other)) [
    | inl here ↦
        let known : hash ≡ other = (text_eq_iff hash other).0 here in
        let apart : text_eq s.token_hash other ≡ false =
          subst (λ h. text_eq s.token_hash h ≡ false) known different in
        ground (arith, find-without hash other now ss, different, apart, here)
    | inr there ↦ ground (arith, find-without hash other now ss, different, there)
  ]
]

-- What a request with this cookie gets when no session has it.
abbrev pub without_session : Faults → Text → Outcome Status UserRow
without_session fault cookie =
    if is_empty cookie
    then err unauthorized
    else if fault 0
    then err unavailable
    else err unauthorized

require-none :
    (p : Primitives) (fault : Faults) (now : Instant) (cookie : Text) (a : Accounts)
    → find_session (hash_session_token p cookie) now a.sessions ≡ none
    → require_session p true fault now (some cookie) a ≡ without_session fault cookie
unfolding require_session database_error
require-none p fault now cookie a h = ground (arith, h)

require-cong :
    (p : Primitives) (fault : Faults) (now : Instant) (cookie : Text) (a a' : Accounts)
    → a'.users ≡ a.users
    → find_session (hash_session_token p cookie) now a'.sessions
      ≡ find_session (hash_session_token p cookie) now a.sessions
    → require_session p true fault now (some cookie) a'
      ≡ require_session p true fault now (some cookie) a
unfolding require_session
require-cong p fault now cookie a a' users found = ground (arith, users, found)

-- Once a logout with a cookie is answered by 204, every request with a cookie of the same hash is
-- refused, whenever it comes: with 401, or with 503 if the statement fails. A request with any other
-- cookie gets what it got before the logout.
pub logout-ends :
    (p : Primitives) (fault : Faults) (cookie : Text) (a a' : Accounts) (fault' : Faults)
    (now' : Instant) (cookie' : Text)
    → logout p true fault (some cookie) a ≡ (signed_out, a')
    → require_session p true fault' now' (some cookie') a' ≡ (
        if text_eq (hash_session_token p cookie) (hash_session_token p cookie')
        then without_session fault' cookie'
        else require_session p true fault' now' (some cookie') a)
unfolding logout
logout-ends p fault cookie a a' fault' now' cookie' h =
    let hash = hash_session_token p cookie in
    let other = hash_session_token p cookie' in
    let rows : a'.sessions ≡ without hash a.sessions = ground (arith, h) in
    let users : a'.users ≡ a.users = ground (arith, h) in
    let left = find-without hash other now' a.sessions in
    elim (Bool-cases (text_eq hash other)) [
      | inl same ↦
          let none_left =
            require-none p fault' now' cookie' a' (ground (arith, rows, left, same)) in
          ground (arith, same, none_left)
      | inr apart ↦
          let kept =
            require-cong p fault' now' cookie' a a' users (ground (arith, rows, left, apart)) in
          ground (arith, apart, kept)
    ]

finish_login-ok :
    (a a' : Accounts) (o : Outcome Status (UserRow × Text × Accounts)) (u : UserRow) (token : Text)
    → finish_login a o ≡ (signed_in u token, a')
    → o ≡ ok (u, token, a')
finish_login-ok a a' (err status) u token h =
    absurd (ground (arith, ap (λ (r : Reply × Accounts). r.0) h))
finish_login-ok a a' (ok (v, t, b)) u token h = ground (arith, h)

-- What a login that succeeds has done.
pub login-eq-ok :
    (p : Primitives) (fault : Faults) (now : Instant) (random : Option Text)
    (body : Option LoginRequest) (a a' : Accounts) (u : UserRow) (token : Text)
    → login p true fault now random body a ≡ (signed_in u token, a')
    → (req : LoginRequest) × (find_account p.lower p.crypt
          (trim_space req.email)
          req.password
          a.users
        ≡ some u)
      × (has_session (hash_session_token p token) a.sessions ≡ false)
      × (a' ≡ record a {
        sessions =
            record {
              user_id = u.id;
              token_hash = hash_session_token p token;
              expires_at = now +ℤ session_lifetime;
            }
            ∷ a.sessions;
      })
unfolding login login_steps
login-eq-ok p fault now random none a a' u token h =
    absurd (ground (arith, ap (λ (r : Reply × Accounts). r.0) h))
login-eq-ok p fault now random (some req) a a' u token h =
    let steps = finish_login-ok a a' (login_steps p fault now random (some req) a) u token h in
    (req, ground (arith, steps), ground (arith, steps), ground (arith, steps))

-- A login on users with unique ids opens a session for its cookie, if that is not empty: whenever a
-- request comes with this cookie, it is let through for the user who signed in if it is less than
-- twelve hours after the login, and refused with 401 otherwise, or with 503 if the statement fails.
pub login-opens :
    (p : Primitives) (fault : Faults) (now : Instant) (random : Option Text)
    (body : Option LoginRequest) (a a' : Accounts) (u : UserRow) (token : Text) (fault' : Faults)
    (now' : Instant)
    → IsKeyed a.users
    → login p true fault now random body a ≡ (signed_in u token, a')
    → is_empty token ≡ false
    → require_session p true fault' now' (some token) a' ≡ (
        if fault' 0
        then err unavailable
        else if ltb_ℤ now' (now +ℤ session_lifetime)
        then ok u
        else err unauthorized)
unfolding require_session find_session database_error
login-opens p fault now random body a a' u token fault' now' k h set =
    let (req, found, free, after) = login-eq-ok p fault now random body a a' u token h in
    let known =
      account-user p.lower p.crypt (trim_space req.email) req.password a.users u k found in
    let hash = hash_session_token p token in
    let others = unheld-find hash now' a.sessions free in
    ground (arith, after, known, others, set, (text_eq_iff hash hash).1 refl)

-- A login answered by anything else leaves users and sessions as they were.
pub login-cases :
    (p : Primitives) (fault : Faults) (now : Instant) (random : Option Text)
    (body : Option LoginRequest) (a : Accounts)
    → ((login p true fault now random body a).1 ≡ a)
      ⊎ ((u : UserRow) × (token : Text) × (login p true fault now random body a
            ≡ (signed_in u token, (login p true fault now random body a).1)))
unfolding login
login-cases p fault now random body a =
    elim (login_steps p fault now random body a)
      as (λ o.
        ((finish_login a o).1 ≡ a)
        ⊎ ((u : UserRow) × (token : Text) × (finish_login a o
              ≡ (signed_in u token, (finish_login a o).1)))) [
                | err status ↦ inl refl
                | ok (u, token, b) ↦ inr (u, token, refl)
              ]

-- What a request that is let through rests on.
pub require-eq-ok :
    (p : Primitives) (fault : Faults) (now : Instant) (cookie : Text) (a : Accounts) (u : UserRow)
    → require_session p true fault now (some cookie) a ≡ ok u
    → (s : SessionRow) × (find_session (hash_session_token p cookie) now a.sessions ≡ some s)
      × (find_user s.user_id a.users ≡ some u)
unfolding require_session
require-eq-ok p fault now cookie a u h =
    elim (find_session (hash_session_token p cookie) now a.sessions)
        as (λ f.
          find_session (hash_session_token p cookie) now a.sessions ≡ f
          → (s : SessionRow) × (f ≡ some s) × (find_user s.user_id a.users ≡ some u)) [
            | none ↦ λ e. absurd (ground (arith, e, h))
            | some s ↦ λ e. (s, refl, ground (arith, e, h))
          ]
      refl
