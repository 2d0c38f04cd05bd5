-- ===== src/Server/Sessions.antt =====
-- The sign-in of server/auth.go: users and their sessions, and the handlers that make, test and end
-- a session. The cookie of a request is its value, `none` where the request has none.
pub mod Lifecycle
pub mod Reachable
mod Examples
use mesh_alot.Prelude.{
  ℕ, ◌*◌, Bool, true, false, not, ◌&&◌, ◌||◌, Option, none, some, List, [], ◌∷◌, is_empty, length,
  ltb, ◌==◌, if◌then◌else◌,
}
use mesh_alot.Prelude.Int.{pos, ◌+ℤ◌, ltb_ℤ}
use mesh_alot.Prelude.Text.{Text, text_eq, trim_space}
use mesh_alot.Prelude.Time.{Instant, Duration, minute}
use mesh_alot.Prelude.Outcome.{Outcome, ok, err, ◌>>=◌, ◌>>◌, guard}
use mesh_alot.Server.Uuid.{hex_encode}
use mesh_alot.Server.Database.{Result, StoreError, Faults, statement, no_rows, failure}
use mesh_alot.Server.Submission.{
  Status, bad_request, unauthorized, internal_error, unavailable, database_error,
}

pub record UserRow : Type 0 where
  pub id : ℕ
  pub email : Text
  pub password_hash : Option Text

pub record SessionRow : Type 0 where
  pub user_id : ℕ
  pub token_hash : Text
  pub expires_at : Instant

pub record Accounts : Type 0 where
  pub users : List UserRow
  pub sessions : List SessionRow

pub record LoginRequest : Type 0 where
  pub email : Text
  pub password : Text

-- 200 with a user, and the cookie that is set; 204, which clears the cookie; or an error.
pub data Reply : Type 0 where
  signed_in : UserRow → Text → Reply
  signed_out : Reply
  refused : Status → Reply

abbrev pub session_lifetime : Duration
session_lifetime = pos (12 * 60 * minute)

abbrev pub password_agrees : (Text → Text → Text) → Text → Option Text → Bool
password_agrees crypt password none = false
password_agrees crypt password (some hash) = text_eq hash (crypt password hash)

-- `SELECT id,email FROM users WHERE lower(email)=lower($1) AND …`, with pgcrypto's `crypt`.
unfoldable pub find_account :
    (Text → Text) → (Text → Text → Text) → Text → Text → List UserRow → Option UserRow
find_account lower crypt email password [] = none
find_account lower crypt email password (u ∷ us) =
    if text_eq (lower u.email) (lower email) && password_agrees crypt password u.password_hash
    then some u
    else find_account lower crypt email password us

unfoldable pub find_user : ℕ → List UserRow → Option UserRow
find_user id [] = none
find_user id (u ∷ us) = if u.id == id then some u else find_user id us

unfoldable pub has_session : Text → List SessionRow → Bool
has_session hash [] = false
has_session hash (s ∷ ss) = text_eq s.token_hash hash || has_session hash ss

-- `CreateSession`, where `token_hash` is unique
abbrev pub create_session : Faults → ℕ → Text → Instant → Accounts → Result Accounts
create_session fault user hash expires a = do
  statement fault 1
  guard (not (has_session hash a.sessions)) failure
  ok (record a {
    sessions = record { user_id = user; token_hash = hash; expires_at = expires } ∷ a.sessions;
  })

-- `… user_sessions s JOIN users u … WHERE s.token_hash=$1 AND s.expires_at>now()`
unfoldable pub find_session : Text → Instant → List SessionRow → Option SessionRow
find_session hash now [] = none
find_session hash now (s ∷ ss) =
    if text_eq s.token_hash hash && ltb_ℤ now s.expires_at then some s else find_session hash now ss

abbrev pub user_of : List UserRow → Option SessionRow → Option UserRow
user_of us none = none
user_of us (some s) = find_user s.user_id us

abbrev or_no_rows : Option UserRow → Result UserRow
or_no_rows none = err no_rows
or_no_rows (some u) = ok u

-- `SessionUser`
abbrev pub session_user : Faults → Instant → Text → Accounts → Result UserRow
session_user fault now hash a = do
  statement fault 0
  or_no_rows (user_of a.users (find_session hash now a.sessions))

unfoldable pub without : Text → List SessionRow → List SessionRow
without hash [] = []
without hash (s ∷ ss) =
    let rest = without hash ss in if text_eq s.token_hash hash then rest else s ∷ rest

-- `DeleteSession`
abbrev pub delete_session : Faults → Text → Accounts → Result Accounts
delete_session fault hash a = do
  statement fault 0
  ok (record a { sessions = without hash a.sessions })

-- What the handlers use of other packages: SHA-256, base64 of a URL, the lower case and the password
-- hash of the database.
pub record Primitives : Type 0 where
  pub sha256 : Text → Text
  pub base64_url : Text → Text
  pub lower : Text → Text
  pub crypt : Text → Text → Text

abbrev pub hash_session_token : Primitives → Text → Text
hash_session_token p token = hex_encode (p.sha256 token)

-- The tests of `login` on a request, whose email is trimmed first.
abbrev pub bad_login : Text → Text → Bool
bad_login email password =
    is_empty email || ltb 320 (length email) || is_empty password || ltb 1024 (length password)

abbrev pub or_error {ℓ} : {A : Type ℓ} → Status → Option A → Outcome Status A
or_error status none = err status
or_error status (some a) = ok a

abbrev pub or_database {ℓ} : {A : Type ℓ} → Result A → Outcome Status A
or_database (err e) = err (database_error e)
or_database (ok a) = ok a

abbrev pub authenticate : Primitives → Faults → Text → Text → Accounts → Outcome Status UserRow
authenticate p fault email password a = do
  or_database (statement fault 0)
  or_error unauthorized (find_account p.lower p.crypt email password a.users)

-- The steps of `login`, for the request that was decoded and the 32 random bytes.
unfoldable pub login_steps :
    Primitives
    → Faults
    → Instant
    → Option Text
    → Option LoginRequest
    → Accounts
    → Outcome Status (UserRow × Text × Accounts)
login_steps p fault now random body a = do
  req ← or_error bad_request body
  guard (not (bad_login (trim_space req.email) req.password)) bad_request
  user ← authenticate p fault (trim_space req.email) req.password a
  raw ← or_error internal_error random
  a' ← or_database (
      create_session fault user.id (hash_session_token p (p.base64_url raw))
        (now +ℤ session_lifetime) a)
  ok (user, p.base64_url raw, a')

abbrev pub finish_login : Accounts → Outcome Status (UserRow × Text × Accounts) → Reply × Accounts
finish_login a (err status) = (refused status, a)
finish_login a (ok (user, token, a')) = (signed_in user token, a')

-- `POST /v1/auth/login`; `connected` is false where the service has no database.
unfoldable pub login :
    Primitives
    → Bool
    → Faults
    → Instant
    → Option Text
    → Option LoginRequest
    → Accounts
    → Reply × Accounts
login p connected fault now random body a =
    if connected
    then finish_login a (login_steps p fault now random body a)
    else (refused unavailable, a)

abbrev finish_logout : Accounts → Result Accounts → Reply × Accounts
finish_logout a (err e) = (refused (database_error e), a)
finish_logout a (ok a') = (signed_out, a')

-- `POST /v1/auth/logout`
unfoldable pub logout : Primitives → Bool → Faults → Option Text → Accounts → Reply × Accounts
logout p connected fault none a = (signed_out, a)
logout p connected fault (some cookie) a =
    if connected
    then finish_logout a (delete_session fault (hash_session_token p cookie) a)
    else (signed_out, a)

abbrev session_status : StoreError → Status
session_status no_rows = unauthorized
session_status e = database_error e

abbrev found_user : Result UserRow → Outcome Status UserRow
found_user (err e) = err (session_status e)
found_user (ok u) = ok u

-- `requireSession`: the user that the handler behind it runs for, or the status of the refusal.
unfoldable pub require_session :
    Primitives → Bool → Faults → Instant → Option Text → Accounts → Outcome Status UserRow
require_session p connected fault now none a =
    if connected then err unauthorized else err unavailable
require_session p connected fault now (some cookie) a = do
  guard connected unavailable
  guard (not (is_empty cookie)) unauthorized
  found_user (session_user fault now (hash_session_token p cookie) a)
