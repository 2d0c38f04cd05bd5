-- ===== src/Server/Sessions/Examples.antt =====
-- A user who signs in, works and signs out.
use mesh_alot.Prelude.{◌≡◌, refl, true, false, none, some, [], ◌∷◌, if◌then◌else◌}
use mesh_alot.Prelude.Int.{pos, ltb_ℤ, ◌+ℤ◌}
use mesh_alot.Prelude.Text.{codes, text_eq, trim_space}
use mesh_alot.Prelude.Time.{Instant}
use mesh_alot.Prelude.Outcome.{ok, err}
use mesh_alot.Server.Uuid.{hex_encode, hex_digit}
use mesh_alot.Server.Submission.{unauthorized}
use mesh_alot.Server.Sessions.{
  UserRow, Accounts, LoginRequest, signed_in, session_lifetime, Primitives, hash_session_token,
  find_account, find_user, has_session, find_session, without, login_steps, login, logout,
  require_session,
}
use mesh_alot.Server.Sessions.Lifecycle.{logout-ends, login-opens}
use mesh_alot.Server.Sessions.Reachable.{Reach, here, next, by_login, HasSignIn, admitted-signed_in}

abbrev primitives : Primitives
primitives = record {
  sha256 = λ t. t;
  base64_url = λ t. t;
  lower = λ t. t;
  crypt = λ password salt. password;
}

abbrev ann : UserRow
ann = record { id = 2; email = codes "ann"; password_hash = some (codes "pw") }

abbrev start : Accounts
start = record {
  users = record { id = 1; email = codes "bo"; password_hash = none } ∷ ann ∷ [];
  sessions = [];
}

abbrev request : LoginRequest
request = record { email = codes " ann"; password = codes "pw" }

abbrev ann_signed_in : Accounts
ann_signed_in = record start {
  sessions =
      record { user_id = 2; token_hash = codes "7478"; expires_at = pos 43_200_000_000_007 } ∷ [];
}

ann_signs_in :
    login primitives true (λ i. false) (pos 7) (some (codes "tx")) (some request) start
    ≡ (signed_in ann (codes "tx"), ann_signed_in)
unfolding login login_steps find_account has_session trim_space text_eq ◌+ℤ◌ hex_encode hex_digit
ann_signs_in = refl

login-opens_example :
    require_session primitives true (λ i. false) (pos 9) (some (codes "tx")) ann_signed_in
    ≡ (if ltb_ℤ (pos 9) (pos 7 +ℤ session_lifetime) then ok ann else err unauthorized)
login-opens_example =
    login-opens primitives (λ i. false) (pos 7) (some (codes "tx")) (some request) start
      ann_signed_in ann (codes "tx") (λ i. false) (pos 9) ((refl, tt), (tt, tt)) ann_signs_in refl

logout-ends_example :
    require_session primitives true (λ i. false) (pos 9) (some (codes "tx")) start
    ≡ err unauthorized
unfolding logout without text_eq hex_encode hex_digit
logout-ends_example =
    logout-ends primitives (λ i. false) (codes "tx") ann_signed_in start (λ i. false) (pos 9)
      (codes "tx") refl

way : Reach primitives start ann_signed_in
unfolding find_session find_user text_eq hex_encode hex_digit login login_steps find_account
    has_session trim_space ◌+ℤ◌
way = next here (by_login (λ i. false) (pos 7) (some (codes "tx")) (some request) refl)

admitted-signed_in_example :
    (at : Instant) × HasSignIn primitives way ann at (hash_session_token primitives (codes "tx"))
    × (ltb_ℤ (pos 9) (at +ℤ session_lifetime) ≡ true)
unfolding require_session find_session find_user text_eq hex_encode hex_digit login login_steps
    find_account has_session trim_space ◌+ℤ◌
admitted-signed_in_example =
    admitted-signed_in primitives start ann_signed_in (λ i. false) (pos 9) (codes "tx") ann
      ((refl, tt), (tt, tt)) refl way refl
