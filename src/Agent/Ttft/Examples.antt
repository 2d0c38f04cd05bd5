-- ===== src/Agent/Ttft/Examples.antt =====
-- A stream whose second event carries the token.
use mesh_alot.Prelude.{ℕ, ◌*◌, ◌≤◌, ◌≡◌, refl, Bool, true, false, Option, some, [], ◌∷◌, ◌++◌}
use mesh_alot.Prelude.Int.{ltb_ℤ, pos}
use mesh_alot.Prelude.Text.{Text, codes, text_eq, trim_space}
use mesh_alot.Prelude.Text.Fields.{has_prefix}
use mesh_alot.Prelude.Text.Split.{trim_prefix}
use mesh_alot.Prelude.Time.{sub}
use mesh_alot.Prelude.Outcome.{ok, err}
use mesh_alot.Agent.Ttft.{
  StreamEvent, ParsedUrl, Response, Client, Clock, Web, stopped_early, is_base_url, is_loopback,
  validate_local_base_url, is_skipped, has_token, wait_for_first_token, ttft_request,
  measure_llama_server_ttft,
}
use mesh_alot.Agent.Ttft.Stream.{IsLocal, IsFirst, measured_ttft}

abbrev local_url : ParsedUrl
local_url = record {
  scheme = codes "http";
  host = codes "127.0.0.1:18190";
  hostname = codes "127.0.0.1";
  path = codes "/";
  raw_query = [];
  fragment = [];
  has_user = false;
}

-- `{}` is an event without a token, `{1}` one with it, and `{s}` ends the stream.
abbrev decode : Text → Option StreamEvent
decode t = if_event (text_eq t (codes "{}")) (text_eq t (codes "{1}"))
  where
    if_event : Bool → Bool → Option StreamEvent
    if_event true b = some (record { content = []; tokens = []; stop = false })
    if_event false true = some (record { content = codes "a"; tokens = 1 ∷ []; stop = false })
    if_event false false = some (record { content = []; tokens = []; stop = true })

abbrev web : Web
web = record {
  parse_url = λ t. some local_url;
  lower = λ t. t;
  encode = λ r. some r.prompt;
  decode = decode;
  makes_request = λ t. true;
}

abbrev answer : Response ℕ
answer = record {
  status_code = 200;
  lines =
      (codes ": ping", 1)
      ∷ (codes "data: {}", 2)
      ∷ (codes "data: {1}", 3)
      ∷ (codes "data: {s}", 4)
      ∷ [];
  failed = false;
}

abbrev post : Client ℕ
post address body at = some answer

-- The world counts the lines that have been read.
abbrev clock : Clock ℕ
clock read = (pos (read * 5_000_000), read)

stopped_before_token :
    wait_for_first_token {W = ℕ} decode false ((codes "data: {s}", 1) ∷ (codes "data: {1}", 2) ∷ [])
    ≡ err stopped_early
unfolding wait_for_first_token is_skipped has_token text_eq trim_space has_prefix trim_prefix
stopped_before_token = refl

measured :
    measure_llama_server_ttft web
      (some post)
      (some clock)
      (codes "http://127.0.0.1:18190/")
      (codes "hello")
      0
    ≡ ok (pos 15_000_000)
unfolding measure_llama_server_ttft validate_local_base_url is_base_url is_loopback
    wait_for_first_token is_skipped has_token text_eq trim_space has_prefix trim_prefix sub
measured = refl

measured_ttft_example :
    (ltb_ℤ (pos 0) (pos 15_000_000) ≡ true)
    × (base : Text) × (body : Text) × (answer : Response ℕ) × (after : ℕ) × (pos 15_000_000
        ≡ sub (clock after).0 (clock 0).0)
    × IsLocal web (codes "http://127.0.0.1:18190/") base
    × (web.encode (ttft_request (codes "hello")) ≡ some body)
    × (post (base ++ codes "/completion") body (clock 0).1 ≡ some answer)
    × (200 ≤ answer.status_code)
    × (answer.status_code ≤ 299)
    × IsFirst decode answer.lines after
measured_ttft_example =
    measured_ttft web post clock (codes "http://127.0.0.1:18190/") (codes "hello") 0
      (pos 15_000_000) measured
