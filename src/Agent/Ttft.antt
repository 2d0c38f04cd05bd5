-- ===== src/Agent/Ttft.antt =====
-- agent/compute_benchmark_ttft.go: the time to the first token of the benchmark's own llama-server.
-- URLs, JSON, HTTP, the lower case and the lines that `bufio.Scanner` reads are parameters.
pub mod Stream
mod Examples
use mesh_alot.Prelude.{
  ℕ, Bool, true, false, not, ◌&&◌, ◌||◌, Option, none, some, List, [], ◌∷◌, ◌++◌, is_empty, ltb,
  ◌==◌, if◌then◌else◌,
}
use mathlib.Core.List.{reverse}
use mesh_alot.Prelude.Int.{pos, ltb_ℤ}
use mesh_alot.Prelude.Text.{Text, codes, text_eq, trim_space}
use mesh_alot.Prelude.Text.Fields.{has_prefix}
use mesh_alot.Prelude.Text.Split.{trim_prefix}
use mesh_alot.Prelude.Time.{Instant, Duration, sub}
use mesh_alot.Prelude.Outcome.{Outcome, ok, err, ◌>>=◌, ◌>>◌, guard}

pub data TtftError : Type 0 where
  no_client no_clock empty_prompt invalid_url not_base_url not_loopback : TtftError
  not_encoded no_request request_failed : TtftError
  bad_status : ℕ → TtftError
  invalid_event stopped_early read_failed ended_early invalid_duration : TtftError

-- `llamaTTFTRequest`; the temperature is the constant 0.
pub record TtftRequest : Type 0 where
  pub prompt : Text
  pub n_predict : ℕ
  pub stream : Bool
  pub cache_prompt : Bool
  pub return_tokens : Bool
  pub seed : ℕ
  pub temperature : ℕ

-- `llamaTTFTStreamEvent`
pub record StreamEvent : Type 0 where
  pub content : Text
  pub tokens : List ℕ
  pub stop : Bool

pub record ParsedUrl : Type 0 where
  pub scheme : Text
  pub host : Text
  pub hostname : Text
  pub path : Text
  pub raw_query : Text
  pub fragment : Text
  pub has_user : Bool

-- An answer, with the lines of its body, each with the world after it has been read, and whether
-- reading them ended in an error. A world is the state that the clock and the server act on.
pub record Response (W : Type 0) : Type 0 where
  pub status_code : ℕ
  pub lines : List (Text × W)
  pub failed : Bool

pub record Web : Type 0 where
  pub parse_url : Text → Option ParsedUrl
  pub lower : Text → Text
  pub encode : TtftRequest → Option Text
  pub decode : Text → Option StreamEvent
  pub makes_request : Text → Bool

abbrev pub given {ℓ} : {A : Type ℓ} → TtftError → Option A → Outcome TtftError A
given e none = err e
given e (some a) = ok a

abbrev pub drop_slashes : Text → Text
drop_slashes [] = []
drop_slashes (c ∷ cs) = let rest = drop_slashes cs in if c == 47 then rest else c ∷ cs

-- `strings.TrimRight(value, "/")`
abbrev pub trim_slashes : Text → Text
trim_slashes s = reverse (drop_slashes (reverse s))

unfoldable pub is_base_url : ParsedUrl → Bool
is_base_url u =
    text_eq u.scheme (codes "http")
    && not (is_empty u.host)
    && not u.has_user
    && is_empty u.raw_query
    && is_empty u.fragment
    && (is_empty u.path || text_eq u.path (codes "/"))

unfoldable pub is_loopback : Text → Bool
is_loopback host =
    text_eq host (codes "127.0.0.1")
    || text_eq host (codes "localhost")
    || text_eq host (codes "::1")

-- `validateLocalBenchmarkBaseURL`
unfoldable pub validate_local_base_url : Web → Text → Outcome TtftError Text
validate_local_base_url w value = do
  parsed ← given invalid_url (w.parse_url (trim_space value))
  guard (is_base_url parsed) not_base_url
  guard (is_loopback (w.lower parsed.hostname)) not_loopback
  ok (trim_slashes (trim_space value))

abbrev pub event_data : Text → Text
event_data line = trim_space (trim_prefix line (codes "data:"))

unfoldable pub is_skipped : Text → Bool
is_skipped line =
    not (has_prefix line (codes "data:"))
    || is_empty (event_data line)
    || text_eq (event_data line) (codes "[DONE]")

unfoldable pub has_token : StreamEvent → Bool
has_token e = not (is_empty e.tokens) || not (is_empty e.content)

abbrev pub on_event :
    {W : Type 0} → W → Option StreamEvent → Outcome TtftError W → Outcome TtftError W
on_event after none later = err invalid_event
on_event after (some e) later =
    if has_token e then ok after else if e.stop then err stopped_early else later

-- `waitForFirstLlamaToken`, with the world in which it returns.
unfoldable pub wait_for_first_token :
    {W : Type 0} → (Text → Option StreamEvent) → Bool → List (Text × W) → Outcome TtftError W
wait_for_first_token decode failed [] = err (if failed then read_failed else ended_early)
wait_for_first_token decode failed ((raw, after) ∷ rest) =
    let later = wait_for_first_token decode failed rest in
    if is_skipped (trim_space raw)
    then later
    else on_event after (decode (event_data (trim_space raw))) later

abbrev pub ttft_request : Text → TtftRequest
ttft_request prompt = record {
  prompt = prompt;
  n_predict = 1;
  stream = true;
  cache_prompt = false;
  return_tokens = true;
  seed = 1;
  temperature = 0;
}

abbrev pub Client : Type 0 → Type 0
Client W = Text → Text → W → Option (Response W)

abbrev pub Clock : Type 0 → Type 0
Clock W = W → Instant × W

-- `measureLlamaServerTTFT`, from a world: the clock is read in it, the client then posts a body to an
-- address, and the clock is read again in the world in which the wait for the token returns.
unfoldable pub measure_llama_server_ttft :
    {W : Type 0}
    → Web
    → Option (Client W)
    → Option (Clock W)
    → Text
    → Text
    → W
    → Outcome TtftError Duration
measure_llama_server_ttft w client clock base_url prompt world = do
  post ← given no_client client
  now ← given no_clock clock
  guard (not (is_empty (trim_space prompt))) empty_prompt
  base ← validate_local_base_url w base_url
  body ← given not_encoded (w.encode (ttft_request prompt))
  guard (w.makes_request (base ++ codes "/completion")) no_request
  answer ← given request_failed (post (base ++ codes "/completion") body (now world).1)
  guard (not (ltb answer.status_code 200 || ltb 299 answer.status_code))
      (bad_status answer.status_code)
  after ← wait_for_first_token w.decode answer.failed answer.lines
  guard (ltb_ℤ (pos 0) (sub (now after).0 (now world).0)) invalid_duration
  ok (sub (now after).0 (now world).0)
