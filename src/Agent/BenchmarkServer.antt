-- ===== src/Agent/BenchmarkServer.antt =====
-- The benchmark's own llama-server: agent/compute_benchmark_server_linux.go, which starts it, waits
-- until it is healthy and stops it, with the command that agent/compute_benchmark_execute_linux.go
-- wraps. What the server and the clock do is a parameter: for each round of the wait, a `Poll`.
pub mod Waits
mod Examples
use mesh_alot.Prelude.{
  ℕ, zero, suc, ◌+◌, ◌*◌, Bool, true, false, not, ◌&&◌, Option, none, some, List, [], ◌∷◌, ◌++◌,
  is_empty, if◌then◌else◌,
}
use mesh_alot.Prelude.Int.{ℤ, pos}
use mesh_alot.Prelude.Text.{Text, codes, trim_space, decimal}
use mesh_alot.Prelude.Outcome.{Outcome, ok, err, ◌>>=◌, ◌>>◌, guard}
use mesh_alot.Agent.Benchmark.{standard_context_size}
use mesh_alot.Agent.Network.{Command}

pub data ServerError : Type 0 where
  no_server_path no_model_path empty_command not_started : ServerError
  exited startup_timeout stop_timeout : ServerError

abbrev server_host : Text
server_host = codes "127.0.0.1"

abbrev server_port : ℤ
server_port = pos 18_190

-- `linuxOneAPIWrappedCommand`
unfoldable pub one_api_wrapped_command : Text → List Text → Outcome ServerError Command
one_api_wrapped_command name arguments = do
  guard (not (is_empty (trim_space name))) empty_command
  ok (record {
    program = codes "/bin/bash";
    arguments =
        codes "-c"
        ∷ codes
            "env_script=\"$1\"; shift; command_args=(\"$@\"); set --; source \"$env_script\" >/dev/null 2>&1 || exit 125; exec \"${command_args[@]}\""
        ∷ codes "meshalot-oneapi"
        ∷ codes "/opt/intel/oneapi/setvars.sh"
        ∷ trim_space name
        ∷ arguments;
  })

-- `linuxBenchmarkServerCommand`, with the base URL that the server has.
unfoldable pub benchmark_server_command : Text → Text → Outcome ServerError (Command × Text)
benchmark_server_command server_path model_path = do
  guard (not (is_empty (trim_space server_path))) no_server_path
  guard (not (is_empty (trim_space model_path))) no_model_path
  command ← one_api_wrapped_command (trim_space server_path) (
      codes "--model"
      ∷ trim_space model_path
      ∷ codes "--offline"
      ∷ codes "--device"
      ∷ codes "SYCL0"
      ∷ codes "--n-gpu-layers"
      ∷ codes "999"
      ∷ codes "--ctx-size"
      ∷ decimal (pos standard_context_size)
      ∷ codes "--parallel"
      ∷ codes "1"
      ∷ codes "--flash-attn"
      ∷ codes "off"
      ∷ codes "--host"
      ∷ server_host
      ∷ codes "--port"
      ∷ decimal server_port
      ∷ [])
  ok (command, codes "http://" ++ (server_host ++ (codes ":" ++ decimal server_port)))

-- Which case of the `select` runs: the process has ended, the context is done, or 250 ms are over.
pub data Selected : Type 0 where
  process_done context_done polled : Selected

-- A round: whether the request was answered with 200, and the case that runs if it was not, at a
-- time in milliseconds.
pub record Poll : Type 0 where
  pub healthy : Bool
  pub selected : Selected
  pub at : ℕ

-- `waitForLinuxBenchmarkServerHealth`, from round `k` on; `none` means that the fuel is used up.
unfoldable pub wait_for_health : ℕ → (ℕ → Poll) → ℕ → Option (Outcome ServerError (Unit {0}))
wait_for_health zero polls k = none
wait_for_health (suc fuel) polls k = elim (polls k).healthy [
  | true ↦ some (ok tt)
  | false ↦ elim (polls k).selected [
    | process_done ↦ some (err exited)
    | context_done ↦ some (err startup_timeout)
    | polled ↦ wait_for_health fuel polls (suc k)
  ]
]

-- What is done to the process.
pub data Effect : Type 0 where
  started : Command → Effect
  interrupted killed : Effect

-- `Stop`: `ended` says whether the process ends before the context of the stop is done.
unfoldable pub stop : Bool → Outcome ServerError (Unit {0}) × List Effect
stop ended =
    if ended then (ok tt, interrupted ∷ []) else (err stop_timeout, interrupted ∷ killed ∷ [])

pub record Server : Type 0 where
  pub command : Command
  pub base_url : Text

-- The wait has taken the end of the process out of its channel, so that `Stop` waits for it in vain.
abbrev pub was_received : ServerError → Bool
was_received exited = true
was_received _ = false

abbrev pub after_health :
    Bool → Server → Outcome ServerError (Unit {0}) → Outcome ServerError Server × List Effect
after_health ended server (ok _) = (ok server, started server.command ∷ [])
after_health ended server (err e) =
    (err e, started server.command ∷ (stop (ended && not (was_received e))).1)

abbrev pub when_done :
    Bool
    → Server
    → Option (Outcome ServerError (Unit {0}))
    → Option (Outcome ServerError Server × List Effect)
when_done ended server none = none
when_done ended server (some r) = some (after_health ended server r)

abbrev pub launch :
    ℕ
    → Bool
    → (ℕ → Poll)
    → Bool
    → Outcome ServerError (Command × Text)
    → Option (Outcome ServerError Server × List Effect)
launch fuel starts polls ended (err e) = some (err e, [])
launch fuel starts polls ended (ok (command, base_url)) = elim starts [
  | false ↦ some (err not_started, [])
  | true ↦
      when_done ended (record { command = command; base_url = base_url })
        (wait_for_health fuel polls 0)
]

-- `startLinuxComputeBenchmarkServer`: the server or an error, with what was done. `starts` says
-- whether the process can be started.
unfoldable pub start_benchmark_server :
    ℕ → Bool → (ℕ → Poll) → Bool → Text → Text → Option (Outcome ServerError Server × List Effect)
start_benchmark_server fuel starts polls ended server_path model_path =
    launch fuel starts polls ended (benchmark_server_command server_path model_path)
