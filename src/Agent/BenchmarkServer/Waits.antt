-- ===== src/Agent/BenchmarkServer/Waits.antt =====
-- How long agent/compute_benchmark_server_linux.go waits, and what it leaves behind.
use mesh_alot.Prelude.{
  ℕ, zero, suc, ◌+◌, ◌*◌, ◌≤◌, ◌<◌, ◌≡◌, ◌⊎◌, inl, inr, refl, Bool, true, false, not, ◌&&◌, some,
  List, [], ◌∷◌, arith, ap, if◌then◌else◌,
}
use mesh_alot.Prelude.Text.{Text}
use mesh_alot.Prelude.Outcome.{Outcome, ok, err}
use mesh_alot.Agent.Network.{Command}
use mesh_alot.Agent.BenchmarkServer.{
  was_received, ServerError, not_started, exited, startup_timeout, polled, process_done,
  context_done, Poll, wait_for_health, Effect, started, interrupted, killed, stop, Server,
  after_health, when_done, launch, benchmark_server_command, start_benchmark_server,
}

-- A round ends in the timer only before the context is done, three minutes after the wait began at
-- the latest, and the next round comes 250 ms later at the earliest.
abbrev pub IsTimely : (ℕ → Poll) → ℕ → Type 0
IsTimely polls k =
    (polls k).selected ≡ polled
    → ((polls k).at < (polls 0).at + 180_000) × ((polls k).at + 250 ≤ (polls (suc k)).at)

abbrev IsAnswered : ℕ → (ℕ → Poll) → ℕ → Type 0
IsAnswered fuel polls k =
    (r : Outcome ServerError (Unit {0})) × (wait_for_health fuel polls k ≡ some r)

wait_ends :
    (fuel : ℕ) (polls : ℕ → Poll) (k : ℕ)
    → ((i : ℕ) → IsTimely polls i)
    → (polls 0).at + 250 * k ≤ (polls k).at
    → k ≤ 720
    → 721 ≤ fuel + k
    → IsAnswered fuel polls k
unfolding wait_for_health
wait_ends zero polls k timely late few enough = absurd (omega (arith, few, enough))
wait_ends (suc fuel) polls k timely late few enough =
    elim (polls k).healthy
      as (λ h.
        (r : Outcome ServerError (Unit {0})) × ((elim h [
          | true ↦ some (ok tt)
          | false ↦ elim (polls k).selected [
            | process_done ↦ some (err exited)
            | context_done ↦ some (err startup_timeout)
            | polled ↦ wait_for_health fuel polls (suc k)
          ]
        ])
          ≡ some r)) [
            | true ↦ (ok tt, refl)
            | false ↦
                elim (polls k).selected
                    as (λ s.
                      (polls k).selected ≡ s
                      → (r : Outcome ServerError (Unit {0})) × ((elim s [
                        | process_done ↦ some (err exited)
                        | context_done ↦ some (err startup_timeout)
                        | polled ↦ wait_for_health fuel polls (suc k)
                      ])
                          ≡ some r)) [
                            | process_done ↦ λ e. (err exited, refl)
                            | context_done ↦ λ e. (err startup_timeout, refl)
                            | polled ↦ λ e.
                                let (early, next) = timely k e in
                                wait_ends fuel polls (suc k) timely (omega (arith, late, next))
                                  (omega (arith, late, early)) (omega (arith, enough))
                          ]
                  refl
          ]

abbrev pub killed_unless : Bool → List Effect
killed_unless ended = if ended then [] else killed ∷ []

-- A server that is returned has been started and is left alone. With an error nothing was started,
-- or what was started has been interrupted, and killed unless its end could be received then.
abbrev pub IsCleaned : Bool → Outcome ServerError Server × List Effect → Type 0
IsCleaned ended (ok server, effects) = effects ≡ started server.command ∷ []
IsCleaned ended (err e, effects) =
    (effects ≡ [])
    ⊎ ((c : Command) × (effects
          ≡ started c ∷ interrupted ∷ killed_unless (ended && not (was_received e))))

stopped_lem : (ended : Bool) → (stop ended).1 ≡ interrupted ∷ killed_unless ended
unfolding stop
stopped_lem true = refl
stopped_lem false = refl

after_health-IsCleaned :
    (ended : Bool) (server : Server) (r : Outcome ServerError (Unit {0}))
    → IsCleaned ended (after_health ended server r)
after_health-IsCleaned ended server (ok u) = refl
after_health-IsCleaned ended server (err e) = inr (
  server.command,
  ap (λ s. started server.command ∷ s) (stopped_lem (ended && not (was_received e))),
)

launch_ends :
    (starts : Bool) (polls : ℕ → Poll) (ended : Bool)
    (command : Outcome ServerError (Command × Text))
    → ((i : ℕ) → IsTimely polls i)
    → (r : Outcome ServerError Server × List Effect) × (launch 721 starts polls ended command
        ≡ some r)
      × IsCleaned ended r
launch_ends starts polls ended (err e) timely = ((err e, []), refl, inl refl)
launch_ends false polls ended (ok (command, url)) timely = ((err not_started, []), refl, inl refl)
launch_ends true polls ended (ok (command, url)) timely =
    let server : Server = record { command = command; base_url = url } in
    let (r, done) = wait_ends 721 polls 0 timely (omega arith) (omega arith) (omega arith) in
    (
      after_health ended server r,
      ap (when_done ended server) done,
      after_health-IsCleaned ended server r,
    )

-- If the timer ends a round only within the three minutes for the start, and rounds are 250 ms
-- apart, then starting the benchmark's server comes to a result within 721 rounds: a healthy server
-- that was started and not touched, or an error after which either nothing was started, or what was
-- started has been interrupted, and killed unless its end could be received then.
pub start_ends :
    (starts : Bool) (polls : ℕ → Poll) (ended : Bool) (server_path model_path : Text)
    → ((i : ℕ) → IsTimely polls i)
    → (r : Outcome ServerError Server × List Effect) × (start_benchmark_server 721 starts polls
          ended server_path model_path
        ≡ some r)
      × IsCleaned ended r
unfolding start_benchmark_server
start_ends starts polls ended server_path model_path timely =
    launch_ends starts polls ended (benchmark_server_command server_path model_path) timely
