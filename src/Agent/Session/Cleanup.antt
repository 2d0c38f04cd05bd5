-- ===== src/Agent/Session/Cleanup.antt =====
-- What a session of agent/compute_benchmark_session_linux.go leaves behind.
use mesh_alot.Prelude.{
  ℕ, ◌≡◌, refl, ◌⊎◌, inl, inr, Bool, true, false, not, ◌&&◌, some, List, [], ◌∷◌, ap,
}
use mesh_alot.Prelude.Float.{Float64}
use mesh_alot.Prelude.Outcome.{Outcome, ok, err}
use mesh_alot.Protocol.{ComputeBenchmark}
use mesh_alot.Agent.Network.{Command}
use mesh_alot.Agent.BenchmarkServer.{
  ServerError, Poll, Effect, started, interrupted, Server, stop, was_received,
}
use mesh_alot.Agent.BenchmarkServer.Waits.{killed_unless, IsTimely, IsCleaned, start_ends}
use mesh_alot.Agent.Session.{
  SessionError, from_server, RunWorld, ExecutionOptions, SessionResult, stopped_session,
  failed_session, orchestrate_linux_compute_benchmark, with_server, checked_options, when_started,
  run_session, execute_linux_compute_benchmark,
}

module _ {ℓ} {F : Type ℓ} where
  -- No process was started; or the start of one failed, and it was interrupted, and killed unless its
  -- end could be received then (`ended`); or it served the session and was interrupted, and killed
  -- unless it ended then (`ends`).
  abbrev pub IsStopped : Bool → Bool → SessionResult F → Type 0
  IsStopped ended ends s =
      (s.effects ≡ [])
      ⊎ (((c : Command) × (e : ServerError) × (s.errors ≡ from_server e ∷ [])
            × (s.effects ≡ started c ∷ interrupted ∷ killed_unless (ended && not (was_received e))))
          ⊎ ((c : Command) × (s.effects ≡ started c ∷ interrupted ∷ killed_unless ends)))

  -- A session without an error has a benchmark, and its server ended by itself.
  abbrev pub IsSound : SessionResult F → Type ℓ
  IsSound s =
      s.errors ≡ []
      → (c : Command) × (b : ComputeBenchmark F) × (s.benchmark ≡ some b)
        × (s.effects ≡ started c ∷ interrupted ∷ [])

  deferred-IsStopped :
      (c : Command) (ended ends : Bool) (r : Outcome SessionError (ComputeBenchmark F))
      → IsStopped ended ends (stopped_session ends (started c ∷ []) r)
        × IsSound (stopped_session ends (started c ∷ []) r)
  unfolding stop
  deferred-IsStopped c ended true (err e) = (inr (inr (c, refl)), λ h. absurd (cc))
  deferred-IsStopped c ended true (ok b) = (inr (inr (c, refl)), λ h. (c, b, refl, refl))
  deferred-IsStopped c ended false (err e) = (inr (inr (c, refl)), λ h. absurd (cc))
  deferred-IsStopped c ended false (ok b) = (inr (inr (c, refl)), λ h. absurd (cc))

module _ {ℓ} {W : Type 0} {F : Type ℓ} ⦃f : Float64 F⦄ (context : ℕ → Bool) (w : RunWorld W F)
    (o : ExecutionOptions) (ends : Bool) where
  started-IsStopped :
      (ended : Bool) (r : Outcome ServerError Server × List Effect)
      → IsCleaned ended r
      → IsStopped ended ends (with_server (some context) w o ends r)
        × IsSound (with_server (some context) w o ends r)
  started-IsStopped ended (ok server, effects) same = rw same (
      deferred-IsStopped server.command ended ends
        (orchestrate_linux_compute_benchmark (some context) w o server.base_url))
  started-IsStopped ended (err e, effects) (inl nothing) = (inl nothing, λ h. absurd (cc))
  started-IsStopped ended (err e, effects) (inr (c, same)) =
      (inr (inl (c, e, refl, same)), λ h. absurd (cc))

  checked-IsStopped :
      (starts : Bool) (polls : ℕ → Poll) (ended : Bool) (r : Outcome SessionError (Unit {0}))
      → ((i : ℕ) → IsTimely polls i)
      → (s : SessionResult F) × (run_session 721 (some context) w starts polls ended ends o r
          ≡ some s)
        × IsStopped ended ends s
        × IsSound s
  checked-IsStopped starts polls ended (err e) timely =
      (failed_session e [], refl, inl refl, λ h. absurd (cc))
  checked-IsStopped starts polls ended (ok u) timely =
      let (r, same, clean) =
        start_ends starts polls ended o.llama_server_path o.model_path timely in
      let (stopped, sound) = started-IsStopped ended r clean in
      (
        with_server (some context) w o ends r,
        ap (when_started (some context) w o ends) same,
        stopped,
        sound,
      )

  -- A session comes to a result, if a round of the wait for its server ends in the timer only within
  -- three minutes of the first and the next comes 250 ms later: whatever its runs, its server and
  -- its clock do, either no process was started; or the start of one failed and it was interrupted,
  -- and killed unless it ended then and its end had not been received before; or it was interrupted
  -- at the end of the session, and killed unless it ended then. A session without an error has a
  -- benchmark, and its server ended when it was interrupted.
  pub session_stops :
      (starts : Bool) (polls : ℕ → Poll) (ended : Bool)
      → ((i : ℕ) → IsTimely polls i)
      → (s : SessionResult F) × (execute_linux_compute_benchmark 721
            (some context)
            w
            starts
            polls
            ended
            ends
            o
          ≡ some s)
        × IsStopped ended ends s
        × IsSound s
  unfolding execute_linux_compute_benchmark
  session_stops starts polls ended timely =
      checked-IsStopped starts polls ended (checked_options o) timely
