-- ===== src/Server/Submission/Compute.antt =====
-- What an accepted compute benchmark of server/compute_benchmark.go is sure to be.
mod Examples
use mesh_alot.Prelude.{ℕ, ◌≤◌, ◌<◌, ◌≡◌, Bool, Option, some, length, All}
use mesh_alot.Prelude.Text.{Text}
use mesh_alot.Prelude.Time.{Instant}
use mesh_alot.Prelude.Float.{Float64}
use mesh_alot.Protocol.{ComputeBenchmark, Submission}
use mesh_alot.Server.Database.{NodeRow, Database, Faults, find_node}
use mesh_alot.Server.ComputeScore.{calculate_compute_score}
use mesh_alot.Server.Validation.Samples.{IsSound, Distinct, runs, accepted_samples}
use mesh_alot.Server.Submission.{
  accepted, compute_benchmark_kind, compute_benchmarks, uuid_bytes, put_row, row_of, submit,
}
use mesh_alot.Server.Submission.Accepted.{submit-IsAccepted}

-- A compute benchmark that is answered with 201 is the one that the body decodes to. It has 1 to 50
-- samples with distinct run numbers, each of them sound, and the one row that is stored is of the
-- enrolled node that it names and holds this benchmark, as it is encoded, with the score that the
-- server computes from it.
pub submit-compute_benchmark {ℓ} :
    {F : Type ℓ} ⦃f : Float64 F⦄ (base64 : Text → Option Text) (verify : Text → Text → Text → Bool)
    (digest : Text → Text) (decode : Text → Option (Submission (ComputeBenchmark F)))
    (marshal : ComputeBenchmark F → Option Text) (connected : Bool) (fault : Faults) (now : Instant)
    (header : Text) (body : Option Text) (db db' : Database)
    → submit base64 verify
        (compute_benchmark_kind digest decode marshal)
        connected
        fault
        now
        header
        body
        db
      ≡ (accepted, db')
    → (raw : Text) × (s : Submission (ComputeBenchmark F)) × (node : NodeRow) × (payload : Text)
      × (body ≡ some raw)
      × (decode raw ≡ some s)
      × (find_node s.node_id db.nodes ≡ some node)
      × (marshal s.benchmark ≡ some payload)
      × (0 < length s.benchmark.samples)
      × (length s.benchmark.samples ≤ 50)
      × All IsSound s.benchmark.samples
      × Distinct (runs s.benchmark.samples)
      × (db'
          ≡ put_row compute_benchmarks
              (row_of
                (uuid_bytes s.report_id)
                node.id
                payload
                (some (calculate_compute_score s.benchmark).score)
                now)
              db)
submit-compute_benchmark base64 verify digest decode marshal connected fault now header body db db'
      h =
    let (_, raw, s, sent, a) =
      submit-IsAccepted base64 verify (compute_benchmark_kind digest decode marshal) fault now
        header connected body db db' h in
    let (some_, few, sound, distinct) = accepted_samples s now a.valid in
    (
      raw, s, a.node, a.payload, sent, a.decoded, a.found, a.marshaled, some_, few, sound, distinct,
      a.stored,
    )
