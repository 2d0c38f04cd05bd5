-- ===== src/Lib.antt =====
-- MeshAlot: verification of the control server and the host agent.
--
-- MeshAlot is a marketplace for AI compute. A host runs an agent (agent/), which enrolls with a
-- one-time code, reports its hardware, measures its network and its AI throughput, and decides by
-- its owner's controls whether it takes work. The control server (server/) issues and redeems the
-- codes, authenticates what the agents submit by the Ed25519 key of the node, computes the scores
-- itself and rates nodes for workloads. Both speak the types of protocol/v1.
--
-- Which file models which code:
--   Prelude.antt           Go's strings (lists of bytes), strings.TrimSpace, filepath.Base, %d, time.Time
--                          and Duration, float64, (T, error); numbers are natural, an int is a ℤ.
--   Protocol.antt          protocol/v1: reports, submissions, signing messages.
--   Server/Database.antt   the tables that the SQL statements of server/ read and write.
--   Server/Enrollment.antt server/enrollment.go: CreateEnrollmentToken, RedeemEnrollmentToken and, in
--                          Handlers, the handlers that call them.
--   Server/RateLimit.antt  server/enrollment.go: allowSecureEnrollment.
--   Server/Uuid.antt       validUUIDv4 of server/enrollment.go, newUUIDv4 of agent/identity.go.
--   Server/Window.antt     the five-minute window in server/*_auth.go.
--   Server/Validation.antt the three validators of server/*_auth.go.
--   Server/Submission.antt the three POST handlers of server/inventory.go, server/network_benchmark.go,
--                          server/compute_benchmark.go, with server/*_postgres.go.
--   Server/Score.antt      server/network_score.go.
--   Server/ComputeScore.antt  server/compute_score.go.
--   Server/Rating.antt     server/node_rating.go.
--   Agent/Controls.antt    agent/provider_controls.go.
--   Agent/Benchmark.antt   agent/compute_benchmark_llama_bench.go; its children Checks and Combine are
--                          agent/compute_benchmark_runs.go, Finalize, Assemble and Orchestrate the
--                          files of those names.
--   Agent/Probes.antt      agent/network_benchmark_measurement.go: the summary of the control probes.
--   Server/Nodes.antt      server/postgres.go: the nodes of one owner in the store.
--   Server/Service.antt    server/service.go: the handlers on nodes, over a map or the store.
--   Server/Sessions.antt   server/auth.go: users, sessions and the handlers that guard the account pages.
--   Agent/Output.antt      the limit on a program's output in agent/inventory_linux.go and
--     agent/network_benchmark_linux.go.
--   Agent/Network.antt     agent/network_benchmark_linux.go: route, throughput and probes.
--   Agent/Inventory.antt   agent/inventory_linux.go: operating system, processor and memory; its
--     children Gpus, Models and Runtimes the rest, and the whole inventory.
--   Agent/BenchmarkServer.antt  agent/compute_benchmark_server_linux.go: start, wait and stop.
--   Agent/Telemetry.antt   agent/compute_benchmark_linux.go: telemetry and the measures of a run.
--   Agent/Ttft.antt        agent/compute_benchmark_ttft.go.
--   Agent/Session.antt     agent/compute_benchmark_session_linux.go,
--     agent/compute_benchmark_orchestrate_linux.go.
--   Agent/Submit.antt      agent/identity.go (the check of an identity), agent/*_submit.go,
--     agent/compute_benchmark_transport.go, agent/compute_benchmark_submit_flow.go and, in Enroll,
--     agent/secure_enroll.go.
-- A definition has the name of its Go function in snake_case. The files below a component hold what is
-- proved of it, and its Examples the runs and the witnesses.
--
-- How state and errors are modelled. The database is a record of tables, and a request a function from
-- tables to tables and an answer. `Faults` says which statement of a request the database refuses; a
-- transaction that ends in an error leaves the tables as they were. One clock stands for the time
-- of the service and for now() of the database. CreateEnrollmentToken has no transaction, and is two
-- steps. A function that returns (T, error)
-- returns an `Outcome`, an error text being a constructor. Loops are recursions on the list they
-- range over. Two have fuel: the printing of an int its twenty digits, which 64 bits need at
-- most, and the wait for the benchmark's server 721 rounds, which its three minutes never exceed. An `int` does not
-- overflow in the code modelled, which only compares and counts. `time.Time.Sub` saturates and the negation of a Duration wraps, as in Go.
--
-- float64 is a type with the operations of `Float64`, and the theorems that need laws take those of
-- `IsFloat64`: NaN is the one value not `<=` itself, the order is total elsewhere, the operations are
-- monotone in the ranges stated, whole numbers up to 2^53 are exact. Thousandths, in which the
-- examples compute, satisfy them.
--
-- Parameters: SHA-256, base64, Ed25519, net/url, HTTP, the decoding and encoding of JSON, random bytes, the clock, `strconv.ParseFloat`,
-- the outputs of programs, the entries of directory walks, Unicode case mapping, the matches
-- of regular expressions, the password hash and the collation of the database, the
-- collectors of the orchestrator and its context.
--
-- Not modelled: HTTP routing and JSON, the account pages, the macOS files, the runtime adapters,
-- the files of identities, the processes, sockets and system
-- files with which the agent measures, the SQL engine beyond the statements named, the web dashboard.
pub mod Prelude
pub mod Protocol
pub mod Server
pub mod Agent
