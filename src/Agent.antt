-- ===== src/Agent.antt =====
-- The host agent, package `agent` (agent/*.go): the owner's controls and the compute benchmark.
pub mod Controls
pub mod Benchmark
pub mod Probes
pub mod Output
pub mod Network
pub mod Inventory
pub mod BenchmarkServer
pub mod Telemetry
pub mod Ttft
pub mod Session
pub mod Submit
