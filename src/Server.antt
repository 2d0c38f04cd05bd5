-- ===== src/Server.antt =====
-- The control server, package `server` (server/*.go): scores, ratings, validation of signed
-- submissions, enrollment and the store.
pub mod Rating
pub mod Score
pub mod ComputeScore
pub mod Uuid
pub mod Window
pub mod Validation
pub mod RateLimit
pub mod Database
pub mod Nodes
pub mod Enrollment
pub mod Submission
pub mod Service
pub mod Sessions
