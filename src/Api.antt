-- ===== src/Api.antt =====
-- The HTTP interface of internal/api/server.go: what its handlers do with a request.
pub mod Messages
pub mod Server
pub mod Injects
pub mod Jobs
pub mod Listing
pub mod Workers
pub mod Admin
pub mod Audit
pub mod Artifacts
pub mod Compat
pub mod Stream
pub mod Routes
