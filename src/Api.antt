-- ===== src/Api.antt =====
-- internal/apps/api and cmd/api/router.go: the HTTP API, from a request to its response.
pub mod Http
pub mod Query
pub mod Documents
pub mod Auth
pub mod Payouts
pub mod FundingSources
pub mod Router
pub mod Admission
pub mod Isolation
pub mod Intact
pub mod Creation
mod Tests
