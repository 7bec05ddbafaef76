-- ===== src/Db.antt =====
-- internal/db: the rows, the statements of internal/db/queries, and how they run against PostgreSQL
-- inside a transaction and outside of one.
pub mod Models
pub mod Paging
pub mod Session
pub mod Clients
pub mod FundingSources
pub mod IdempotencyKeys
pub mod OutboxEvents
pub mod Payouts
pub mod WebhookDeliveries
pub mod Effects
pub mod Intact
