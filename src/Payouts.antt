-- ===== src/Payouts.antt =====
-- internal/apps/api/services/payouts: the service that takes payout requests in.
pub mod Store
pub mod Validation
pub mod View
pub mod Create
pub mod Reads
pub mod Intact
