-- ===== src/Outbox.antt =====
-- internal/outbox: the payloads of the outbox events, and the relay that hands the events on.
pub mod Payload
pub mod Event
pub mod Relay
