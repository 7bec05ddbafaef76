-- ===== src/Outbox/Event.antt =====
-- `Event` and `EventHandler` of internal/outbox/relay.go.
use payout_orchestrator.Text.{Text}
use payout_orchestrator.Db.Models.{EventType}
use payout_orchestrator.Db.Session.{Action}

pub record Event : Type 0 where
  pub id : Text
  pub event_type : EventType
  pub entity_id : Text
  pub payload : Text

-- EventHandler and EventDispatcher have one method, of one type.
abbrev pub EventHandler : Type 0
EventHandler = Event → Action (Unit {0})
