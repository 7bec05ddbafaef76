-- ===== src/Db/Models.antt =====
-- internal/db/models.go and the tables of migrations/. A column that is NOT NULL is its value, and
-- one that may be NULL is an option.
use payout_orchestrator.Common.{ℕ, Bool, false, Option, List, [], if◌then◌else◌}
use payout_orchestrator.Common.Int.{ℤ}
use payout_orchestrator.Text.{Text}
use payout_orchestrator.Money.{Numeric, zero_numeric}
use payout_orchestrator.Status.{Status, other}
use payout_orchestrator.Json.{Json}

-- The 128 bits of a valid pgtype.UUID; the program only compares and prints them.
abbrev pub Uuid : Type 0
Uuid = ℕ

-- A timestamptz, in microseconds.
abbrev pub Time : Type 0
Time = ℕ

-- pgtype.Text
pub record PgText : Type 0 where
  pub string : Text
  pub is_valid : Bool

abbrev pub null_text : PgText
null_text = record { string = []; is_valid = false }

-- What a text column gives back of a parameter: NULL is read as the invalid, empty pgtype.Text.
abbrev pub stored_text : PgText → PgText
stored_text t = if t.is_valid then t else null_text

pub record Client : Type 0 where
  pub id : Uuid
  pub name : Text
  pub api_key : Uuid
  pub created_at : Time
  pub updated_at : Time
  pub webhook_url : PgText

pub record FundingSource : Type 0 where
  pub id : Uuid
  pub client_id : Uuid
  pub name : Text
  pub source_type : Text
  pub payment_account_id : Text
  pub status : Text
  pub created_at : Time
  pub updated_at : Time

pub record IdempotencyKey : Type 0 where
  pub key : Text
  pub client_id : Uuid
  pub request_hash : Text
  pub payout_id : Uuid
  pub created_at : Time

-- outbox_events.event_type: the two constants of internal/outbox/payload.go, or any other text.
pub data EventType : Type 0 where
  process_payout payout_result_webhook : EventType
  other_type : Text → EventType

-- outbox_events.status, which a CHECK constraint holds to three values
pub data OutboxStatus : Type 0 where
  pending processing processed : OutboxStatus

pub record OutboxEvent : Type 0 where
  pub id : Uuid
  pub event_type : EventType
  pub payload : Json
  pub status : OutboxStatus
  pub created_at : Time
  pub processed_at : Option Time
  pub entity_id : Uuid
  pub claimed_at : Option Time

pub record Payout : Type 0 where
  pub id : Uuid
  pub client_id : Uuid
  pub funding_source_id : Uuid
  pub amount : Numeric
  pub currency : Text
  pub status : Status
  pub created_at : Time
  pub updated_at : Time
  pub failure_reason : PgText
  pub external_id : PgText
  pub recipient_name : PgText
  pub recipient_account_id : PgText

-- The zero value `db.Payout{}`; its ids are not valid, and its amount is not either.
abbrev pub zero_payout : Payout
zero_payout = record {
  id = 0;
  client_id = 0;
  funding_source_id = 0;
  amount = zero_numeric;
  currency = [];
  status = other [];
  created_at = 0;
  updated_at = 0;
  failure_reason = null_text;
  external_id = null_text;
  recipient_name = null_text;
  recipient_account_id = null_text;
}

pub record WebhookDelivery : Type 0 where
  pub id : Uuid
  pub payout_id : Uuid
  pub client_id : Uuid
  pub target_url : Text
  pub payload : Json
  pub status : Text
  pub attempt_count : ℤ
  pub created_at : Time
  pub updated_at : Time

-- The tables of the migrations.
pub record Db : Type 0 where
  pub clients : List Client
  pub funding_sources : List FundingSource
  pub idempotency_keys : List IdempotencyKey
  pub outbox_events : List OutboxEvent
  pub payouts : List Payout
  pub webhook_deliveries : List WebhookDelivery
