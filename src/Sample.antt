-- ===== src/Sample.antt =====
-- Concrete data for the witnesses and the tests: an environment, tables and a request.
use payout_orchestrator.Common.{
  ℕ, ◌+◌, false, Option, none, some, [], ◌∷◌, length, replicate, ◌==◌, if◌then◌else◌,
}
use payout_orchestrator.Common.Int.{pos, negsuc}
use payout_orchestrator.Json.{Json, obj, str, field, end}
use payout_orchestrator.Text.{Text, codes}
use payout_orchestrator.Money.{number}
use payout_orchestrator.Status.{Status}
use payout_orchestrator.Provider.{ExecutePayoutResult, PayoutProvider}
use payout_orchestrator.Outcome.{ok}
use payout_orchestrator.Outbox.Event.{Event}
use payout_orchestrator.Db.Models.{
  Payout, process_payout, Uuid, Client, FundingSource, Db, null_text,
}
use payout_orchestrator.Db.Session.{Tick, Env, World, unchanged}
use payout_orchestrator.Payouts.Validation.{CreatePayoutInput}

-- A tick on which nothing goes wrong, and nobody else commits.
abbrev pub calm_tick : ℕ → Tick
calm_tick k = record {
  now = 1000 + k;
  fresh = 100 + k;
  fault = none;
  applied = false;
  others = unchanged;
  locked = λ id. false;
}

-- A uuid is written as that many letters.
abbrev pub sample_parse_uuid : Text → Option Uuid
sample_parse_uuid [] = none
sample_parse_uuid (c ∷ s) = some (length (c ∷ s))

-- The two documents of the tests.
abbrev pub sample_payload : Json
sample_payload = obj (
    field (codes "payout_id") (str (codes "uuu")) (field (codes "client_id") (str (codes "u")) end))

abbrev pub sample_job : Json
sample_job = obj (
    field (codes "id") (str (codes "uuuu")) (
      field (codes "event_type") (str (codes "process_payout")) (
        field (codes "entity_id") (str (codes "uuu"))
          (field (codes "payload") (str (codes "cGF5b3V0")) end))))

abbrev pub sample_json_parse : Text → Option Json
sample_json_parse s =
    if length s == 6 then some sample_payload else if length s == 3 then some sample_job else none

abbrev pub sample_env : (ℕ → Tick) → Env
sample_env tick = record {
  tick = tick;
  parse_uuid = sample_parse_uuid;
  uuid_text = λ id. replicate id b'u';
  scan_numeric = λ t. some (number (pos 1250) (negsuc 1));
  stored_amount = λ n. some n;
  sha256 = λ t. t;
  jsonb = λ j. j;
  jsonb_text = λ j. codes "payout";
  json_text = λ j. codes "job";
  json_parse = sample_json_parse;
}

abbrev pub calm_env : Env
calm_env = sample_env calm_tick

abbrev pub acme : Client
acme = record {
  id = 1;
  name = codes "acme";
  api_key = 9;
  created_at = 1;
  updated_at = 1;
  webhook_url = null_text;
}

abbrev pub treasury : FundingSource
treasury = record {
  id = 2;
  client_id = 1;
  name = codes "treasury";
  source_type = codes "bank";
  payment_account_id = codes "acc";
  status = codes "active";
  created_at = 2;
  updated_at = 2;
}

abbrev pub tables : Db
tables = record {
  clients = acme ∷ [];
  funding_sources = treasury ∷ [];
  idempotency_keys = [];
  outbox_events = [];
  payouts = [];
  webhook_deliveries = [];
}

abbrev pub start : World
start = record { committed = tables; own = unchanged; step = 0; asked = [] }

abbrev pub request : CreatePayoutInput
request = record {
  client_id = codes "u";
  funding_source_id = codes "uu";
  idempotency_key = codes " key-1 ";
  external_id = [];
  recipient_name = codes "Ann";
  recipient_account_id = codes "acc-7";
  amount = codes "12.50";
  currency = codes "USD";
}

abbrev pub payout_row : Status → Payout
payout_row s = record {
  id = 3;
  client_id = 1;
  funding_source_id = 2;
  amount = number (pos 1250) (negsuc 1);
  currency = codes "USD";
  status = s;
  created_at = 5;
  updated_at = 5;
  failure_reason = null_text;
  external_id = null_text;
  recipient_name = null_text;
  recipient_account_id = null_text;
}

abbrev pub world_with : Status → World
world_with s = record {
  committed = record tables { payouts = payout_row s ∷ [] };
  own = unchanged;
  step = 0;
  asked = [];
}

abbrev pub event : Event
event = record {
  id = codes "uuuu";
  event_type = process_payout;
  entity_id = codes "uuu";
  payload = codes "payout";
}

abbrev pub answer : ExecutePayoutResult
answer = record { status = Status.failed; failure_reason = codes "no funds" }

abbrev pub provider : PayoutProvider
provider = record { execute_payout = λ step input. ok answer }
