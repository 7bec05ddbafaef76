-- ===== src/Execution.antt =====
-- internal/apps/payoutworker/execution: the worker's handler of payout events.
pub mod Prepare
pub mod Record
pub mod Course
pub mod Finish
pub mod Recording
pub mod Preparing
pub mod Delivery
pub mod Intact
mod Tests
use payout_orchestrator.Common.{
  Bool, true, false, not, ◌&&◌, ◌||◌, Option, none, some, List, [], ◌∷◌, if◌then◌else◌, suc,
}
use payout_orchestrator.Text.{Text, codes, is_empty, trim_space}
use payout_orchestrator.Json.{Json}
use payout_orchestrator.Money.{numeric_string}
use payout_orchestrator.Status
use payout_orchestrator.Status.{Status}
use payout_orchestrator.Provider.{ExecutePayoutInput, ExecutePayoutResult, PayoutProvider}
use payout_orchestrator.Outcome.{
  Error, Result, ok, err, failure, invalid_outbox_payload, invalid_outbox_entity,
  payout_not_ready_for_execution, unsupported_event, unsupported_provider_result, or_error,
}
use payout_orchestrator.Outcome
use payout_orchestrator.Db.Models.{
  Uuid, PgText, Client, FundingSource, OutboxEvent, Payout, EventType, process_payout,
  payout_result_webhook, other_type,
}
use payout_orchestrator.Db.Session.{Env, Action, pure, raise, lift, ◌>>=◌, ◌>>◌, on_tx, within_tx}
use payout_orchestrator.Db.Clients.{get_client_by_id}
use payout_orchestrator.Db.FundingSources.{get_funding_source_by_client_id}
use payout_orchestrator.Db.OutboxEvents.{CreateOutboxEventParams, create_outbox_event}
use payout_orchestrator.Db.Payouts.{
  get_payout_by_client_id, update_payout_status, update_payout_failure,
}
use payout_orchestrator.Outbox.Payload.{
  ProcessPayoutPayload, unmarshal_process_payout_payload, marshal_payout_result_webhook_payload,
}
use payout_orchestrator.Outbox.Event.{Event}

-- parsedPayoutCreatedOutboxPayload
pub record ParsedPayload : Type 0 where
  pub payout_id : Uuid
  pub client_id : Uuid

abbrev parse_or : Option Uuid → Error → Result Uuid
parse_or none e = err e
parse_or (some id) e = ok id

abbrev unmarshal : Option Json → Result ProcessPayoutPayload
unmarshal none = err invalid_outbox_payload
unmarshal (some j) = or_error (unmarshal_process_payout_payload j) invalid_outbox_payload

-- parsePayoutCreatedOutboxPayload
unfoldable pub parse_payload : Env → Text → Result ParsedPayload
parse_payload env raw = Outcome.◌>>=◌ (unmarshal (env.json_parse raw)) λ payload.
    Outcome.◌>>=◌ (parse_or (env.parse_uuid payload.payout_id) invalid_outbox_entity) λ payout_id.
      Outcome.◌>>=◌ (parse_or (env.parse_uuid payload.client_id) invalid_outbox_entity)
        λ client_id. ok (record { payout_id = payout_id; client_id = client_id })

-- preparedExecution
pub record PreparedExecution : Type 0 where
  pub payout : Payout
  pub funding_source : FundingSource
  pub amount : Text
  pub should_execute : Bool

-- What follows the `switch` of `prepareExecutionInTx`.
ready : Payout → FundingSource → Action PreparedExecution
ready payout source = do
  amount ← lift (numeric_string payout.amount)
  pure (record { payout = payout; funding_source = source; amount = amount; should_execute = true })

-- The `switch` on the status of the payout.
prepare_by_status : Env → Status → Payout → FundingSource → Action PreparedExecution
prepare_by_status env Status.pending payout source = do
  updated ← on_tx env (update_payout_status payout.id Status.processing)
  ready updated source
prepare_by_status env Status.processing payout source = ready payout source
prepare_by_status env Status.succeeded payout source =
    pure (record { payout = payout; funding_source = source; amount = []; should_execute = false })
prepare_by_status env Status.failed payout source = raise payout_not_ready_for_execution
prepare_by_status env (Status.other s) payout source = raise payout_not_ready_for_execution

-- prepareExecutionInTx
pub prepare_execution_in_tx : Env → ParsedPayload → Action PreparedExecution
prepare_execution_in_tx env payload = do
  payout ← on_tx env (get_payout_by_client_id payload.client_id payload.payout_id)
  source ← on_tx env (get_funding_source_by_client_id payload.client_id payout.funding_source_id)
  prepare_by_status env payout.status payout source

-- The text that a status is in the source.
abbrev pub status_text : Status → Text
status_text Status.pending = codes "pending"
status_text Status.processing = codes "processing"
status_text Status.succeeded = codes "succeeded"
status_text Status.failed = codes "failed"
status_text (Status.other s) = s

-- The event that tells the client, to be sent to its URL.
abbrev pub webhook_event : Env → Payout → Text → CreateOutboxEventParams
webhook_event env payout url = record {
  event_type = payout_result_webhook;
  entity_id = payout.id;
  payload =
      marshal_payout_result_webhook_payload (env.uuid_text payout.id)
        (env.uuid_text payout.client_id) url (status_text payout.status)
        payout.failure_reason.string;
}

-- `!client.WebhookUrl.Valid || targetURL == ""`
abbrev pub target_url : Client → Text
target_url client = trim_space client.webhook_url.string

abbrev pub no_target : Client → Bool
no_target client = not client.webhook_url.is_valid || is_empty (target_url client)

-- createWebhookOutboxEventIfConfigured
create_webhook_if_configured : Env → Payout → Action (Unit {0})
create_webhook_if_configured env payout = do
  client ← on_tx env (get_client_by_id payout.client_id)
  if no_target client then pure tt else (do
    on_tx env (create_outbox_event env (webhook_event env payout (target_url client)))
    pure tt)

-- The pgtype.Text of a failure: a blank reason is stored as NULL.
abbrev pub reason_param : Text → PgText
reason_param reason = record { string = reason; is_valid = not (is_empty (trim_space reason)) }

-- recordExecutionResultInTx
pub record_in_tx : Env → Payout → ExecutePayoutResult → Status → Action (Unit {0})
record_in_tx env payout r Status.succeeded = do
  final ← on_tx env (update_payout_status payout.id Status.succeeded)
  create_webhook_if_configured env final
record_in_tx env payout r Status.failed = do
  final ← on_tx env (update_payout_failure payout.id (reason_param r.failure_reason))
  create_webhook_if_configured env final
record_in_tx env payout r _ = raise unsupported_provider_result

pub record_execution_result : Env → PreparedExecution → ExecutePayoutResult → Action (Unit {0})
record_execution_result env prepared r = within_tx env (record_in_tx env prepared.payout r r.status)

-- The request that `HandleEvent` sends to the provider.
abbrev pub provider_input : Env → PreparedExecution → ExecutePayoutInput
provider_input env prepared = record {
  payout_id = env.uuid_text prepared.payout.id;
  funding_source_id = env.uuid_text prepared.funding_source.id;
  payment_account_id = prepared.funding_source.payment_account_id;
  amount = prepared.amount;
  currency = prepared.payout.currency;
}

-- A call of the provider is remembered, however it ends.
pub ask : PayoutProvider → ExecutePayoutInput → Action ExecutePayoutResult
ask provider input w = (provider.execute_payout w.step input, record w { asked = input ∷ w.asked })

execute_prepared : Env → PayoutProvider → PreparedExecution → Action (Unit {0})
execute_prepared env provider prepared =
    if prepared.should_execute
    then (do r ← ask provider (provider_input env prepared); record_execution_result env prepared r)
    else pure tt

handle_payload : Env → PayoutProvider → ParsedPayload → Action (Unit {0})
handle_payload env provider payload = do
  prepared ← within_tx env (prepare_execution_in_tx env payload)
  execute_prepared env provider prepared

-- The event type decides whether the event is handled at all.
handle_typed : Env → PayoutProvider → EventType → Event → Action (Unit {0})
handle_typed env provider process_payout event = do
  payload ← lift (parse_payload env event.payload)
  handle_payload env provider payload
handle_typed env provider _ event = raise unsupported_event

-- HandleEvent, of a handler whose transaction runner is the DBTxRunner; `none` is a handler that
-- is not configured.
pub handle_event : Env → Option PayoutProvider → Event → Action (Unit {0})
handle_event env none event = raise (failure (codes "payout execution handler is not configured"))
handle_event env (some provider) event = handle_typed env provider event.event_type event

-- Whatever opens this can run the handler.
unfoldable pub handling : Unit {0}
unfolding handle_event handle_typed parse_payload handle_payload execute_prepared ask
    record_execution_result record_in_tx create_webhook_if_configured prepare_execution_in_tx
    prepare_by_status ready
handling = tt
