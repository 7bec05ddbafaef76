-- ===== src/Execution/Tests.antt =====
-- `HandleEvent` and its two transactions at concrete tables.
use payout_orchestrator.Common.{◌≡◌, refl, ◌⊎◌, true, some, []}
use payout_orchestrator.Text.{codes}
use payout_orchestrator.Status.{Status}
use payout_orchestrator.Outcome.{ok, err, payout_not_ready_for_execution}
use payout_orchestrator.Db.Session.{World, session}
use payout_orchestrator.Db.Clients.{get_client_by_id}
use payout_orchestrator.Db.FundingSources.{get_funding_source_by_client_id}
use payout_orchestrator.Db.Payouts.{
  get_payout_by_client_id, update_payout_status, update_payout_failure,
}
use payout_orchestrator.Money.{numeric_string}
use payout_orchestrator.Outbox.Payload.{unmarshal_process_payout_payload}
use payout_orchestrator.Outbox.Payload.{marshal_process_payout_payload}
use payout_orchestrator.Execution.{
  ParsedPayload, PreparedExecution, parse_payload, ready, prepare_by_status,
  prepare_execution_in_tx, create_webhook_if_configured, record_in_tx, record_execution_result, ask,
  execute_prepared, handle_payload, handle_typed, handle_event,
}
use payout_orchestrator.Execution.Course.{AskedOnce, handle_event-asks}
use payout_orchestrator.Execution.Finish.{Finished, handle_event-Finished}
use payout_orchestrator.Sample.{calm_env, treasury, payout_row, world_with, event, provider, answer}

abbrev payload : ParsedPayload
payload = record { payout_id = 3; client_id = 1 }

abbrev after_handling : World
after_handling = (handle_event calm_env (some provider) event (world_with Status.pending)).1

handled :
    handle_event calm_env (some provider) event (world_with Status.pending)
    ≡ (ok tt, after_handling)
unfolding handle_event handle_typed parse_payload handle_payload execute_prepared ask
    record_execution_result record_in_tx create_webhook_if_configured prepare_execution_in_tx
    prepare_by_status ready session get_payout_by_client_id get_funding_source_by_client_id
    update_payout_status update_payout_failure get_client_by_id numeric_string
    unmarshal_process_payout_payload marshal_process_payout_payload
handled = refl

handle_event-Finished_example :
    Finished calm_env provider event (world_with Status.pending) after_handling
handle_event-Finished_example =
    handle_event-Finished calm_env provider event (world_with Status.pending) handled

handle_event-asks_example :
    (after_handling.asked ≡ [])
    ⊎ AskedOnce calm_env event (world_with Status.pending) after_handling
handle_event-asks_example = handle_event-asks calm_env provider event (world_with Status.pending)

abbrev prepared_row : PreparedExecution
prepared_row = record {
  payout = record (payout_row Status.processing) { updated_at = 1002 };
  funding_source = treasury;
  amount = codes "12.50";
  should_execute = true;
}

abbrev after_preparing : World
after_preparing = (prepare_execution_in_tx calm_env payload (world_with Status.pending)).1

preparing :
    prepare_execution_in_tx calm_env payload (world_with Status.pending)
    ≡ (ok prepared_row, after_preparing)
unfolding prepare_execution_in_tx prepare_by_status ready session get_payout_by_client_id
    get_funding_source_by_client_id update_payout_status numeric_string
preparing = refl

abbrev after_recording : World
after_recording =
    (record_in_tx calm_env (payout_row Status.processing) answer answer.status
      (world_with Status.processing)).1

recording :
    record_in_tx calm_env
      (payout_row Status.processing)
      answer
      answer.status
      (world_with Status.processing)
    ≡ (ok tt, after_recording)
unfolding record_in_tx create_webhook_if_configured session update_payout_failure get_client_by_id
recording = refl

-- A payout that has failed is not handled when its event comes again, and nothing is asked.
failed_again :
    handle_event calm_env (some provider) event (world_with Status.failed)
    ≡ (err payout_not_ready_for_execution, record (world_with Status.failed) { step = 4 })
unfolding handle_event handle_typed parse_payload handle_payload execute_prepared
    prepare_execution_in_tx prepare_by_status session get_payout_by_client_id
    get_funding_source_by_client_id unmarshal_process_payout_payload marshal_process_payout_payload
failed_again = refl
