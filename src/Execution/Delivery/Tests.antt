-- ===== src/Execution/Delivery/Tests.antt =====
-- The deliveries of the event of a pending payout at concrete tables, where nothing disturbs them.
use payout_orchestrator.Common.{refl, some}
use payout_orchestrator.Text.{codes}
use payout_orchestrator.Money.{numeric_string}
use payout_orchestrator.Status.{Status}
use payout_orchestrator.Db.Session.Quiet.{IsQuiet}
use payout_orchestrator.Outbox.Payload.{
  unmarshal_process_payout_payload, marshal_process_payout_payload,
}
use payout_orchestrator.Execution.{parse_payload, handle_event}
use payout_orchestrator.Execution.Recording.{is_failed}
use payout_orchestrator.Execution.Preparing.{is_pending}
use payout_orchestrator.Execution.Delivery.{Deliverable, Executes, handle_event-Executes}
use payout_orchestrator.Execution.Delivery.Again.{Idle, answer_again, handle_event-Idle}
use payout_orchestrator.Sample.{
  calm_env, acme, treasury, payout_row, world_with, event, provider, answer,
}

quiet : IsQuiet calm_env
quiet = record { fault = λ n. refl; others = λ n d. refl }

deliverable : Deliverable calm_env event (world_with Status.pending)
unfolding parse_payload unmarshal_process_payout_payload marshal_process_payout_payload
    numeric_string
deliverable = record {
  kind = refl;
  payload = record { payout_id = 3; client_id = 1 };
  parsed = refl;
  payable = record {
    row = payout_row Status.pending;
    there = refl;
    only = refl;
    source = treasury;
    owned = refl;
  };
  unfinished = is_pending;
  amount = codes "12.50";
  printed = refl;
  client = acme;
  known = refl;
  new_event_id = refl;
}

handle_event-Executes_example :
    Executes calm_env event
      (world_with Status.pending)
      deliverable
      answer
      is_failed
      (handle_event calm_env (some provider) event (world_with Status.pending))
handle_event-Executes_example =
    handle_event-Executes calm_env event (world_with Status.pending) deliverable quiet provider
      answer is_failed refl

handle_event-Idle_example :
    Idle
      (handle_event calm_env (some provider) event (world_with Status.pending)).1
      (answer_again is_failed)
      (handle_event calm_env
        (some provider)
        event
        (handle_event calm_env (some provider) event (world_with Status.pending)).1)
handle_event-Idle_example =
    handle_event-Idle calm_env quiet provider event (world_with Status.pending) deliverable answer
      is_failed refl
