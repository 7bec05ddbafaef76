-- ===== src/Worker/Tests.antt =====
-- The worker at concrete messages.
use payout_orchestrator.Common.{◌≡◌, refl, some, [], ◌∷◌}
use payout_orchestrator.Text.{codes, text_eq}
use payout_orchestrator.Json.{names}
use payout_orchestrator.Base64
use payout_orchestrator.Outcome.{ok}
use payout_orchestrator.Status
use payout_orchestrator.Db.Session.{World, session}
use payout_orchestrator.Db.Clients.{get_client_by_id}
use payout_orchestrator.Db.FundingSources.{get_funding_source_by_client_id}
use payout_orchestrator.Db.Payouts.{
  get_payout_by_client_id, update_payout_status, update_payout_failure,
}
use payout_orchestrator.Money.{numeric_string}
use payout_orchestrator.Outbox.Event.{Event}
use payout_orchestrator.Outbox.Payload.{unmarshal_process_payout_payload}
use payout_orchestrator.Broker.{decode_payout_job}
use payout_orchestrator.Execution.{handling, handle_event}
use payout_orchestrator.Execution.Finish.{Finished}
use payout_orchestrator.Worker.{
  acked, settling, Delivery, Handled, handle_delivery, delivered, consume_loop,
}
use payout_orchestrator.Worker.Settled.{
  Settles, handle_delivery-Settles, handle_delivery-acked, SettlesAll, consume_loop-length,
}
use payout_orchestrator.Sample.{calm_env, world_with, provider}

abbrev delivery : Delivery
delivery = record { body = codes "job"; settle = λ s. ok tt }

handle_delivery-Settles_example :
    Settles calm_env (handle_event calm_env (some provider)) delivery (world_with Status.pending) (
      handle_delivery calm_env
        (handle_event calm_env (some provider))
        delivery
        (world_with Status.pending))
handle_delivery-Settles_example =
    handle_delivery-Settles calm_env (handle_event calm_env (some provider)) delivery
      (world_with Status.pending)

abbrev after_delivery : Handled × World
after_delivery =
    handle_delivery calm_env (handle_event calm_env (some provider)) delivery
      (world_with Status.pending)

acknowledged : after_delivery.0 ≡ settling delivery acked
unfolding handle_delivery decode_payout_job names Base64.decode handling session
    get_payout_by_client_id get_funding_source_by_client_id update_payout_status
    update_payout_failure get_client_by_id numeric_string unmarshal_process_payout_payload text_eq
acknowledged = refl

handle_delivery-acked_example :
    (e : Event) × (decode_payout_job calm_env delivery.body ≡ ok e)
    × Finished calm_env provider e (world_with Status.pending) after_delivery.1
handle_delivery-acked_example =
    handle_delivery-acked calm_env provider delivery (world_with Status.pending) acknowledged

consume_loop-length_example : SettlesAll calm_env (handle_event calm_env (some provider)) 2 (
    consume_loop calm_env
      (handle_event calm_env (some provider))
      (delivered delivery ∷ delivered delivery ∷ [])
      (world_with Status.pending))
consume_loop-length_example =
    consume_loop-length calm_env (handle_event calm_env (some provider))
      (delivered delivery ∷ delivered delivery ∷ []) (world_with Status.pending)
      ((λ s. refl), ((λ s. refl), tt))
