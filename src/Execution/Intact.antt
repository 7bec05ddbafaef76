-- ===== src/Execution/Intact.antt =====
-- What the handling of an event leaves intact, however it ends.
use payout_orchestrator.Common.{refl, sym, subst, some}
use payout_orchestrator.Status.{Status}
use payout_orchestrator.Provider.{ExecutePayoutInput, ExecutePayoutResult, PayoutProvider}
use payout_orchestrator.Db.Models.{
  Uuid, FundingSource, EventType, process_payout, payout_result_webhook, other_type, Payout, Db,
}
use payout_orchestrator.Db.Session.{Env}
use payout_orchestrator.Db.Session.Invariant.{
  Safe, SafeStatement, IsRely, Writes, Stays, Writes-pure, Writes-raise, Writes-lift, Writes-if,
  Writes-on_tx, Writes-bind, Stays-bind, Stays-pure, Stays-raise, Stays-lift, Stays-if,
  Stays-within_tx,
}
use payout_orchestrator.Db.Clients.{get_client_by_id}
use payout_orchestrator.Db.FundingSources.{get_funding_source_by_client_id}
use payout_orchestrator.Db.Payouts.{get_payout_by_client_id}
use payout_orchestrator.Db.Effects.{
  get_payout_by_client_id-eq-ok, get_funding_source_by_client_id-eq-ok, get_client_by_id-eq-ok,
}
use payout_orchestrator.Db.Intact.{
  IsIntact, unchanged-Safe, status_update-Safe, failure_update-Safe, webhook-Safe,
}
use payout_orchestrator.Outbox.Event.{Event}
use payout_orchestrator.Execution.Prepare.{prepare-IsTx}
use payout_orchestrator.Execution.Record.{record-IsTx}
use payout_orchestrator.Execution.{
  ParsedPayload, PreparedExecution, ready, prepare_by_status, prepare_execution_in_tx,
  create_webhook_if_configured, record_in_tx, record_execution_result, ask, execute_prepared,
  handle_payload, handle_typed, handle_event,
}

module _ (env : Env) where
  abbrev Intact : Db → Type 0
  Intact = IsIntact env

  payout_lookup :
      (client_id id : Uuid) → SafeStatement Intact (get_payout_by_client_id client_id id)
  payout_lookup client_id id t db a f h =
      subst (Safe Intact) (sym (get_payout_by_client_id-eq-ok client_id id t db h).1)
        (unchanged-Safe env)

  source_lookup :
      (client_id id : Uuid) → SafeStatement Intact (get_funding_source_by_client_id client_id id)
  source_lookup client_id id t db a f h =
      subst (Safe Intact) (sym (get_funding_source_by_client_id-eq-ok client_id id t db h))
        (unchanged-Safe env)

  client_lookup : (id : Uuid) → SafeStatement Intact (get_client_by_id id)
  client_lookup id t db a f h =
      subst (Safe Intact) (sym (get_client_by_id-eq-ok id t db h).1) (unchanged-Safe env)

  ready-Writes : (payout : Payout) (source : FundingSource) → Writes Intact (ready payout source)
  unfolding ready
  ready-Writes payout source =
      Writes-bind env Intact _ _ (Writes-lift env Intact _) (λ amount. Writes-pure env Intact _)

  by_status-Writes :
      (s : Status) (payout : Payout) (source : FundingSource)
      → Writes Intact (prepare_by_status env s payout source)
  unfolding prepare_by_status
  by_status-Writes Status.pending payout source =
      Writes-bind env Intact _ _ (Writes-on_tx env Intact _ (status_update-Safe env _ _))
        (λ row. ready-Writes row source)
  by_status-Writes Status.processing payout source = ready-Writes payout source
  by_status-Writes Status.succeeded payout source = Writes-pure env Intact _
  by_status-Writes Status.failed payout source = Writes-raise env Intact _
  by_status-Writes (Status.other s) payout source = Writes-raise env Intact _

  prepare-Writes : (payload : ParsedPayload) → Writes Intact (prepare_execution_in_tx env payload)
  unfolding prepare_execution_in_tx
  prepare-Writes payload =
      Writes-bind env Intact _ _ (Writes-on_tx env Intact _ (payout_lookup _ _)) λ row.
        Writes-bind env Intact _ _ (Writes-on_tx env Intact _ (source_lookup _ _))
          λ source. by_status-Writes row.status row source

  webhook-Writes : (payout : Payout) → Writes Intact (create_webhook_if_configured env payout)
  unfolding create_webhook_if_configured
  webhook-Writes payout =
      Writes-bind env Intact _ _ (Writes-on_tx env Intact _ (client_lookup _)) λ client.
        Writes-if env Intact _ _ _ (Writes-pure env Intact _) (
          Writes-bind env Intact _ _ (Writes-on_tx env Intact _ (webhook-Safe env _ refl))
            (λ event. Writes-pure env Intact _))

  record-Writes :
      (payout : Payout) (r : ExecutePayoutResult) (s : Status)
      → Writes Intact (record_in_tx env payout r s)
  unfolding record_in_tx
  record-Writes payout r Status.succeeded =
      Writes-bind env Intact _ _ (Writes-on_tx env Intact _ (status_update-Safe env _ _))
        webhook-Writes
  record-Writes payout r Status.failed =
      Writes-bind env Intact _ _ (Writes-on_tx env Intact _ (failure_update-Safe env _ _))
        webhook-Writes
  record-Writes payout r Status.pending = Writes-raise env Intact _
  record-Writes payout r Status.processing = Writes-raise env Intact _
  record-Writes payout r (Status.other s) = Writes-raise env Intact _

  module _ (rely : IsRely env Intact) (provider : PayoutProvider) where
    ask-Stays : (input : ExecutePayoutInput) → Stays Intact (ask provider input)
    unfolding ask
    ask-Stays input = record { at = λ w h. h }

    prepared-Stays : (p : PreparedExecution) → Stays Intact (execute_prepared env provider p)
    unfolding execute_prepared record_execution_result
    prepared-Stays p =
        Stays-if env Intact _ _ _
          (Stays-bind env Intact _ _ (ask-Stays _) λ r.
            Stays-within_tx env Intact rely _ (record-IsTx env p.payout r r.status)
              (record-Writes p.payout r r.status))
          (Stays-pure env Intact tt)

    payload-Stays : (payload : ParsedPayload) → Stays Intact (handle_payload env provider payload)
    unfolding handle_payload
    payload-Stays payload =
        Stays-bind env Intact _ _
          (Stays-within_tx env Intact rely _ (prepare-IsTx env payload) (prepare-Writes payload))
          prepared-Stays

    typed-Stays :
        (kind : EventType) (event : Event) → Stays Intact (handle_typed env provider kind event)
    unfolding handle_typed
    typed-Stays process_payout event =
        Stays-bind env Intact _ _ (Stays-lift env Intact _) payload-Stays
    typed-Stays payout_result_webhook event = Stays-raise env Intact _
    typed-Stays (other_type s) event = Stays-raise env Intact _

    -- However the handling of an event ends, intact tables stay so.
    pub handle_event-Stays : (event : Event) → Stays Intact (handle_event env (some provider) event)
    unfolding handle_event
    handle_event-Stays event = typed-Stays event.event_type event
