-- ===== src/Outbox/Relay/Intact.antt =====
-- What a round of the relay leaves intact, however it ends.
use payout_orchestrator.Common.{◌-◌, inl, inr, Bool-cases, Option, none, some}
use payout_orchestrator.Outcome.{Result, ok, err, is_no_rows, is_panic}
use payout_orchestrator.Db.Models.{Uuid, Time, OutboxEvent, Db}
use payout_orchestrator.Db.Session.{Env, Statement, on_tx, within_tx}
use payout_orchestrator.Db.Session.Transactions.{IsTx-on_tx}
use payout_orchestrator.Db.Session.Invariant.{
  IsRely, Stays, SafeStatement, Writes-on_tx, Stays-bind, Stays-pure, Stays-raise, Stays-if,
  Stays-with_result, Stays-within_tx,
}
use payout_orchestrator.Db.Intact.{IsIntact, claim-Safe, mark-Safe, release-Safe}
use payout_orchestrator.Db.OutboxEvents.Found.{claim_statement}
use payout_orchestrator.Outbox.Event.{Event, EventHandler}
use payout_orchestrator.Outbox.Relay.Round.{claim_event_lem}
use payout_orchestrator.Outbox.Relay.{
  Config, claim_result, claim_next_pending_event, mark_processed, release_claim, dispatch_event,
  after_dispatch, dispatch_claimed, run_once,
}

module _ (env : Env) (rely : IsRely env (IsIntact env)) where
  abbrev Intact : Db → Type 0
  Intact = IsIntact env

  statement-Stays :
      {A : Type 0} (s : Statement A)
      → SafeStatement Intact s
      → Stays Intact (within_tx env (on_tx env s))
  statement-Stays s safe =
      Stays-within_tx env Intact rely (on_tx env s) (IsTx-on_tx env s)
        (Writes-on_tx env Intact s safe)

  result-Stays : (r : Result OutboxEvent) → Stays Intact (claim_result r)
  unfolding claim_result
  result-Stays (ok row) = Stays-pure env Intact _
  result-Stays (err e) =
      Stays-if env Intact (is_no_rows e) _ _ (Stays-pure env Intact _) (Stays-raise env Intact _)

  claim-Stays :
      (config : Config) (limit : Time) → Stays Intact (claim_next_pending_event env config limit)
  unfolding claim_next_pending_event
  claim-Stays config limit =
      rw (claim_event_lem env config.event_types config.claim_timeout limit) (
        Stays-with_result env Intact _ _
          (statement-Stays (claim_statement config.event_types limit)
            (claim-Safe env config.event_types limit))
          result-Stays)

  after-Stays : (id : Uuid) (r : Result (Unit {0})) → Stays Intact (after_dispatch env id r)
  unfolding after_dispatch mark_processed release_claim
  after-Stays id (ok x) =
      Stays-bind env Intact _ _ (statement-Stays _ (mark-Safe env id))
        (λ row. Stays-pure env Intact _)
  after-Stays id (err e) = elim (Bool-cases (is_panic e)) [
    | inl left ↦ rw left (Stays-raise env Intact _)
    | inr failed ↦ rw failed (
        Stays-bind env Intact _ _ (statement-Stays _ (release-Safe env id))
          (λ row. Stays-raise env Intact _))
  ]

  module _ (dispatch : EventHandler) (sends : (event : Event) → Stays Intact (dispatch event)) where
    dispatch-Stays : (o : Option OutboxEvent) → Stays Intact (dispatch_claimed env dispatch o)
    unfolding dispatch_claimed
    dispatch-Stays none = Stays-pure env Intact _
    dispatch-Stays (some row) =
        Stays-with_result env Intact _ _ (sends (dispatch_event env row)) (after-Stays row.id)

    -- However a round of the relay ends, intact tables stay so, if the dispatcher leaves them intact.
    pub run_once-Stays :
        (config : Config) (now : Time) → Stays Intact (run_once env config dispatch now)
    unfolding run_once
    run_once-Stays config now =
        Stays-bind env Intact _ _ (claim-Stays config (now - config.claim_timeout)) dispatch-Stays
