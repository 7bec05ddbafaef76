-- ===== src/Pipeline/Pays.antt =====
-- A new payout reaches the provider, and its answer the tables.
use payout_orchestrator.Common.{◌≡◌, refl, sym, subst, true, some, ◌∷◌, Bool, find}
use payout_orchestrator.Text.{Text, text_eq}
use payout_orchestrator.Provider.{ExecutePayoutResult, PayoutProvider}
use payout_orchestrator.Outcome.{Result, ok}
use payout_orchestrator.Db.Models.{Time, OutboxEvent, Payout, Db, processed}
use payout_orchestrator.Db.Session.{Env, World}
use payout_orchestrator.Db.Session.Quiet.{IsQuiet}
use payout_orchestrator.Db.OutboxEvents.{has_event_id}
use payout_orchestrator.Db.Payouts.{is_payout_of}
use payout_orchestrator.Outbox.Relay.{run_once}
use payout_orchestrator.Broker.{
  MessagePublisher, payout_exchange_name, payout_routing_key, dispatch, decode_payout_job,
}
use payout_orchestrator.Broker.RoundTrip.{decode_payout_job-encode}
use payout_orchestrator.Worker.{Handled, Delivery, settling, acked, handle_delivery}
use payout_orchestrator.Worker.Settled.{acknowledges}
use payout_orchestrator.Execution.{handle_event}
use payout_orchestrator.Execution.Recording.{IsFinal}
use payout_orchestrator.Execution.Delivery.{handle_event-Executes}
use payout_orchestrator.Execution.Delivery.Again.{tables-Payable}
use payout_orchestrator.Payouts.Validation.{Request, CreatePayoutInput, validate}
use payout_orchestrator.Payouts.Create.{create_payout}
use payout_orchestrator.Payouts.Create.AllOrNothing.{api_service}
use payout_orchestrator.Payouts.Create.Progress.{Acceptable, create_payout-world}
use payout_orchestrator.Pipeline.Way.{deliverable, relays, processed_event}
use payout_orchestrator.Pipeline.{
  later, relay_config, payout_publisher, new_row, stored_event, sent_event, message, Unhindered,
  order, publishing_world, relayed_world,
}

-- The payout has been paid, or has failed, as the provider says: the round of the relay has handed its
-- event on, which is processed; the message is acknowledged; the provider has been asked once, for
-- this payout; and the payout has the status that the provider has answered.
pub record Pays (env : Env) (req : Request) (w : World)
    (can : Acceptable env req w.step w.committed) (amount : Text) (d : Delivery)
    (r : ExecutePayoutResult) (round : Result Bool × World) (end : Handled × World) : Type 0 where
  pub relayed : round.0 ≡ ok true
  pub event : OutboxEvent
  pub event_found :
      find (has_event_id (stored_event env req w can).id) round.1.committed.outbox_events
      ≡ some event
  pub event_processed : event.status ≡ processed
  pub acknowledged : end.0 ≡ settling d acked
  pub asked : end.1.asked ≡ order env req w can amount ∷ w.asked
  pub payout : Payout
  pub payout_found :
      find (is_payout_of req.client_id (new_row env req w can).id) end.1.committed.payouts
      ≡ some payout
  pub payout_status : payout.status ≡ r.status

module _ (env : Env) (quiet : IsQuiet env) (req : Request) (w : World)
    (can : Acceptable env req w.step w.committed) (claim_timeout now : Time)
    (way : Unhindered env req w can claim_timeout now) (provider : PayoutProvider) where
  -- What the worker makes of the message.
  decoded :
      (d : Delivery)
      → d.body ≡ message env req w can
      → decode_payout_job env d.body ≡ ok (sent_event env req w can)
  unfolding text_eq
  decoded d carried = rw carried (
      decode_payout_job-encode env (sent_event env req w can) way.message_read way.payload_bytes
        refl)

  abbrev handling_end : Result (Unit {0}) × World
  handling_end =
      handle_event env (some provider) (sent_event env req w can)
        (relayed_world env req w can quiet)

  answered : handling_end.0 ≡ ok tt → handling_end ≡ (ok tt, handling_end.1)
  answered h = λ i. (h i, handling_end.1)

  handled :
      (d : Delivery) (r : ExecutePayoutResult) (f : IsFinal r.status)
      → d.body ≡ message env req w can
      → provider.execute_payout (later 18 w.step) (order env req w can way.amount) ≡ ok r
      → Pays env req w can way.amount d r
          (ok true, relayed_world env req w can quiet)
          (handle_delivery env
            (handle_event env (some provider))
            d
            (relayed_world env req w can quiet))
  handled d r f carried answers =
      let executes =
        handle_event-Executes env (sent_event env req w can) (relayed_world env req w can quiet)
          (deliverable env quiet req w can claim_timeout now way) quiet provider r f answers in
      let paid =
        tables-Payable env (sent_event env req w can) (relayed_world env req w can quiet)
          (deliverable env quiet req w can claim_timeout now way) r f in
      rw
        (acknowledges env (handle_event env (some provider)) d (sent_event env req w can)
          (relayed_world env req w can quiet) (decoded d carried) (answered executes.result))
        (record {
          relayed = refl;
          event = _;
          event_found = processed_event env quiet req w can claim_timeout now way;
          event_processed = refl;
          acknowledged = refl;
          asked = executes.asked;
          payout = paid.0.row;
          payout_found =
              subst
                (λ (db : Db).
                  find (is_payout_of req.client_id (new_row env req w can).id) db.payouts
                  ≡ some paid.0.row)
                (sym executes.committed) paid.0.there;
          payout_status = paid.1;
        })

  -- A new request that passes the checks, that the tables can take in and that nothing hinders on its
  -- way is executed, by `CreatePayout`, one round of the relay and one delivery of the message that
  -- the round has published: the relay hands the payout's event on and marks it as processed, the
  -- worker asks the provider exactly once, for this payout, its amount and its account, the payout
  -- gets the status of the provider's final answer, and the delivery is acknowledged. No statement
  -- fails, no other session commits, and the broker takes the message and delivers it.
  pub create_payout-Pays :
      (input : CreatePayoutInput) (publish : MessagePublisher) (d : Delivery)
      (r : ExecutePayoutResult) (f : IsFinal r.status)
      → validate env input ≡ ok req
      → publish payout_exchange_name payout_routing_key
          (message env req w can)
          (publishing_world env req w can quiet)
        ≡ (ok tt, publishing_world env req w can quiet)
      → d.body ≡ message env req w can
      → provider.execute_payout (later 18 w.step) (order env req w can way.amount) ≡ ok r
      → Pays env req w can way.amount d r
          (run_once env
            (relay_config claim_timeout)
            (dispatch env (payout_publisher publish))
            now
            (create_payout env (api_service env) input w).1)
          (handle_delivery env
            (handle_event env (some provider))
            d
            (run_once env
              (relay_config claim_timeout)
              (dispatch env (payout_publisher publish))
              now
              (create_payout env (api_service env) input w).1).1)
  create_payout-Pays input publish d r f valid sent carried answers =
      rw
        (
          create_payout-world env quiet req w can input valid,
          relays env quiet req w can claim_timeout now way publish sent,
        )
        (handled d r f carried answers)
