-- ===== src/Pipeline/Way.antt =====
-- The stations of a new payout: what its event is like when the relay and the worker take it.
use payout_orchestrator.Common.{
  ◌≡◌, refl, ◌∙◌, ◌==◌, ==_iff, true, false, some, Bool, any, find, find-last, any-last_none,
  any-none_sub, any-update_where, find-update_where,
}
use payout_orchestrator.Outcome.{ok}
use payout_orchestrator.Db.Models.{Uuid, Time, OutboxEvent}
use payout_orchestrator.Db.Session.{Env, World}
use payout_orchestrator.Db.Session.Quiet.{IsQuiet}
use payout_orchestrator.Db.OutboxEvents.{has_event_id, claim, claimable}
use payout_orchestrator.Db.OutboxEvents.Found.{earliest-last, finished}
use payout_orchestrator.Db.Payouts.{has_id, is_payout_of}
use payout_orchestrator.Outbox.Payload.{unmarshal-IsReordered}
use payout_orchestrator.Outbox.Relay.{run_once}
use payout_orchestrator.Outbox.Relay.Round.{taken, hands_on}
use payout_orchestrator.Broker.{
  MessagePublisher, payout_exchange_name, payout_routing_key, dispatch,
}
use payout_orchestrator.Broker.RoundTrip.{dispatch_lem}
use payout_orchestrator.Execution.{ParsedPayload, parse_payload}
use payout_orchestrator.Execution.Preparing.{Payable, is_pending}
use payout_orchestrator.Execution.Delivery.{Deliverable}
use payout_orchestrator.Payouts.Validation.{Request}
use payout_orchestrator.Payouts.Create.Progress.{Acceptable, &&-right}
use payout_orchestrator.Pipeline.{
  later, relay_config, payout_publisher, new_row, stored_event, sent_event, message, Unhindered,
  created_world, publishing_world, relayed_world,
}

module _ (env : Env) (quiet : IsQuiet env) (req : Request) (w : World)
    (can : Acceptable env req w.step w.committed) (claim_timeout now : Time)
    (way : Unhindered env req w can claim_timeout now) where
  -- The relay takes the new event.
  takes :
      taken env (relay_config claim_timeout) now (created_world env req w can quiet)
      ≡ some (stored_event env req w can)
  unfolding claimable
  takes =
      earliest-last _ w.committed.outbox_events (stored_event env req w can) way.none_before
        (rw way.unlocked refl)

  -- Its row is there when the message has been sent.
  stays :
      find
        (has_event_id (stored_event env req w can).id)
        (publishing_world env req w can quiet).committed.outbox_events
      ≡ some (claim (env.tick (later 8 w.step)) (stored_event env req w can))
  stays =
      find-update_where same_event same_event (claim (env.tick (later 8 w.step))) _ (λ e. refl)
        (find-last same_event w.committed.outbox_events (stored_event env req w can)
          can.new_event_id itself)
        itself
    where
      same_event : OutboxEvent → Bool
      same_event = has_event_id (stored_event env req w can).id

      itself : (stored_event env req w can).id == (stored_event env req w can).id ≡ true
      itself = (==_iff (stored_event env req w can).id (stored_event env req w can).id).1 refl

  abbrev pub payload : ParsedPayload
  payload = record { payout_id = (new_row env req w can).id; client_id = req.client_id }

  pub parsed : parse_payload env (sent_event env req w can).payload ≡ ok payload
  unfolding parse_payload
  parsed =
      rw
        (
          way.payload_read,
          unmarshal-IsReordered (env.uuid_text (new_row env req w can).id)
              (env.uuid_text req.client_id) way.payload_keys,
          way.id_read,
          way.client_id_read,
        )
        refl

  abbrev pub payable : Payable payload (relayed_world env req w can quiet).committed
  payable = record {
    row = new_row env req w can;
    there =
        find-last (is_payout_of req.client_id id) w.committed.payouts (new_row env req w can)
          (any-none_sub (is_payout_of req.client_id id) (has_id id) w.committed.payouts
            (λ p h. &&-right (p.client_id == req.client_id) (p.id == id) h) can.new_id)
          (rw ((==_iff req.client_id req.client_id).1 refl) ((==_iff id id).1 refl));
    only =
        find-last (has_id id) w.committed.payouts (new_row env req w can) can.new_id
          ((==_iff id id).1 refl);
    source = can.source;
    owned = can.owned;
  }
    where
      id : Uuid
      id = (new_row env req w can).id

  pub fresh_again :
      any
        (λ (e : OutboxEvent). e.id == (env.tick (later 21 w.step)).fresh)
        (relayed_world env req w can quiet).committed.outbox_events
      ≡ false
  fresh_again =
      any-update_where taken_id same_event finish _ (λ e. refl)
      ∙ any-update_where taken_id same_event (claim (env.tick (later 8 w.step))) _ (λ e. refl)
      ∙ any-last_none taken_id w.committed.outbox_events (stored_event env req w can) way.new_id
          way.other_id
    where
      taken_id : OutboxEvent → Bool
      taken_id e = e.id == (env.tick (later 21 w.step)).fresh

      same_event : OutboxEvent → Bool
      same_event = has_event_id (stored_event env req w can).id

      finish : OutboxEvent → OutboxEvent
      finish = finished (env.tick (later 11 w.step)).now

  abbrev pub deliverable :
      Deliverable env (sent_event env req w can) (relayed_world env req w can quiet)
  deliverable = record {
    kind = refl;
    payload = payload;
    parsed = parsed;
    payable = payable;
    unfinished = is_pending;
    amount = way.amount;
    printed = way.printed;
    client = way.client;
    known = way.known;
    new_event_id = fresh_again;
  }

  -- What the relay's round does, where the broker takes the message.
  pub relays :
      (publish : MessagePublisher)
      → publish payout_exchange_name payout_routing_key
          (message env req w can)
          (publishing_world env req w can quiet)
        ≡ (ok tt, publishing_world env req w can quiet)
      → run_once env
          (relay_config claim_timeout)
          (dispatch env (payout_publisher publish))
          now
          (created_world env req w can quiet)
        ≡ (ok true, relayed_world env req w can quiet)
  relays publish sent =
      hands_on env quiet (relay_config claim_timeout) (dispatch env (payout_publisher publish)) now
        (created_world env req w can quiet) (stored_event env req w can)
        (publishing_world env req w can quiet) takes
        (rw (dispatch_lem env publish (sent_event env req w can)) sent) stays

  -- The event is processed.
  pub processed_event :
      find
        (has_event_id (stored_event env req w can).id)
        (relayed_world env req w can quiet).committed.outbox_events
      ≡ some (
          finished
            (env.tick (later 11 w.step)).now
            (claim (env.tick (later 8 w.step)) (stored_event env req w can)))
  processed_event =
      find-update_where (has_event_id (stored_event env req w can).id) _ _ _ (λ e. refl) stays
        ((==_iff (stored_event env req w can).id (stored_event env req w can).id).1 refl)
