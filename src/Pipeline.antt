-- ===== src/Pipeline.antt =====
-- A payout on its way from the client's request to the provider: `CreatePayout` of the API, then a
-- round of the relay whose dispatcher is the broker's publisher, then the worker's handling of the
-- message; with internal/apps/api/services/payouts/service.go, internal/outbox/relay.go,
-- internal/broker/rabbitmq/payout_publisher.go, internal/apps/payoutworker/worker.go and
-- internal/apps/payoutworker/execution/execution.go.
pub mod Way
pub mod Pays
mod Tests
use payout_orchestrator.Common.{
  ℕ, zero, suc, ◌≡◌, ◌-◌, ◌==◌, not, ◌&&◌, true, false, some, List, [], ◌∷◌, any, find,
}
use payout_orchestrator.Text.{Text}
use payout_orchestrator.Json.{Json}
use payout_orchestrator.Base64.RoundTrip.{AllBytes}
use payout_orchestrator.Money.{numeric_string}
use payout_orchestrator.Provider.{ExecutePayoutInput}
use payout_orchestrator.Outcome.{ok}
use payout_orchestrator.Db.Models.{Time, Client, OutboxEvent, Payout, process_payout}
use payout_orchestrator.Db.Session.{Env, World}
use payout_orchestrator.Db.Session.Quiet.{IsQuiet, settled}
use payout_orchestrator.Db.OutboxEvents.Found.{is_wanted, finished}
use payout_orchestrator.Outbox.Event.{Event, EventHandler}
use payout_orchestrator.Outbox.Payload.{marshal_process_payout_payload, IsReordered}
use payout_orchestrator.Outbox.Relay.{Config, dispatch_event}
use payout_orchestrator.Outbox.Relay.Round.{claimed_event, claimed_world, updated_world}
use payout_orchestrator.Broker.{
  MessagePublisher, PayoutPublisher, payout_exchange_name, payout_routing_key, job_document,
  dispatch, encode_payout_job,
}
use payout_orchestrator.Payouts.Validation.{Request}
use payout_orchestrator.Payouts.Create.Progress.{Acceptable, row, event_row, sixth}

-- The number of a statement that comes so many later.
abbrev pub later : ℕ → ℕ → ℕ
later zero n = n
later (suc k) n = suc (later k n)

-- The relay and the publisher of cmd/api/main.go.
abbrev pub relay_config : Time → Config
relay_config claim_timeout = record {
  claim_timeout = claim_timeout;
  event_types = process_payout ∷ [];
}

abbrev pub payout_publisher : MessagePublisher → PayoutPublisher
payout_publisher publish = record {
  publisher = some publish;
  exchange_name = payout_exchange_name;
  routing_key = payout_routing_key;
}

module _ (env : Env) (req : Request) (w : World) (can : Acceptable env req w.step w.committed) where
  -- The new payout, its event, and the payload of the event.
  abbrev pub new_row : Payout
  new_row = row env req w.step w.committed can

  abbrev pub stored_event : OutboxEvent
  stored_event = event_row env req w.step w.committed can

  abbrev pub payload_document : Json
  payload_document =
      marshal_process_payout_payload (env.uuid_text new_row.id) (env.uuid_text new_row.client_id)

  -- The event as the dispatcher gets it, and its message.
  abbrev pub sent_event : Event
  sent_event = record {
    id = env.uuid_text stored_event.id;
    event_type = process_payout;
    entity_id = env.uuid_text new_row.id;
    payload = env.jsonb_text (env.jsonb payload_document);
  }

  abbrev pub message : Text
  message = encode_payout_job env sent_event

  -- What the way of the payout needs besides: the UUIDs and the document of the message are read
  -- back as they were written, the document of the payload with its two keys in some order (a JSONB
  -- column does not keep theirs), no other event is before this one, which nobody holds, the amount has a text, the client
  -- is there, and its webhook event gets a fresh id.
  pub record Unhindered (claim_timeout now : Time) : Type 0 where
    pub id_read : env.parse_uuid (env.uuid_text new_row.id) ≡ some new_row.id
    pub client_id_read : env.parse_uuid (env.uuid_text req.client_id) ≡ some req.client_id
    pub payload_kept : Json
    pub payload_read :
        env.json_parse (env.jsonb_text (env.jsonb payload_document)) ≡ some payload_kept
    pub payload_keys :
        IsReordered (env.uuid_text new_row.id) (env.uuid_text req.client_id) payload_kept
    pub payload_bytes : AllBytes (env.jsonb_text (env.jsonb payload_document))
    pub message_read :
        env.json_parse (env.json_text (job_document sent_event)) ≡ some (job_document sent_event)
    pub none_before :
        any
          (λ (e : OutboxEvent).
            is_wanted (process_payout ∷ []) (now - claim_timeout) e
            && not ((env.tick (later 8 w.step)).locked e.id))
          w.committed.outbox_events
        ≡ false
    pub unlocked : (env.tick (later 8 w.step)).locked stored_event.id ≡ false
    pub amount : Text
    pub printed : numeric_string new_row.amount ≡ ok amount
    pub client : Client
    pub known : find (λ (c : Client). c.id == req.client_id) w.committed.clients ≡ some client
    pub new_id :
        any
          (λ (e : OutboxEvent). e.id == (env.tick (later 21 w.step)).fresh)
          w.committed.outbox_events
        ≡ false
    pub other_id : stored_event.id == (env.tick (later 21 w.step)).fresh ≡ false

  -- The request that the provider gets.
  abbrev pub order : Text → ExecutePayoutInput
  order amount = record {
    payout_id = env.uuid_text new_row.id;
    funding_source_id = env.uuid_text can.source.id;
    payment_account_id = can.source.payment_account_id;
    amount = amount;
    currency = req.currency;
  }

  module _ (quiet : IsQuiet env) where
    -- The worlds behind the request, the claim, and the round of the relay.
    abbrev pub created_world : World
    created_world = settled (sixth env quiet req w can)

    abbrev pub publishing_world : World
    publishing_world = claimed_world env stored_event created_world

    abbrev pub relayed_world : World
    relayed_world =
        updated_world env stored_event.id (finished (env.tick (later 11 w.step)).now)
          publishing_world
