-- ===== src/Broker/RoundTrip.antt =====
-- A message that is sent, and one that is encoded and decoded again.
use payout_orchestrator.Common.{◌≡◌, refl, some}
use payout_orchestrator.Json.{names}
use payout_orchestrator.Base64.RoundTrip.{AllBytes, decode-encode}
use payout_orchestrator.Outcome.{ok}
use payout_orchestrator.Db.Session.{Env}
use payout_orchestrator.Outbox.Event.{Event}
use payout_orchestrator.Broker.{
  MessagePublisher, payout_exchange_name, payout_routing_key, dispatch, dispatch_to,
  event_type_text, read_event_type, job_document, encode_payout_job, decode_bytes, decode_key,
  decode_fields, or_unmarshal_error, event_of, decode_message, decode_payout_job,
}

-- A publisher with its two names sends the event's message.
pub dispatch_lem :
    (env : Env) (publish : MessagePublisher) (event : Event)
    → dispatch env
        (record {
          publisher = some publish;
          exchange_name = payout_exchange_name;
          routing_key = payout_routing_key;
        })
        event
      ≡ publish payout_exchange_name payout_routing_key (encode_payout_job env event)
unfolding dispatch dispatch_to
dispatch_lem env publish event = refl

-- The bytes of an event's message are decoded to the same event, whatever its payload, provided
-- that encoding/json reads what it has written for this document, that the payload is made of
-- bytes, and that the type is no second spelling of one of the two constants.
pub decode_payout_job-encode :
    (env : Env) (event : Event)
    → env.json_parse (env.json_text (job_document event)) ≡ some (job_document event)
    → AllBytes event.payload
    → read_event_type (event_type_text event.event_type) ≡ event.event_type
    → decode_payout_job env (encode_payout_job env event) ≡ ok event
unfolding decode_payout_job encode_payout_job decode_message decode_fields decode_key decode_bytes
    job_document names
decode_payout_job-encode env event parsed bytes spelled =
    rw (parsed, or_unmarshal_error, decode-encode event.payload bytes, event_of, spelled) refl
