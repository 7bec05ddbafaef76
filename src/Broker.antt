-- ===== src/Broker.antt =====
-- internal/broker/rabbitmq/payout_publisher.go: the messages between the relay and the worker.
pub mod RoundTrip
mod Tests
use payout_orchestrator.Common.{
  ℕ, ◌+◌, ◌-◌, ◌*◌, Bool, true, false, ◌&&◌, Option, none, some, List, [], ◌∷◌, ltb, leb,
  if◌then◌else◌,
}
use payout_orchestrator.Text.{Text, codes, text_eq, is_empty}
use payout_orchestrator.Base64
use payout_orchestrator.Json.{
  Json, Items, Fields, null, num, str, arr, obj, nil, cons, end, field, names, decode_string,
}
use payout_orchestrator.Outcome.{Error, Result, ok, err, failure, ◌>>=◌}
use payout_orchestrator.Db.Models.{EventType, process_payout, payout_result_webhook, other_type}
use payout_orchestrator.Db.Session.{Env, Action, raise}
use payout_orchestrator.Outbox.Event.{Event, EventHandler}

-- The method of messagePublisher: exchange, routing key and body.
abbrev pub MessagePublisher : Type 0
MessagePublisher = Text → Text → Text → Action (Unit {0})

abbrev pub payout_exchange_name : Text
payout_exchange_name = codes "payout.jobs"

abbrev pub payout_routing_key : Text
payout_routing_key = codes "payout.process"

-- payoutJobMessage
pub record PayoutJobMessage : Type 0 where
  pub id : Text
  pub event_type : Text
  pub entity_id : Text
  pub payload : Text

-- A nil publisher in the source stands as `none`.
pub record PayoutPublisher : Type 0 where
  pub publisher : Option MessagePublisher
  pub exchange_name : Text
  pub routing_key : Text

pub record Topology : Type 0 where
  pub exchange_name : Text
  pub queue_name : Text
  pub routing_key : Text

-- NewPayoutTopology
abbrev pub new_payout_topology : Text → Topology
new_payout_topology queue_name = record {
  exchange_name = payout_exchange_name;
  queue_name = queue_name;
  routing_key = payout_routing_key;
}

-- The text that an event type is in the source, and the type that a text stands for.
abbrev pub event_type_text : EventType → Text
event_type_text process_payout = codes "process_payout"
event_type_text payout_result_webhook = codes "payout_result_webhook"
event_type_text (other_type s) = s

abbrev pub read_event_type : Text → EventType
read_event_type s =
    if text_eq s (codes "process_payout")
    then process_payout
    else if text_eq s (codes "payout_result_webhook")
    then payout_result_webhook
    else other_type s

-- The document of a message; a []byte is written in base64.
pub job_document : Event → Json
job_document event = obj (
    field (codes "id") (str event.id) (
      field (codes "event_type") (str (event_type_text event.event_type)) (
        field (codes "entity_id") (str event.entity_id)
          (field (codes "payload") (str (Base64.encode event.payload)) end))))

-- EncodePayoutJob
pub encode_payout_job : Env → Event → Text
encode_payout_job env event = env.json_text (job_document event)

abbrev unmarshal_error : Error
unmarshal_error = failure (codes "json: cannot unmarshal into Go struct field payoutJobMessage")

or_unmarshal_error : {A : Type 0} → Option A → Result A
or_unmarshal_error none = err unmarshal_error
or_unmarshal_error (some a) = ok a

-- A JSON number as a uint8: decimal digits only, below 256.
byte_from : ℕ → Text → Option ℕ
byte_from n [] = if ltb n 256 then some n else none
byte_from n (c ∷ s) =
    let rest = byte_from (n * 10 + (c - b'0')) s in if leb b'0' c && leb c b'9' then rest else none

byte_of : Json → ℕ → Result ℕ
unfolding byte_from or_unmarshal_error
byte_of null old = ok old
byte_of (num []) old = err unmarshal_error
byte_of (num (c ∷ s)) old = or_unmarshal_error (byte_from 0 (c ∷ s))
byte_of _ old = err unmarshal_error

head_or_zero : Text → ℕ
head_or_zero [] = 0
head_or_zero (c ∷ s) = c

tail_of : Text → Text
tail_of [] = []
tail_of (c ∷ s) = s

-- An array of numbers is a []byte too; a null element leaves the byte that was there.
bytes_of : Items → Text → Result Text
unfolding byte_of head_or_zero tail_of
bytes_of nil old = ok []
bytes_of (cons item items) old = do
  b ← byte_of item (head_or_zero old)
  rest ← bytes_of items (tail_of old)
  ok (b ∷ rest)

-- What one key does to the []byte field.
decode_bytes : Json → Text → Result Text
unfolding bytes_of or_unmarshal_error
decode_bytes null old = ok []
decode_bytes (str s) old = or_unmarshal_error (Base64.decode s)
decode_bytes (arr items) old = bytes_of items old
decode_bytes _ old = err unmarshal_error

decode_key : Text → Json → PayoutJobMessage → Result PayoutJobMessage
unfolding decode_bytes
decode_key key value m =
    if names key (codes "id")
    then (do s ← decode_string value m.id; ok (record m { id = s }))
    else if names key (codes "event_type")
    then (do s ← decode_string value m.event_type; ok (record m { event_type = s }))
    else if names key (codes "entity_id")
    then (do s ← decode_string value m.entity_id; ok (record m { entity_id = s }))
    else if names key (codes "payload")
    then (do s ← decode_bytes value m.payload; ok (record m { payload = s }))
    else ok m

decode_fields : Fields → PayoutJobMessage → Result PayoutJobMessage
unfolding decode_key
decode_fields end m = ok m
decode_fields (field key value rest) m = do m' ← decode_key key value m; decode_fields rest m'

zero_message : PayoutJobMessage
zero_message = record { id = []; event_type = []; entity_id = []; payload = [] }

-- The document of `json.Unmarshal`, where the bytes are one.
decode_message : Option Json → Result PayoutJobMessage
unfolding decode_fields zero_message
decode_message none = err (failure (codes "invalid character"))
decode_message (some null) = ok zero_message
decode_message (some (obj fields)) = decode_fields fields zero_message
decode_message (some _) = err unmarshal_error

event_of : PayoutJobMessage → Event
event_of m = record {
  id = m.id;
  event_type = read_event_type m.event_type;
  entity_id = m.entity_id;
  payload = m.payload;
}

-- DecodePayoutJob
unfoldable pub decode_payout_job : Env → Text → Result Event
unfolding decode_message event_of
decode_payout_job env raw = do m ← decode_message (env.json_parse raw); ok (event_of m)

-- The guards of `Dispatch` in their order.
dispatch_to : Env → PayoutPublisher → MessagePublisher → Event → Action (Unit {0})
dispatch_to env p publish event =
    if is_empty p.exchange_name
    then raise (failure (codes "rabbitmq payout exchange name is required"))
    else if is_empty p.routing_key
    then raise (failure (codes "rabbitmq payout routing key is required"))
    else publish p.exchange_name p.routing_key (encode_payout_job env event)

-- Dispatch
pub dispatch : Env → PayoutPublisher → EventHandler
dispatch env p event = elim p.publisher [
  | none ↦ raise (failure (codes "rabbitmq payout publisher is not configured"))
  | some publish ↦ dispatch_to env p publish event
]
