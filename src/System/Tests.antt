-- ===== src/System/Tests.antt =====
-- A request, a round of the relay and a message, from tables with a payout, its key and its event.
use payout_orchestrator.Common.{
  ℕ, zero, suc, ◌≡◌, refl, ap, inr, none, some, [], ◌∷◌, ◌++◌, ◌==◌, length, find, replicate,
  length-replicate, if◌then◌else◌,
}
use payout_orchestrator.Text.{Text, codes, text_eq}
use payout_orchestrator.Status.{Status}
use payout_orchestrator.Money.{numeric_string}
use payout_orchestrator.Db.Clients.{get_client_by_api_key}
use payout_orchestrator.Db.OutboxEvents.{has_event_id}
use payout_orchestrator.Db.Paging.{page}
use payout_orchestrator.Db.Payouts.{list_payouts_by_client_id}
use payout_orchestrator.Payouts.View
use payout_orchestrator.Api.Query.{parse_int32, int32_query_param, pagination_params}
use payout_orchestrator.Api.Documents.{responses}
use payout_orchestrator.Api.Auth.{authenticate_api_key, api_key}
use payout_orchestrator.Api.Payouts
use payout_orchestrator.Outcome.{ok}
use payout_orchestrator.Outbox.Payload.{marshal_process_payout_payload}
use payout_orchestrator.Db.Models.{IdempotencyKey, OutboxEvent, process_payout, pending}
use payout_orchestrator.Db.Session.{Env, World, unchanged, pure, session}
use payout_orchestrator.Db.Session.Invariant.{IsRely}
use payout_orchestrator.Db.Intact.{IsIntact}
use payout_orchestrator.Broker.{MessagePublisher, dispatch}
use payout_orchestrator.Worker.{Delivery, handle_delivery}
use payout_orchestrator.Execution.{handle_event}
use payout_orchestrator.Outbox.Relay.{run_once}
use payout_orchestrator.Api.Http.{Request, Web}
use payout_orchestrator.Api.Router.{payout_list, serve}
use payout_orchestrator.Pipeline.{relay_config, payout_publisher}
use payout_orchestrator.System.Accepts.{ReadsBack, Accepts, Reaches-Accepts}
use payout_orchestrator.Json.{Json, obj, str, field, end}
use payout_orchestrator.System.{
  IsBroker, at_first, after_step, requested, relayed, handled, Reaches-IsIntact,
}
use payout_orchestrator.Sample.{calm_env, tables, payout_row, provider}

abbrev key_row : IdempotencyKey
key_row = record {
  key = codes "key-1";
  client_id = 1;
  request_hash = codes "hash";
  payout_id = 3;
  created_at = 5;
}

abbrev event_row : OutboxEvent
event_row = record {
  id = 4;
  event_type = process_payout;
  payload = marshal_process_payout_payload (codes "uuu") (codes "u");
  status = pending;
  created_at = 6;
  processed_at = none;
  entity_id = 3;
  claimed_at = none;
}

abbrev before : World
before = record {
  committed = record tables {
    payouts = payout_row Status.pending ∷ [];
    idempotency_keys = key_row ∷ [];
    outbox_events = event_row ∷ [];
  };
  own = unchanged;
  step = 0;
  asked = [];
}

before-IsIntact : IsIntact calm_env before.committed
before-IsIntact = record { keys = (refl, tt); events = (λ kind. (1, refl, refl), tt) }

rely : IsRely calm_env (IsIntact calm_env)
rely = record { at = λ n db h. h }

abbrev web : Web
web = record { format_time = λ t. codes "now"; first_document = λ s. none }

abbrev request : Request
request = record {
  header = λ name. codes "uuuuuuuuu";
  path_value = λ name. [];
  query = λ name. [];
  body = [];
  client = none;
}

abbrev accept_message : MessagePublisher
accept_message exchange key body = pure tt

broker : IsBroker accept_message
broker = record { keeps = λ exchange key body w. refl }

abbrev delivery : Delivery
delivery = record { body = codes "job"; settle = λ s. ok tt }

abbrev asked_world : World
asked_world = (serve calm_env web payout_list request before).1

abbrev relayed_world : World
relayed_world =
    (run_once calm_env (relay_config 30) (dispatch calm_env (payout_publisher accept_message)) 2000
      asked_world).1

abbrev handled_world : World
handled_world =
    (handle_delivery calm_env (handle_event calm_env (some provider)) delivery relayed_world).1

Reaches-IsIntact_example : IsIntact calm_env handled_world.committed
Reaches-IsIntact_example =
    Reaches-IsIntact calm_env web accept_message rely broker {w = before} {u = handled_world}
      (after_step
        (after_step (after_step at_first (requested payout_list request))
          (relayed (relay_config 30) 2000))
        (handled provider delivery))
      before-IsIntact

-- An environment that reads back what it has written, the shorter key first: the texts of the two
-- ids are parted by a comma.
abbrev joined : Json → Text
joined (obj (field _ (str a) (field _ (str b) end))) = a ++ b',' ∷ b
joined _ = []

-- The texts in front of the first comma, and behind it.
abbrev parted : Text → Text × Text
parted [] = ([], [])
parted (c ∷ s) = let (a, b) = parted s in if c == b',' then ([], s) else (c ∷ a, b)

abbrev two_ids : Text × Text → Json
two_ids (a, b) = obj (field (codes "client_id") (str b) (field (codes "payout_id") (str a) end))

abbrev reading_env : Env
reading_env = record calm_env {
  parse_uuid = λ s. some (length s);
  jsonb_text = joined;
  json_parse = λ s. some (two_ids (parted s));
}

parted-join : (n : ℕ) (t : Text) → parted (replicate n b'u' ++ b',' ∷ t) ≡ (replicate n b'u', t)
parted-join zero t = refl
parted-join (suc n) t = rw (parted-join n t) refl

reads : ReadsBack reading_env
unfolding marshal_process_payout_payload
reads = record {
  ids = λ id. ap some (length-replicate id b'u');
  kept = λ a b. two_ids (replicate a b'u', replicate b b'u');
  same_fields = λ a b. inr refl;
  payloads = λ a b. ap (λ p. some (two_ids p)) (parted-join a (replicate b b'u'));
}

abbrev relisted_world : World
relisted_world = (serve reading_env web payout_list request before).1

still_there : find (has_event_id 4) relisted_world.committed.outbox_events ≡ some event_row
unfolding serve api_key text_eq authenticate_api_key session get_client_by_api_key
    Payouts.list_payouts pagination_params int32_query_param parse_int32 View.list_payouts
    list_payouts_by_client_id page numeric_string responses
still_there = refl

Reaches-Accepts_example : Accepts reading_env relisted_world.committed event_row
Reaches-Accepts_example =
    Reaches-Accepts reading_env web accept_message (record { at = λ n db h. h }) broker reads
      {w = before} {u = relisted_world} event_row 4
      (after_step at_first (requested payout_list request))
      (record { keys = (refl, tt); events = (λ kind. (1, refl, refl), tt) }) still_there refl
