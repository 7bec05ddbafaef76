-- ===== src/Pipeline/Tests.antt =====
-- A new payout that reaches the provider.
use payout_orchestrator.Common.{◌≡◌, refl, inr, arith, Bool, some, length, ◌==◌, if◌then◌else◌}
use payout_orchestrator.Text.{codes}
use payout_orchestrator.Json.{Json, str, obj, field, end}
use payout_orchestrator.Money.{numeric_string}
use payout_orchestrator.Outcome.{Result, ok}
use payout_orchestrator.Db.Session.{Env, World, pure}
use payout_orchestrator.Db.Session.Quiet.{IsQuiet}
use payout_orchestrator.Broker.{MessagePublisher, job_document, dispatch}
use payout_orchestrator.Worker.{Delivery, handle_delivery}
use payout_orchestrator.Outbox.Relay.{run_once}
use payout_orchestrator.Execution.{handle_event}
use payout_orchestrator.Execution.Recording.{is_failed}
use payout_orchestrator.Payouts.Validation.{
  validate, normalize_required_text, normalize_optional_text, parse_positive_numeric, hash_input,
  create_payout_request_hash,
}
use payout_orchestrator.Payouts.Create.{create_payout}
use payout_orchestrator.Payouts.Create.AllOrNothing.{api_service}
use payout_orchestrator.Payouts.Create.Progress.{Acceptable}
use payout_orchestrator.Payouts.Create.Progress.Tests.{new_request, acceptable}
use payout_orchestrator.Pipeline.{
  relay_config, payout_publisher, new_row, sent_event, message, Unhindered,
}
use payout_orchestrator.Pipeline.Pays.{Pays, create_payout-Pays}
use payout_orchestrator.Text.{trim_space, hex_encode}
use payout_orchestrator.Db.Payouts.{positive}
use payout_orchestrator.Money.{number}
use payout_orchestrator.Common.Int.{pos, negsuc}
use payout_orchestrator.Sample.{calm_env, start, tables, acme, treasury, request, provider, answer}

-- The payload's document as a JSONB column keeps it: the shorter key comes first.
abbrev reordered : Json
reordered = obj (
    field (codes "client_id") (str (calm_env.uuid_text new_request.client_id)) (
      field (codes "payout_id")
        (str (calm_env.uuid_text (new_row calm_env new_request start acceptable).id)) end))

-- encoding/json reads the two documents back.
abbrev reading_env : Env
reading_env = record calm_env {
  json_parse = λ s.
      if length s == 3
      then some (job_document (sent_event calm_env new_request start acceptable))
      else some reordered;
}

quiet : IsQuiet reading_env
quiet = record { fault = λ n. refl; others = λ n d. refl }

accepted : Acceptable reading_env new_request 0 tables
unfolding positive create_payout_request_hash hex_encode hash_input
accepted = record {
  new_key_of = refl;
  source = treasury;
  owned = refl;
  amount = number (pos 1250) (negsuc 1);
  kept = refl;
  sign = refl;
  new_id = refl;
  new_external_id = refl;
  known_client = refl;
  key_given = refl;
  hash_given = refl;
  new_key_id = refl;
  new_event_id = refl;
}

valid : validate reading_env request ≡ ok new_request
unfolding validate normalize_required_text normalize_optional_text parse_positive_numeric trim_space
    numeric_string create_payout_request_hash hex_encode hash_input
valid = refl

way : Unhindered reading_env new_request start accepted 30 2000
unfolding accepted numeric_string
way = record {
  id_read = refl;
  client_id_read = refl;
  payload_kept = reordered;
  payload_read = refl;
  payload_keys = inr refl;
  payload_bytes =
      (omega arith, (omega arith, (omega arith, (omega arith, (omega arith, (omega arith, tt))))));
  message_read = refl;
  none_before = refl;
  unlocked = refl;
  amount = codes "12.50";
  printed = refl;
  client = acme;
  known = refl;
  new_id = refl;
  other_id = refl;
}

abbrev accept_message : MessagePublisher
accept_message exchange key body = pure tt

abbrev delivery : Delivery
delivery = record { body = message reading_env new_request start accepted; settle = λ s. ok tt }

abbrev after_request : World
after_request = (create_payout reading_env (api_service reading_env) request start).1

abbrev round : Result Bool × World
round =
    run_once reading_env (relay_config 30) (dispatch reading_env (payout_publisher accept_message))
      2000 after_request

create_payout-Pays_example :
    Pays reading_env new_request start accepted
      (codes "12.50")
      delivery
      answer
      round
      (handle_delivery reading_env (handle_event reading_env (some provider)) delivery round.1)
unfolding way
create_payout-Pays_example =
    create_payout-Pays reading_env quiet new_request start accepted 30 2000 way provider request
      accept_message delivery answer is_failed valid refl refl refl
