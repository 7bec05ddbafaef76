-- ===== src/Api/Creation/Tests.antt =====
-- POST /payouts at a concrete request.
use payout_orchestrator.Common.{◌≡◌, refl, none, some, [], if◌then◌else◌}
use payout_orchestrator.Text.{Text, codes, text_eq, trim_space, hex_encode}
use payout_orchestrator.Json.{Json, obj, str, field, end, names}
use payout_orchestrator.Money.{numeric_string}
use payout_orchestrator.Status
use payout_orchestrator.Outcome.{ok}
use payout_orchestrator.Db.Session.{World, session}
use payout_orchestrator.Db.Clients.{get_client_by_api_key}
use payout_orchestrator.Db.FundingSources.{get_funding_source_by_client_id}
use payout_orchestrator.Db.IdempotencyKeys.{create_idempotency_key, get_idempotency_key}
use payout_orchestrator.Db.OutboxEvents.{create_outbox_event}
use payout_orchestrator.Db.Payouts.{insert_payout, positive, same_external_id}
use payout_orchestrator.Db.Payouts
use payout_orchestrator.Payouts.Create.{intake}
use payout_orchestrator.Payouts.Store.{within_tx}
use payout_orchestrator.Payouts.Validation.{
  validate, normalize_required_text, normalize_optional_text, parse_positive_numeric,
  create_payout_request_hash, hash_input,
}
use payout_orchestrator.Payouts.View.{payout_from_db}
use payout_orchestrator.Payouts.View
use payout_orchestrator.Api.Http.{Request, Response, Web, document}
use payout_orchestrator.Api.Documents.{decode_body, decode_payout_key, payout_response}
use payout_orchestrator.Api.Auth.{authenticate_api_key, api_key}
use payout_orchestrator.Api.Payouts.{create_payout, create_for}
use payout_orchestrator.Api.Router.{payout_create, serve}
use payout_orchestrator.Api.Creation.{Posted, create_payout-Posted}
use payout_orchestrator.Sample.{calm_env, start}

abbrev body_document : Json
body_document = obj (
    field (codes "funding_source_id") (str (codes "uu")) (
      field (codes "recipient_name") (str (codes "Ann")) (
        field (codes "recipient_account_id") (str (codes "acc-7")) (
          field (codes "amount") (str (codes "12.50"))
            (field (codes "currency") (str (codes "USD")) end)))))

abbrev web : Web
web = record { format_time = λ t. codes "now"; first_document = λ s. some body_document }

abbrev headers : Text → Text
headers name =
    if text_eq name (codes "X-API-Key")
    then codes "uuuuuuuuu"
    else if text_eq name (codes "Idempotency-Key")
    then codes " key-1 "
    else []

abbrev posting : Request
posting = record {
  header = headers;
  path_value = λ name. [];
  query = λ name. [];
  body = [];
  client = none;
}

abbrev shown : View.Payout
shown = record {
  id = calm_env.uuid_text 104;
  client_id = codes "u";
  funding_source_id = codes "uu";
  external_id = [];
  recipient_name = codes "Ann";
  recipient_account_id = codes "acc-7";
  amount = codes "12.50";
  currency = codes "USD";
  status = Status.pending;
  failure_reason = [];
  created_at = 1004;
  updated_at = 1004;
}

abbrev new_payout : Response
new_payout = record { status = 201; body = document (payout_response web shown) }

abbrev after_post : World
after_post = (serve calm_env web payout_create posting start).1

posts : serve calm_env web payout_create posting start ≡ (ok new_payout, after_post)
unfolding serve api_key text_eq authenticate_api_key session get_client_by_api_key create_payout
    create_for decode_body decode_payout_key names trim_space intake get_idempotency_key
    get_funding_source_by_client_id Payouts.create_payout insert_payout create_idempotency_key
    create_outbox_event positive same_external_id numeric_string hex_encode within_tx payout_from_db
    validate normalize_required_text normalize_optional_text parse_positive_numeric
    create_payout_request_hash hash_input
posts = refl

create_payout-Posted_example : Posted calm_env web posting start new_payout after_post
create_payout-Posted_example = create_payout-Posted calm_env web posting start posts refl
