-- ===== src/Api/Tests.antt =====
-- The API at concrete requests.
use payout_orchestrator.Common.{
  ◌≡◌, refl, ap, none, some, [], length, length-replicate, if◌then◌else◌,
}
use payout_orchestrator.Common.Int.{pos, negsuc}
use payout_orchestrator.Text.{Text, codes, text_eq}
use payout_orchestrator.Json.{Json, nil, cons, arr, obj, str, field, end}
use payout_orchestrator.Money.{numeric_string}
use payout_orchestrator.Status
use payout_orchestrator.Outcome.{ok}
use payout_orchestrator.Db.Models.{Uuid}
use payout_orchestrator.Db.Session.{Env, World, session}
use payout_orchestrator.Db.Clients.{get_client_by_api_key}
use payout_orchestrator.Db.Paging.{page}
use payout_orchestrator.Db.Payouts.{get_payout_by_client_id, list_payouts_by_client_id}
use payout_orchestrator.Payouts.View
use payout_orchestrator.Payouts.View.{payout_from_db}
use payout_orchestrator.Api.Http.{Request, Response, Web, document}
use payout_orchestrator.Api.Query.{
  parse_int32, int32_query_param, pagination_params, InBounds, pagination_params-bounds,
}
use payout_orchestrator.Api.Documents.{payout_response, responses}
use payout_orchestrator.Api.Auth.{authenticate_api_key, api_key}
use payout_orchestrator.Api.Payouts
use payout_orchestrator.Api.Router.{
  payout_get, payout_list, endpoint, payout_reads, source_calls, serve,
}
use payout_orchestrator.Api.Admission.{Guarded, serve-Guarded}
use payout_orchestrator.Api.Isolation.{
  OwnPayout, OwnPayouts, get_payout-Isolated, list_payouts-Isolated,
}
use payout_orchestrator.Sample.{calm_env, world_with}

-- A uuid is written as that many letters, and read by counting them.
abbrev counting_env : Env
counting_env = record calm_env { parse_uuid = λ s. some (length s) }

round : (id : Uuid) → counting_env.parse_uuid (counting_env.uuid_text id) ≡ some id
round id = ap some (length-replicate id b'u')

abbrev body_document : Json
body_document = obj (
    field (codes "funding_source_id") (str (codes "uu")) (
      field (codes "recipient_name") (str (codes "Ann")) (
        field (codes "recipient_account_id") (str (codes "acc-7")) (
          field (codes "amount") (str (codes "12.50"))
            (field (codes "currency") (str (codes "USD")) end)))))

abbrev web : Web
web = record { format_time = λ t. codes "now"; first_document = λ s. some body_document }

abbrev headers : Text → Text
headers name =
    if text_eq name (codes "X-API-Key")
    then codes "uuuuuuuuu"
    else if text_eq name (codes "Idempotency-Key")
    then codes "key-1"
    else []

abbrev asking : Request
asking = record {
  header = headers;
  path_value = λ name. codes "uuu";
  query = λ name. if text_eq name (codes "limit") then codes "7" else [];
  body = [];
  client = none;
}

pages : pagination_params asking 50 100 ≡ ok (pos 7, pos 0)
unfolding pagination_params int32_query_param parse_int32 text_eq
pages = refl

pagination_params-bounds_example : InBounds 100 (pos 7) (pos 0)
pagination_params-bounds_example = pagination_params-bounds asking 50 100 pages

int32_tests :
    (parse_int32 (codes "-2147483648") ≡ some (negsuc 2147483647))
    × (parse_int32 (codes "2147483648") ≡ none)
    × (parse_int32 (codes "+5") ≡ some (pos 5))
    × (parse_int32 (codes "5x") ≡ none)
    × (parse_int32 (codes "-") ≡ none)
unfolding parse_int32
int32_tests = (refl, refl, refl, refl, refl)

abbrev shown : View.Payout
shown = record {
  id = codes "uuu";
  client_id = codes "u";
  funding_source_id = codes "uu";
  external_id = [];
  recipient_name = [];
  recipient_account_id = [];
  amount = codes "12.50";
  currency = codes "USD";
  status = Status.pending;
  failure_reason = [];
  created_at = 5;
  updated_at = 5;
}

abbrev one_payout : Response
one_payout = record { status = 200; body = document (payout_response web shown) }

abbrev after_get : World
after_get = (serve counting_env web payout_get asking (world_with Status.pending)).1

gets :
    serve counting_env web payout_get asking (world_with Status.pending)
    ≡ (ok one_payout, after_get)
unfolding serve api_key text_eq authenticate_api_key session get_client_by_api_key
    Payouts.get_payout View.get_payout get_payout_by_client_id numeric_string
gets = refl

serve-Guarded_example :
    Guarded counting_env
      (endpoint web
        (some (source_calls counting_env))
        (some (payout_reads counting_env))
        payout_get)
      asking
      (world_with Status.pending)
      one_payout
      after_get
serve-Guarded_example =
    serve-Guarded counting_env web payout_get asking (world_with Status.pending) refl gets

get_payout-Isolated_example :
    OwnPayout counting_env web asking (world_with Status.pending) one_payout after_get
get_payout-Isolated_example =
    get_payout-Isolated counting_env web round asking (world_with Status.pending) gets refl

abbrev payout_list_response : Response
payout_list_response = record {
  status = 200;
  body = document (arr (cons (payout_response web shown) nil));
}

abbrev after_list : World
after_list = (serve counting_env web payout_list asking (world_with Status.pending)).1

lists :
    serve counting_env web payout_list asking (world_with Status.pending)
    ≡ (ok payout_list_response, after_list)
unfolding serve api_key text_eq authenticate_api_key session get_client_by_api_key
    Payouts.list_payouts pagination_params int32_query_param parse_int32 View.list_payouts
    list_payouts_by_client_id page numeric_string responses
lists = refl

list_payouts-Isolated_example :
    OwnPayouts counting_env web asking (world_with Status.pending) payout_list_response after_list
list_payouts-Isolated_example =
    list_payouts-Isolated counting_env web round asking (world_with Status.pending) lists refl
