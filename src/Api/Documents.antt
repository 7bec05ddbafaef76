-- ===== src/Api/Documents.antt =====
-- The JSON documents of internal/apps/api/handlers: requests are read strictly, and responses are
-- written field by field.
use payout_orchestrator.Common.{[], List, ◌∷◌, if◌then◌else◌, Option, some}
use payout_orchestrator.Text.{Text, codes, is_empty}
use payout_orchestrator.Json.{
  Json, Items, nil, cons, Fields, null, str, obj, end, field, names, decode_string,
}
use payout_orchestrator.Outcome.{Error, Result, ok, err, failure, ◌>>=◌}
use payout_orchestrator.Execution.{status_text}
use payout_orchestrator.Payouts.View
use payout_orchestrator.FundingSources
use payout_orchestrator.Api.Http.{Client, Web}

-- `DisallowUnknownFields`
abbrev unknown_field : Error
unknown_field = failure (codes "json: unknown field")

-- What a strict decoder does to a struct with fields that are strings: it is given what one key
-- does. The decoder reads the first document of the body; `null` leaves the struct as it is.
module _ {A : Type 0} (decode_key : Text → Json → A → Result A) where
  pub decode_strictly : Fields → A → Result A
  decode_strictly end p = ok p
  decode_strictly (field key value rest) p = do p' ← decode_key key value p; decode_strictly rest p'

  unfoldable pub decode_body : Option Json → A → Result A
  unfolding decode_strictly
  decode_body (some null) zero_value = ok zero_value
  decode_body (some (obj fields)) zero_value = decode_strictly fields zero_value
  decode_body _ zero_value = err (failure (codes "json: cannot decode"))

-- createPayoutRequest
pub record CreatePayoutRequest : Type 0 where
  pub funding_source_id : Text
  pub external_id : Text
  pub recipient_name : Text
  pub recipient_account_id : Text
  pub amount : Text
  pub currency : Text

abbrev pub zero_payout_request : CreatePayoutRequest
zero_payout_request = record {
  funding_source_id = [];
  external_id = [];
  recipient_name = [];
  recipient_account_id = [];
  amount = [];
  currency = [];
}

unfoldable pub decode_payout_key : Text → Json → CreatePayoutRequest → Result CreatePayoutRequest
unfolding names
decode_payout_key key value p =
    if names key (codes "funding_source_id")
    then (do s ← decode_string value p.funding_source_id; ok (record p { funding_source_id = s }))
    else if names key (codes "external_id")
    then (do s ← decode_string value p.external_id; ok (record p { external_id = s }))
    else if names key (codes "recipient_name")
    then (do s ← decode_string value p.recipient_name; ok (record p { recipient_name = s }))
    else if names key (codes "recipient_account_id")
    then (do
      s ← decode_string value p.recipient_account_id
      ok (record p { recipient_account_id = s }))
    else if names key (codes "amount")
    then (do s ← decode_string value p.amount; ok (record p { amount = s }))
    else if names key (codes "currency")
    then (do s ← decode_string value p.currency; ok (record p { currency = s }))
    else err unknown_field

-- createFundingSourceRequest
pub record CreateFundingSourceRequest : Type 0 where
  pub name : Text
  pub source_type : Text
  pub payment_account_id : Text

abbrev pub zero_source_request : CreateFundingSourceRequest
zero_source_request = record { name = []; source_type = []; payment_account_id = [] }

unfoldable pub decode_source_key :
    Text → Json → CreateFundingSourceRequest → Result CreateFundingSourceRequest
unfolding names
decode_source_key key value p =
    if names key (codes "name")
    then (do s ← decode_string value p.name; ok (record p { name = s }))
    else if names key (codes "type")
    then (do s ← decode_string value p.source_type; ok (record p { source_type = s }))
    else if names key (codes "payment_account_id")
    then (do s ← decode_string value p.payment_account_id; ok (record p { payment_account_id = s }))
    else err unknown_field

-- A field of a response, and one with `omitempty`.
abbrev text_field : Text → Text → Fields → Fields
text_field name value rest = field name (str value) rest

abbrev present_field : Text → Text → Fields → Fields
present_field name value rest = if is_empty value then rest else field name (str value) rest

-- payoutResponseFromService, with the JSON form of payoutResponse
unfoldable pub payout_response : Web → View.Payout → Json
payout_response web p = obj (
    text_field (codes "id") p.id (
      text_field (codes "client_id") p.client_id (
        text_field (codes "funding_source_id") p.funding_source_id (
          present_field (codes "external_id") p.external_id (
            present_field (codes "recipient_name") p.recipient_name (
              present_field (codes "recipient_account_id") p.recipient_account_id (
                text_field (codes "amount") p.amount (
                  text_field (codes "currency") p.currency (
                    text_field (codes "status") (status_text p.status) (
                      present_field (codes "failure_reason") p.failure_reason (
                        text_field (codes "created_at") (web.format_time p.created_at) (
                          text_field (codes "updated_at") (web.format_time p.updated_at)
                            end))))))))))))

-- fundingSourceResponseFromService, with the JSON form of fundingSourceResponse
unfoldable pub funding_source_response : Web → FundingSources.FundingSource → Json
funding_source_response web s = obj (
    text_field (codes "id") s.id (
      text_field (codes "client_id") s.client_id (
        text_field (codes "name") s.name (
          text_field (codes "type") s.source_type (
            text_field (codes "payment_account_id") s.payment_account_id (
              text_field (codes "status") s.status (
                text_field (codes "created_at") (web.format_time s.created_at)
                  (text_field (codes "updated_at") (web.format_time s.updated_at) end))))))))

-- The JSON form of Client
unfoldable pub client_response : Client → Json
client_response c = obj (text_field (codes "id") c.id (text_field (codes "name") c.name end))

-- The loop over the rows of a list, which an empty list leaves as `[]`.
unfoldable pub responses : {A : Type 0} → (A → Json) → List A → Items
responses f [] = nil
responses f (p ∷ ps) = cons (f p) (responses f ps)
