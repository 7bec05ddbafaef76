-- ===== src/Api/Payouts.antt =====
-- internal/apps/api/handlers/payouts.go
use payout_orchestrator.Common.{Option, List, if◌then◌else◌}
use payout_orchestrator.Common.Int.{ℤ}
use payout_orchestrator.Text.{Text, codes, is_empty, trim_space}
use payout_orchestrator.Json.{arr}
use payout_orchestrator.Outcome.{
  Result, ok, err, invalid_client_id, duplicate_external_id, invalid_funding_source_id,
  invalid_idempotency_key, invalid_pagination, invalid_payout, invalid_payout_id,
  funding_source_not_found, idempotency_conflict, payout_not_found, or_error,
}
use payout_orchestrator.Db.Session.{Action, pure}
use payout_orchestrator.Payouts.Validation.{CreatePayoutInput}
use payout_orchestrator.Payouts.View.{Payout, GetPayoutInput, ListPayoutsInput}
use payout_orchestrator.Api.Http.{
  Client, Request, Response, Web, Handler, http_error, json_response, guarded, no_client,
  server_error, answering,
}
use payout_orchestrator.Api.Query.{pagination_params}
use payout_orchestrator.Api.Documents.{
  decode_body, decode_payout_key, zero_payout_request, CreatePayoutRequest, payout_response,
  responses,
}

-- PayoutReadService
pub record PayoutReadService : Type 0 where
  pub create_payout : CreatePayoutInput → Action Payout
  pub get_payout : GetPayoutInput → Action Payout
  pub list_payouts : ListPayoutsInput → Action (List Payout)

abbrev pub unset : Response
unset = http_error (codes "payout handler is not configured") 500

-- The response of `CreatePayout` to the service's result.
abbrev pub created : Web → Result Payout → Response
created web (ok payout) = json_response 201 (payout_response web payout)
created web (err invalid_payout) = http_error (codes "invalid payout") 400
created web (err invalid_funding_source_id) = http_error (codes "invalid payout") 400
created web (err invalid_idempotency_key) = http_error (codes "invalid payout") 400
created web (err idempotency_conflict) = http_error (codes "idempotency conflict") 409
created web (err duplicate_external_id) = http_error (codes "duplicate external id") 409
created web (err funding_source_not_found) = http_error (codes "funding source not found") 404
created web (err invalid_client_id) = no_client
created web (err _) = server_error

abbrev pub payout_input : Client → Text → CreatePayoutRequest → CreatePayoutInput
payout_input client key req = record {
  client_id = client.id;
  funding_source_id = req.funding_source_id;
  idempotency_key = key;
  external_id = req.external_id;
  recipient_name = req.recipient_name;
  recipient_account_id = req.recipient_account_id;
  amount = req.amount;
  currency = req.currency;
}

-- Behind the decoder.
abbrev pub create_decoded :
    Web → PayoutReadService → Client → Text → Result CreatePayoutRequest → Action Response
create_decoded web service client key (err e) = pure (http_error (codes "invalid request body") 400)
create_decoded web service client key (ok req) =
    answering (service.create_payout (payout_input client key req)) (created web)

unfoldable pub create_for : Web → Request → PayoutReadService → Client → Action Response
create_for web r service client =
    let key = trim_space (r.header (codes "Idempotency-Key")) in
    if is_empty key
    then pure (http_error (codes "idempotency key is required") 400)
    else create_decoded web service client key
        (decode_body decode_payout_key (web.first_document r.body) zero_payout_request)

-- CreatePayout
unfoldable pub create_payout : Web → Option PayoutReadService → Handler
unfolding create_for
create_payout web service r = guarded unset service r.client (create_for web r)

abbrev pub got : Web → Result Payout → Response
got web (ok payout) = json_response 200 (payout_response web payout)
got web (err payout_not_found) = http_error (codes "payout not found") 404
got web (err invalid_payout_id) = http_error (codes "invalid payout id") 400
got web (err invalid_client_id) = no_client
got web (err _) = server_error

-- GetPayout
unfoldable pub get_payout : Web → Option PayoutReadService → Handler
get_payout web service r = guarded unset service r.client λ s client.
    answering (s.get_payout (record { client_id = client.id; id = r.path_value (codes "id") }))
      (got web)

abbrev pub listed : Web → Result (List Payout) → Response
listed web (ok payouts) = json_response 200 (arr (responses (payout_response web) payouts))
listed web (err invalid_pagination) = http_error (codes "invalid pagination") 400
listed web (err invalid_client_id) = no_client
listed web (err _) = server_error

-- payoutPagination
unfoldable pub payout_pagination : Request → Result (ℤ × ℤ)
payout_pagination r = or_error (pagination_params r 50 100) invalid_pagination

abbrev pub list_paged : Web → PayoutReadService → Client → Result (ℤ × ℤ) → Action Response
list_paged web service client (err e) = pure (http_error (codes "invalid pagination") 400)
list_paged web service client (ok (limit, offset)) =
    answering
      (service.list_payouts (record { client_id = client.id; limit = limit; offset = offset }))
      (listed web)

-- ListPayouts
unfoldable pub list_payouts : Web → Option PayoutReadService → Handler
unfolding payout_pagination
list_payouts web service r =
    guarded unset service r.client λ s client. list_paged web s client (payout_pagination r)
