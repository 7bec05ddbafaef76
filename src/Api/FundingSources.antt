-- ===== src/Api/FundingSources.antt =====
-- internal/apps/api/handlers: funding_sources.go and clients.go
use payout_orchestrator.Common.{Option, none, some, List}
use payout_orchestrator.Common.Int.{ℤ}
use payout_orchestrator.Text.{codes}
use payout_orchestrator.Json.{arr}
use payout_orchestrator.Outcome.{
  Result, ok, err, invalid_client_id, invalid_pagination, invalid_funding_source, invalid_source_id,
  funding_source_not_found, or_error,
}
use payout_orchestrator.Db.Session.{Action, pure}
use payout_orchestrator.FundingSources.{
  CreateFundingSourceInput, GetFundingSourceInput, ListFundingSourcesInput, FundingSource,
}
use payout_orchestrator.Api.Http.{
  Client, Request, Response, Web, Handler, http_error, json_response, guarded, no_client,
  server_error, answering,
}
use payout_orchestrator.Api.Query.{pagination_params}
use payout_orchestrator.Api.Documents.{
  decode_body, decode_source_key, zero_source_request, CreateFundingSourceRequest,
  funding_source_response, client_response, responses,
}

-- FundingSourceService
pub record FundingSourceService : Type 0 where
  pub create_funding_source : CreateFundingSourceInput → Action FundingSource
  pub get_funding_source : GetFundingSourceInput → Action FundingSource
  pub list_funding_sources : ListFundingSourcesInput → Action (List FundingSource)

abbrev pub unset : Response
unset = http_error (codes "funding source handler is not configured") 500

abbrev pub created : Web → Result FundingSource → Response
created web (ok source) = json_response 201 (funding_source_response web source)
created web (err invalid_funding_source) = http_error (codes "invalid funding source") 400
created web (err invalid_client_id) = no_client
created web (err _) = server_error

-- Behind the decoder.
abbrev pub create_decoded :
    Web → FundingSourceService → Client → Result CreateFundingSourceRequest → Action Response
create_decoded web service client (err e) = pure (http_error (codes "invalid request body") 400)
create_decoded web service client (ok req) =
    answering
      (service.create_funding_source (record {
        client_id = client.id;
        name = req.name;
        source_type = req.source_type;
        payment_account_id = req.payment_account_id;
      }))
      (created web)

-- CreateFundingSource
unfoldable pub create_funding_source : Web → Option FundingSourceService → Handler
create_funding_source web service r = guarded unset service r.client λ s client.
    create_decoded web s client
      (decode_body decode_source_key (web.first_document r.body) zero_source_request)

abbrev pub got : Web → Result FundingSource → Response
got web (ok source) = json_response 200 (funding_source_response web source)
got web (err funding_source_not_found) = http_error (codes "funding source not found") 404
got web (err invalid_source_id) = http_error (codes "invalid funding source id") 400
got web (err invalid_client_id) = no_client
got web (err _) = server_error

-- GetFundingSource
unfoldable pub get_funding_source : Web → Option FundingSourceService → Handler
get_funding_source web service r = guarded unset service r.client λ s client.
    answering
      (s.get_funding_source (record { client_id = client.id; id = r.path_value (codes "id") }))
      (got web)

abbrev pub listed : Web → Result (List FundingSource) → Response
listed web (ok sources) = json_response 200 (arr (responses (funding_source_response web) sources))
listed web (err invalid_pagination) = http_error (codes "invalid pagination") 400
listed web (err invalid_client_id) = no_client
listed web (err _) = server_error

-- fundingSourcePagination
unfoldable pub funding_source_pagination : Request → Result (ℤ × ℤ)
funding_source_pagination r = or_error (pagination_params r 50 100) invalid_pagination

abbrev pub list_paged : Web → FundingSourceService → Client → Result (ℤ × ℤ) → Action Response
list_paged web service client (err e) = pure (http_error (codes "invalid pagination") 400)
list_paged web service client (ok (limit, offset)) =
    answering
      (service.list_funding_sources
        (record { client_id = client.id; limit = limit; offset = offset }))
      (listed web)

-- ListFundingSources
unfoldable pub list_funding_sources : Web → Option FundingSourceService → Handler
unfolding funding_source_pagination
list_funding_sources web service r =
    guarded unset service r.client λ s client. list_paged web s client (funding_source_pagination r)

abbrev pub current : Option Client → Response
current none = no_client
current (some client) = json_response 200 (client_response client)

-- GetCurrentClient
unfoldable pub get_current_client : Handler
get_current_client r = pure (current r.client)
