-- ===== src/Api/Router.antt =====
-- cmd/api/router.go, and the services that cmd/api/main.go gives to it.
use payout_orchestrator.Common.{Option, some}
use payout_orchestrator.Text.{codes}
use payout_orchestrator.Db.Session.{Env, pure}
use payout_orchestrator.Payouts.Create
use payout_orchestrator.Payouts.Create.AllOrNothing.{api_service as payout_service}
use payout_orchestrator.Payouts.View
use payout_orchestrator.FundingSources
use payout_orchestrator.FundingSources.Outcomes.{api_service as source_service}
use payout_orchestrator.Api.Http.{Web, Handler, plain}
use payout_orchestrator.Api.Auth.{AuthService, authenticator, pool_clients, api_key}
use payout_orchestrator.Api.Payouts.{PayoutReadService}
use payout_orchestrator.Api.Payouts
use payout_orchestrator.Api.FundingSources.{
  FundingSourceService, get_current_client, list_funding_sources, get_funding_source,
  create_funding_source,
}

-- The patterns that the router registers; http.ServeMux chooses among them.
pub data Route : Type 0 where
  -- GET /healthz
  health : Route
  -- GET /clients/me
  clients_me : Route
  -- GET /funding-sources, GET /funding-sources/{id} and POST /funding-sources
  source_list source_get source_create : Route
  -- GET /payouts, GET /payouts/{id} and POST /payouts
  payout_list payout_get payout_create : Route

-- healthz
abbrev pub healthz : Handler
healthz r = pure (record { status = 200; body = plain (codes "ok") })

-- The handler that a pattern is registered with, before `protected` puts the middleware in front.
abbrev pub endpoint : Web → Option FundingSourceService → Option PayoutReadService → Route → Handler
endpoint web sources payouts health = healthz
endpoint web sources payouts clients_me = get_current_client
endpoint web sources payouts source_list = list_funding_sources web sources
endpoint web sources payouts source_get = get_funding_source web sources
endpoint web sources payouts source_create = create_funding_source web sources
endpoint web sources payouts payout_list = Payouts.list_payouts web payouts
endpoint web sources payouts payout_get = Payouts.get_payout web payouts
endpoint web sources payouts payout_create = Payouts.create_payout web payouts

-- NewRouter
abbrev pub new_router :
    Web
    → Option FundingSourceService
    → Option PayoutReadService
    → (Handler → Handler)
    → Route
    → Handler
new_router web sources payouts auth health = healthz
new_router web sources payouts auth route = auth (endpoint web sources payouts route)

-- The services on the pool.
abbrev pub payout_reads : Env → PayoutReadService
payout_reads env = record {
  create_payout = Create.create_payout env (payout_service env);
  get_payout = View.get_payout env (payout_service env);
  list_payouts = View.list_payouts env (payout_service env);
}

abbrev pub source_calls : Env → FundingSourceService
source_calls env = record {
  create_funding_source = FundingSources.create_funding_source env (source_service env);
  get_funding_source = FundingSources.get_funding_source env (source_service env);
  list_funding_sources = FundingSources.list_funding_sources env (source_service env);
}

abbrev pub auth_service : Env → AuthService
auth_service env = record { clients = some (pool_clients env) }

-- The server of `main`, from the chosen pattern on.
unfoldable pub serve : Env → Web → Route → Handler
serve env web =
    new_router web (some (source_calls env)) (some (payout_reads env))
      (api_key (some (authenticator env (auth_service env))))
