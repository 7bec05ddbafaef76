-- ===== src/Api/Intact.antt =====
-- What a request to the server leaves intact, whatever the response.
use payout_orchestrator.Common.{Option, none, some}
use payout_orchestrator.Common.Int.{ℤ}
use payout_orchestrator.Text.{codes, trim_space}
use payout_orchestrator.Outcome.{Result, ok, err, panic}
use payout_orchestrator.Db.Models.{Db}
use payout_orchestrator.Db.Session.{Env, Action}
use payout_orchestrator.Db.Session.Invariant.{
  IsRely, Stays, Stays-pure, Stays-raise, Stays-if, Stays-with_result, Stays-IsTx,
}
use payout_orchestrator.Db.Intact.{IsIntact}
use payout_orchestrator.FundingSources.Intact.{
  create_funding_source-Stays, get_funding_source-Stays, list_funding_sources-Stays,
}
use payout_orchestrator.Payouts.Intact.{create_payout-Stays, get_payout-Stays, list_payouts-Stays}
use payout_orchestrator.Api.Http
use payout_orchestrator.Api.Http.{
  Client, Response, Web, past_panic, calling, answering, with_client, guarded,
}
use payout_orchestrator.Api.Documents.{CreatePayoutRequest, CreateFundingSourceRequest}
use payout_orchestrator.Api.Auth.{admit, authenticator, api_key}
use payout_orchestrator.Api.Admission.{authenticate-IsTx}
use payout_orchestrator.Api.Payouts
use payout_orchestrator.Api.FundingSources
use payout_orchestrator.Api.Router.{
  Route, health, clients_me, source_list, source_get, source_create, payout_list, payout_get,
  payout_create, endpoint, payout_reads, source_calls, auth_service, serve,
}

module _ (env : Env) (rely : IsRely env (IsIntact env)) where
  abbrev Intact : Db → Type 0
  Intact = IsIntact env

  module _ {A B : Type 0} where
    past_panic-Stays :
        (k : Result A → Action B) (r : Result A)
        → ((r : Result A) → Stays Intact (k r))
        → Stays Intact (past_panic k r)
    past_panic-Stays k (err panic) keeps = Stays-raise env Intact _
    past_panic-Stays k (err e) keeps = keeps _
    past_panic-Stays k (ok a) keeps = keeps _

    calling-Stays :
        (m : Action A) (k : Result A → Action B)
        → Stays Intact m
        → ((r : Result A) → Stays Intact (k r))
        → Stays Intact (calling m k)
    calling-Stays m k h keeps =
        Stays-with_result env Intact m (past_panic k) h (λ r. past_panic-Stays k r keeps)

  answering-Stays :
      {A : Type 0} (m : Action A) (f : Result A → Response)
      → Stays Intact m
      → Stays Intact (answering m f)
  answering-Stays m f h = calling-Stays m _ h (λ r. Stays-pure env Intact (f r))

  guarded-Stays :
      {S : Type 0} (unset : Response) (service : S) (client : Option Client)
      (body : S → Client → Action Response)
      → ((c : Client) → Stays Intact (body service c))
      → Stays Intact (guarded unset (some service) client body)
  guarded-Stays unset service none body keeps = Stays-pure env Intact _
  guarded-Stays unset service (some c) body keeps = keeps c

  create_for-Stays :
      (web : Web) (r : Http.Request) (c : Client)
      → Stays Intact (Payouts.create_for web r (payout_reads env) c)
  unfolding Payouts.create_for
  create_for-Stays web r c = Stays-if env Intact _ _ _ (Stays-pure env Intact _) (decoded _)
    where
      decoded :
          (d : Result CreatePayoutRequest)
          → Stays Intact (
              Payouts.create_decoded web
                (payout_reads env)
                c
                (trim_space (r.header (codes "Idempotency-Key")))
                d)
      decoded (err e) = Stays-pure env Intact _
      decoded (ok req) = answering-Stays _ (Payouts.created web) (create_payout-Stays env rely _)

  create_source-Stays :
      (web : Web) (c : Client) (d : Result CreateFundingSourceRequest)
      → Stays Intact (FundingSources.create_decoded web (source_calls env) c d)
  create_source-Stays web c (err e) = Stays-pure env Intact _
  create_source-Stays web c (ok req) =
      answering-Stays _ (FundingSources.created web) (create_funding_source-Stays env rely _)

  payouts_paged-Stays :
      (web : Web) (c : Client) (page : Result (ℤ × ℤ))
      → Stays Intact (Payouts.list_paged web (payout_reads env) c page)
  payouts_paged-Stays web c (err e) = Stays-pure env Intact _
  payouts_paged-Stays web c (ok (limit, offset)) =
      answering-Stays _ (Payouts.listed web) (list_payouts-Stays env rely _)

  sources_paged-Stays :
      (web : Web) (c : Client) (page : Result (ℤ × ℤ))
      → Stays Intact (FundingSources.list_paged web (source_calls env) c page)
  sources_paged-Stays web c (err e) = Stays-pure env Intact _
  sources_paged-Stays web c (ok (limit, offset)) =
      answering-Stays _ (FundingSources.listed web) (list_funding_sources-Stays env rely _)

  endpoint-Stays :
      (web : Web) (route : Route) (r : Http.Request)
      → Stays Intact (endpoint web (some (source_calls env)) (some (payout_reads env)) route r)
  unfolding Payouts.create_payout Payouts.get_payout Payouts.list_payouts
      FundingSources.create_funding_source FundingSources.get_funding_source
      FundingSources.list_funding_sources FundingSources.get_current_client
  endpoint-Stays web health r = Stays-pure env Intact _
  endpoint-Stays web clients_me r = Stays-pure env Intact _
  endpoint-Stays web source_list r =
      guarded-Stays FundingSources.unset _ r.client _ (λ c. sources_paged-Stays web c _)
  endpoint-Stays web source_get r =
      guarded-Stays FundingSources.unset _ r.client _
        λ c. answering-Stays _ (FundingSources.got web) (get_funding_source-Stays env rely _)
  endpoint-Stays web source_create r =
      guarded-Stays FundingSources.unset _ r.client _ (λ c. create_source-Stays web c _)
  endpoint-Stays web payout_list r =
      guarded-Stays Payouts.unset _ r.client _ (λ c. payouts_paged-Stays web c _)
  endpoint-Stays web payout_get r =
      guarded-Stays Payouts.unset _ r.client _
        λ c. answering-Stays _ (Payouts.got web) (get_payout-Stays env rely _)
  endpoint-Stays web payout_create r =
      guarded-Stays Payouts.unset _ r.client _ (λ c. create_for-Stays web r c)

  admit-Stays :
      (web : Web) (route : Route) (r : Http.Request) (answer : Result Client)
      → Stays Intact
          (admit (endpoint web (some (source_calls env)) (some (payout_reads env)) route) r answer)
  admit-Stays web route r (ok client) = endpoint-Stays web route (with_client r client)
  admit-Stays web route r (err e) = Stays-pure env Intact _

  protected-Stays :
      (web : Web) (route : Route) (r : Http.Request)
      → Stays Intact (
          api_key
            (some (authenticator env (auth_service env)))
            (endpoint web (some (source_calls env)) (some (payout_reads env)) route)
            r)
  unfolding api_key
  protected-Stays web route r = Stays-if env Intact _ _ _ (Stays-pure env Intact _) (
      calling-Stays _ _ (Stays-IsTx env Intact rely _ (authenticate-IsTx env _))
        (admit-Stays web route r))

  -- Whatever the request and the response, intact tables stay so.
  pub serve-Stays :
      (web : Web) (route : Route) (r : Http.Request) → Stays Intact (serve env web route r)
  unfolding serve
  serve-Stays web health r = endpoint-Stays web health r
  serve-Stays web clients_me r = protected-Stays web clients_me r
  serve-Stays web source_list r = protected-Stays web source_list r
  serve-Stays web source_get r = protected-Stays web source_get r
  serve-Stays web source_create r = protected-Stays web source_create r
  serve-Stays web payout_list r = protected-Stays web payout_list r
  serve-Stays web payout_get r = protected-Stays web payout_get r
  serve-Stays web payout_create r = protected-Stays web payout_create r
