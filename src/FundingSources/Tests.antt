-- ===== src/FundingSources/Tests.antt =====
-- The service's calls at concrete requests.
use payout_orchestrator.Common.{◌≡◌, refl, [], ◌∷◌}
use payout_orchestrator.Common.Int.{pos}
use payout_orchestrator.Text.{codes, trim_space}
use payout_orchestrator.Outcome.{ok}
use payout_orchestrator.Db.Session.{World, session}
use payout_orchestrator.Db.FundingSources.{
  get_funding_source_by_client_id, list_funding_sources_by_client_id,
}
use payout_orchestrator.Db.FundingSources
use payout_orchestrator.Db.Paging.{page}
use payout_orchestrator.FundingSources.{
  CreateFundingSourceInput, GetFundingSourceInput, ListFundingSourcesInput, FundingSource,
  funding_source_from_db, create_stored, create_funding_source, get_stored, get_funding_source,
  list_stored, list_funding_sources,
}
use payout_orchestrator.FundingSources.Outcomes.{
  api_service, Listed, Created, list_funding_sources-Listed, create_funding_source-Created,
}
use payout_orchestrator.Sample.{calm_env, treasury, start}

abbrev getting : GetFundingSourceInput
getting = record { client_id = codes "u"; id = codes "uu" }

abbrev after_get : World
after_get = (get_funding_source calm_env (api_service calm_env) getting start).1

abbrev shown : FundingSource
shown = funding_source_from_db calm_env treasury

gets : get_funding_source calm_env (api_service calm_env) getting start ≡ (ok shown, after_get)
unfolding get_funding_source get_stored session get_funding_source_by_client_id
gets = refl

abbrev listing : ListFundingSourcesInput
listing = record { client_id = codes "u"; limit = pos 5; offset = pos 0 }

abbrev after_list : World
after_list = (list_funding_sources calm_env (api_service calm_env) listing start).1

lists :
    list_funding_sources calm_env (api_service calm_env) listing start
    ≡ (ok (shown ∷ []), after_list)
unfolding list_funding_sources list_stored session list_funding_sources_by_client_id page
lists = refl

list_funding_sources-Listed_example : Listed calm_env listing start (shown ∷ []) after_list
list_funding_sources-Listed_example = list_funding_sources-Listed calm_env listing start lists

abbrev creating : CreateFundingSourceInput
creating = record {
  client_id = codes "u";
  name = codes " reserve ";
  source_type = codes "bank";
  payment_account_id = codes "acc-2";
}

abbrev after_create : World
after_create = (create_funding_source calm_env (api_service calm_env) creating start).1

abbrev made : FundingSource
made = record {
  id = calm_env.uuid_text 100;
  client_id = calm_env.uuid_text 1;
  name = codes "reserve";
  source_type = codes "bank";
  payment_account_id = codes "acc-2";
  status = codes "active";
  created_at = 1000;
  updated_at = 1000;
}

creates :
    create_funding_source calm_env (api_service calm_env) creating start ≡ (ok made, after_create)
unfolding create_funding_source create_stored session FundingSources.create_funding_source
    trim_space funding_source_from_db
creates = refl

create_funding_source-Created_example : Created calm_env creating start made after_create
create_funding_source-Created_example =
    create_funding_source-Created calm_env creating start creates
