-- ===== src/FundingSources/Intact.antt =====
-- What the operations on funding sources leave intact, however they end.
use payout_orchestrator.Common.{sym, subst}
use payout_orchestrator.Db.Models.{Uuid, Db}
use payout_orchestrator.Db.Session.{Env, on_pool}
use payout_orchestrator.Db.Session.Invariant.{
  IsRely, Safe, Stays, Stays-bind, Stays-pure, Stays-lift, Stays-on_pool, Stays-with_result,
}
use payout_orchestrator.Common.{ℕ}
use payout_orchestrator.Db.Effects.{
  get_funding_source_by_client_id-eq-ok, list_funding_sources-eq-ok,
}
use payout_orchestrator.Db.Intact.{IsIntact, unchanged-Safe, source-Safe}
use payout_orchestrator.Db.FundingSources
use payout_orchestrator.Db.FundingSources.{CreateFundingSourceParams}
use payout_orchestrator.FundingSources.{
  CreateFundingSourceInput, GetFundingSourceInput, ListFundingSourcesInput, create_stored,
  get_stored, list_stored, create_funding_source, get_funding_source, list_funding_sources,
}
use payout_orchestrator.FundingSources.Outcomes.{api_service}

ruleset stays_rules = (Stays-pure, Stays-lift, Stays-with_result, Stays-bind)

module _ (env : Env) (rely : IsRely env (IsIntact env)) where
  abbrev Intact : Db → Type 0
  Intact = IsIntact env

  create-call :
      (arg : CreateFundingSourceParams)
      → Stays Intact (on_pool env (FundingSources.create_funding_source arg))
  create-call arg = Stays-on_pool env Intact rely _ (source-Safe env arg)

  get-call :
      (client_id id : Uuid)
      → Stays Intact (on_pool env (FundingSources.get_funding_source_by_client_id client_id id))
  get-call client_id id = Stays-on_pool env Intact rely _ λ t db a f h.
      subst (Safe Intact) (sym (get_funding_source_by_client_id-eq-ok client_id id t db h))
        (unchanged-Safe env)

  list-call :
      (client_id : Uuid) (limit offset : ℕ)
      → Stays Intact
          (on_pool env (FundingSources.list_funding_sources_by_client_id client_id limit offset))
  list-call client_id limit offset = Stays-on_pool env Intact rely _ λ t db a f h.
      subst (Safe Intact) (sym (list_funding_sources-eq-ok client_id limit offset t db h).1)
        (unchanged-Safe env)

  pub create_funding_source-Stays :
      (input : CreateFundingSourceInput)
      → Stays Intact (create_funding_source env (api_service env) input)
  unfolding create_funding_source create_stored
  create_funding_source-Stays input = search (stays_rules, create-call)

  pub get_funding_source-Stays :
      (input : GetFundingSourceInput)
      → Stays Intact (get_funding_source env (api_service env) input)
  unfolding get_funding_source get_stored
  get_funding_source-Stays input = search (stays_rules, get-call)

  pub list_funding_sources-Stays :
      (input : ListFundingSourcesInput)
      → Stays Intact (list_funding_sources env (api_service env) input)
  unfolding list_funding_sources list_stored
  list_funding_sources-Stays input = search (stays_rules, list-call)
