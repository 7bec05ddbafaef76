-- ===== src/FundingSources.antt =====
-- internal/apps/api/services/fundingsources/service.go
pub mod Outcomes
pub mod Intact
mod Tests
use payout_orchestrator.Common.{
  ℕ, Bool, true, false, not, ◌||◌, Option, none, some, List, [], ◌∷◌, map, if◌then◌else◌,
}
use payout_orchestrator.Common.Int.{ℤ, abs, is_negative, is_nonpositive}
use payout_orchestrator.Text.{Text, codes, is_empty, trim_space}
use payout_orchestrator.Outcome.{
  Error, failure, invalid_client_id, invalid_funding_source, invalid_pagination, invalid_source_id,
  funding_source_not_found, is_no_rows,
}
use payout_orchestrator.Outcome
use payout_orchestrator.Db.Models.{Uuid, Time}
use payout_orchestrator.Db.Models
use payout_orchestrator.Db.Session.{Env, Action, pure, raise, lift, ◌>>=◌, ◌>>◌, on_pool}
use payout_orchestrator.Db.FundingSources
use payout_orchestrator.Db.FundingSources.{CreateFundingSourceParams}
use payout_orchestrator.Payouts.Store.{catching}
use payout_orchestrator.Payouts.Validation.{or_invalid}

-- FundingSourceStore
pub record FundingSourceStore : Type 0 where
  pub create_funding_source : CreateFundingSourceParams → Action Models.FundingSource
  pub get_funding_source_by_client_id : Uuid → Uuid → Action Models.FundingSource
  pub list_funding_sources_by_client_id : Uuid → ℕ → ℕ → Action (List Models.FundingSource)

-- *db.Queries on the pool, which cmd/api/main.go gives to the service.
abbrev pub pool_store : Env → FundingSourceStore
pool_store env = record {
  create_funding_source = λ arg. on_pool env (FundingSources.create_funding_source arg);
  get_funding_source_by_client_id =
      λ client_id id. on_pool env (FundingSources.get_funding_source_by_client_id client_id id);
  list_funding_sources_by_client_id = λ client_id limit offset.
      on_pool env (FundingSources.list_funding_sources_by_client_id client_id limit offset);
}

-- A nil *Service stands as one without a store.
pub record Service : Type 0 where
  pub store : Option FundingSourceStore

pub record CreateFundingSourceInput : Type 0 where
  pub client_id : Text
  pub name : Text
  pub source_type : Text
  pub payment_account_id : Text

pub record GetFundingSourceInput : Type 0 where
  pub client_id : Text
  pub id : Text

pub record ListFundingSourcesInput : Type 0 where
  pub client_id : Text
  pub limit : ℤ
  pub offset : ℤ

pub record FundingSource : Type 0 where
  pub id : Text
  pub client_id : Text
  pub name : Text
  pub source_type : Text
  pub payment_account_id : Text
  pub status : Text
  pub created_at : Time
  pub updated_at : Time

-- fundingSourceFromDB
pub funding_source_from_db : Env → Models.FundingSource → FundingSource
funding_source_from_db env source = record {
  id = env.uuid_text source.id;
  client_id = env.uuid_text source.client_id;
  name = source.name;
  source_type = source.source_type;
  payment_account_id = source.payment_account_id;
  status = source.status;
  created_at = source.created_at;
  updated_at = source.updated_at;
}

abbrev not_configured : Error
not_configured = failure (codes "funding source service is not configured")

create_stored : Env → FundingSourceStore → CreateFundingSourceInput → Action FundingSource
create_stored env store input = do
  let name = trim_space input.name
  let source_type = trim_space input.source_type
  let payment_account_id = trim_space input.payment_account_id
  lift (
      Outcome.guard (not (is_empty name || is_empty source_type || is_empty payment_account_id))
        invalid_funding_source)
  client_id ← lift (or_invalid (env.parse_uuid input.client_id) invalid_client_id)
  source ← store.create_funding_source (record {
    client_id = client_id;
    name = name;
    source_type = source_type;
    payment_account_id = payment_account_id;
  })
  pure (funding_source_from_db env source)

-- CreateFundingSource
pub create_funding_source : Env → Service → CreateFundingSourceInput → Action FundingSource
create_funding_source env s input = elim s.store [
  | none ↦ raise not_configured
  | some store ↦ create_stored env store input
]

-- `if errors.Is(err, pgx.ErrNoRows) { return ErrFundingSourceNotFound }`
abbrev missing_source : Error → Error
missing_source e = if is_no_rows e then funding_source_not_found else e

get_stored : Env → FundingSourceStore → GetFundingSourceInput → Action FundingSource
get_stored env store input = do
  client_id ← lift (or_invalid (env.parse_uuid input.client_id) invalid_client_id)
  source_id ← lift (or_invalid (env.parse_uuid input.id) invalid_source_id)
  source ← catching missing_source (store.get_funding_source_by_client_id client_id source_id)
  pure (funding_source_from_db env source)

-- GetFundingSource
pub get_funding_source : Env → Service → GetFundingSourceInput → Action FundingSource
get_funding_source env s input = elim s.store [
  | none ↦ raise not_configured
  | some store ↦ get_stored env store input
]

list_stored : Env → FundingSourceStore → ListFundingSourcesInput → Action (List FundingSource)
list_stored env store input = do
  client_id ← lift (or_invalid (env.parse_uuid input.client_id) invalid_client_id)
  lift (
      Outcome.guard (not (is_nonpositive input.limit || is_negative input.offset))
        invalid_pagination)
  sources ← store.list_funding_sources_by_client_id client_id (abs input.limit) (abs input.offset)
  pure (map (funding_source_from_db env) sources)

-- ListFundingSources
pub list_funding_sources : Env → Service → ListFundingSourcesInput → Action (List FundingSource)
list_funding_sources env s input = elim s.store [
  | none ↦ raise not_configured
  | some store ↦ list_stored env store input
]
