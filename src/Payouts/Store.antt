-- ===== src/Payouts/Store.antt =====
-- The interfaces `PayoutStore` and `TxRunner` of service.go, and tx.go.
pub mod Catching
use payout_orchestrator.Common.{ℕ, Bool, true, false, Option, none, some, List}
use payout_orchestrator.Text.{Text, codes}
use payout_orchestrator.Outcome.{Error, Result, ok, err, failure}
use payout_orchestrator.Db.Models.{
  Uuid, FundingSource, IdempotencyKey, OutboxEvent, Payout as PayoutRow,
}
use payout_orchestrator.Db.Session.{
  Env, Action, pure, raise, lift, ◌>>=◌, ◌>>◌, with_result, on_tx, on_pool,
}
use payout_orchestrator.Db.Session
use payout_orchestrator.Db.FundingSources
use payout_orchestrator.Db.IdempotencyKeys
use payout_orchestrator.Db.IdempotencyKeys.{CreateIdempotencyKeyParams}
use payout_orchestrator.Db.OutboxEvents
use payout_orchestrator.Db.OutboxEvents.{CreateOutboxEventParams}
use payout_orchestrator.Db.Payouts
use payout_orchestrator.Db.Payouts.{CreatePayoutParams}

pub record PayoutStore : Type 0 where
  pub create_idempotency_key : CreateIdempotencyKeyParams → Action IdempotencyKey
  pub create_outbox_event : CreateOutboxEventParams → Action OutboxEvent
  pub create_payout : CreatePayoutParams → Action PayoutRow
  pub get_funding_source_by_client_id : Uuid → Uuid → Action FundingSource
  pub get_idempotency_key : Uuid → Text → Action IdempotencyKey
  pub get_payout_by_client_id : Uuid → Uuid → Action PayoutRow
  pub list_payouts_by_client_id : Uuid → ℕ → ℕ → Action (List PayoutRow)

-- *db.Queries as a store: bound to a transaction, and on the pool.
abbrev pub tx_store : Env → PayoutStore
tx_store env = record {
  create_idempotency_key = λ arg. on_tx env (IdempotencyKeys.create_idempotency_key arg);
  create_outbox_event = λ arg. on_tx env (OutboxEvents.create_outbox_event env arg);
  create_payout = λ arg. on_tx env (Payouts.create_payout env arg);
  get_funding_source_by_client_id =
      λ client_id id. on_tx env (FundingSources.get_funding_source_by_client_id client_id id);
  get_idempotency_key =
      λ client_id key. on_tx env (IdempotencyKeys.get_idempotency_key client_id key);
  get_payout_by_client_id =
      λ client_id id. on_tx env (Payouts.get_payout_by_client_id client_id id);
  list_payouts_by_client_id = λ client_id limit offset.
      on_tx env (Payouts.list_payouts_by_client_id client_id limit offset);
}

abbrev pub pool_store : Env → PayoutStore
pool_store env = record {
  create_idempotency_key = λ arg. on_pool env (IdempotencyKeys.create_idempotency_key arg);
  create_outbox_event = λ arg. on_pool env (OutboxEvents.create_outbox_event env arg);
  create_payout = λ arg. on_pool env (Payouts.create_payout env arg);
  get_funding_source_by_client_id =
      λ client_id id. on_pool env (FundingSources.get_funding_source_by_client_id client_id id);
  get_idempotency_key =
      λ client_id key. on_pool env (IdempotencyKeys.get_idempotency_key client_id key);
  get_payout_by_client_id =
      λ client_id id. on_pool env (Payouts.get_payout_by_client_id client_id id);
  list_payouts_by_client_id = λ client_id limit offset.
      on_pool env (Payouts.list_payouts_by_client_id client_id limit offset);
}

-- The two implementations of TxRunner; `false` and `none` are the ones that are not configured.
pub data TxRunner : Type 0 where
  passthrough_tx_runner : Option PayoutStore → TxRunner
  db_tx_runner : Bool → TxRunner

abbrev not_configured : Error
not_configured = failure (codes "payout transaction runner is not configured")

-- `WithinTx` of the two runners
unfoldable pub within_tx : Env → TxRunner → {A : Type 0} → (PayoutStore → Action A) → Action A
within_tx env (passthrough_tx_runner none) fn = raise not_configured
within_tx env (passthrough_tx_runner (some store)) fn = fn store
within_tx env (db_tx_runner false) fn = raise not_configured
within_tx env (db_tx_runner true) fn = Session.within_tx env (fn (tx_store env))

-- A nil *Service stands as one with neither field.
pub record Service : Type 0 where
  pub store : Option PayoutStore
  pub tx_runner : Option TxRunner

abbrev pub new_service : Option PayoutStore → Service
new_service store = record { store = store; tx_runner = some (passthrough_tx_runner store) }

abbrev pub new_service_with_tx : Option PayoutStore → Option TxRunner → Service
new_service_with_tx store tx_runner = record { store = store; tx_runner = tx_runner }

-- A call whose error is turned into another.
abbrev pub map_error {ℓ} : {A : Type ℓ} → (Error → Error) → Result A → Result A
map_error f (ok a) = ok a
map_error f (err e) = err (f e)

abbrev pub catching : {A : Type 0} → (Error → Error) → Action A → Action A
catching f m = with_result m (λ r. lift (map_error f r))

abbrev pub service_not_configured : Error
service_not_configured = failure (codes "payout service is not configured")
