-- ===== src/Payouts/Create.antt =====
-- `CreatePayout` and `loadIdempotentPayout` of service.go.
pub mod Atomic
pub mod AllOrNothing
pub mod Answer
pub mod Replay
pub mod Progress
pub mod Ledger
mod Tests
use payout_orchestrator.Common.{
  ℕ, Bool, true, false, not, ◌&&◌, ◌||◌, Option, none, some, List, [], ◌∷◌, ◌++◌, if◌then◌else◌,
}
use payout_orchestrator.Common.Int.{ℤ, abs, is_negative, is_nonpositive}
use payout_orchestrator.Text.{Text, codes, text_eq}
use payout_orchestrator.Money.{numeric_string}
use payout_orchestrator.Status.{Status}
use payout_orchestrator.Outcome.{
  Error, Result, ok, err, failure, invalid_client_id, duplicate_external_id, invalid_pagination,
  invalid_payout_id, funding_source_not_found, idempotency_conflict, payout_not_found,
  concurrent_idempotency_key_insert, is_no_rows, is_concurrent_insert, is_unique_violation,
  is_unique_constraint_violation, or_error,
}
use payout_orchestrator.Outcome
use payout_orchestrator.Db.Models.{
  Uuid, Time, FundingSource, IdempotencyKey, OutboxEvent, process_payout, Payout as PayoutRow,
  zero_payout,
}
use payout_orchestrator.Db.Session.{
  Env, Action, pure, raise, lift, ◌>>=◌, ◌>>◌, with_result, on_tx, on_pool,
}
use payout_orchestrator.Db.Session
use payout_orchestrator.Db.FundingSources
use payout_orchestrator.Db.IdempotencyKeys
use payout_orchestrator.Db.IdempotencyKeys.{CreateIdempotencyKeyParams}
use payout_orchestrator.Db.OutboxEvents
use payout_orchestrator.Db.OutboxEvents.{CreateOutboxEventParams}
use payout_orchestrator.Db.Payouts
use payout_orchestrator.Db.Payouts.{CreatePayoutParams}
use payout_orchestrator.Outbox.Payload.{marshal_process_payout_payload}
use payout_orchestrator.Payouts.Store.{
  PayoutStore, TxRunner, Service, within_tx, catching, service_not_configured,
}
use payout_orchestrator.Payouts.View.{Payout, payout_from_db}
use payout_orchestrator.Payouts.Validation
use payout_orchestrator.Payouts.Validation.{Request}

-- The part of `loadIdempotentPayout` behind the lookup of the key.
found_key : PayoutStore → Uuid → Text → Result IdempotencyKey → Action (PayoutRow × Bool)
found_key store client_id request_hash (err e) =
    if is_no_rows e then pure (zero_payout, false) else raise e
found_key store client_id request_hash (ok existing) =
    if text_eq existing.request_hash request_hash
    then (do
      payout ← store.get_payout_by_client_id client_id existing.payout_id
      pure (payout, true))
    else raise idempotency_conflict

-- loadIdempotentPayout
pub load_idempotent_payout : PayoutStore → Uuid → Text → Text → Action (PayoutRow × Bool)
unfolding found_key
load_idempotent_payout store client_id idempotency_key request_hash =
    with_result (store.get_idempotency_key client_id idempotency_key)
      (found_key store client_id request_hash)

-- Error handlers of the statements in the transaction.
abbrev missing_source : Error → Error
missing_source e = if is_no_rows e then funding_source_not_found else e

abbrev duplicate : Error → Error
duplicate e =
    if is_unique_constraint_violation e (codes "ux_payouts_client_external_id")
    then duplicate_external_id
    else e

abbrev raced : Error → Error
raced e = if is_unique_violation e then concurrent_idempotency_key_insert else e

-- marshalPayoutCreatedOutboxPayload, in the row of the event
abbrev pub process_event : Env → PayoutRow → CreateOutboxEventParams
process_event env created = record {
  event_type = process_payout;
  entity_id = created.id;
  payload =
      marshal_process_payout_payload (env.uuid_text created.id) (env.uuid_text created.client_id);
}

abbrev pub payout_params : Request → CreatePayoutParams
payout_params req = record {
  client_id = req.client_id;
  funding_source_id = req.funding_source_id;
  external_id = Validation.text_param req.external_id;
  recipient_name = Validation.text_param req.recipient_name;
  recipient_account_id = Validation.text_param req.recipient_account_id;
  amount = req.amount;
  currency = req.currency;
}

abbrev pub key_params : Request → Uuid → CreateIdempotencyKeyParams
key_params req payout_id = record {
  key = req.idempotency_key;
  client_id = req.client_id;
  request_hash = req.request_hash;
  payout_id = payout_id;
}

-- The callback of `CreatePayout` where the key is new.
create_new : Env → Request → PayoutStore → Action PayoutRow
create_new env req store = do
  catching missing_source
      (store.get_funding_source_by_client_id req.client_id req.funding_source_id)
  created ← catching duplicate (store.create_payout (payout_params req))
  catching raced (store.create_idempotency_key (key_params req created.id))
  store.create_outbox_event (process_event env created)
  pure created

-- The callback of `CreatePayout`.
pub create_in_tx : Env → Request → PayoutStore → Action PayoutRow
unfolding create_new load_idempotent_payout
create_in_tx env req store = do
  (existing, found) ←
      load_idempotent_payout store req.client_id req.idempotency_key req.request_hash
  if found then pure existing else create_new env req store

-- What follows the transaction: a lost race for the key is answered from the winner's payout.
after_tx : Env → Request → PayoutStore → Result PayoutRow → Action PayoutRow
after_tx env req store (ok payout) = pure payout
after_tx env req store (err e) =
    if is_concurrent_insert e
    then (do
      (payout, _) ← load_idempotent_payout store req.client_id req.idempotency_key req.request_hash
      pure payout)
    else raise e

create_configured : Env → PayoutStore → TxRunner → Validation.CreatePayoutInput → Action Payout
create_configured env store tx_runner input = do
  req ← lift (Validation.validate env input)
  payout ← with_result (within_tx env tx_runner (create_in_tx env req)) (after_tx env req store)
  lift (payout_from_db env payout)

-- CreatePayout
pub create_payout : Env → Service → Validation.CreatePayoutInput → Action Payout
unfolding create_configured
create_payout env s input = elim s.store [
  | none ↦ raise service_not_configured
  | some store ↦ elim s.tx_runner [
    | none ↦ raise service_not_configured
    | some tx_runner ↦ create_configured env store tx_runner input
  ]
]

-- Whatever opens this can run `CreatePayout`.
unfoldable pub intake : Unit {0}
unfolding create_payout create_configured after_tx create_in_tx create_new load_idempotent_payout
    found_key
intake = tt
