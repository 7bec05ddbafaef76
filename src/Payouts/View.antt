-- ===== src/Payouts/View.antt =====
-- The service's payouts, and `GetPayout` and `ListPayouts`.
use payout_orchestrator.Common.{not, ◌||◌, none, some, List, [], ◌∷◌, if◌then◌else◌}
use payout_orchestrator.Common.Int.{ℤ, abs, is_negative, is_nonpositive}
use payout_orchestrator.Text.{Text}
use payout_orchestrator.Money.{numeric_string}
use payout_orchestrator.Status.{Status}
use payout_orchestrator.Outcome.{
  Error, Result, ok, err, failure, invalid_client_id, duplicate_external_id, invalid_pagination,
  invalid_payout_id, funding_source_not_found, idempotency_conflict, payout_not_found,
  concurrent_idempotency_key_insert, is_no_rows, is_concurrent_insert, is_unique_violation,
  is_unique_constraint_violation, or_error,
}
use payout_orchestrator.Outcome
use payout_orchestrator.Db.Models.{Time, Payout as PayoutRow}
use payout_orchestrator.Db.Session.{Env, Action, raise, lift, ◌>>=◌, ◌>>◌}
use payout_orchestrator.Payouts.Store.{Service, catching, service_not_configured}
use payout_orchestrator.Payouts.Validation.{or_invalid}

-- The service's view of a payout.
pub record Payout : Type 0 where
  pub id : Text
  pub client_id : Text
  pub funding_source_id : Text
  pub external_id : Text
  pub recipient_name : Text
  pub recipient_account_id : Text
  pub amount : Text
  pub currency : Text
  pub status : Status
  pub failure_reason : Text
  pub created_at : Time
  pub updated_at : Time

-- payoutFromDB
unfoldable pub payout_from_db : Env → PayoutRow → Result Payout
payout_from_db env p = Outcome.◌>>=◌ (numeric_string p.amount) λ amount. ok (record {
  id = env.uuid_text p.id;
  client_id = env.uuid_text p.client_id;
  funding_source_id = env.uuid_text p.funding_source_id;
  external_id = p.external_id.string;
  recipient_name = p.recipient_name.string;
  recipient_account_id = p.recipient_account_id.string;
  amount = amount;
  currency = p.currency;
  status = p.status;
  failure_reason = p.failure_reason.string;
  created_at = p.created_at;
  updated_at = p.updated_at;
})

pub record GetPayoutInput : Type 0 where
  pub client_id : Text
  pub id : Text

pub record ListPayoutsInput : Type 0 where
  pub client_id : Text
  pub limit : ℤ
  pub offset : ℤ

-- `if errors.Is(err, pgx.ErrNoRows) { return ErrPayoutNotFound }`
abbrev pub missing_payout : Error → Error
missing_payout e = if is_no_rows e then payout_not_found else e

-- GetPayout
unfoldable pub get_payout : Env → Service → GetPayoutInput → Action Payout
unfolding payout_from_db
get_payout env s input = elim s.store [
  | none ↦ raise service_not_configured
  | some store ↦ do
    client_id ← lift (or_invalid (env.parse_uuid input.client_id) invalid_client_id)
    payout_id ← lift (or_invalid (env.parse_uuid input.id) invalid_payout_id)
    payout ← catching missing_payout (store.get_payout_by_client_id client_id payout_id)
    lift (payout_from_db env payout)
]

-- The loop of `ListPayouts` over the rows.
unfoldable pub payouts_from_db : Env → List PayoutRow → Result (List Payout)
unfolding payout_from_db
payouts_from_db env [] = ok []
payouts_from_db env (row ∷ rows) =
    Outcome.◌>>=◌ (payout_from_db env row)
      λ mapped. Outcome.◌>>=◌ (payouts_from_db env rows) λ result. ok (mapped ∷ result)

-- ListPayouts; a limit that is positive and an offset that is not negative reach the statement.
unfoldable pub list_payouts : Env → Service → ListPayoutsInput → Action (List Payout)
unfolding payouts_from_db
list_payouts env s input = elim s.store [
  | none ↦ raise service_not_configured
  | some store ↦ do
    client_id ← lift (or_invalid (env.parse_uuid input.client_id) invalid_client_id)
    lift (
        Outcome.guard (not (is_nonpositive input.limit || is_negative input.offset))
          invalid_pagination)
    payouts ← store.list_payouts_by_client_id client_id (abs input.limit) (abs input.offset)
    lift (payouts_from_db env payouts)
]
