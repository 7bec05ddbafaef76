-- ===== src/Payouts/Create/Tests.antt =====
-- `CreatePayout` at concrete requests.
use payout_orchestrator.Common.{[]}
use payout_orchestrator.Common.Int.{pos, negsuc}
use payout_orchestrator.Text.{codes}
use payout_orchestrator.Money.{number}
use payout_orchestrator.Status
use payout_orchestrator.Db.Models.{Payout}
use payout_orchestrator.Db.Session.{World}
use payout_orchestrator.Db.Payouts.{new_payout}
use payout_orchestrator.Db.Payouts
use payout_orchestrator.Payouts.Store.{tx_store}
use payout_orchestrator.Payouts.Validation.{Request}
use payout_orchestrator.Payouts.Create.{payout_params, create_in_tx, create_payout}
use payout_orchestrator.Payouts.Create.Answer.{Answer}
use payout_orchestrator.Payouts.View
use payout_orchestrator.Payouts.Create.AllOrNothing.{api_service, Stored, create_payout-Stored}
use payout_orchestrator.Sample.{calm_tick, calm_env, start, request}

create_payout-Stored_example :
    Stored calm_env request start.committed
      (create_payout calm_env (api_service calm_env) request start).1.committed
create_payout-Stored_example = create_payout-Stored calm_env request start

abbrev plain_request : Request
plain_request = record {
  client_id = 1;
  funding_source_id = 2;
  external_id = [];
  recipient_name = codes "Ann";
  recipient_account_id = codes "acc-7";
  amount = number (pos 1250) (negsuc 1);
  currency = codes "USD";
  idempotency_key = codes "key-1";
  request_hash = codes "hash";
}

abbrev new_row : Payout
new_row = record (new_payout (payout_params plain_request) plain_request.amount (calm_tick 2)) {
  status = Status.pending;
}

abbrev after_creating : World
after_creating = (create_in_tx calm_env plain_request (tx_store calm_env) start).1

abbrev shown : View.Payout
shown = record {
  id = calm_env.uuid_text 103;
  client_id = calm_env.uuid_text 1;
  funding_source_id = calm_env.uuid_text 2;
  external_id = [];
  recipient_name = codes "Ann";
  recipient_account_id = codes "acc-7";
  amount = codes "12.50";
  currency = codes "USD";
  status = Status.pending;
  failure_reason = [];
  created_at = 1003;
  updated_at = 1003;
}

abbrev after_call : World
after_call = (create_payout calm_env (api_service calm_env) request start).1
