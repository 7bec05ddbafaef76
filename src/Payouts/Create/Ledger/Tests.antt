-- ===== src/Payouts/Create/Ledger/Tests.antt =====
-- The contract at a new request.
use payout_orchestrator.Payouts.Create.{create_payout}
use payout_orchestrator.Payouts.Create.AllOrNothing.{api_service}
use payout_orchestrator.Payouts.Create.Progress.Tests.{calm, new_request, valid, acceptable}
use payout_orchestrator.Payouts.Create.Ledger.{Implements, unknown, create_payout-Implements}
use payout_orchestrator.Sample.{calm_env, start, request}

create_payout-Implements_example :
    Implements calm_env new_request start
      (create_payout calm_env (api_service calm_env) request start)
create_payout-Implements_example =
    create_payout-Implements calm_env calm request start new_request valid (unknown acceptable)
