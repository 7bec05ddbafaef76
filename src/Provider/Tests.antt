-- ===== src/Provider/Tests.antt =====
-- The provider simulator at a concrete configuration.
use payout_orchestrator.Common.{◌≡◌, none}
use payout_orchestrator.Text.{codes}
use payout_orchestrator.Outcome.{ok}
use payout_orchestrator.Provider.{ExecutePayoutInput, ExecutePayoutResult}
use payout_orchestrator.Provider.Simulator.{
  Config, outcome_failed, execute_payout, Answers, execute_payout-Answers,
}

abbrev config : Config
config = record { outcome = outcome_failed; failure_reason = codes " no funds " }

abbrev input : ExecutePayoutInput
input = record {
  payout_id = codes "p";
  funding_source_id = codes "f";
  payment_account_id = codes "acc";
  amount = codes "12.50";
  currency = codes "USD";
}

execute_payout-Answers_example :
    (r : ExecutePayoutResult) × (execute_payout none config input ≡ ok r) × Answers outcome_failed r
execute_payout-Answers_example = execute_payout-Answers config input (λ s e. cc)
