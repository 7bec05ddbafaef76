-- ===== src/Provider.antt =====
-- internal/provider/provider.go: what a payout provider is asked, and what it may answer.
pub mod Simulator
mod Tests
use payout_orchestrator.Common.{ℕ, Bool, not, if◌then◌else◌}
use payout_orchestrator.Text.{Text, is_empty, trim_space}
use payout_orchestrator.Status.{Status, pending, processing, succeeded, failed, other}
use payout_orchestrator.Outcome.{Result, ok, err, invalid_result}

pub record ExecutePayoutInput : Type 0 where
  pub payout_id : Text
  pub funding_source_id : Text
  pub payment_account_id : Text
  pub amount : Text
  pub currency : Text

pub record ExecutePayoutResult : Type 0 where
  pub status : Status
  pub failure_reason : Text

-- PayoutProvider: the answer may depend on when it is asked.
pub record PayoutProvider : Type 0 where
  pub execute_payout : ℕ → ExecutePayoutInput → Result ExecutePayoutResult

-- ValidateResult
unfoldable pub validate_result : ExecutePayoutResult → Result (Unit {0})
validate_result r = elim r.status [
  | succeeded ↦ if is_empty (trim_space r.failure_reason) then ok tt else err invalid_result
  | failed ↦ if is_empty (trim_space r.failure_reason) then err invalid_result else ok tt
  | _ ↦ err invalid_result
]
