-- ===== src/Provider/Simulator.antt =====
-- internal/providersimulator/simulator.go
use payout_orchestrator.Common.{
  ◌≡◌, ◌≢◌, refl, inl, inr, false, Option, none, some, [], Bool-cases, if◌then◌else◌,
}
use payout_orchestrator.Text.{Text, codes, is_empty, trim_space}
use payout_orchestrator.Text.Trim.{trim_space_idem}
use payout_orchestrator.Status.{succeeded, failed}
use payout_orchestrator.Outcome.{Error, Result, ok, err, invalid_outcome, ◌>>=◌, ◌>>◌}
use payout_orchestrator.Provider.{
  ExecutePayoutInput, ExecutePayoutResult, PayoutProvider, validate_result,
}

-- The type is a string in the source; `unset` is "", and `other_outcome` any other string.
pub data Outcome : Type 0 where
  unset outcome_succeeded outcome_failed : Outcome
  other_outcome : Text → Outcome

pub record Config : Type 0 where
  pub outcome : Outcome
  pub failure_reason : Text

abbrev default_reason : Text
default_reason = codes "provider simulator rejected payout"

success : ExecutePayoutResult
success = record { status = succeeded; failure_reason = [] }

failure_for : Text → ExecutePayoutResult
failure_for reason = record {
  status = failed;
  failure_reason = if is_empty reason then default_reason else reason;
}

-- `(*Simulator).result`
result : Config → Result ExecutePayoutResult
result c = elim c.outcome [
  | unset ↦ ok success
  | outcome_succeeded ↦ ok success
  | outcome_failed ↦ ok (failure_for (trim_space c.failure_reason))
  | other_outcome s ↦ err invalid_outcome
]

-- `ExecutePayout`; `cancelled` is the error of a context that is done.
pub execute_payout : Option Error → Config → ExecutePayoutInput → Result ExecutePayoutResult
execute_payout (some cancelled) c input = err cancelled
execute_payout none c input = do r ← result c; validate_result r; ok r

failure_for-valid : (s : Text) → validate_result (failure_for (trim_space s)) ≡ ok tt
unfolding validate_result failure_for
failure_for-valid s = elim (Bool-cases (is_empty (trim_space s))) [
  | inl empty ↦ rw empty (unfold trim_space in refl)
  | inr given ↦ rw (given, trim_space_idem s, given) refl
]

-- What the configured outcome asks for: success with no reason, or a failure with a reason that is
-- not blank and has no white space around it.
abbrev pub Answers : Outcome → ExecutePayoutResult → Type 0
Answers unset r = (r.status ≡ succeeded) × (r.failure_reason ≡ [])
Answers outcome_succeeded r = (r.status ≡ succeeded) × (r.failure_reason ≡ [])
Answers outcome_failed r =
    (r.status ≡ failed)
    × (is_empty r.failure_reason ≡ false)
    × (trim_space r.failure_reason ≡ r.failure_reason)
Answers (other_outcome s) r = ⊥

failure_for-Answers : (s : Text) → Answers outcome_failed (failure_for (trim_space s))
unfolding failure_for
failure_for-Answers s = elim (Bool-cases (is_empty (trim_space s))) [
  | inl empty ↦ rw empty (refl, refl, unfold trim_space in refl)
  | inr given ↦ rw given (refl, given, trim_space_idem s)
]

of_outcome :
    (o : Outcome) (reason : Text) (input : ExecutePayoutInput)
    → ((s : Text) → o ≢ other_outcome s)
    → (r : ExecutePayoutResult) × (execute_payout none
          (record { outcome = o; failure_reason = reason })
          input
        ≡ ok r)
      × Answers o r
unfolding execute_payout result success validate_result
of_outcome unset reason input known = (success, unfold trim_space in refl, (refl, refl))
of_outcome outcome_succeeded reason input known = (success, unfold trim_space in refl, (refl, refl))
of_outcome outcome_failed reason input known = (
  failure_for (trim_space reason),
  rw (failure_for-valid reason) refl,
  failure_for-Answers reason,
)
of_outcome (other_outcome s) reason input known = absurd (known s refl)

-- With a known outcome and a live context the simulator always answers, and as it is configured:
-- its check of its own answer never stands in the way.
pub execute_payout-Answers :
    (c : Config) (input : ExecutePayoutInput)
    → ((s : Text) → c.outcome ≢ other_outcome s)
    → (r : ExecutePayoutResult) × (execute_payout none c input ≡ ok r) × Answers c.outcome r
execute_payout-Answers c input known = of_outcome c.outcome c.failure_reason input known

-- The simulator as the provider of the payout worker.
abbrev pub simulator : Config → PayoutProvider
simulator c = record { execute_payout = λ step input. execute_payout none c input }
