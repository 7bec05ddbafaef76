-- ===== src/Money/Tests.antt =====
-- `numericString` at a concrete number.
use payout_orchestrator.Common.{◌≡◌, refl}
use payout_orchestrator.Common.Int.{negsuc}
use payout_orchestrator.Text.{Text}
use payout_orchestrator.Outcome.{ok}
use payout_orchestrator.Money.{number, numeric_string}
use payout_orchestrator.Money.Reading.Printing.{Says, numeric_string-Says}

numeric_string-Says_example :
    (t : Text) × (numeric_string (number (negsuc 4) (negsuc 2)) ≡ ok t)
    × Says t (negsuc 4) (negsuc 2)
numeric_string-Says_example =
    numeric_string-Says (number (negsuc 4) (negsuc 2)) (negsuc 4) refl (λ e. cc)
