-- ===== src/Status.antt =====
-- internal/domain/payout/status.go: the status of a payout and its allowed transitions.
pub mod Machine
mod Tests
use payout_orchestrator.Common.{Bool, true, false, ◌||◌}
use payout_orchestrator.Text.{Text, text_eq}

-- The type is a string in the source: `other` is a string that is none of the four constants.
pub data Status : Type 0 where
  pending processing succeeded failed : Status
  other : Text → Status

-- `==` on statuses
abbrev pub status_eq : Status → Status → Bool
status_eq pending pending = true
status_eq processing processing = true
status_eq succeeded succeeded = true
status_eq failed failed = true
status_eq (other s) (other t) = text_eq s t
status_eq _ _ = false

pub valid : Status → Bool
valid pending = true
valid processing = true
valid succeeded = true
valid failed = true
valid (other s) = false

unfoldable pub can_transition : Status → Status → Bool
can_transition pending to = status_eq to processing
can_transition processing to = status_eq to succeeded || status_eq to failed
can_transition succeeded to = false
can_transition failed to = false
can_transition (other s) to = false
