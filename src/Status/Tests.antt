-- ===== src/Status/Tests.antt =====
-- The status machine at concrete statuses.
use payout_orchestrator.Common.{◌≡◌, refl, ◌↔◌, ◌⊎◌, true, false}
use payout_orchestrator.Status.{
  Status, pending, processing, succeeded, failed, valid, can_transition,
}
use payout_orchestrator.Status.Machine.{Run, here, next, Stage, terminal_iff, Run-pending}

two_steps : Run pending 2 succeeded
unfolding can_transition
two_steps = next {b = processing} (next {b = pending} here refl) refl

Run-pending_example : (valid succeeded ≡ true) × Stage 2 succeeded
Run-pending_example = Run-pending two_steps

terminal_iff_example :
    ((b : Status) → can_transition failed b ≡ false)
    ↔ ((failed ≡ succeeded) ⊎ (failed ≡ failed) ⊎ (valid failed ≡ false))
terminal_iff_example = terminal_iff failed
