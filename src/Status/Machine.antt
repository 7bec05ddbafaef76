-- ===== src/Status/Machine.antt =====
-- The state machine of a payout as a relation, and what its runs look like.
use payout_orchestrator.Common.{ℕ, suc, ◌+◌, ◌≤◌, ◌≡◌, refl, ◌↔◌, ◌⊎◌, inl, inr, true, false, arith}
use payout_orchestrator.Status.{
  Status, pending, processing, succeeded, failed, other, valid, can_transition,
}

-- The lifecycle that the design describes: processing begins once, and ends in one of two ways.
pub data Moves : Status → Status → Type 0 where
  start : Moves pending processing
  succeed : Moves processing succeeded
  fail : Moves processing failed

Moves-can_transition : {a b : Status} → Moves a b → can_transition a b ≡ true
unfolding can_transition
Moves-can_transition start = refl
Moves-can_transition succeed = refl
Moves-can_transition fail = refl

can_transition-Moves : (a b : Status) → can_transition a b ≡ true → Moves a b
unfolding can_transition
can_transition-Moves pending processing h = start
can_transition-Moves processing succeeded h = succeed
can_transition-Moves processing failed h = fail
can_transition-Moves _ _ h = cc

-- `CanTransition` answers true exactly for the three moves of the lifecycle.
pub can_transition_iff : (a b : Status) → (can_transition a b ≡ true) ↔ Moves a b
can_transition_iff a b = (can_transition-Moves a b, Moves-can_transition)

-- A run of allowed transitions, with its number of steps.
pub data Run (a : Status) : ℕ → Status → Type 0 where
  here : Run a 0 a
  next : {n : ℕ} {b c : Status} → Run a n b → can_transition b c ≡ true → Run a (suc n) c

-- How far a status is along the lifecycle.
abbrev rank : Status → ℕ
rank pending = 0
rank processing = 1
rank succeeded = 2
rank failed = 2
rank (other s) = 2

rank-Moves : {a b : Status} → Moves a b → rank b ≡ rank a + 1
rank-Moves start = omega arith
rank-Moves succeed = omega arith
rank-Moves fail = omega arith

rank-le : (a : Status) → rank a ≤ 2
rank-le pending = omega arith
rank-le processing = omega arith
rank-le succeeded = omega arith
rank-le failed = omega arith
rank-le (other s) = omega arith

rank-Run : {a : Status} {n : ℕ} {b : Status} → Run a n b → rank b ≡ rank a + n
rank-Run here = omega arith
rank-Run (next {b = b} {c = c} r h) =
    omega (arith, rank-Run r, rank-Moves (can_transition-Moves b c h))

-- No run of allowed transitions has more than two steps.
pub Run-length_le : {a : Status} {n : ℕ} {b : Status} → Run a n b → n ≤ 2
Run-length_le {b} r = omega (arith, rank-Run r, rank-le b)

Moves-valid : {a b : Status} → Moves a b → valid b ≡ true
unfolding valid
Moves-valid start = refl
Moves-valid succeed = refl
Moves-valid fail = refl

-- No transition is allowed from a status exactly if it is succeeded, failed or no valid status.
pub terminal_iff :
    (a : Status)
    → ((b : Status) → can_transition a b ≡ false)
      ↔ ((a ≡ succeeded) ⊎ (a ≡ failed) ⊎ (valid a ≡ false))
unfolding can_transition valid
terminal_iff pending = (λ h. cc (h processing), λ h. ground arith)
terminal_iff processing = (λ h. cc (h succeeded), λ h. ground arith)
terminal_iff succeeded = (λ h. inl refl, λ h b. refl)
terminal_iff failed = (λ h. inr (inl refl), λ h b. refl)
terminal_iff (other s) = (λ h. inr (inr refl), λ h b. refl)

-- The stage of a payout after a number of transitions from `pending`.
abbrev pub Stage : ℕ → Status → Type 0
Stage n b =
    ((n ≡ 0) × (b ≡ pending))
    ⊎ ((n ≡ 1) × (b ≡ processing))
    ⊎ ((n ≡ 2) × ((b ≡ succeeded) ⊎ (b ≡ failed)))

Stage-Moves : {b c : Status} (n : ℕ) → Moves b c → Stage n b → Stage (suc n) c
Stage-Moves n start h = inr (inl (ground arith, refl))
Stage-Moves n succeed h = inr (inr (ground arith, inl refl))
Stage-Moves n fail h = inr (inr (ground arith, inr refl))

-- Every run of allowed transitions from `pending` passes valid statuses only: with no step the
-- payout is pending, after one it is processing, and after two it has succeeded or failed.
pub Run-pending : {n : ℕ} {b : Status} → Run pending n b → (valid b ≡ true) × Stage n b
unfolding valid
Run-pending here = (refl, inl (refl, refl))
Run-pending (next {n = n} {b = b} {c = c} r h) =
    let move = can_transition-Moves b c h in
    (Moves-valid move, Stage-Moves n move (Run-pending r).1)
