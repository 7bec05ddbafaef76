-- ===== src/Outbox/Relay.antt =====
-- `RunOnce` of internal/outbox/relay.go, with internal/outbox/tx.go as its transaction runner.
pub mod Claiming
pub mod Dispatched
pub mod Run
pub mod Round
pub mod Returns
pub mod Intact
mod Tests
use payout_orchestrator.Common.{
  ℕ, ◌-◌, Bool, true, false, Option, none, some, List, [], ◌∷◌, if◌then◌else◌,
}
use payout_orchestrator.Outcome.{Error, Result, ok, err, failure, is_no_rows, is_panic}
use payout_orchestrator.Text.{codes}
use payout_orchestrator.Db.Models.{Uuid, Time, EventType, OutboxEvent}
use payout_orchestrator.Db.Session.{
  Env, Action, pure, raise, ◌>>=◌, ◌>>◌, with_result, on_tx, within_tx,
}
use payout_orchestrator.Db.OutboxEvents.{
  claim_next_pending_outbox_event, claim_next_pending_outbox_event_by_types,
  mark_outbox_event_as_processed, release_outbox_event_claim,
}
use payout_orchestrator.Outbox.Event.{Event, EventHandler}

-- The poll interval of the source's Config is of no use to a single round.
pub record Config : Type 0 where
  pub claim_timeout : Time
  pub event_types : List EventType

-- The callback of `claimNextPendingEvent`.
pub claim_event : Env → Config → Time → Action OutboxEvent
claim_event env config reclaim_before = elim config.event_types [
  | [] ↦ on_tx env (claim_next_pending_outbox_event reclaim_before)
  | t ∷ types ↦ on_tx env (claim_next_pending_outbox_event_by_types reclaim_before (t ∷ types))
]

-- The error of the transaction: no rows means that there is nothing to claim.
claim_result : Result OutboxEvent → Action (Option OutboxEvent)
claim_result (ok row) = pure (some row)
claim_result (err e) = if is_no_rows e then pure none else raise e

-- claimNextPendingEvent
pub claim_next_pending_event : Env → Config → Time → Action (Option OutboxEvent)
claim_next_pending_event env config reclaim_before =
    with_result (within_tx env (claim_event env config reclaim_before)) claim_result

-- markProcessed
pub mark_processed : Env → Uuid → Action OutboxEvent
mark_processed env id = within_tx env (on_tx env (mark_outbox_event_as_processed id))

-- releaseClaim
pub release_claim : Env → Uuid → Action OutboxEvent
release_claim env id = within_tx env (on_tx env (release_outbox_event_claim id))

-- What `RunOnce` gives to its dispatcher.
abbrev pub dispatch_event : Env → OutboxEvent → Event
dispatch_event env row = record {
  id = env.uuid_text row.id;
  event_type = row.event_type;
  entity_id = env.uuid_text row.entity_id;
  payload = env.jsonb_text row.payload;
}

-- A panic of the dispatcher leaves the round, and the claim as it is.
after_dispatch : Env → Uuid → Result (Unit {0}) → Action Bool
after_dispatch env id (err e) = if is_panic e then raise e else (do release_claim env id; raise e)
after_dispatch env id (ok _) = do mark_processed env id; pure true

dispatch_claimed : Env → EventHandler → Option OutboxEvent → Action Bool
dispatch_claimed env dispatch none = pure false
dispatch_claimed env dispatch (some row) =
    with_result (dispatch (dispatch_event env row)) (after_dispatch env row.id)

-- RunOnce of a relay that is configured, at the time `now` of its own clock.
pub run_once : Env → Config → EventHandler → Time → Action Bool
run_once env config dispatch now = do
  claimed ← claim_next_pending_event env config (now - config.claim_timeout)
  dispatch_claimed env dispatch claimed

-- The inline dispatcher, whose handler may be missing.
pub inline_dispatcher : Option EventHandler → EventHandler
inline_dispatcher none event = raise (failure (codes "outbox inline dispatcher is not configured"))
inline_dispatcher (some handler) event = handler event
