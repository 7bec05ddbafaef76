-- ===== src/Outbox/Relay/Tests.antt =====
-- A round of the relay at concrete tables.
use payout_orchestrator.Common.{arith, ℕ, ◌≡◌, refl, true, none, some, [], ◌∷◌}
use payout_orchestrator.Text.{codes}
use payout_orchestrator.Outcome.{ok, err, canceled}
use payout_orchestrator.Db.Models.{OutboxEvent, process_payout, pending}
use payout_orchestrator.Db.Session.{World, pure, raise, unchanged, session}
use payout_orchestrator.Db.OutboxEvents.{
  claim_next_pending_outbox_event_by_types, mark_outbox_event_as_processed,
}
use payout_orchestrator.Outbox.Payload.{marshal_process_payout_payload}
use payout_orchestrator.Outbox.Event.{EventHandler}
use payout_orchestrator.Outbox.Relay.{
  Config, claim_event, claim_result, claim_next_pending_event, mark_processed, after_dispatch,
  dispatch_claimed, run_once,
}
use payout_orchestrator.Outbox.Relay.Dispatched.{Dispatched, run_once-Dispatched}
use payout_orchestrator.Outbox.Relay.Round
use payout_orchestrator.Outbox.Relay.Round.{run_once-Ends}
use payout_orchestrator.Outbox.Relay.Returns.{Returns, relay_loop-Returns}
use payout_orchestrator.Outbox.Relay.Run.{context_done, relay_loop, go_on, Ends, relay_loop-Ends}
use payout_orchestrator.Sample.{calm_env, tables}

abbrev waiting : OutboxEvent
waiting = record {
  id = 4;
  event_type = process_payout;
  payload = marshal_process_payout_payload (codes "uuu") (codes "u");
  status = pending;
  created_at = 6;
  processed_at = none;
  entity_id = 3;
  claimed_at = none;
}

abbrev with_event : World
with_event = record {
  committed = record tables { outbox_events = waiting ∷ [] };
  own = unchanged;
  step = 0;
  asked = [];
}

abbrev config : Config
config = record { claim_timeout = 30; event_types = process_payout ∷ [] }

-- A dispatcher that fails.
abbrev refuse : EventHandler
refuse event = raise canceled

run_once-Ends_example :
    Round.Ends calm_env config refuse 1000 with_event
      (run_once calm_env config refuse 1000 with_event)
run_once-Ends_example =
    run_once-Ends calm_env (record { fault = λ n. refl; others = λ n d. refl }) config refuse 1000
      with_event

abbrev accept : EventHandler
accept event = pure tt

abbrev after_round : World
after_round = (run_once calm_env config accept 1000 with_event).1

round : run_once calm_env config accept 1000 with_event ≡ (ok true, after_round)
unfolding run_once claim_next_pending_event claim_event claim_result dispatch_claimed after_dispatch
    mark_processed session claim_next_pending_outbox_event_by_types mark_outbox_event_as_processed
round = refl

run_once-Dispatched_example : Dispatched calm_env config accept 970 with_event after_round
run_once-Dispatched_example = run_once-Dispatched calm_env config accept 1000 with_event round

-- The relay hands the event on, finds no other, and stops with the context.
abbrev clock : ℕ → ℕ
clock n = 1000

abbrev after_run : World
after_run = (relay_loop calm_env config accept clock 5 0 (context_done canceled ∷ []) with_event).1

runs :
    relay_loop calm_env config accept clock 5 0 (context_done canceled ∷ []) with_event
    ≡ (some (err canceled), after_run)
unfolding relay_loop go_on run_once claim_next_pending_event claim_event claim_result
    dispatch_claimed after_dispatch mark_processed session claim_next_pending_outbox_event_by_types
    mark_outbox_event_as_processed
runs = refl

relay_loop-Ends_example :
    Ends calm_env config accept clock 0 with_event
      (context_done canceled ∷ [])
      (err canceled)
      after_run
relay_loop-Ends_example =
    relay_loop-Ends calm_env config accept clock 5 0 (context_done canceled ∷ []) with_event runs

relay_loop-Returns_example :
    Returns calm_env
      (record { fault = λ n. refl; others = λ n d. refl })
      config
      accept
      (λ e v. refl)
      (relay_loop calm_env config accept clock 2 0 (context_done canceled ∷ []) with_event)
relay_loop-Returns_example =
    relay_loop-Returns calm_env (record { fault = λ n. refl; others = λ n d. refl }) config accept
      (λ e v. refl) clock canceled [] 2 0 with_event (omega arith)
