-- ===== src/Outbox/Relay/Round.antt =====
-- A round of the relay where nothing disturbs its statements.
use payout_orchestrator.Common.{
  suc, ◌≡◌, refl, inl, inr, Bool-cases, ◌∙◌, ◌-◌, Bool, true, false, Option, none, some, List, [],
  ◌∷◌, find,
}
use payout_orchestrator.Outcome.{Error, Result, ok, err, no_rows, is_panic}
use payout_orchestrator.Db.Models.{Uuid, Time, EventType, OutboxEvent}
use payout_orchestrator.Db.Session.{Env, World, unchanged, raise, ◌>>◌, on_tx}
use payout_orchestrator.Db.Session.Quiet.{
  IsQuiet, ticked, begun, settled, on_tx-quiet, within_tx-quiet_ok, within_tx-quiet_err,
}
use payout_orchestrator.Db.OutboxEvents.{
  has_event_id, update_event, claim, mark_outbox_event_as_processed, release_outbox_event_claim,
}
use payout_orchestrator.Db.OutboxEvents.Found.{
  claim_statement, next_event, claim_answer, finished, released, claim_statement_lem,
  mark_outbox_event_as_processed_lem, release_outbox_event_claim_lem,
}
use payout_orchestrator.Outbox.Event.{EventHandler}
use payout_orchestrator.Outbox.Relay.{
  Config, claim_event, claim_result, claim_next_pending_event, mark_processed, release_claim,
  dispatch_event, after_dispatch, dispatch_claimed, run_once,
}

module _ (env : Env) where
  -- The event as it is claimed in the round that starts in this world, and the world with the claim.
  abbrev pub claimed_event : OutboxEvent → World → OutboxEvent
  claimed_event e w = claim (env.tick (suc w.step)) e

  abbrev pub claimed_world : OutboxEvent → World → World
  claimed_world e w =
      settled
        (record (ticked (begun w)) { own = update_event e.id (claim (env.tick (suc w.step))) })

  -- The event that the round takes.
  abbrev pub taken : Config → Time → World → Option OutboxEvent
  taken config now w =
      next_event config.event_types (now - config.claim_timeout) (env.tick (suc w.step)) w.committed

  -- The world behind the transaction that updates the event.
  abbrev pub updated_world : Uuid → (OutboxEvent → OutboxEvent) → World → World
  updated_world id f v = settled (record (ticked (begun v)) { own = update_event id f })

  abbrev failed_world : World → World
  failed_world v = record (ticked (ticked (begun v))) { own = unchanged }

-- How a round ends: without an event to take; with one that the dispatcher has taken, and that is
-- processed now; with one that the dispatcher has failed on, and that is pending again; with a panic of
-- the dispatcher, behind which its event stays claimed; or with an event whose row is gone when the
-- dispatcher is through with it.
pub data Ends (env : Env) (config : Config) (dispatch : EventHandler) (now : Time) (w : World)
    (end : Result Bool × World) : Type 0 where
  idle :
      taken env config now w ≡ none
      → end.0 ≡ ok false
      → end.1.committed ≡ w.committed
      → Ends env config dispatch now w end
  dispatched :
      (e row : OutboxEvent) (v : World)
      → taken env config now w ≡ some e
      → dispatch (dispatch_event env (claimed_event env e w)) (claimed_world env e w) ≡ (ok tt, v)
      → find (has_event_id e.id) v.committed.outbox_events ≡ some row
      → end.0 ≡ ok true
      → end.1.committed ≡ update_event e.id (finished (env.tick (suc v.step)).now) v.committed
      → Ends env config dispatch now w end
  given_back :
      (e row : OutboxEvent) (x : Error) (v : World)
      → taken env config now w ≡ some e
      → dispatch (dispatch_event env (claimed_event env e w)) (claimed_world env e w) ≡ (err x, v)
      → is_panic x ≡ false
      → find (has_event_id e.id) v.committed.outbox_events ≡ some row
      → end.0 ≡ err x
      → end.1.committed ≡ update_event e.id released v.committed
      → Ends env config dispatch now w end
  panicked :
      (e : OutboxEvent) (x : Error) (v : World)
      → taken env config now w ≡ some e
      → dispatch (dispatch_event env (claimed_event env e w)) (claimed_world env e w) ≡ (err x, v)
      → is_panic x ≡ true
      → end.0 ≡ err x
      → end.1.committed ≡ v.committed
      → Ends env config dispatch now w end
  lost :
      (e : OutboxEvent) (answer : Result (Unit {0})) (v : World)
      → taken env config now w ≡ some e
      → dispatch (dispatch_event env (claimed_event env e w)) (claimed_world env e w) ≡ (answer, v)
      → find (has_event_id e.id) v.committed.outbox_events ≡ none
      → end.0 ≡ err no_rows
      → end.1.committed ≡ v.committed
      → Ends env config dispatch now w end

pub claim_event_lem :
    (env : Env) (types : List EventType) (timeout limit : Time)
    → claim_event env (record { claim_timeout = timeout; event_types = types }) limit
      ≡ on_tx env (claim_statement types limit)
unfolding claim_event
claim_event_lem env [] timeout limit = refl
claim_event_lem env (t ∷ types) timeout limit = refl

module _ (env : Env) (quiet : IsQuiet env) (config : Config) (now : Time) (w : World) where
  abbrev limit : Time
  limit = now - config.claim_timeout

  claim_lem :
      {o : Option OutboxEvent}
      → taken env config now w ≡ o
      → claim_statement config.event_types limit (env.tick (suc w.step)) w.committed
        ≡ claim_answer (env.tick (suc w.step)) o
  claim_lem h =
      claim_statement_lem config.event_types limit (env.tick (suc w.step)) w.committed ∙ λ i.
      claim_answer (env.tick (suc w.step)) (h i)

  claims :
      (e : OutboxEvent)
      → taken env config now w ≡ some e
      → claim_next_pending_event env config limit w
        ≡ (ok (some (claimed_event env e w)), claimed_world env e w)
  unfolding claim_next_pending_event claim_result
  claims e h =
      rw
        (
          claim_event_lem env config.event_types config.claim_timeout limit,
          within_tx-quiet_ok env quiet (on_tx env (claim_statement config.event_types limit)) w _ (
              on_tx-quiet env quiet (claim_statement config.event_types limit) (begun w)
                (claim_lem h)),
        )
        refl

  claims_nothing :
      taken env config now w ≡ none
      → claim_next_pending_event env config limit w ≡ (ok none, failed_world env w)
  unfolding claim_next_pending_event claim_result
  claims_nothing h =
      rw
        (
          claim_event_lem env config.event_types config.claim_timeout limit,
          within_tx-quiet_err env quiet (on_tx env (claim_statement config.event_types limit)) w _ (
              on_tx-quiet env quiet (claim_statement config.event_types limit) (begun w)
                (claim_lem h)),
        )
        refl

module _ (env : Env) (quiet : IsQuiet env) (id : Uuid) (v : World) where
  marks :
      {row : OutboxEvent}
      → find (has_event_id id) v.committed.outbox_events ≡ some row
      → mark_processed env id v ≡ (
        ok (finished (env.tick (suc v.step)).now row),
        updated_world env id (finished (env.tick (suc v.step)).now) v,
      )
  unfolding mark_processed
  marks h = within_tx-quiet_ok env quiet (on_tx env (mark_outbox_event_as_processed id)) v _ (
      on_tx-quiet env quiet (mark_outbox_event_as_processed id) (begun v)
        (mark_outbox_event_as_processed_lem id (env.tick (suc v.step)) v.committed h))

  marks_nothing :
      find (has_event_id id) v.committed.outbox_events ≡ none
      → mark_processed env id v ≡ (err no_rows, failed_world env v)
  unfolding mark_processed
  marks_nothing h =
      within_tx-quiet_err env quiet (on_tx env (mark_outbox_event_as_processed id)) v _ (
        on_tx-quiet env quiet (mark_outbox_event_as_processed id) (begun v)
          (mark_outbox_event_as_processed_lem id (env.tick (suc v.step)) v.committed h))

  releases :
      {row : OutboxEvent}
      → find (has_event_id id) v.committed.outbox_events ≡ some row
      → release_claim env id v ≡ (ok (released row), updated_world env id released v)
  unfolding release_claim
  releases h = within_tx-quiet_ok env quiet (on_tx env (release_outbox_event_claim id)) v _ (
      on_tx-quiet env quiet (release_outbox_event_claim id) (begun v)
        (release_outbox_event_claim_lem id (env.tick (suc v.step)) v.committed h))

  releases_nothing :
      find (has_event_id id) v.committed.outbox_events ≡ none
      → release_claim env id v ≡ (err no_rows, failed_world env v)
  unfolding release_claim
  releases_nothing h =
      within_tx-quiet_err env quiet (on_tx env (release_outbox_event_claim id)) v _ (
        on_tx-quiet env quiet (release_outbox_event_claim id) (begun v)
          (release_outbox_event_claim_lem id (env.tick (suc v.step)) v.committed h))

module _ (env : Env) (quiet : IsQuiet env) (config : Config) (dispatch : EventHandler) (now : Time)
    (w : World) where
  by_release :
      (e : OutboxEvent) (x : Error) (v : World) (o : Option OutboxEvent)
      → taken env config now w ≡ some e
      → dispatch (dispatch_event env (claimed_event env e w)) (claimed_world env e w) ≡ (err x, v)
      → is_panic x ≡ false
      → find (has_event_id e.id) v.committed.outbox_events ≡ o
      → Ends env config dispatch now w ((release_claim env e.id >> raise x) v)
  by_release e x v (some row) next ran failed there =
      rw (releases env quiet e.id v there) (given_back e row x v next ran failed there refl refl)
  by_release e x v none next ran failed gone =
      rw (releases_nothing env quiet e.id v gone) (lost e (err x) v next ran gone refl refl)

  by_row :
      (e : OutboxEvent) (answer : Result (Unit {0})) (v : World) (o : Option OutboxEvent)
      → taken env config now w ≡ some e
      → dispatch (dispatch_event env (claimed_event env e w)) (claimed_world env e w) ≡ (answer, v)
      → find (has_event_id e.id) v.committed.outbox_events ≡ o
      → Ends env config dispatch now w (after_dispatch env e.id answer v)
  unfolding after_dispatch
  by_row e (ok tt) v (some row) next ran there =
      rw (marks env quiet e.id v there) (dispatched e row v next ran there refl refl)
  by_row e (ok tt) v none next ran gone =
      rw (marks_nothing env quiet e.id v gone) (lost e (ok tt) v next ran gone refl refl)
  by_row e (err x) v o next ran there = elim (Bool-cases (is_panic x)) [
    | inl left ↦ rw left (panicked e x v next ran left refl refl)
    | inr failed ↦ rw failed (by_release e x v o next ran failed there)
  ]

  by_next :
      (o : Option OutboxEvent)
      → taken env config now w ≡ o
      → Ends env config dispatch now w (run_once env config dispatch now w)
  unfolding run_once dispatch_claimed
  by_next none h = rw (claims_nothing env quiet config now w h) (idle h refl refl)
  by_next (some e) h = rw (claims env quiet config now w e h) (by_row e _ _ _ h refl refl)

  -- An event that the dispatcher takes, and that is still there then.
  pub hands_on :
      (e : OutboxEvent) (v : World) {row : OutboxEvent}
      → taken env config now w ≡ some e
      → dispatch (dispatch_event env (claimed_event env e w)) (claimed_world env e w) ≡ (ok tt, v)
      → find (has_event_id e.id) v.committed.outbox_events ≡ some row
      → run_once env config dispatch now w
        ≡ (ok true, updated_world env e.id (finished (env.tick (suc v.step)).now) v)
  unfolding run_once dispatch_claimed after_dispatch
  hands_on e v next ran there =
      rw (claims env quiet config now w e next, ran, marks env quiet e.id v there) refl

  -- Where no statement fails and no other session commits, every round of the relay ends in one of
  -- five ways. Without an event to take it reports so, and the dispatcher is not called. The event
  -- that is taken is the earliest of the relay's types that no other session holds and that is
  -- pending or has a claim that has timed out; it goes to the dispatcher once. If this succeeds, the
  -- event is processed; if it fails, the event is pending again, and the round fails with the
  -- dispatcher's error; if it panics, the round ends with the panic, and the tables as they are; and
  -- if the event's row is gone by then, the round fails.
  pub run_once-Ends : Ends env config dispatch now w (run_once env config dispatch now w)
  run_once-Ends = by_next _ refl
