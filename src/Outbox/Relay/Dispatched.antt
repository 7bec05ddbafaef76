-- ===== src/Outbox/Relay/Dispatched.antt =====
-- What it means that a round of the relay reports that it has dispatched an event.
use payout_orchestrator.Common.{
  ◌≡◌, refl, sym, subst, ◌⊎◌, inl, inr, ◌-◌, Bool, true, false, Option, none, some, List, [], ◌∷◌,
  Bool-cases,
}
use payout_orchestrator.Outcome.{Result, ok, err, is_no_rows, is_panic}
use payout_orchestrator.Db.Models.{Time, EventType, OutboxEvent}
use payout_orchestrator.Db.Session.{Env, World, on_tx, within_tx}
use payout_orchestrator.Db.Session.Transactions.{IsTx, IsTx-on_tx}
use payout_orchestrator.Db.Session.Inversion.{
  Yields, Yields-pure, Yields-raise, Yields-bind, Yields-with_result,
}
use payout_orchestrator.Db.Session.Reports.{Took, within_tx-eq-ok, Yields-within_tx}
use payout_orchestrator.Db.OutboxEvents.{update_event, mark_outbox_event_as_processed}
use payout_orchestrator.Outbox.Event.{EventHandler}
use payout_orchestrator.Outbox.Relay.{
  Config, claim_event, claim_result, claim_next_pending_event, mark_processed, dispatch_event,
  after_dispatch, dispatch_claimed, run_once,
}
use payout_orchestrator.Outbox.Relay.Claiming.{as_processed, Due, claim_event-Yields, mark-Yields}

pub record Dispatched (env : Env) (config : Config) (dispatch : EventHandler) (limit : Time)
    (w u : World) : Type 0 where
  pub row : OutboxEvent
  pub claimed : World
  pub took : Took env (claim_event env config limit) w row claimed
  pub due : Due env config limit took.start row took.last
  pub sent : World
  pub handled : dispatch (dispatch_event env row) claimed ≡ (ok tt, sent)
  pub marked : OutboxEvent
  pub marks : Took env (on_tx env (mark_outbox_event_as_processed row.id)) sent marked u
  pub marks_row : marks.last.own ≡ (λ db.
      update_event row.id (as_processed (env.tick marks.start.step).now) (marks.start.own db))

same_row : {a b : OutboxEvent} → some a ≡ some b → a ≡ b
same_row h = cc

module _ (env : Env) (limit : Time) where
  claim_event-IsTx : (config : Config) → IsTx env (claim_event env config limit)
  unfolding claim_event
  claim_event-IsTx config = of_types config.event_types config.claim_timeout
    where
      of_types :
          (types : List EventType) (timeout : Time)
          → IsTx env
              (claim_event env (record { claim_timeout = timeout; event_types = types }) limit)
      of_types [] timeout = IsTx-on_tx env _
      of_types (t ∷ types) timeout = IsTx-on_tx env _

  module _ (config : Config) where
    Claimed : World → Option OutboxEvent → World → Type 0
    Claimed w o v =
        (o ≡ none)
        ⊎ ((row : OutboxEvent) × (o ≡ some row) × Took env (claim_event env config limit) w row v)

    claim-Yields : (w : World) → Yields (Claimed w) (claim_next_pending_event env config limit) w
    unfolding claim_next_pending_event claim_result Claimed
    claim-Yields w = Yields-with_result _ _ _ w go
      where
        go :
            (r : Result OutboxEvent) (v : World)
            → within_tx env (claim_event env config limit) w ≡ (r, v)
            → Yields (Claimed w) (claim_result r) v
        go (ok row) v ran =
            Yields-pure _ (some row) v
              (inr (row, refl, within_tx-eq-ok env _ (claim_event-IsTx config) w ran))
        go (err e) v ran = elim (Bool-cases (is_no_rows e)) [
          | inl nothing ↦ rw nothing (Yields-pure _ none v (inl refl))
          | inr failed ↦ rw failed (Yields-raise _ e v)
        ]

    module _ (dispatch : EventHandler) where
      Round : World → Bool → World → Type 0
      Round w b u = (b ≡ false) ⊎ Dispatched env config dispatch limit w u

      dispatch-Yields :
          (w v : World) (o : Option OutboxEvent)
          → Claimed w o v
          → Yields (Round w) (dispatch_claimed env dispatch o) v
      unfolding dispatch_claimed after_dispatch mark_processed Claimed Round
      dispatch-Yields w v none claimed = Yields-pure _ false v (inl refl)
      dispatch-Yields w v (some row) (inl no_way) = cc
      dispatch-Yields w v (some row) (inr (row', same, took)) = Yields-with_result _ _ _ v (
          after (
            subst (λ v'. Took env (claim_event env config limit) w v' v) (same_row (sym same))
              took))
        where
          after :
              Took env (claim_event env config limit) w row v
              → (r : Result (Unit {0})) (x : World) → dispatch (dispatch_event env row) v ≡ (r, x)
              → Yields (Round w) (after_dispatch env row.id r) x
          after t (err e) x sent = elim (Bool-cases (is_panic e)) [
            | inl left ↦ rw left (Yields-raise _ e x)
            | inr failed ↦ rw failed (
                Yields-bind {P = λ _ _. Unit} _ _ _ x (record { at = λ a u h. tt })
                  λ _ u _. Yields-raise _ e u)
          ]
          after t (ok _) x sent =
              Yields-bind _ _ _ x (Yields-within_tx env _ (IsTx-on_tx env _) x) λ marked u marks.
                Yields-pure _ true u (
                  inr (record {
                    row = row;
                    claimed = v;
                    took = t;
                    due =
                        (claim_event-Yields env limit config.event_types config.claim_timeout
                            t.start).at
                          row t.last t.ran;
                    sent = x;
                    handled = sent;
                    marked = marked;
                    marks = marks;
                    marks_row =
                        (mark-Yields env limit row.id marks.start).at marked marks.last marks.ran;
                  }))

-- Where a round of the relay reports that it has dispatched an event, it had claimed, in a committed
-- transaction, the earliest event that was to be had in the tables that the claim saw: of one of its
-- types, held by no other session, and pending or with a claim that had timed out. The dispatcher
-- then took exactly that event without an error; and after that the event was marked as processed,
-- in a second committed transaction.
pub run_once-Dispatched :
    (env : Env) (config : Config) (dispatch : EventHandler) (now : Time) (w : World) {u : World}
    → run_once env config dispatch now w ≡ (ok true, u)
    → Dispatched env config dispatch (now - config.claim_timeout) w u
unfolding run_once Round
run_once-Dispatched env config dispatch now w {u} h = of_round (
    (Yields-bind _ _ _ w (claim-Yields env limit config w)
        (λ o v claimed. dispatch-Yields env limit config dispatch w v o claimed)).at
      true u h)
  where
    limit : Time
    limit = now - config.claim_timeout

    of_round :
        (true ≡ false) ⊎ Dispatched env config dispatch limit w u
        → Dispatched env config dispatch limit w u
    of_round (inl no_way) = cc
    of_round (inr done) = done
