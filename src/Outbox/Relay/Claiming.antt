-- ===== src/Outbox/Relay/Claiming.antt =====
-- Which event the relay's claim finds, and what the claim and the mark write.
use payout_orchestrator.Common.{
  ◌≡◌, refl, sym, ◌∙◌, ◌&&◌, not, ltb, true, false, true-ne-false, Option, none, some, List, [],
  ◌∷◌, any,
}
use payout_orchestrator.Outcome.{ok}
use payout_orchestrator.Db.Models.{
  Uuid, Time, EventType, OutboxStatus, pending, processing, processed, OutboxEvent, Db,
}
use payout_orchestrator.Db.Session.{Env, World, advance, on_tx}
use payout_orchestrator.Db.Session.Inversion.{err-ne-ok, Yields, Yields-on_tx}
use payout_orchestrator.Db.OutboxEvents.{
  type_eq, claimable, claimed_before, claim, update_event, mark_outbox_event_as_processed,
}
use payout_orchestrator.Db.OutboxEvents.Claims.{earliest-passes, and-eq-true, not-eq-true}
use payout_orchestrator.Db.OutboxEvents.Found.{
  is_wanted, next_event, claim_answer, claim_statement_lem, update_answer, finished,
  mark_outbox_event_as_processed_lem,
}
use payout_orchestrator.Outbox.Relay.{Config, claim_event}

-- The relay takes events of its types only, if it has any.
abbrev pub Wanted : List EventType → OutboxEvent → Type 0
Wanted [] e = Unit
Wanted (t ∷ types) e = any (type_eq e.event_type) (t ∷ types) ≡ true

-- An event that may be claimed: it is pending, or was claimed before the limit and is not processed.
pub data IsDue (limit : Time) (e : OutboxEvent) : Type 0 where
  is_pending : e.status ≡ pending → IsDue limit e
  has_timed_out :
      (at : Time)
      → e.status ≡ processing
      → e.claimed_at ≡ some at
      → ltb at limit ≡ true
      → IsDue limit e

abbrev pub as_claimed : Time → OutboxEvent → OutboxEvent
as_claimed now e = record e { status = processing; claimed_at = some now }

abbrev pub as_processed : Time → OutboxEvent → OutboxEvent
as_processed now e = record e { status = processed; processed_at = some now; claimed_at = none }

-- The event that the claim found in the tables that its statement saw, and that it marks as claimed.
pub record Due (env : Env) (config : Config) (limit : Time) (w : World) (row : OutboxEvent)
    (u : World) : Type 0 where
  pub old : OutboxEvent
  pub found :
      next_event config.event_types limit (env.tick w.step) (w.own (advance env w).committed)
      ≡ some old
  pub wanted : Wanted config.event_types old
  pub due : IsDue limit old
  pub free : (env.tick w.step).locked old.id ≡ false
  pub claimed : row ≡ as_claimed (env.tick w.step).now old
  pub writes : u.own ≡ (λ db. update_event old.id (as_claimed (env.tick w.step).now) (w.own db))

module _ (env : Env) (limit : Time) where
  is_wanted-parts :
      (types : List EventType) (e : OutboxEvent)
      → is_wanted types limit e ≡ true
      → Wanted types e × (claimable limit e ≡ true)
  is_wanted-parts [] e h = (tt, h)
  is_wanted-parts (t ∷ types) e h = and-eq-true (any (type_eq e.event_type) (t ∷ types)) _ h

  timed_out :
      (e : OutboxEvent) (o : Option Time)
      → e.status ≡ processing
      → e.claimed_at ≡ o
      → claimed_before o limit ≡ true
      → IsDue limit e
  timed_out e none status claimed h = cc
  timed_out e (some at) status claimed h = has_timed_out at status claimed h

  claimable-IsDue : (e : OutboxEvent) → claimable limit e ≡ true → IsDue limit e
  unfolding claimable
  claimable-IsDue e h = by_status e.status refl
    where
      by_status : (s : OutboxStatus) → e.status ≡ s → IsDue limit e
      by_status pending is = is_pending is
      by_status processing is = timed_out e e.claimed_at is refl (rw is at h)
      by_status processed is = absurd (true-ne-false (sym (rw is at h)))

  -- What a claim that succeeds has found and written.
  claim-Due :
      (types : List EventType) (timeout : Time) (w : World) (o : Option OutboxEvent)
      {row : OutboxEvent} {f : Db → Db} {u : World}
      → next_event types limit (env.tick w.step) (w.own (advance env w).committed) ≡ o
      → claim_answer (env.tick w.step) o ≡ ok (row, f)
      → u.own ≡ (λ db. f (w.own db))
      → Due env (record { claim_timeout = timeout; event_types = types }) limit w row u
  claim-Due types timeout w none found h own = absurd (err-ne-ok h)
  claim-Due types timeout w (some old) {row} {f} {u} found h own =
      let (passes, free) = and-eq-true (is_wanted types limit old) _ (
        earliest-passes (λ e. is_wanted types limit e && not ((env.tick w.step).locked e.id))
          (w.own (advance env w).committed).outbox_events found) in
      let (wanted, due) = is_wanted-parts types old passes in
      let change : f ≡ update_event old.id (claim (env.tick w.step)) = cc in
      record {
        old = old;
        found = found;
        wanted = wanted;
        due = claimable-IsDue old due;
        free = not-eq-true _ free;
        claimed = cc;
        writes = own ∙ rw change refl;
      }

  pub claim_event-Yields :
      (types : List EventType) (timeout : Time) (w : World)
      → Yields
          (Due env (record { claim_timeout = timeout; event_types = types }) limit w)
          (claim_event env (record { claim_timeout = timeout; event_types = types }) limit)
          w
  unfolding claim_event
  claim_event-Yields [] timeout w = record {
    at = λ row u h.
        let (f, answered, own) = (Yields-on_tx env _ w).at row u h in
        claim-Due [] timeout w _ refl (sym (claim_statement_lem [] limit _ _) ∙ answered) own;
  }
  claim_event-Yields (t ∷ types) timeout w = record {
    at = λ row u h.
        let (f, answered, own) = (Yields-on_tx env _ w).at row u h in
        claim-Due (t ∷ types) timeout w _ refl
          (sym (claim_statement_lem (t ∷ types) limit _ _) ∙ answered) own;
  }

  -- The mark that a transaction has made.
  marked-row :
      (id : Uuid) (o : Option OutboxEvent) (now : Time) {row : OutboxEvent} {f : Db → Db}
      → update_answer id (finished now) o ≡ ok (row, f)
      → f ≡ update_event id (as_processed now)
  marked-row id none now h = absurd (err-ne-ok h)
  marked-row id (some e) now h = cc

  pub mark-Yields :
      (id : Uuid) (w : World)
      → Yields
          (λ _ u. u.own ≡ (λ db. update_event id (as_processed (env.tick w.step).now) (w.own db)))
          (on_tx env (mark_outbox_event_as_processed id))
          w
  mark-Yields id w = record {
    at = λ row u h.
        let (f, answered, own) = (Yields-on_tx env _ w).at row u h in
        own
        ∙ rw
            (marked-row id _ (env.tick w.step).now (
              sym (
                mark_outbox_event_as_processed_lem id (env.tick w.step)
                  (w.own (advance env w).committed) refl)
              ∙ answered))
            refl;
  }
