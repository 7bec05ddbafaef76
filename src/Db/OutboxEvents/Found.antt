-- ===== src/Db/OutboxEvents/Found.antt =====
-- What the statements on a single event answer, by whether there is one.
use payout_orchestrator.Common.{
  ◌≡◌, refl, inl, inr, true, false, Bool, Bool-cases, ◌++◌, true-ne-false, not, ◌&&◌, Option, none,
  some, List, [], ◌∷◌, any, find,
}
use payout_orchestrator.Outcome.{Result, ok, err, no_rows}
use payout_orchestrator.Db.Models.{Uuid, Time, EventType, pending, processed, OutboxEvent, Db}
use payout_orchestrator.Db.Session.{Tick, Statement}
use payout_orchestrator.Db.OutboxEvents.{
  type_eq, claimable, earlier, earliest, has_event_id, update_event, claim, claim_next,
  claim_next_pending_outbox_event, claim_next_pending_outbox_event_by_types, update_event_row,
  mark_outbox_event_as_processed, release_outbox_event_claim,
}

-- The claim of a relay for these types, or for all, and the events that it may take.
abbrev pub claim_statement : List EventType → Time → Statement OutboxEvent
claim_statement [] limit = claim_next_pending_outbox_event limit
claim_statement (t ∷ types) limit = claim_next_pending_outbox_event_by_types limit (t ∷ types)

abbrev pub is_wanted : List EventType → Time → OutboxEvent → Bool
is_wanted [] limit e = claimable limit e
is_wanted (t ∷ types) limit e = any (type_eq e.event_type) (t ∷ types) && claimable limit e

-- The event that a claim takes: the earliest one that is wanted and that nobody holds.
abbrev pub next_event : List EventType → Time → Tick → Db → Option OutboxEvent
next_event types limit t db =
    earliest (λ e. is_wanted types limit e && not (t.locked e.id)) db.outbox_events

-- What a claim answers where this is the next event.
abbrev pub claim_answer : Tick → Option OutboxEvent → Result (OutboxEvent × (Db → Db))
claim_answer t none = err no_rows
claim_answer t (some e) = ok (claim t e, update_event e.id (claim t))

-- An event that has been processed, and one whose claim has been released.
abbrev pub finished : Time → OutboxEvent → OutboxEvent
finished now e = record e { status = processed; processed_at = some now; claimed_at = none }

abbrev pub released : OutboxEvent → OutboxEvent
released e = record e { status = pending; claimed_at = none }

claim_next_lem :
    (p : OutboxEvent → Bool) (t : Tick) (db : Db) (o : Option OutboxEvent)
    → earliest (λ e. p e && not (t.locked e.id)) db.outbox_events ≡ o
    → claim_next p t db ≡ claim_answer t o
unfolding claim_next
claim_next_lem p t db none h = rw (h, claim_next) refl
claim_next_lem p t db (some e) h = rw (h, claim_next) refl

pub claim_statement_lem :
    (types : List EventType) (limit : Time) (t : Tick) (db : Db)
    → claim_statement types limit t db ≡ claim_answer t (next_event types limit t db)
unfolding claim_next_pending_outbox_event claim_next_pending_outbox_event_by_types
claim_statement_lem [] limit t db = claim_next_lem _ t db _ refl
claim_statement_lem (ty ∷ types) limit t db = claim_next_lem _ t db _ refl

-- What an update of the event with an id answers.
abbrev pub update_answer :
    Uuid → (OutboxEvent → OutboxEvent) → Option OutboxEvent → Result (OutboxEvent × (Db → Db))
update_answer id f none = err no_rows
update_answer id f (some e) = ok (f e, update_event id f)

update_event_row_lem :
    (id : Uuid) (f : OutboxEvent → OutboxEvent) (t : Tick) (db : Db) {o : Option OutboxEvent}
    → find (has_event_id id) db.outbox_events ≡ o
    → update_event_row id f t db ≡ update_answer id f o
unfolding update_event_row
update_event_row_lem id f t db {o = none} h = rw (h, update_event_row) refl
update_event_row_lem id f t db {o = some e} h = rw (h, update_event_row) refl

pub mark_outbox_event_as_processed_lem :
    (id : Uuid) (t : Tick) (db : Db) {o : Option OutboxEvent}
    → find (has_event_id id) db.outbox_events ≡ o
    → mark_outbox_event_as_processed id t db ≡ update_answer id (finished t.now) o
unfolding mark_outbox_event_as_processed
mark_outbox_event_as_processed_lem id t db h = update_event_row_lem id (finished t.now) t db h

pub release_outbox_event_claim_lem :
    (id : Uuid) (t : Tick) (db : Db) {o : Option OutboxEvent}
    → find (has_event_id id) db.outbox_events ≡ o
    → release_outbox_event_claim id t db ≡ update_answer id released o
unfolding release_outbox_event_claim
release_outbox_event_claim_lem id t db h = update_event_row_lem id released t db h

-- An event behind events that do not pass the test.
pub earliest-last :
    (p : OutboxEvent → Bool) (es : List OutboxEvent) (e : OutboxEvent)
    → any p es ≡ false
    → p e ≡ true
    → earliest p (es ++ e ∷ []) ≡ some e
unfolding earliest
earliest-last p [] e h fits = rw (fits, earlier) refl
earliest-last p (x ∷ xs) e h fits = elim (Bool-cases (p x)) [
  | inl y ↦ absurd (true-ne-false (rw y at h))
  | inr y ↦ rw y (earliest-last p xs e (rw y at h) fits)
]
