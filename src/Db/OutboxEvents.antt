-- ===== src/Db/OutboxEvents.antt =====
-- internal/db/outbox_events.sql.go, with the constraints of migrations/000004, 000007 and 000008.
pub mod Claims
pub mod Found
use payout_orchestrator.Common.{
  Bool, true, false, not, Option, none, some, List, [], ◌∷◌, ◌++◌, ◌&&◌, any, find, update_where,
  ◌==◌, ltb, if◌then◌else◌,
}
use payout_orchestrator.Text.{codes, text_eq, is_empty}
use payout_orchestrator.Json.{Json}
use payout_orchestrator.Outcome.{ok, err, no_rows, pg, unique_violation}
use payout_orchestrator.Db.Models.{
  Uuid, Time, EventType, process_payout, payout_result_webhook, other_type, pending, processing,
  processed, OutboxEvent, Payout, Db,
}
use payout_orchestrator.Db.Session.{Env, Tick, Statement}

pub record CreateOutboxEventParams : Type 0 where
  pub event_type : EventType
  pub entity_id : Uuid
  pub payload : Json

-- `CHECK (event_type <> '')`
abbrev pub is_empty_type : EventType → Bool
is_empty_type (other_type s) = is_empty s
is_empty_type _ = false

abbrev pub new_event : Env → CreateOutboxEventParams → Tick → OutboxEvent
new_event env arg t = record {
  id = t.fresh;
  event_type = arg.event_type;
  payload = env.jsonb arg.payload;
  status = pending;
  created_at = t.now;
  processed_at = none;
  entity_id = arg.entity_id;
  claimed_at = none;
}

abbrev pub add_event : OutboxEvent → Db → Db
add_event row d = record d { outbox_events = d.outbox_events ++ row ∷ [] }

-- CreateOutboxEvent
unfoldable pub create_outbox_event : Env → CreateOutboxEventParams → Statement OutboxEvent
create_outbox_event env arg t db =
    if is_empty_type arg.event_type
    then err (pg (codes "23514") (codes "outbox_events_event_type_check"))
    else if any (λ (e : OutboxEvent). e.id == t.fresh) db.outbox_events
    then err (pg unique_violation (codes "outbox_events_pkey"))
    else if any (λ (p : Payout). p.id == arg.entity_id) db.payouts
    then ok (new_event env arg t, add_event (new_event env arg t))
    else err (pg (codes "23503") (codes "outbox_events_entity_id_fkey"))

abbrev pub type_eq : EventType → EventType → Bool
type_eq process_payout process_payout = true
type_eq payout_result_webhook payout_result_webhook = true
type_eq (other_type s) (other_type t) = text_eq s t
type_eq _ _ = false

-- `claimed_at < $1`, which is not true of NULL
abbrev pub claimed_before : Option Time → Time → Bool
claimed_before none limit = false
claimed_before (some at) limit = ltb at limit

-- The condition of the claim: pending, or a claim that has timed out.
unfoldable pub claimable : Time → OutboxEvent → Bool
claimable reclaim_before e = elim e.status [
  | pending ↦ true
  | processing ↦ claimed_before e.claimed_at reclaim_before
  | processed ↦ false
]

-- ORDER BY created_at ASC LIMIT 1, over the rows that pass the test.
earlier : OutboxEvent → Option OutboxEvent → OutboxEvent
earlier e none = e
earlier e (some f) = if ltb f.created_at e.created_at then f else e

pub earliest : (OutboxEvent → Bool) → List OutboxEvent → Option OutboxEvent
unfolding earlier
earliest p [] = none
earliest p (e ∷ es) = let rest = earliest p es in if p e then some (earlier e rest) else rest

abbrev pub has_event_id : Uuid → OutboxEvent → Bool
has_event_id id e = e.id == id

abbrev pub update_event : Uuid → (OutboxEvent → OutboxEvent) → Db → Db
update_event id f d = record d { outbox_events = update_where (has_event_id id) f d.outbox_events }

abbrev pub claim : Tick → OutboxEvent → OutboxEvent
claim t e = record e { status = processing; claimed_at = some t.now }

-- FOR UPDATE SKIP LOCKED passes over the rows that another session holds.
claim_next : (OutboxEvent → Bool) → Statement OutboxEvent
unfolding earliest
claim_next p t db = elim (earliest (λ e. p e && not (t.locked e.id)) db.outbox_events) [
  | none ↦ err no_rows
  | some e ↦ ok (claim t e, update_event e.id (claim t))
]

-- ClaimNextPendingOutboxEvent
unfoldable pub claim_next_pending_outbox_event : Time → Statement OutboxEvent
unfolding claim_next claimable
claim_next_pending_outbox_event reclaim_before = claim_next (claimable reclaim_before)

-- ClaimNextPendingOutboxEventByTypes
unfoldable pub claim_next_pending_outbox_event_by_types :
    Time → List EventType → Statement OutboxEvent
unfolding claim_next claimable
claim_next_pending_outbox_event_by_types reclaim_before types =
    claim_next (λ e. any (type_eq e.event_type) types && claimable reclaim_before e)

update_event_row : Uuid → (OutboxEvent → OutboxEvent) → Statement OutboxEvent
update_event_row id f t db = elim (find (has_event_id id) db.outbox_events) [
  | none ↦ err no_rows
  | some e ↦ ok (f e, update_event id f)
]

-- MarkOutboxEventAsProcessed
unfoldable pub mark_outbox_event_as_processed : Uuid → Statement OutboxEvent
unfolding update_event_row
mark_outbox_event_as_processed id t =
    update_event_row id
      (λ (e : OutboxEvent). record e {
        status = processed;
        processed_at = some t.now;
        claimed_at = none;
      })
      t

-- ReleaseOutboxEventClaim
unfoldable pub release_outbox_event_claim : Uuid → Statement OutboxEvent
unfolding update_event_row
release_outbox_event_claim id t =
    update_event_row id (λ (e : OutboxEvent). record e { status = pending; claimed_at = none }) t
