-- ===== src/System/Accepts.antt =====
-- What the worker makes of the events in the tables that the processes reach.
use payout_orchestrator.Common.{
  ◌≡◌, refl, subst, inl, inr, Bool, Bool-cases, some, List, [], ◌∷◌, find, some-injective,
}
use payout_orchestrator.Json.{Json}
use payout_orchestrator.Outcome.{ok}
use payout_orchestrator.Db.Models.{Uuid, OutboxEvent, Db, process_payout}
use payout_orchestrator.Db.Session.{Env, World}
use payout_orchestrator.Db.Session.Invariant.{IsRely}
use payout_orchestrator.Db.OutboxEvents.{has_event_id}
use payout_orchestrator.Db.Intact.{Every, HasPayout, IsIntact}
use payout_orchestrator.Outbox.Payload.{
  marshal_process_payout_payload, IsReordered, unmarshal-IsReordered,
}
use payout_orchestrator.Execution.{parse_payload}
use payout_orchestrator.Broker.{MessagePublisher}
use payout_orchestrator.Api.Http.{Web}
use payout_orchestrator.System.{IsBroker, Reaches, Reaches-IsIntact}

-- UUIDs are read back as they were written, and a payload's document with its two keys in some order:
-- a JSONB column does not keep that of a document.
pub record ReadsBack (env : Env) : Type 0 where
  pub ids : (id : Uuid) → env.parse_uuid (env.uuid_text id) ≡ some id
  pub kept : Uuid → Uuid → Json
  pub payloads :
      (a b : Uuid)
      → env.json_parse (
          env.jsonb_text
            (env.jsonb (marshal_process_payout_payload (env.uuid_text a) (env.uuid_text b))))
        ≡ some (kept a b)
  pub same_fields : (a b : Uuid) → IsReordered (env.uuid_text a) (env.uuid_text b) (kept a b)

-- The worker reads a payout of the tables, and its client, off the event.
pub record Accepts (env : Env) (db : Db) (e : OutboxEvent) : Type 0 where
  pub client_id : Uuid
  pub parsed :
      parse_payload env (env.jsonb_text e.payload)
      ≡ ok (record { payout_id = e.entity_id; client_id = client_id })
  pub there : HasPayout client_id e.entity_id db.payouts

Every-find :
    {A : Type 0} (R : A → Type 0) (p : A → Bool) (xs : List A) {x : A}
    → Every R xs
    → find p xs ≡ some x
    → R x
Every-find R p [] h found = cc
Every-find R p (y ∷ ys) (h, rest) found = elim (Bool-cases (p y)) [
  | inl e ↦ subst R (some-injective (rw e at found)) h
  | inr e ↦ Every-find R p ys rest (rw e at found)
]

module _ (env : Env) (web : Web) (publish : MessagePublisher) (rely : IsRely env (IsIntact env))
    (broker : IsBroker publish) (reads : ReadsBack env) where
  -- In all tables that the processes reach from intact ones, whatever they do and whatever fails, each
  -- event for the worker is one whose payload the worker accepts, and it names a payout that is in the
  -- tables and belongs to the client that it names. Other sessions are taken to leave the tables
  -- intact, the broker's client not to touch them, UUIDs to be read back as they were written, and
  -- payloads with their two keys in some order.
  pub Reaches-Accepts :
      {w u : World} (e : OutboxEvent) (id : Uuid)
      → Reaches env web publish w u
      → IsIntact env w.committed
      → find (has_event_id id) u.committed.outbox_events ≡ some e
      → e.event_type ≡ process_payout
      → Accepts env u.committed e
  unfolding parse_payload
  Reaches-Accepts {w} {u} e id reached intact found kind =
      let after = Reaches-IsIntact env web publish rely broker reached intact in
      let (client_id, there, payload) =
        Every-find _ (has_event_id id) u.committed.outbox_events after.events found kind in
      record {
        client_id = client_id;
        parsed =
            rw
              (
                payload,
                reads.payloads e.entity_id client_id,
                unmarshal-IsReordered (env.uuid_text e.entity_id) (env.uuid_text client_id)
                    (reads.same_fields e.entity_id client_id),
                reads.ids e.entity_id,
                reads.ids client_id,
              )
              refl;
        there = there;
      }
