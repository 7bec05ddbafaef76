-- ===== src/Execution/Delivery/Again.antt =====
-- The second delivery of an event whose payout has been executed.
use payout_orchestrator.Common.{
  suc, ◌≡◌, refl, sym, ap, subst, ◌∙◌, Bool, true, false, some, find, find-update_where, ==_iff,
}
use payout_orchestrator.Status.{Status}
use payout_orchestrator.Provider.{ExecutePayoutResult, PayoutProvider}
use payout_orchestrator.Outcome.{Result, ok, err, payout_not_ready_for_execution}
use payout_orchestrator.Db.Models.{process_payout, Uuid, Time, Client, Db, Payout}
use payout_orchestrator.Db.Session.{Env, World, Tick}
use payout_orchestrator.Db.Session.Quiet.{IsQuiet}
use payout_orchestrator.Db.Payouts.{is_payout_of, has_id, change_payout, set_status}
use payout_orchestrator.Outbox.Event.{Event}
use payout_orchestrator.Execution.{
  ParsedPayload, parse_payload, no_target, execute_prepared, handle_payload, handle_typed,
  handle_event,
}
use payout_orchestrator.Execution.Recording.{IsFinal, is_succeeded, is_failed, final_row, tell}
use payout_orchestrator.Execution.Preparing.{
  IsOpen, is_pending, is_processing, Payable, skips, refuses,
}
use payout_orchestrator.Execution.Delivery.{
  Deliverable, begun_row, asking, can_record, tables, request, handle_event-Executes,
}

-- What the handling of an event answers whose payout has this final status.
abbrev pub answer_again : {s : Status} → IsFinal s → Result (Unit {0})
answer_again is_succeeded = ok tt
answer_again is_failed = err payout_not_ready_for_execution

-- Nothing has happened, but for the answer.
pub record Idle (w : World) (answer : Result (Unit {0})) (end : Result (Unit {0}) × World)
    : Type 0 where
  pub result : end.0 ≡ answer
  pub committed : end.1.committed ≡ w.committed
  pub asked : end.1.asked ≡ w.asked

-- A change of a payout that leaves its id, its client and its funding source as they are.
pub record Keeps (g : Payout → Payout) : Type 0 where
  pub id : (p : Payout) → (g p).id ≡ p.id
  pub client_id : (p : Payout) → (g p).client_id ≡ p.client_id
  pub source_id : (p : Payout) → (g p).funding_source_id ≡ p.funding_source_id

final-Keeps :
    {s : Status} (f : IsFinal s) (r : ExecutePayoutResult) (now : Time) → Keeps (final_row f r now)
final-Keeps is_succeeded r now = record {
  id = λ p. refl;
  client_id = λ p. refl;
  source_id = λ p. refl;
}
final-Keeps is_failed r now = record {
  id = λ p. refl;
  client_id = λ p. refl;
  source_id = λ p. refl;
}

opened-Keeps : (now : Time) → Keeps (set_status Status.processing now)
opened-Keeps now = record { id = λ p. refl; client_id = λ p. refl; source_id = λ p. refl }

-- The payload of an event names the same payout behind such a change.
change-Payable :
    (payload : ParsedPayload) (db : Db) (p : Payable payload db) (g : Payout → Payout)
    → Keeps g
    → (q : Payable payload (change_payout p.row.id g db)) × (q.row ≡ g p.row)
change-Payable payload db p g keeps = (
  record {
    row = g p.row;
    there =
        find-update_where (is_payout_of payload.client_id payload.payout_id) (has_id p.row.id) g
          db.payouts (λ y. rw (keeps.id y, keeps.client_id y) refl) p.there
          ((==_iff p.row.id p.row.id).1 refl);
    only =
        subst (λ (k : Uuid). find (has_id k) (change_payout p.row.id g db).payouts ≡ some (g p.row))
          (sym (keeps.id p.row))
          (find-update_where (has_id p.row.id) (has_id p.row.id) g db.payouts
            (λ y. rw (keeps.id y) refl) p.only ((==_iff p.row.id p.row.id).1 refl));
    source = p.source;
    owned = rw (keeps.source_id p.row) p.owned;
  },
  refl,
)

abbrev begun_change : Env → World → Payout → Payout
begun_change env w = set_status Status.processing (env.tick (suc (suc (suc w.step)))).now

asking-Payable :
    (env : Env) {s : Status} (o : IsOpen s) (payload : ParsedPayload) (w : World)
    (p : Payable payload w.committed)
    → (q : Payable payload (asking env o p.row w).committed) × (q.row ≡ begun_row env o p.row w)
asking-Payable env is_pending payload w p =
    change-Payable payload w.committed p (begun_change env w) (opened-Keeps _)
asking-Payable env is_processing payload w p = (p, refl)

tell-Payable :
    (b : Bool) (env : Env) (x : Payout) (c : Client) (t : Tick) (payload : ParsedPayload) (db : Db)
    (p : Payable payload db)
    → (q : Payable payload (tell b env x c t db)) × (q.row ≡ p.row)
tell-Payable true env x c t payload db p = (p, refl)
tell-Payable false env x c t payload db p = (
  record { row = p.row; there = p.there; only = p.only; source = p.source; owned = p.owned },
  refl,
)

final-status :
    {s : Status} (f : IsFinal s) (r : ExecutePayoutResult) (now : Time) (p : Payout)
    → (final_row f r now p).status ≡ s
final-status is_succeeded r now p = refl
final-status is_failed r now p = refl

module _ (env : Env) (event : Event) (w : World) (can : Deliverable env event w)
    (r : ExecutePayoutResult) (f : IsFinal r.status) where
  abbrev pub asked_world : World
  asked_world = asking env can.unfinished can.payable.row w

  abbrev pub change : Payout → Payout
  change = final_row f r (env.tick (suc asked_world.step)).now

  abbrev pub Changed : Payout → Type 0
  Changed p =
      (q : Payable can.payload (change_payout p.id change asked_world.committed)) × (q.row
        ≡ change p)

  -- The payload names the executed payout.
  pub tables-Payable :
      (q : Payable can.payload (tables env event w can r f)) × (q.row.status ≡ r.status)
  tables-Payable =
      let (first, first_is) = asking-Payable env can.unfinished can.payload w can.payable in
      let (second, second_is) =
        change-Payable can.payload asked_world.committed first change (final-Keeps f r _) in
      let moved : Changed (begun_row env can.unfinished can.payable.row w) =
        subst Changed first_is (second, second_is) in
      let (third, third_is) =
        tell-Payable (no_target (can_record env event w can).client) env _ _ _ can.payload _
          moved.0 in
      (
        third,
        ap (λ (p : Payout). p.status) (third_is ∙ moved.1)
            ∙ final-status f r (env.tick (suc asked_world.step)).now
                (begun_row env can.unfinished can.payable.row w),
      )

module _ (env : Env) (quiet : IsQuiet env) (provider : PayoutProvider) (event : Event) where
  -- What a delivery does whose payout has a final status.
  delivered_again :
      {s : Status} (f : IsFinal s) (payload : ParsedPayload) (w : World)
      (p : Payable payload w.committed)
      → event.event_type ≡ process_payout
      → parse_payload env event.payload ≡ ok payload
      → p.row.status ≡ s
      → Idle w (answer_again f) (handle_event env (some provider) event w)
  unfolding handle_event handle_typed handle_payload execute_prepared
  delivered_again is_succeeded payload w p kind parsed done =
      rw (kind, parsed, skips env quiet payload w p done)
        (record { result = refl; committed = refl; asked = refl })
  delivered_again is_failed payload w p kind parsed done =
      rw (kind, parsed, refuses env quiet payload w p done)
        (record { result = refl; committed = refl; asked = refl })

  -- Where the event of an open payout has been handled once, and the provider gave a final answer,
  -- another delivery of the event neither asks the provider nor changes a table; it is answered with
  -- success if the payout has succeeded, and with the error that the payout is not ready if it has
  -- failed. No statement fails, and no other session commits.
  pub handle_event-Idle :
      (w : World) (can : Deliverable env event w) (r : ExecutePayoutResult) (f : IsFinal r.status)
      → provider.execute_payout
          (asking env can.unfinished can.payable.row w).step
          (request env event w can)
        ≡ ok r
      → Idle
          (handle_event env (some provider) event w).1
          (answer_again f)
          (handle_event env (some provider) event (handle_event env (some provider) event w).1)
  handle_event-Idle w can r f answers =
      let executes = handle_event-Executes env event w can quiet provider r f answers in
      let (q, status) =
        subst (λ (d : Db). (q : Payable can.payload d) × (q.row.status ≡ r.status))
          (sym executes.committed) (tables-Payable env event w can r f) in
      delivered_again f can.payload _ q can.kind can.parsed status
