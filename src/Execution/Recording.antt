-- ===== src/Execution/Recording.antt =====
-- The second transaction of `HandleEvent` where nothing disturbs it.
use payout_orchestrator.Common.{
  ℕ, suc, ◌≡◌, refl, ap, inl, inr, Bool, true, false, some, List, any, find, ◌==◌, Bool-cases,
  find-update_where, any-of_find, update_where, find-eq-some, ==_iff, ◌∙◌,
}
use payout_orchestrator.Text.{Text}
use payout_orchestrator.Status.{Status}
use payout_orchestrator.Provider.{ExecutePayoutResult}
use payout_orchestrator.Outcome.{Result, ok}
use payout_orchestrator.Db.Models.{Uuid, Time, Client, OutboxEvent, Db, Payout}
use payout_orchestrator.Db.Session.{Env, Tick, World, Statement, unchanged, on_tx, ◌>>=◌}
use payout_orchestrator.Db.Session.Quiet.{
  IsQuiet, ticked, begun, settled, on_tx-quiet, within_tx-quiet_ok,
}
use payout_orchestrator.Db.Clients.{get_client_by_id}
use payout_orchestrator.Db.OutboxEvents.{new_event, add_event, create_outbox_event}
use payout_orchestrator.Db.Payouts.{
  has_id, change_payout, set_status, set_failure, update_payout_status, update_payout_failure,
}
use payout_orchestrator.Execution.{
  PreparedExecution, target_url, no_target, webhook_event, reason_param,
  create_webhook_if_configured, record_in_tx, record_execution_result,
}

-- The two answers of a provider that are final.
pub data IsFinal : Status → Type 0 where
  is_succeeded : IsFinal Status.succeeded
  is_failed : IsFinal Status.failed

-- What a final answer makes of the payout's row.
abbrev pub final_row : {s : Status} → IsFinal s → ExecutePayoutResult → Time → Payout → Payout
final_row is_succeeded r now = set_status Status.succeeded now
final_row is_failed r now = set_failure (reason_param r.failure_reason) now

abbrev update_final : {s : Status} → IsFinal s → Uuid → ExecutePayoutResult → Statement Payout
update_final is_succeeded id r = update_payout_status id Status.succeeded
update_final is_failed id r = update_payout_failure id (reason_param r.failure_reason)

-- The client's webhook event, if there is one to be sent.
abbrev pub tell : Bool → Env → Payout → Client → Tick → Db → Db
tell true env p c t = unchanged
tell false env p c t = add_event (new_event env (webhook_event env p (target_url c)) t)

-- The world after the event.
abbrev told : Bool → Env → Payout → Client → World → World
told true env p c w = ticked w
told false env p c w = record (ticked (ticked w)) {
  own = λ db. tell false env p c (env.tick (suc w.step)) (w.own db);
}

client_lem :
    (db : Db) (id : Uuid) (t : Tick) {c : Client}
    → find (λ (c : Client). c.id == id) db.clients ≡ some c
    → get_client_by_id id t db ≡ ok (c, unchanged)
unfolding get_client_by_id
client_lem db id t h = rw (h, get_client_by_id) refl

event_lem :
    (env : Env) (p : Payout) (url : Text) (t : Tick) (db : Db)
    → any (has_id p.id) db.payouts ≡ true
    → any (λ (e : OutboxEvent). e.id == t.fresh) db.outbox_events ≡ false
    → create_outbox_event env (webhook_event env p url) t db
      ≡ ok (
        new_event env (webhook_event env p url) t,
        add_event (new_event env (webhook_event env p url) t),
      )
unfolding create_outbox_event
event_lem env p url t db there fresh = rw (create_outbox_event, fresh, there) refl

update_lem :
    {s : Status} (f : IsFinal s) (id : Uuid) (r : ExecutePayoutResult) (t : Tick) (db : Db)
    {old : Payout}
    → find (has_id id) db.payouts ≡ some old
    → update_final f id r t db
      ≡ ok (final_row f r t.now old, change_payout id (final_row f r t.now))
unfolding update_payout_status update_payout_failure
update_lem is_succeeded id r t db h = rw (h, update_payout_status) refl
update_lem is_failed id r t db h = rw (h, update_payout_failure) refl

-- The tables that the second transaction finds: the payout, its client, and a fresh id for the
-- event, by the number of the statement that updates the payout.
pub record Recordable (env : Env) (id : Uuid) (n : ℕ) (db : Db) : Type 0 where
  pub old : Payout
  pub there : find (has_id id) db.payouts ≡ some old
  pub client : Client
  pub known : find (λ (c : Client). c.id == old.client_id) db.clients ≡ some client
  pub new_event_id :
      any (λ (e : OutboxEvent). e.id == (env.tick (suc (suc n))).fresh) db.outbox_events ≡ false

final-client_id :
    {s : Status} (f : IsFinal s) (r : ExecutePayoutResult) (now : Time) (p : Payout)
    → (final_row f r now p).client_id ≡ p.client_id
final-client_id is_succeeded r now p = refl
final-client_id is_failed r now p = refl

pub final-id :
    {s : Status} (f : IsFinal s) (r : ExecutePayoutResult) (now : Time) (p : Payout)
    → (final_row f r now p).id ≡ p.id
final-id is_succeeded r now p = refl
final-id is_failed r now p = refl

-- A row that is found by its id stays to be found when it is changed.
pub found-final :
    {s : Status} (f : IsFinal s) (r : ExecutePayoutResult) (now : Time) (id : Uuid)
    (ps : List Payout) {old : Payout}
    → find (has_id id) ps ≡ some old
    → find (has_id id) (update_where (has_id id) (final_row f r now) ps)
      ≡ some (final_row f r now old)
found-final f r now id ps h =
    find-update_where (has_id id) (has_id id) (final_row f r now) ps
      (λ y. ap (λ (k : Uuid). k == id) (final-id f r now y)) h (find-eq-some (has_id id) ps h)

by_status :
    (env : Env) {s : Status} (f : IsFinal s) (payout : Payout) (r : ExecutePayoutResult) (w : World)
    → record_in_tx env payout r s w
      ≡ (on_tx env (update_final f payout.id r) >>= create_webhook_if_configured env) w
unfolding record_in_tx
by_status env is_succeeded payout r w = refl
by_status env is_failed payout r w = refl

module _ (env : Env) (quiet : IsQuiet env) where
  told-quiet :
      (p : Payout) (c : Client) (w : World)
      → find (λ (c : Client). c.id == p.client_id) (w.own w.committed).clients ≡ some c
      → any (has_id p.id) (w.own w.committed).payouts ≡ true
      → any
          (λ (e : OutboxEvent). e.id == (env.tick (suc w.step)).fresh)
          (w.own w.committed).outbox_events
        ≡ false
      → create_webhook_if_configured env p w ≡ (ok tt, told (no_target c) env p c w)
  unfolding create_webhook_if_configured
  told-quiet p c w known there fresh =
      let asked =
        on_tx-quiet env quiet (get_client_by_id p.client_id) w
          (client_lem (w.own w.committed) p.client_id (env.tick w.step) known) in
      elim (Bool-cases (no_target c)) [
        | inl e ↦ rw (asked, e) refl
        | inr e ↦
            rw
              (
                asked,
                e,
                on_tx-quiet env quiet (create_outbox_event env (webhook_event env p (target_url c)))
                    (ticked w)
                    (event_lem env p (target_url c) (env.tick (suc w.step)) (w.own w.committed)
                      there fresh),
              )
              refl
      ]

  module _ {s : Status} (f : IsFinal s) (payout : Payout) (r : ExecutePayoutResult) (w : World)
      (can : Recordable env payout.id w.step (w.own w.committed)) where
    abbrev now : Time
    now = (env.tick w.step).now

    abbrev pub final : Payout
    final = final_row f r now can.old

    abbrev changed : World
    changed = record (ticked w) {
      own = λ db. change_payout payout.id (final_row f r now) (w.own db);
    }

    records :
        record_in_tx env payout r s w
        ≡ (ok tt, told (no_target can.client) env final can.client changed)
    records =
        rw
          (
            by_status env f payout r w,
            on_tx-quiet env quiet (update_final f payout.id r) w
                (update_lem f payout.id r (env.tick w.step) (w.own w.committed) can.there),
          )
          (told-quiet final can.client changed (rw (final-client_id f r now can.old) can.known)
            (rw same_id (
              any-of_find (has_id payout.id) (has_id payout.id) _ (λ y e. e)
                (found-final f r now payout.id (w.own w.committed).payouts can.there)))
            can.new_event_id)
      where
        same_id : final.id ≡ payout.id
        same_id =
            final-id f r now can.old
            ∙ (==_iff can.old.id payout.id).0
                (find-eq-some (has_id payout.id) (w.own w.committed).payouts can.there)

-- What the second transaction leaves in the tables.
abbrev pub recorded :
    (env : Env) {s : Status}
    → IsFinal s
    → (payout : Payout) → ExecutePayoutResult
    → (n : ℕ) → (db : Db) → Recordable env payout.id n db
    → Db
recorded env f payout r n db can =
    tell (no_target can.client) env (final_row f r (env.tick n).now can.old) can.client
      (env.tick (suc (suc n))) (change_payout payout.id (final_row f r (env.tick n).now) db)

told-committed :
    (b : Bool) (env : Env) (p : Payout) (c : Client) (w : World)
    → (settled (told b env p c w)).committed
      ≡ tell b env p c (env.tick (suc w.step)) (w.own w.committed)
told-committed true env p c w = refl
told-committed false env p c w = refl

told-asked :
    (b : Bool) (env : Env) (p : Payout) (c : Client) (w : World)
    → (told b env p c w).asked ≡ w.asked
told-asked true env p c w = refl
told-asked false env p c w = refl

pub record Records (env : Env) (w : World) (db : Db) (end : Result (Unit {0}) × World)
    : Type 0 where
  pub result : end.0 ≡ ok tt
  pub tables : end.1.committed ≡ db
  pub asked : end.1.asked ≡ w.asked

-- The second transaction as a whole.
pub record_result-Records :
    (env : Env) (quiet : IsQuiet env) (prepared : PreparedExecution) (r : ExecutePayoutResult)
    (f : IsFinal r.status) (w : World)
    (can : Recordable env prepared.payout.id (suc w.step) w.committed)
    → Records env w
        (recorded env f prepared.payout r (suc w.step) w.committed can)
        (record_execution_result env prepared r w)
unfolding record_execution_result
record_result-Records env quiet prepared r f w can =
    let ran =
      within_tx-quiet_ok env quiet (record_in_tx env prepared.payout r r.status) w
        (told (no_target can.client) env (final env quiet f prepared.payout r (begun w) can)
          can.client (changed env quiet f prepared.payout r (begun w) can))
        (records env quiet f prepared.payout r (begun w) can) in
    rw ran (record {
      result = refl;
      tables = told-committed (no_target can.client) env _ can.client _;
      asked = told-asked (no_target can.client) env _ can.client _;
    })
