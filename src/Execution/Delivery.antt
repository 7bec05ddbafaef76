-- ===== src/Execution/Delivery.antt =====
-- The deliveries of one event where nothing disturbs them: the first, and those behind it.
pub mod Again
mod Tests
use payout_orchestrator.Common.{
  ℕ, suc, ◌≡◌, refl, ap, ◌∙◌, Bool, true, false, Option, some, List, [], ◌∷◌, any, find, ◌==◌,
  find-update_where, find-eq-some,
}
use payout_orchestrator.Text.{Text}
use payout_orchestrator.Money.{numeric_string}
use payout_orchestrator.Status
use payout_orchestrator.Status.{Status}
use payout_orchestrator.Provider.{ExecutePayoutInput, ExecutePayoutResult, PayoutProvider}
use payout_orchestrator.Outcome.{Result, ok}
use payout_orchestrator.Db.Models.{Uuid, Client, OutboxEvent, Db, Payout, process_payout}
use payout_orchestrator.Db.Session.{Env, World}
use payout_orchestrator.Db.Session.Quiet.{IsQuiet, ticked, begun, settled}
use payout_orchestrator.Db.Payouts.{has_id, set_status}
use payout_orchestrator.Outbox.Event.{Event}
use payout_orchestrator.Execution.{
  ParsedPayload, parse_payload, provider_input, ask, execute_prepared, handle_payload, handle_typed,
  handle_event,
}
use payout_orchestrator.Execution.Recording.{
  IsFinal, Recordable, recorded, final_row, Records, record_result-Records,
}
use payout_orchestrator.Execution.Preparing.{
  IsOpen, is_pending, is_processing, opened_row, prepared, Payable, last, prepares,
}

module _ (env : Env) {s : Status} (o : IsOpen s) (row : Payout) (w : World) where
  -- The payout as the first transaction leaves it, and the world then.
  abbrev pub begun_row : Payout
  begun_row = opened_row o (env.tick (suc (suc (suc w.step)))).now row

  abbrev pub asking : World
  asking = settled (last o env row.id w)

-- The id of an event that is created in the second transaction, which begins at this statement.
abbrev pub IsFresh : Env → ℕ → World → Type 0
IsFresh env n w =
    any (λ (e : OutboxEvent). e.id == (env.tick (suc (suc (suc n)))).fresh)
      w.committed.outbox_events
    ≡ false

-- What a delivery finds: a payload that names an open payout of its client, with the text of its
-- amount, the client, and a fresh id for the client's webhook event.
pub record Deliverable (env : Env) (event : Event) (w : World) : Type 0 where
  pub kind : event.event_type ≡ process_payout
  pub payload : ParsedPayload
  pub parsed : parse_payload env event.payload ≡ ok payload
  pub payable : Payable payload w.committed
  pub unfinished : IsOpen payable.row.status
  pub amount : Text
  pub printed : numeric_string payable.row.amount ≡ ok amount
  pub client : Client
  pub known : find (λ (c : Client). c.id == payable.row.client_id) w.committed.clients ≡ some client
  pub new_event_id : IsFresh env (asking env unfinished payable.row w).step w

pub recordable :
    (env : Env) {s : Status} (o : IsOpen s) (row : Payout) (w : World) (client : Client)
    → find (has_id row.id) w.committed.payouts ≡ some row
    → find (λ (c : Client). c.id == row.client_id) w.committed.clients ≡ some client
    → IsFresh env (asking env o row w).step w
    → Recordable env
        (begun_row env o row w).id
        (suc (asking env o row w).step)
        (asking env o row w).committed
recordable env is_pending row w client only known fresh = record {
  old = begun_row env is_pending row w;
  there =
      find-update_where (has_id row.id) (has_id row.id)
        (set_status Status.processing (env.tick (suc (suc (suc w.step)))).now) w.committed.payouts
        (λ y. refl) only (find-eq-some (has_id row.id) w.committed.payouts only);
  client = client;
  known = known;
  new_event_id = fresh;
}
recordable env is_processing row w client only known fresh = record {
  old = row;
  there = only;
  client = client;
  known = known;
  new_event_id = fresh;
}

asking-asked :
    (env : Env) {s : Status} (o : IsOpen s) (row : Payout) (w : World)
    → (asking env o row w).asked ≡ w.asked
asking-asked env is_pending row w = refl
asking-asked env is_processing row w = refl

module _ (env : Env) (event : Event) (w : World) (can : Deliverable env event w) where
  -- The request to the provider, and the tables that a final answer to it leaves.
  abbrev pub request : ExecutePayoutInput
  request =
      provider_input env
        (prepared (begun_row env can.unfinished can.payable.row w) can.payable.source can.amount)

  abbrev pub can_record :
      Recordable env
        (begun_row env can.unfinished can.payable.row w).id
        (suc (asking env can.unfinished can.payable.row w).step)
        (asking env can.unfinished can.payable.row w).committed
  can_record =
      recordable env can.unfinished can.payable.row w can.client can.payable.only can.known
        can.new_event_id

  abbrev pub tables : (r : ExecutePayoutResult) → IsFinal r.status → Db
  tables r f =
      recorded env f (begun_row env can.unfinished can.payable.row w) r
        (suc (asking env can.unfinished can.payable.row w).step)
        (asking env can.unfinished can.payable.row w).committed can_record

  -- The event has been handled: the provider was asked once, and its answer is in the tables.
  pub record Executes (r : ExecutePayoutResult) (f : IsFinal r.status)
      (end : Result (Unit {0}) × World) : Type 0 where
    pub result : end.0 ≡ ok tt
    pub asked : end.1.asked ≡ request ∷ w.asked
    pub committed : end.1.committed ≡ tables r f

  -- A delivery of the event of a pending or processing payout runs to its end: where the provider
  -- gives a final answer, `HandleEvent` succeeds, has asked the provider exactly once, and the
  -- tables hold the answer, with the client's webhook event if it has a URL; no statement fails, and
  -- no other session commits.
  pub handle_event-Executes :
      (quiet : IsQuiet env) (provider : PayoutProvider) (r : ExecutePayoutResult)
      (f : IsFinal r.status)
      → provider.execute_payout (asking env can.unfinished can.payable.row w).step request ≡ ok r
      → Executes r f (handle_event env (some provider) event w)
  unfolding handle_event handle_typed handle_payload execute_prepared ask
  handle_event-Executes quiet provider r f answers =
      let done =
        record_result-Records env quiet
          (prepared (begun_row env can.unfinished can.payable.row w) can.payable.source can.amount)
          r f
          (record (asking env can.unfinished can.payable.row w) {
            asked = request ∷ (asking env can.unfinished can.payable.row w).asked;
          })
          can_record in
      rw
        (
          can.kind,
          can.parsed,
          prepares env quiet can.payload w can.payable can.unfinished can.printed,
          answers,
        )
        (record {
          result = done.result;
          asked =
              done.asked
              ∙ ap (λ (xs : List ExecutePayoutInput). request ∷ xs)
                  (asking-asked env can.unfinished can.payable.row w);
          committed = done.tables;
        })
