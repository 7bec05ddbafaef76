-- ===== src/Execution/Preparing.antt =====
-- The first transaction of `HandleEvent` where nothing disturbs it.
use payout_orchestrator.Common.{suc, ◌≡◌, refl, ap, ◌∙◌, some, true, false, [], find}
use payout_orchestrator.Text.{Text}
use payout_orchestrator.Money.{numeric_string}
use payout_orchestrator.Status.{Status}
use payout_orchestrator.Outcome.{ok, err, payout_not_ready_for_execution}
use payout_orchestrator.Db.Models.{Uuid, Time, FundingSource, Db, Payout}
use payout_orchestrator.Db.Session.{Env, Tick, World, unchanged, within_tx}
use payout_orchestrator.Db.Session.Quiet.{
  IsQuiet, ticked, begun, settled, on_tx-quiet, within_tx-quiet_ok, within_tx-quiet_err,
}
use payout_orchestrator.Db.FundingSources.{is_source_of, get_funding_source_by_client_id}
use payout_orchestrator.Db.Payouts.{
  is_payout_of, has_id, change_payout, set_status, get_payout_by_client_id, update_payout_status,
}
use payout_orchestrator.Execution.{
  ParsedPayload, PreparedExecution, ready, prepare_by_status, prepare_execution_in_tx,
}

-- The statuses that go to the provider, and those that do not any more.
pub data IsOpen : Status → Type 0 where
  is_pending : IsOpen Status.pending
  is_processing : IsOpen Status.processing

-- What the first transaction makes of the payout's row: a pending one is processed from now on.
abbrev pub opened_row : {s : Status} → IsOpen s → Time → Payout → Payout
opened_row is_pending now p = set_status Status.processing now p
opened_row is_processing now p = p

abbrev pub prepared : Payout → FundingSource → Text → PreparedExecution
prepared row source amount = record {
  payout = row;
  funding_source = source;
  amount = amount;
  should_execute = true;
}

-- The payout that a payload names, with its funding source; its id is not another payout's.
pub record Payable (payload : ParsedPayload) (db : Db) : Type 0 where
  pub row : Payout
  pub there : find (is_payout_of payload.client_id payload.payout_id) db.payouts ≡ some row
  pub only : find (has_id row.id) db.payouts ≡ some row
  pub source : FundingSource
  pub owned :
      find (is_source_of payload.client_id row.funding_source_id) db.funding_sources ≡ some source

-- The world before the first transaction's COMMIT.
abbrev pub last : {s : Status} → IsOpen s → (env : Env) → Uuid → World → World
last is_pending env id w = record (ticked (ticked (ticked (begun w)))) {
  own = change_payout id (set_status Status.processing (env.tick (suc (suc (suc w.step)))).now);
}
last is_processing env id w = ticked (ticked (begun w))

payout_lem :
    (db : Db) (client_id id : Uuid) (t : Tick) {row : Payout}
    → find (is_payout_of client_id id) db.payouts ≡ some row
    → get_payout_by_client_id client_id id t db ≡ ok (row, unchanged)
unfolding get_payout_by_client_id
payout_lem db client_id id t h = rw (h, get_payout_by_client_id) refl

source_lem :
    (db : Db) (client_id id : Uuid) (t : Tick) {source : FundingSource}
    → find (is_source_of client_id id) db.funding_sources ≡ some source
    → get_funding_source_by_client_id client_id id t db ≡ ok (source, unchanged)
unfolding get_funding_source_by_client_id
source_lem db client_id id t h = rw (h, get_funding_source_by_client_id) refl

status_lem :
    (db : Db) (id : Uuid) (s : Status) (t : Tick) {row : Payout}
    → find (has_id id) db.payouts ≡ some row
    → update_payout_status id s t db
      ≡ ok (set_status s t.now row, change_payout id (set_status s t.now))
unfolding update_payout_status
status_lem db id s t h = rw (h, update_payout_status) refl

module _ (env : Env) (quiet : IsQuiet env) (payload : ParsedPayload) (w : World)
    (can : Payable payload w.committed) where
  abbrev third : World
  third = ticked (ticked (begun w))

  -- The two lookups.
  looks_up :
      prepare_execution_in_tx env payload (begun w)
      ≡ prepare_by_status env can.row.status can.row can.source third
  unfolding prepare_execution_in_tx
  looks_up =
      rw
        (
          on_tx-quiet env quiet (get_payout_by_client_id payload.client_id payload.payout_id)
              (begun w)
              (payout_lem w.committed payload.client_id payload.payout_id (env.tick (suc w.step))
                can.there),
          on_tx-quiet env quiet
              (get_funding_source_by_client_id payload.client_id can.row.funding_source_id)
              (ticked (begun w))
              (source_lem w.committed payload.client_id can.row.funding_source_id
                (env.tick (suc (suc w.step))) can.owned),
        )
        refl

  abbrev now : Time
  now = (env.tick (suc (suc (suc w.step)))).now

  by_status :
      {s : Status} (o : IsOpen s) {amount : Text}
      → numeric_string can.row.amount ≡ ok amount
      → prepare_by_status env s can.row can.source third
        ≡ (ok (prepared (opened_row o now can.row) can.source amount), last o env can.row.id w)
  unfolding prepare_by_status ready
  by_status is_pending {amount} printed =
      rw
        (
          on_tx-quiet env quiet (update_payout_status can.row.id Status.processing) third
              (status_lem w.committed can.row.id Status.processing (env.tick third.step) can.only),
          printed,
        )
        refl
  by_status is_processing printed = rw printed refl

  -- A payout that is open goes on to the provider.
  pub prepares :
      (o : IsOpen can.row.status) {amount : Text}
      → numeric_string can.row.amount ≡ ok amount
      → within_tx env (prepare_execution_in_tx env payload) w ≡ (
        ok (prepared (opened_row o now can.row) can.source amount),
        settled (last o env can.row.id w),
      )
  prepares o printed =
      within_tx-quiet_ok env quiet (prepare_execution_in_tx env payload) w (last o env can.row.id w)
        (looks_up ∙ by_status o printed)

  -- One that has succeeded does not, and one that has failed is an error.
  pub skips :
      can.row.status ≡ Status.succeeded
      → within_tx env (prepare_execution_in_tx env payload) w ≡ (
        ok (record {
          payout = can.row;
          funding_source = can.source;
          amount = [];
          should_execute = false;
        }),
        settled third,
      )
  unfolding prepare_by_status
  skips done =
      within_tx-quiet_ok env quiet (prepare_execution_in_tx env payload) w third
        (looks_up ∙ ap (λ (s : Status). prepare_by_status env s can.row can.source third) done)

  pub refuses :
      can.row.status ≡ Status.failed
      → within_tx env (prepare_execution_in_tx env payload) w
        ≡ (err payout_not_ready_for_execution, record (ticked third) { own = unchanged })
  unfolding prepare_by_status
  refuses done =
      within_tx-quiet_err env quiet (prepare_execution_in_tx env payload) w third
        (looks_up ∙ ap (λ (s : Status). prepare_by_status env s can.row can.source third) done)
