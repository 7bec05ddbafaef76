-- ===== src/Payouts/Create/Replay.antt =====
-- A request whose key is in the tables already, where no statement fails and no other session writes.
mod Tests
use payout_orchestrator.Common.{
  ℕ, suc, ◌≡◌, refl, sym, ap, subst, ◌∙◌, Bool, true, false, Option, none, some, find,
}
use payout_orchestrator.Text.{Text, text_eq, text_eq_refl}
use payout_orchestrator.Outcome.{Error, Result, ok, err, idempotency_conflict}
use payout_orchestrator.Db.Models.{Db, IdempotencyKey, Payout as PayoutRow}
use payout_orchestrator.Db.Session.{
  Env, Tick, World, Action, Statement, unchanged, advance, write_own, continue, with_result, lift,
  ◌>>=◌, on_tx, session, begin, rollback, commit,
}
use payout_orchestrator.Db.Session
use payout_orchestrator.Db.Session.Quiet.{
  IsQuiet, ticked, begun, on_tx-quiet, within_tx-quiet_ok, within_tx-quiet_err,
}
use payout_orchestrator.Db.IdempotencyKeys.{is_key_of, get_idempotency_key}
use payout_orchestrator.Db.Payouts.{is_payout_of, get_payout_by_client_id}
use payout_orchestrator.Payouts.Store.{tx_store, pool_store, within_tx, db_tx_runner}
use payout_orchestrator.Payouts.Validation.{Request, CreatePayoutInput, validate}
use payout_orchestrator.Payouts.View.{Payout, payout_from_db}
use payout_orchestrator.Payouts.Create.{
  found_key, load_idempotent_payout, create_in_tx, after_tx, create_configured, create_payout,
}
use payout_orchestrator.Payouts.Create.AllOrNothing.{api_service}

-- A request that passes the checks, whose key the client has used before.
pub record Repeated (env : Env) (input : CreatePayoutInput) (w : World) : Type 0 where
  pub req : Request
  pub valid : validate env input ≡ ok req
  pub key : IdempotencyKey
  pub taken :
      find (is_key_of req.client_id req.idempotency_key) w.committed.idempotency_keys ≡ some key

module _ (env : Env) (quiet : IsQuiet env) where
  found_key_lem :
      (db : Db) (client_id : ℕ) (key : Text) (t : Tick) {k : IdempotencyKey}
      → find (is_key_of client_id key) db.idempotency_keys ≡ some k
      → get_idempotency_key client_id key t db ≡ ok (k, unchanged)
  unfolding get_idempotency_key
  found_key_lem db client_id key t h = rw (h, get_idempotency_key) refl

  found_payout_lem :
      (db : Db) (client_id id : ℕ) (t : Tick) {row : PayoutRow}
      → find (is_payout_of client_id id) db.payouts ≡ some row
      → get_payout_by_client_id client_id id t db ≡ ok (row, unchanged)
  unfolding get_payout_by_client_id
  found_payout_lem db client_id id t h = rw (h, get_payout_by_client_id) refl

  module _ (req : Request) (k : IdempotencyKey) where
    -- The key of the request is in the tables that the transaction sees.
    abbrev Taken : World → Type 0
    Taken w =
        find (is_key_of req.client_id req.idempotency_key) (w.own w.committed).idempotency_keys
        ≡ some k

    conflicts :
        (w : World)
        → Taken w
        → text_eq k.request_hash req.request_hash ≡ false
        → create_in_tx env req (tx_store env) w ≡ (err idempotency_conflict, ticked w)
    unfolding create_in_tx load_idempotent_payout found_key
    conflicts w taken differs =
        rw
          (
            on_tx-quiet env quiet (get_idempotency_key req.client_id req.idempotency_key) w (
                found_key_lem (w.own w.committed) req.client_id req.idempotency_key
                  (env.tick w.step) taken),
            differs,
          )
          refl

    replays :
        (w : World) (row : PayoutRow)
        → Taken w
        → text_eq k.request_hash req.request_hash ≡ true
        → find (is_payout_of req.client_id k.payout_id) (w.own w.committed).payouts ≡ some row
        → create_in_tx env req (tx_store env) w ≡ (ok row, ticked (ticked w))
    unfolding create_in_tx load_idempotent_payout found_key
    replays w row taken same there =
        rw
          (
            on_tx-quiet env quiet (get_idempotency_key req.client_id req.idempotency_key) w (
                found_key_lem (w.own w.committed) req.client_id req.idempotency_key
                  (env.tick w.step) taken),
            same,
            on_tx-quiet env quiet (get_payout_by_client_id req.client_id k.payout_id) (ticked w) (
                found_payout_lem (w.own w.committed) req.client_id k.payout_id
                  (env.tick (suc w.step)) there),
          )
          refl

  -- With a key that belongs to another request, `CreatePayout` answers that there is a conflict, and
  -- leaves the tables as they are; no statement fails, and no other session commits.
  pub create_payout-conflicts :
      (input : CreatePayoutInput) (w : World) (again : Repeated env input w)
      → text_eq again.key.request_hash again.req.request_hash ≡ false
      → ((create_payout env (api_service env) input w).0 ≡ err idempotency_conflict)
        × ((create_payout env (api_service env) input w).1.committed ≡ w.committed)
  unfolding create_payout create_configured within_tx after_tx
  create_payout-conflicts input w again differs =
      let ran =
        within_tx-quiet_err env quiet (create_in_tx env again.req (tx_store env)) w
          (ticked (begun w)) (conflicts again.req again.key (begun w) again.taken differs) in
      rw (again.valid, ran) (refl, refl)

  -- With the key and the hash of a request that was taken in before, `CreatePayout` answers with
  -- the payout of that request, and leaves the tables as they are; no statement fails, and no other
  -- session commits.
  pub create_payout-replays :
      (input : CreatePayoutInput) (w : World) (again : Repeated env input w) {row : PayoutRow}
      → text_eq again.key.request_hash again.req.request_hash ≡ true
      → find (is_payout_of again.req.client_id again.key.payout_id) w.committed.payouts ≡ some row
      → ((create_payout env (api_service env) input w).0 ≡ payout_from_db env row)
        × ((create_payout env (api_service env) input w).1.committed ≡ w.committed)
  unfolding create_payout create_configured within_tx after_tx
  create_payout-replays input w again {row} same there =
      let ran =
        within_tx-quiet_ok env quiet (create_in_tx env again.req (tx_store env)) w
          (ticked (ticked (begun w)))
          (replays again.req again.key (begun w) row again.taken same there) in
      rw (again.valid, ran) (refl, refl)
