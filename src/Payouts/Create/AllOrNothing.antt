-- ===== src/Payouts/Create/AllOrNothing.antt =====
-- The outcome of `CreatePayout` as a whole, for the service that cmd/api/main.go builds.
use payout_orchestrator.Common.{◌≡◌, refl, true, some}
use payout_orchestrator.Text.{Text}
use payout_orchestrator.Outcome.{Result, ok, err}
use payout_orchestrator.Db.Models.{Uuid, IdempotencyKey, OutboxEvent, Payout, Db}
use payout_orchestrator.Db.Session
use payout_orchestrator.Db.Session.{
  Env, World, Action, unchanged, pure, raise, lift, continue, ◌>>=◌, with_result, on_pool,
}
use payout_orchestrator.Db.Session.Transactions.{
  Others, here, Others-trans, IsTx, IsTx-pure, IsTx-raise, IsTx-lift, IsTx-if, IsTx-with_result,
  IsTx-bind, TxEnd, rolled_back, written, within_tx-ends,
}
use payout_orchestrator.Db.Session.Pool.{IsTx-on_pool}
use payout_orchestrator.Db.IdempotencyKeys.{get_idempotency_key}
use payout_orchestrator.Db.Payouts.{get_payout_by_client_id}
use payout_orchestrator.Db.Effects.{get_idempotency_key-eq-ok, get_payout_by_client_id-eq-ok}
use payout_orchestrator.Payouts.Store.{
  Service, tx_store, pool_store, db_tx_runner, within_tx, new_service_with_tx,
}
use payout_orchestrator.Payouts.View.{payout_from_db}
use payout_orchestrator.Payouts.Validation.{Request, CreatePayoutInput, validate}
use payout_orchestrator.Payouts.Create.{
  found_key, load_idempotent_payout, create_in_tx, after_tx, create_configured, create_payout,
}
use payout_orchestrator.Payouts.Create.Atomic.{
  NewRows, all_rows, Intake, replayed, taken_in, create_in_tx-IsTx, create_in_tx-Yields,
}

-- The service of cmd/api/main.go: the queries on the pool, and transactions on the same pool.
abbrev pub api_service : Env → Service
api_service env = new_service_with_tx (some (pool_store env)) (some (db_tx_runner true))

-- The tables behind a call, from those before it: other sessions alone have changed them, or the
-- three rows of the request are there as well.
pub data Stored (env : Env) (input : CreatePayoutInput) (before after : Db) : Type 0 where
  nothing : Others env before after → Stored env input before after
  everything :
      (req : Request) (row : Payout) (key : IdempotencyKey) (event : OutboxEvent) (d : Db)
      → validate env input ≡ ok req
      → NewRows env req row key event
      → Others env before d
      → Others env (all_rows row key event d) after
      → Stored env input before after

Stored-then :
    {env : Env} {input : CreatePayoutInput} {a b c : Db}
    → Stored env input a b
    → Others env b c
    → Stored env input a c
Stored-then (nothing r) s = nothing (Others-trans r s)
Stored-then (everything req row key event d valid rows before after) s =
    everything req row key event d valid rows before (Others-trans after s)

ruleset pool_rules = (IsTx-pure, IsTx-raise, IsTx-lift, IsTx-if, IsTx-with_result, IsTx-bind)

module _ (env : Env) where
  get_key-IsTx :
      (client_id : Uuid) (key : Text) → IsTx env (on_pool env (get_idempotency_key client_id key))
  get_key-IsTx client_id key =
      IsTx-on_pool env _ λ t db a f h. (get_idempotency_key-eq-ok client_id key t db h).1

  get_payout-IsTx :
      (client_id id : Uuid) → IsTx env (on_pool env (get_payout_by_client_id client_id id))
  get_payout-IsTx client_id id =
      IsTx-on_pool env _ λ t db a f h. (get_payout_by_client_id-eq-ok client_id id t db h).1

  found_key-IsTx :
      (client_id : Uuid) (hash : Text) (r : Result IdempotencyKey)
      → IsTx env (found_key (pool_store env) client_id hash r)
  unfolding found_key
  found_key-IsTx client_id hash (err e) = search pool_rules
  found_key-IsTx client_id hash (ok k) = search (pool_rules, get_payout-IsTx)

  load-IsTx :
      (client_id : Uuid) (key hash : Text)
      → IsTx env (load_idempotent_payout (pool_store env) client_id key hash)
  unfolding load_idempotent_payout
  load-IsTx client_id key hash = search (pool_rules, found_key-IsTx, get_key-IsTx)

  after_tx-IsTx :
      (req : Request) (r : Result Payout) → IsTx env (after_tx env req (pool_store env) r)
  unfolding after_tx
  after_tx-IsTx req (ok row) = search pool_rules
  after_tx-IsTx req (err e) = search (pool_rules, load-IsTx)

  module _ (input : CreatePayoutInput) (req : Request) (valid : validate env input ≡ ok req) where
    tx-Stored :
        (w : World) (end : Result Payout × World)
        → TxEnd env (create_in_tx env req (tx_store env)) w end
        → Stored env input w.committed end.1.committed
    tx-Stored w end (rolled_back e failed reached) = nothing reached
    tx-Stored w end (written start last a d fresh before ran reached after result) =
        of_intake ((create_in_tx-Yields env req start).at a last ran)
      where
        before_end : Others env w.committed d
        before_end =
            Others-trans before
              (Others-trans (rw ran at ((create_in_tx-IsTx env req).at start)) reached)

        of_intake : Intake env req start a last → Stored env input w.committed end.1.committed
        of_intake (replayed seen key found same seen' there own) =
            nothing (Others-trans before_end (rw (own, fresh) at after))
        of_intake (taken_in (key, event, rows, own)) =
            everything req a key event d valid rows before_end (rw (own, fresh) at after)

    -- What follows the transaction reads only.
    answer-IsTx :
        (r : Result Payout)
        → IsTx env (after_tx env req (pool_store env) r >>= λ row. lift (payout_from_db env row))
    answer-IsTx r = search (pool_rules, after_tx-IsTx)

    valid-Stored :
        (w : World)
        → Stored env input w.committed
            ((with_result
                  (within_tx env (db_tx_runner true) (create_in_tx env req))
                  (after_tx env req (pool_store env))
                >>= λ row. lift (payout_from_db env row))
              w).1.committed
    unfolding within_tx
    valid-Stored w =
        let end = Session.within_tx env (create_in_tx env req (tx_store env)) w in
        Stored-then
          (tx-Stored w end (
            within_tx-ends env (create_in_tx env req (tx_store env)) (create_in_tx-IsTx env req) w))
          ((answer-IsTx end.0).at end.1)

  -- However a call of `CreatePayout` ends (a refusal, a replay, a lost race, a failure of any
  -- statement or of the commit, a success), the tables hold either the payout, its idempotency key
  -- and its outbox event together, or nothing of them; besides that, only other sessions' commits.
  pub create_payout-Stored :
      (input : CreatePayoutInput) (w : World)
      → Stored env input w.committed (create_payout env (api_service env) input w).1.committed
  unfolding create_payout create_configured
  create_payout-Stored input w = go (validate env input) refl
    where
      go :
          (r : Result Request)
          → validate env input ≡ r
          → Stored env input w.committed
              (continue r
                (λ req.
                  with_result
                    (within_tx env (db_tx_runner true) (create_in_tx env req))
                    (after_tx env req (pool_store env))
                  >>= λ row. lift (payout_from_db env row))
                w).1.committed
      go (ok req) valid = valid-Stored input req valid w
      go (err e) refused = nothing here
