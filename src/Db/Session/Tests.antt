-- ===== src/Db/Session/Tests.antt =====
-- A transaction at concrete tables.
use payout_orchestrator.Db.Models.{IdempotencyKey}
use payout_orchestrator.Db.Session.{Action, on_tx, within_tx}
use payout_orchestrator.Db.Session.Transactions.{IsTx-on_tx, TxEnd, within_tx-ends}
use payout_orchestrator.Db.IdempotencyKeys.{CreateIdempotencyKeyParams, create_idempotency_key}
use payout_orchestrator.Text.{codes}
use payout_orchestrator.Sample.{calm_env, start}

abbrev params : CreateIdempotencyKeyParams
params = record { key = codes "k"; client_id = 1; request_hash = codes "h"; payout_id = 7 }

abbrev write_key : Action IdempotencyKey
write_key = on_tx calm_env (create_idempotency_key params)

within_tx-ends_example : TxEnd calm_env write_key start (within_tx calm_env write_key start)
within_tx-ends_example = within_tx-ends calm_env write_key (IsTx-on_tx calm_env _) start
