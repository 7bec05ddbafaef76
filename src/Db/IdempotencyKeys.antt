-- ===== src/Db/IdempotencyKeys.antt =====
-- internal/db/idempotency_keys.sql.go, with the constraints of migrations/000005, 000006 and 000013.
use payout_orchestrator.Common.{
  Bool, none, some, [], ◌∷◌, ◌++◌, ◌&&◌, any, find, ◌==◌, if◌then◌else◌,
}
use payout_orchestrator.Text.{Text, codes, text_eq, is_empty}
use payout_orchestrator.Outcome.{ok, err, no_rows, pg, unique_violation}
use payout_orchestrator.Db.Models.{Uuid, Client, IdempotencyKey, Payout, Db}
use payout_orchestrator.Db.Session.{Tick, Statement, unchanged}

pub record CreateIdempotencyKeyParams : Type 0 where
  pub key : Text
  pub client_id : Uuid
  pub request_hash : Text
  pub payout_id : Uuid

abbrev pub new_key : CreateIdempotencyKeyParams → Tick → IdempotencyKey
new_key arg t = record {
  key = arg.key;
  client_id = arg.client_id;
  request_hash = arg.request_hash;
  payout_id = arg.payout_id;
  created_at = t.now;
}

abbrev pub add_key : IdempotencyKey → Db → Db
add_key row d = record d { idempotency_keys = d.idempotency_keys ++ row ∷ [] }

abbrev pub is_key_of : Uuid → Text → IdempotencyKey → Bool
is_key_of client_id key k = k.client_id == client_id && text_eq k.key key

-- CreateIdempotencyKey: no empty key or hash, one row for each client and key, one for each payout,
-- and the client and the payout exist.
unfoldable pub create_idempotency_key : CreateIdempotencyKeyParams → Statement IdempotencyKey
create_idempotency_key arg t db =
    if is_empty arg.key
    then err (pg (codes "23514") (codes "idempotency_keys_key_check"))
    else if is_empty arg.request_hash
    then err (pg (codes "23514") (codes "idempotency_keys_request_hash_check"))
    else if any (is_key_of arg.client_id arg.key) db.idempotency_keys
    then err (pg unique_violation (codes "idempotency_keys_pkey"))
    else if any (λ (k : IdempotencyKey). k.payout_id == arg.payout_id) db.idempotency_keys
    then err (pg unique_violation (codes "idempotency_keys_payout_id_key"))
    else if any (λ (c : Client). c.id == arg.client_id) db.clients
        && any (λ (p : Payout). p.id == arg.payout_id) db.payouts
    then ok (new_key arg t, add_key (new_key arg t))
    else err (pg (codes "23503") (codes "idempotency_keys_payout_id_fkey"))

-- GetIdempotencyKey
unfoldable pub get_idempotency_key : Uuid → Text → Statement IdempotencyKey
get_idempotency_key client_id key t db = elim (find (is_key_of client_id key) db.idempotency_keys) [
  | none ↦ err no_rows
  | some k ↦ ok (k, unchanged)
]
