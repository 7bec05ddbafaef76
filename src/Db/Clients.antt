-- ===== src/Db/Clients.antt =====
-- internal/db/clients.sql.go: the statements that the services call, the one that adds a client, and
-- the one that sets where its webhooks go; with the constraints of migrations/000001 and 000011.
use payout_orchestrator.Common.{
  Bool, none, some, [], ◌∷◌, ◌++◌, ◌==◌, any, find, update_where, if◌then◌else◌,
}
use payout_orchestrator.Text.{Text, codes}
use payout_orchestrator.Outcome.{ok, err, no_rows, pg, unique_violation}
use payout_orchestrator.Db.Models.{Uuid, Time, PgText, Client, Db, null_text, stored_text}
use payout_orchestrator.Db.Session.{Tick, Statement, unchanged}
use payout_orchestrator.Db.FundingSources.{too_long}

-- GetClientById
unfoldable pub get_client_by_id : Uuid → Statement Client
get_client_by_id id t db = elim (find (λ (c : Client). c.id == id) db.clients) [
  | none ↦ err no_rows
  | some c ↦ ok (c, unchanged)
]

abbrev pub has_key : Uuid → Client → Bool
has_key key c = c.api_key == key

-- GetClientByApiKey
unfoldable pub get_client_by_api_key : Uuid → Statement Client
get_client_by_api_key api_key t db = elim (find (has_key api_key) db.clients) [
  | none ↦ err no_rows
  | some c ↦ ok (c, unchanged)
]

pub record CreateClientParams : Type 0 where
  pub id : Uuid
  pub name : Text
  pub api_key : Uuid

abbrev pub new_client : CreateClientParams → Tick → Client
new_client arg t = record {
  id = arg.id;
  name = arg.name;
  api_key = arg.api_key;
  created_at = t.now;
  updated_at = t.now;
  webhook_url = null_text;
}

abbrev pub add_client : Client → Db → Db
add_client row d = record d { clients = d.clients ++ row ∷ [] }

-- CreateClient
unfoldable pub create_client : CreateClientParams → Statement Client
unfolding too_long
create_client arg t db =
    if too_long 255 arg.name
    then err (pg (codes "22001") [])
    else if any (λ (c : Client). c.id == arg.id) db.clients
    then err (pg unique_violation (codes "clients_pkey"))
    else if any (has_key arg.api_key) db.clients
    then err (pg unique_violation (codes "clients_api_key_key"))
    else ok (new_client arg t, add_client (new_client arg t))

abbrev pub set_webhook_url : PgText → Time → Client → Client
set_webhook_url url now c = record c { webhook_url = stored_text url; updated_at = now }

abbrev pub change_client : Uuid → (Client → Client) → Db → Db
change_client id g d = record d { clients = update_where (λ (c : Client). c.id == id) g d.clients }

-- UpdateClientWebhookURL
unfoldable pub update_client_webhook_url : PgText → Uuid → Statement Client
update_client_webhook_url url id t db = elim (find (λ (c : Client). c.id == id) db.clients) [
  | none ↦ err no_rows
  | some c ↦ ok (set_webhook_url url t.now c, change_client id (set_webhook_url url t.now))
]
