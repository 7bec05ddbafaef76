-- ===== src/Db/WebhookDeliveries.antt =====
-- internal/db/webhook_deliveries.sql.go, with the constraints of migrations/000012. No other code of
-- the repository calls these statements yet.
use payout_orchestrator.Common.{
  ◌||◌, Bool, not, none, some, List, [], ◌∷◌, ◌++◌, any, find, filter_rows, ◌==◌, if◌then◌else◌,
}
use payout_orchestrator.Common.Int.{ℤ, is_negative}
use payout_orchestrator.Text.{Text, codes, text_eq}
use payout_orchestrator.Json.{Json}
use payout_orchestrator.Outcome.{ok, err, no_rows, pg, unique_violation}
use payout_orchestrator.Db.Models.{Uuid, Client, Payout, WebhookDelivery, Db}
use payout_orchestrator.Db.Paging.{newest_first}
use payout_orchestrator.Db.Session.{Env, Tick, Statement, unchanged}

pub record CreateWebhookDeliveryParams : Type 0 where
  pub payout_id : Uuid
  pub client_id : Uuid
  pub target_url : Text
  pub payload : Json
  pub status : Text
  pub attempt_count : ℤ

abbrev pub new_delivery : Env → CreateWebhookDeliveryParams → Tick → WebhookDelivery
new_delivery env arg t = record {
  id = t.fresh;
  payout_id = arg.payout_id;
  client_id = arg.client_id;
  target_url = arg.target_url;
  payload = env.jsonb arg.payload;
  status = arg.status;
  attempt_count = arg.attempt_count;
  created_at = t.now;
  updated_at = t.now;
}

abbrev pub add_delivery : WebhookDelivery → Db → Db
add_delivery row d = record d { webhook_deliveries = d.webhook_deliveries ++ row ∷ [] }

-- The CHECK on the status.
abbrev pub is_delivery_status : Text → Bool
is_delivery_status s =
    text_eq s (codes "pending")
    || text_eq s (codes "processing")
    || text_eq s (codes "delivered")
    || text_eq s (codes "failed")

abbrev pub has_delivery_id : Uuid → WebhookDelivery → Bool
has_delivery_id id d = d.id == id

-- CreateWebhookDelivery, for a status of at most 50 characters
unfoldable pub create_webhook_delivery :
    Env → CreateWebhookDeliveryParams → Statement WebhookDelivery
create_webhook_delivery env arg t db =
    if is_negative arg.attempt_count
    then err (pg (codes "23514") (codes "webhook_deliveries_attempt_count_check"))
    else if not (is_delivery_status arg.status)
    then err (pg (codes "23514") (codes "webhook_deliveries_status_check"))
    else if any (has_delivery_id t.fresh) db.webhook_deliveries
    then err (pg unique_violation (codes "webhook_deliveries_pkey"))
    else if not (any (λ (c : Client). c.id == arg.client_id) db.clients)
    then err (pg (codes "23503") (codes "webhook_deliveries_client_id_fkey"))
    else if any (λ (p : Payout). p.id == arg.payout_id) db.payouts
    then ok (new_delivery env arg t, add_delivery (new_delivery env arg t))
    else err (pg (codes "23503") (codes "webhook_deliveries_payout_id_fkey"))

-- GetWebhookDelivery
unfoldable pub get_webhook_delivery : Uuid → Statement WebhookDelivery
get_webhook_delivery id t db = elim (find (has_delivery_id id) db.webhook_deliveries) [
  | none ↦ err no_rows
  | some d ↦ ok (d, unchanged)
]

-- ListWebhookDeliveriesByPayoutID
unfoldable pub list_webhook_deliveries_by_payout_id : Uuid → Statement (List WebhookDelivery)
list_webhook_deliveries_by_payout_id payout_id t db = ok (
  newest_first (λ (d : WebhookDelivery). d.created_at) (λ (d : WebhookDelivery). d.id)
      (filter_rows (λ (d : WebhookDelivery). d.payout_id == payout_id) db.webhook_deliveries),
  unchanged,
)
