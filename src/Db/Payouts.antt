-- ===== src/Db/Payouts.antt =====
-- internal/db/payouts.sql.go, with the constraints of migrations/000003 and 000010.
use payout_orchestrator.Common.{
  Bool, false, not, Option, none, some, List, [], ◌∷◌, ◌++◌, ◌&&◌, any, find, update_where, ◌==◌,
  if◌then◌else◌, ℕ,
}
use payout_orchestrator.Common.Int.{is_nonpositive}
use payout_orchestrator.Text.{Text, codes, text_eq, is_empty}
use payout_orchestrator.Money.{Numeric}
use payout_orchestrator.Status.{Status}
use payout_orchestrator.Outcome.{Result, ok, err, no_rows, pg, unique_violation}
use payout_orchestrator.Db.Models.{
  Uuid, Time, PgText, null_text, stored_text, Client, FundingSource, Payout, Db,
}
use payout_orchestrator.Db.Paging.{page}
use payout_orchestrator.Db.Session.{Env, Tick, Statement, unchanged}

pub record CreatePayoutParams : Type 0 where
  pub client_id : Uuid
  pub funding_source_id : Uuid
  pub external_id : PgText
  pub recipient_name : PgText
  pub recipient_account_id : PgText
  pub amount : Numeric
  pub currency : Text

-- `CHECK (amount > 0)`, for a number
unfoldable pub positive : Numeric → Bool
positive n = elim n.int [ none ↦ false | some i ↦ not (is_nonpositive i) ]

-- The partial unique index ux_payouts_client_external_id: NULL and "" are not in it.
unfoldable pub same_external_id : CreatePayoutParams → Payout → Bool
same_external_id arg p =
    p.client_id == arg.client_id
    && p.external_id.is_valid
    && arg.external_id.is_valid
    && not (is_empty arg.external_id.string)
    && text_eq p.external_id.string arg.external_id.string

-- The row of an INSERT: the id, the status and the times are the column defaults.
abbrev pub new_payout : CreatePayoutParams → Numeric → Tick → Payout
new_payout arg amount t = record {
  id = t.fresh;
  client_id = arg.client_id;
  funding_source_id = arg.funding_source_id;
  amount = amount;
  currency = arg.currency;
  status = Status.pending;
  created_at = t.now;
  updated_at = t.now;
  failure_reason = null_text;
  external_id = stored_text arg.external_id;
  recipient_name = stored_text arg.recipient_name;
  recipient_account_id = stored_text arg.recipient_account_id;
}

abbrev pub add_payout : Payout → Db → Db
add_payout row d = record d { payouts = d.payouts ++ row ∷ [] }

unfoldable pub insert_payout : CreatePayoutParams → Numeric → Statement Payout
unfolding positive same_external_id
insert_payout arg amount t db =
    if not (positive amount)
    then err (pg (codes "23514") (codes "payouts_amount_check"))
    else if any (λ (p : Payout). p.id == t.fresh) db.payouts
    then err (pg unique_violation (codes "payouts_pkey"))
    else if any (same_external_id arg) db.payouts
    then err (pg unique_violation (codes "ux_payouts_client_external_id"))
    else if not (any (λ (c : Client). c.id == arg.client_id) db.clients)
    then err (pg (codes "23503") (codes "payouts_client_id_fkey"))
    else if not (any (λ (s : FundingSource). s.id == arg.funding_source_id) db.funding_sources)
    then err (pg (codes "23503") (codes "payouts_funding_source_id_fkey"))
    else ok (new_payout arg amount t, add_payout (new_payout arg amount t))

-- CreatePayout: the NUMERIC(10, 2) column rounds the amount, or refuses it.
unfoldable pub create_payout : Env → CreatePayoutParams → Statement Payout
unfolding insert_payout
create_payout env arg t db = elim (env.stored_amount arg.amount) [
  | none ↦ err (pg (codes "22003") [])
  | some amount ↦ insert_payout arg amount t db
]

abbrev pub is_payout_of : Uuid → Uuid → Payout → Bool
is_payout_of client_id id p = p.client_id == client_id && p.id == id

-- GetPayoutByClientID
unfoldable pub get_payout_by_client_id : Uuid → Uuid → Statement Payout
get_payout_by_client_id client_id id t db = elim (find (is_payout_of client_id id) db.payouts) [
  | none ↦ err no_rows
  | some p ↦ ok (p, unchanged)
]

abbrev pub is_of_client : Uuid → Payout → Bool
is_of_client client_id p = p.client_id == client_id

-- ListPayoutsByClientID
unfoldable pub list_payouts_by_client_id : Uuid → ℕ → ℕ → Statement (List Payout)
list_payouts_by_client_id client_id limit offset t db = ok (
  page (λ (p : Payout). p.created_at) (λ (p : Payout). p.id) (is_of_client client_id) limit offset
      db.payouts,
  unchanged,
)

abbrev pub has_id : Uuid → Payout → Bool
has_id id p = p.id == id

abbrev pub change_payout : Uuid → (Payout → Payout) → Db → Db
change_payout id f d = record d { payouts = update_where (has_id id) f d.payouts }

-- UPDATE payouts SET … WHERE id = …; RETURNING gives the updated row.
abbrev pub updated : Uuid → (Payout → Payout) → Option Payout → Result (Payout × (Db → Db))
updated id f none = err no_rows
updated id f (some p) = ok (f p, change_payout id f)

abbrev pub update_payout : Uuid → (Payout → Payout) → Statement Payout
update_payout id f t db = updated id f (find (has_id id) db.payouts)

abbrev pub set_status : Status → Time → Payout → Payout
set_status status now p = record p { status = status; updated_at = now }

abbrev pub set_failure : PgText → Time → Payout → Payout
set_failure reason now p = record p {
  status = Status.failed;
  failure_reason = stored_text reason;
  updated_at = now;
}

-- UpdatePayoutStatus
unfoldable pub update_payout_status : Uuid → Status → Statement Payout
update_payout_status id status t = update_payout id (set_status status t.now) t

-- UpdatePayoutFailure
unfoldable pub update_payout_failure : Uuid → PgText → Statement Payout
update_payout_failure id reason t = update_payout id (set_failure reason t.now) t
