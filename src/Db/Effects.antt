-- ===== src/Db/Effects.antt =====
-- What the success of each statement says: the rows that it found, and the row that it adds.
use payout_orchestrator.Common.{
  ◌≡◌, refl, inl, inr, true, Option, none, some, ◌==◌, arith, Option-cases, find, any, ℕ, List,
}
use payout_orchestrator.Text.{Text}
use payout_orchestrator.Money.{Numeric}
use payout_orchestrator.Outcome.{Error, ok, err}
use payout_orchestrator.Db.Models.{
  Uuid, PgText, Client, FundingSource, IdempotencyKey, OutboxEvent, Payout, Db,
}
use payout_orchestrator.Db.Session.{Env, Tick, unchanged}
use payout_orchestrator.Status.{Status}
use payout_orchestrator.Db.Clients.{get_client_by_id, get_client_by_api_key, has_key}
use payout_orchestrator.Db.Paging.{page}
use payout_orchestrator.Db.FundingSources
use payout_orchestrator.Db.Payouts
use payout_orchestrator.Db.FundingSources.{
  list_funding_sources_by_client_id, CreateFundingSourceParams, is_source_of, new_source,
  add_source, create_funding_source, get_funding_source_by_client_id,
}
use payout_orchestrator.Db.IdempotencyKeys.{
  CreateIdempotencyKeyParams, new_key, add_key, is_key_of, create_idempotency_key,
  get_idempotency_key,
}
use payout_orchestrator.Db.OutboxEvents.{
  CreateOutboxEventParams, new_event, add_event, create_outbox_event,
}
use payout_orchestrator.Db.Payouts.{
  list_payouts_by_client_id, CreatePayoutParams, positive, new_payout, add_payout, insert_payout,
  create_payout, is_payout_of, get_payout_by_client_id, has_id, change_payout, updated, set_status,
  set_failure, update_payout_status, update_payout_failure,
}

err-ne-ok {ℓ} : {A : Type ℓ} {e : Error} {a : A} → err e ≡ ok a → ⊥
err-ne-ok h = cc

insert_payout-eq-ok :
    (arg : CreatePayoutParams) (amount : Numeric) (t : Tick) (db : Db) {row : Payout} {f : Db → Db}
    → insert_payout arg amount t db ≡ ok (row, f)
    → (positive amount ≡ true)
      × (row ≡ new_payout arg amount t)
      × (f ≡ add_payout (new_payout arg amount t))
unfolding insert_payout
insert_payout-eq-ok arg amount t db h = (ground arith, ground arith, ground arith)

pub create_payout-eq-ok :
    (env : Env) (arg : CreatePayoutParams) (t : Tick) (db : Db) {row : Payout} {f : Db → Db}
    → create_payout env arg t db ≡ ok (row, f)
    → (amount : Numeric) × (env.stored_amount arg.amount ≡ some amount)
      × (positive amount ≡ true)
      × (row ≡ new_payout arg amount t)
      × (f ≡ add_payout (new_payout arg amount t))
unfolding create_payout
create_payout-eq-ok env arg t db h = elim (Option-cases (env.stored_amount arg.amount)) [
  | inl refused ↦ absurd (err-ne-ok (rw (refused, create_payout) at h))
  | inr (amount, kept) ↦
      let (sign, row, change) =
        insert_payout-eq-ok arg amount t db (rw (kept, create_payout) at h) in
      (amount, kept, sign, row, change)
]

pub create_idempotency_key-eq-ok :
    (arg : CreateIdempotencyKeyParams) (t : Tick) (db : Db) {row : IdempotencyKey} {f : Db → Db}
    → create_idempotency_key arg t db ≡ ok (row, f)
    → f ≡ add_key (new_key arg t)
unfolding create_idempotency_key
create_idempotency_key-eq-ok arg t db h = ground arith

pub create_outbox_event-eq-ok :
    (env : Env) (arg : CreateOutboxEventParams) (t : Tick) (db : Db) {row : OutboxEvent}
    {f : Db → Db}
    → create_outbox_event env arg t db ≡ ok (row, f)
    → f ≡ add_event (new_event env arg t)
unfolding create_outbox_event
create_outbox_event-eq-ok env arg t db h = ground arith

pub get_idempotency_key-eq-ok :
    (client_id : Uuid) (key : Text) (t : Tick) (db : Db) {row : IdempotencyKey} {f : Db → Db}
    → get_idempotency_key client_id key t db ≡ ok (row, f)
    → (find (is_key_of client_id key) db.idempotency_keys ≡ some row) × (f ≡ unchanged)
unfolding get_idempotency_key
get_idempotency_key-eq-ok client_id key t db h = ground arith

pub get_payout_by_client_id-eq-ok :
    (client_id id : Uuid) (t : Tick) (db : Db) {row : Payout} {f : Db → Db}
    → get_payout_by_client_id client_id id t db ≡ ok (row, f)
    → (find (is_payout_of client_id id) db.payouts ≡ some row) × (f ≡ unchanged)
unfolding get_payout_by_client_id
get_payout_by_client_id-eq-ok client_id id t db h = ground arith

pub get_funding_source_by_client_id-eq-ok :
    (client_id id : Uuid) (t : Tick) (db : Db) {row : FundingSource} {f : Db → Db}
    → get_funding_source_by_client_id client_id id t db ≡ ok (row, f)
    → f ≡ unchanged
unfolding get_funding_source_by_client_id
get_funding_source_by_client_id-eq-ok client_id id t db h = ground arith

pub find-get_funding_source :
    (client_id id : Uuid) (t : Tick) (db : Db) {row : FundingSource} {f : Db → Db}
    → get_funding_source_by_client_id client_id id t db ≡ ok (row, f)
    → find (is_source_of client_id id) db.funding_sources ≡ some row
unfolding get_funding_source_by_client_id
find-get_funding_source client_id id t db h = ground arith

pub create_funding_source-eq-ok :
    (arg : CreateFundingSourceParams) (t : Tick) (db : Db) {row : FundingSource} {f : Db → Db}
    → create_funding_source arg t db ≡ ok (row, f)
    → (any (λ (c : Client). c.id == arg.client_id) db.clients ≡ true)
      × (row ≡ new_source arg t)
      × (f ≡ add_source (new_source arg t))
unfolding create_funding_source
create_funding_source-eq-ok arg t db h = ground arith

pub list_funding_sources-eq-ok :
    (client_id : Uuid) (limit offset : ℕ) (t : Tick) (db : Db) {rows : List FundingSource}
    {f : Db → Db}
    → list_funding_sources_by_client_id client_id limit offset t db ≡ ok (rows, f)
    → (rows
        ≡ page
            (λ (s : FundingSource). s.created_at)
            (λ (s : FundingSource). s.id)
            (FundingSources.is_of_client client_id)
            limit
            offset
            db.funding_sources)
      × (f ≡ unchanged)
unfolding list_funding_sources_by_client_id
list_funding_sources-eq-ok client_id limit offset t db h = (cc, cc)

pub list_payouts-eq-ok :
    (client_id : Uuid) (limit offset : ℕ) (t : Tick) (db : Db) {rows : List Payout} {f : Db → Db}
    → list_payouts_by_client_id client_id limit offset t db ≡ ok (rows, f)
    → (rows
        ≡ page
            (λ (p : Payout). p.created_at)
            (λ (p : Payout). p.id)
            (Payouts.is_of_client client_id)
            limit
            offset
            db.payouts)
      × (f ≡ unchanged)
unfolding list_payouts_by_client_id
list_payouts-eq-ok client_id limit offset t db h = (cc, cc)

pub get_client_by_id-eq-ok :
    (id : Uuid) (t : Tick) (db : Db) {row : Client} {f : Db → Db}
    → get_client_by_id id t db ≡ ok (row, f)
    → (find (λ (c : Client). c.id == id) db.clients ≡ some row) × (f ≡ unchanged)
unfolding get_client_by_id
get_client_by_id-eq-ok id t db h = ground arith

pub get_client_by_api_key-eq-ok :
    (key : Uuid) (t : Tick) (db : Db) {row : Client} {f : Db → Db}
    → get_client_by_api_key key t db ≡ ok (row, f)
    → (find (has_key key) db.clients ≡ some row) × (f ≡ unchanged)
unfolding get_client_by_api_key
get_client_by_api_key-eq-ok key t db h = ground arith

-- An update has changed the row that it found.
abbrev pub Updated : Uuid → (Payout → Payout) → Db → Payout → (Db → Db) → Type 0
Updated id g db row f =
    (old : Payout) × (find (has_id id) db.payouts ≡ some old)
    × (row ≡ g old)
    × (f ≡ change_payout id g)

updated-eq-ok :
    (id : Uuid) (g : Payout → Payout) (db : Db) (o : Option Payout) {row : Payout} {f : Db → Db}
    → find (has_id id) db.payouts ≡ o
    → updated id g o ≡ ok (row, f)
    → Updated id g db row f
updated-eq-ok id g db none there h = absurd (err-ne-ok h)
updated-eq-ok id g db (some old) there h = (old, there, ground arith, ground arith)

pub update_payout_status-eq-ok :
    (id : Uuid) (status : Status) (t : Tick) (db : Db) {row : Payout} {f : Db → Db}
    → update_payout_status id status t db ≡ ok (row, f)
    → Updated id (set_status status t.now) db row f
unfolding update_payout_status
update_payout_status-eq-ok id status t db h =
    updated-eq-ok id (set_status status t.now) db (find (has_id id) db.payouts) refl h

pub update_payout_failure-eq-ok :
    (id : Uuid) (reason : PgText) (t : Tick) (db : Db) {row : Payout} {f : Db → Db}
    → update_payout_failure id reason t db ≡ ok (row, f)
    → Updated id (set_failure reason t.now) db row f
unfolding update_payout_failure
update_payout_failure-eq-ok id reason t db h =
    updated-eq-ok id (set_failure reason t.now) db (find (has_id id) db.payouts) refl h
