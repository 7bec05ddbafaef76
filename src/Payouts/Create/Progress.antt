-- ===== src/Payouts/Create/Progress.antt =====
-- A new request, where no statement fails and no other session writes.
pub mod Tests
use payout_orchestrator.Common.{
  any-of_find, any-of_none, any-last, ℕ, suc, ◌+◌, ◌≡◌, refl, sym, inl, inr, Bool, true, false,
  ◌&&◌, ◌||◌, arith, Bool-cases, ==_iff, Option, none, some, List, [], ◌∷◌, ◌++◌, any, find, ◌==◌,
}
use payout_orchestrator.Text.{Text, is_empty}
use payout_orchestrator.Money.{Numeric}
use payout_orchestrator.Outcome.{Error, Result, ok, err, no_rows}
use payout_orchestrator.Db.Models.{
  Uuid, Client, FundingSource, IdempotencyKey, OutboxEvent, Db, Payout as PayoutRow,
}
use payout_orchestrator.Db.Session.{Env, Tick, World, unchanged}
use payout_orchestrator.Db.FundingSources.{is_source_of, get_funding_source_by_client_id}
use payout_orchestrator.Db.IdempotencyKeys.{
  CreateIdempotencyKeyParams, is_key_of, new_key, add_key, get_idempotency_key,
  create_idempotency_key,
}
use payout_orchestrator.Db.OutboxEvents.{
  CreateOutboxEventParams, new_event, add_event, create_outbox_event,
}
use payout_orchestrator.Db.Payouts.{
  CreatePayoutParams, positive, same_external_id, new_payout, add_payout, insert_payout,
}
use payout_orchestrator.Db.Payouts
use payout_orchestrator.Payouts.Store.{tx_store, within_tx}
use payout_orchestrator.Payouts.Validation.{Request, CreatePayoutInput, validate}
use payout_orchestrator.Payouts.View.{payout_from_db}
use payout_orchestrator.Payouts.Create.{
  found_key, load_idempotent_payout, payout_params, key_params, process_event, create_new,
  create_in_tx, after_tx, create_configured, create_payout,
}
use payout_orchestrator.Payouts.Create.AllOrNothing.{api_service}
use payout_orchestrator.Payouts.Create.Atomic.{all_rows}
use payout_orchestrator.Db.Session.Quiet.{
  IsQuiet, ticked, begun, settled, on_tx-quiet, within_tx-quiet_ok,
}

-- What the tables and the fresh ids must be like for a request to be taken in, whose transaction
-- begins at the statement numbered `n`.
pub record Acceptable (env : Env) (req : Request) (n : ℕ) (db : Db) : Type 0 where
  pub new_key_of : find (is_key_of req.client_id req.idempotency_key) db.idempotency_keys ≡ none
  pub source : FundingSource
  pub owned :
      find (is_source_of req.client_id req.funding_source_id) db.funding_sources ≡ some source
  pub amount : Numeric
  pub kept : env.stored_amount req.amount ≡ some amount
  pub sign : positive amount ≡ true
  pub new_id :
      any (λ (p : PayoutRow). p.id == (env.tick (suc (suc (suc n)))).fresh) db.payouts ≡ false
  pub new_external_id : any (same_external_id (payout_params req)) db.payouts ≡ false
  pub known_client : any (λ (c : Client). c.id == req.client_id) db.clients ≡ true
  pub key_given : is_empty req.idempotency_key ≡ false
  pub hash_given : is_empty req.request_hash ≡ false
  pub new_key_id :
      any
        (λ (k : IdempotencyKey). k.payout_id == (env.tick (suc (suc (suc n)))).fresh)
        db.idempotency_keys
      ≡ false
  pub new_event_id :
      any
        (λ (e : OutboxEvent). e.id == (env.tick (suc (suc (suc (suc (suc n)))))).fresh)
        db.outbox_events
      ≡ false

pub &&-right : (a b : Bool) → a && b ≡ true → b ≡ true
&&-right a b h = ground arith

module _ (env : Env) (req : Request) (n : ℕ) (db : Db) (can : Acceptable env req n db) where
  abbrev pub row : PayoutRow
  row = new_payout (payout_params req) can.amount (env.tick (suc (suc (suc n))))

  abbrev pub key_row : IdempotencyKey
  key_row = new_key (key_params req row.id) (env.tick (suc (suc (suc (suc n)))))

  abbrev pub event_row : OutboxEvent
  event_row = new_event env (process_event env row) (env.tick (suc (suc (suc (suc (suc n))))))

  no_key_lem : (t : Tick) → get_idempotency_key req.client_id req.idempotency_key t db ≡ err no_rows
  unfolding get_idempotency_key
  no_key_lem t = rw (can.new_key_of, get_idempotency_key) refl

  source_lem :
      (t : Tick)
      → get_funding_source_by_client_id req.client_id req.funding_source_id t db
        ≡ ok (can.source, unchanged)
  unfolding get_funding_source_by_client_id
  source_lem t = rw (can.owned, get_funding_source_by_client_id) refl

  source_known :
      any (λ (s : FundingSource). s.id == req.funding_source_id) db.funding_sources ≡ true
  source_known =
      any-of_find (is_source_of req.client_id req.funding_source_id) _ db.funding_sources
        (λ s h. &&-right (s.client_id == req.client_id) (s.id == req.funding_source_id) h) can.owned

  payout_lem :
      Payouts.create_payout env (payout_params req) (env.tick (suc (suc (suc n)))) db
      ≡ ok (row, add_payout row)
  unfolding Payouts.create_payout insert_payout
  payout_lem =
      rw
        (
          Payouts.create_payout, can.kept, insert_payout, can.sign, can.new_id, can.new_external_id,
          can.known_client, source_known,
        )
        refl

  key_lem :
      create_idempotency_key
        (key_params req row.id)
        (env.tick (suc (suc (suc (suc n)))))
        (add_payout row db)
      ≡ ok (key_row, add_key key_row)
  unfolding create_idempotency_key
  key_lem =
      rw
        (
          create_idempotency_key,
          can.key_given,
          can.hash_given,
          any-of_none _ db.idempotency_keys can.new_key_of,
          can.new_key_id,
          can.known_client,
          any-last (λ (p : PayoutRow). p.id == row.id) db.payouts row
              ((==_iff row.id row.id).1 refl),
        )
        refl

  event_lem :
      create_outbox_event env
        (process_event env row)
        (env.tick (suc (suc (suc (suc (suc n))))))
        (add_key key_row (add_payout row db))
      ≡ ok (event_row, add_event event_row)
  unfolding create_outbox_event
  event_lem =
      rw
        (
          create_outbox_event,
          can.new_event_id,
          any-last (λ (p : PayoutRow). p.id == row.id) db.payouts row
              ((==_iff row.id row.id).1 refl),
        )
        refl

module _ (env : Env) (quiet : IsQuiet env) (req : Request) (w : World)
    (can : Acceptable env req w.step w.committed) where
  abbrev pub after_rows : Db → Db
  after_rows =
      all_rows (row env req w.step w.committed can) (key_row env req w.step w.committed can)
        (event_row env req w.step w.committed can)

  abbrev pub first : World
  first = begun w

  abbrev pub second : World
  second = ticked first

  abbrev pub third : World
  third = ticked second

  abbrev pub fourth : World
  fourth = record (ticked third) { own = add_payout (row env req w.step w.committed can) }

  abbrev pub fifth : World
  fifth = record (ticked fourth) {
    own = λ db.
        add_key (key_row env req w.step w.committed can)
          (add_payout (row env req w.step w.committed can) db);
  }

  abbrev pub sixth : World
  sixth = record (ticked fifth) { own = after_rows }

  creates :
      create_in_tx env req (tx_store env) first ≡ (ok (row env req w.step w.committed can), sixth)
  unfolding create_in_tx load_idempotent_payout found_key create_new
  creates =
      rw
        (
          on_tx-quiet env quiet (get_idempotency_key req.client_id req.idempotency_key) first
              (no_key_lem env req w.step w.committed can (env.tick first.step)),
          on_tx-quiet env quiet
              (get_funding_source_by_client_id req.client_id req.funding_source_id) second
              (source_lem env req w.step w.committed can (env.tick second.step)),
          on_tx-quiet env quiet (Payouts.create_payout env (payout_params req)) third
              (payout_lem env req w.step w.committed can),
          on_tx-quiet env quiet
              (create_idempotency_key (key_params req (row env req w.step w.committed can).id))
              fourth (key_lem env req w.step w.committed can),
          on_tx-quiet env quiet
              (create_outbox_event env (process_event env (row env req w.step w.committed can)))
              fifth (event_lem env req w.step w.committed can),
        )
        refl

  -- A request that passes the checks, that the tables can take in and whose key is new to them is
  -- taken in: `CreatePayout` answers with the new payout, and the tables are the ones from before
  -- with the payout, its key and its event; no statement fails, and no other session commits.
  pub create_payout-creates :
      (input : CreatePayoutInput)
      → validate env input ≡ ok req
      → ((create_payout env (api_service env) input w).0
          ≡ payout_from_db env (row env req w.step w.committed can))
        × ((create_payout env (api_service env) input w).1.committed ≡ after_rows w.committed)
  unfolding create_payout create_configured within_tx after_tx
  create_payout-creates input valid =
      let ran =
        within_tx-quiet_ok env quiet (create_in_tx env req (tx_store env)) w sixth creates in
      rw (valid, ran) (refl, refl)

  -- The world behind the call.
  pub create_payout-world :
      (input : CreatePayoutInput)
      → validate env input ≡ ok req
      → (create_payout env (api_service env) input w).1 ≡ settled sixth
  unfolding create_payout create_configured within_tx after_tx
  create_payout-world input valid =
      let ran =
        within_tx-quiet_ok env quiet (create_in_tx env req (tx_store env)) w sixth creates in
      rw (valid, ran) refl
