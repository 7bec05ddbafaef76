-- ===== src/Payouts/Intact.antt =====
-- What the operations on payouts leave intact, however they end.
use payout_orchestrator.Common.{
  ℕ, ◌≡◌, refl, sym, ap, ◌∙◌, subst, ==_iff, any-last, List, ◌∷◌, [], ◌++◌,
}
use payout_orchestrator.Db.Models.{Uuid, IdempotencyKey, OutboxEvent, Payout, Db}
use payout_orchestrator.Db.Session.{Env, on_pool}
use payout_orchestrator.Db.Session.Invariant.{
  IsRely, Safe, Stays, Stays-bind, Stays-pure, Stays-lift, Stays-on_pool, Stays-with_result,
  Others-keeps,
}
use payout_orchestrator.Db.Effects.{get_payout_by_client_id-eq-ok, list_payouts-eq-ok}
use payout_orchestrator.Db.Intact.{IsIntact, HasPayout, Every-last, add_payout-Safe, unchanged-Safe}
use payout_orchestrator.Db.Payouts.{
  is_payout_of, get_payout_by_client_id, list_payouts_by_client_id,
}
use payout_orchestrator.Payouts.Validation.{Request, CreatePayoutInput}
use payout_orchestrator.Payouts.View
use payout_orchestrator.Payouts.View.{GetPayoutInput, ListPayoutsInput}
use payout_orchestrator.Payouts.Create.{create_payout}
use payout_orchestrator.Payouts.Create.Atomic.{NewRows, all_rows}
use payout_orchestrator.Payouts.Create.AllOrNothing.{
  api_service, Stored, nothing, everything, create_payout-Stored,
}

ruleset stays_rules = (Stays-pure, Stays-lift, Stays-with_result, Stays-bind)

-- The rows of a new payout refer to each other as they should.
all_rows-Safe :
    (env : Env) (req : Request) (row : Payout) (key : IdempotencyKey) (event : OutboxEvent)
    → NewRows env req row key event
    → Safe (IsIntact env) (all_rows row key event)
all_rows-Safe env req row key event rows db h =
    let more = add_payout-Safe env row db h in
    let client : key.client_id ≡ row.client_id =
      ap (λ (k : IdempotencyKey). k.client_id) rows.key_made
      ∙ sym (ap (λ (p : Payout). p.client_id) rows.row_made) in
    let payout : key.payout_id ≡ row.id = ap (λ (k : IdempotencyKey). k.payout_id) rows.key_made in
    let entity : event.entity_id ≡ row.id = ap (λ (e : OutboxEvent). e.entity_id) rows.event_made in
    let payload = ap (λ (e : OutboxEvent). e.payload) rows.event_made in
    record {
      keys =
          Every-last _ db.idempotency_keys key more.keys (rw (client, payout) (there db.payouts));
      events =
          Every-last _ db.outbox_events event more.events
            (λ kind. rw entity (row.client_id, there db.payouts, payload));
    }
  where
    there : (payouts : List Payout) → HasPayout row.client_id row.id (payouts ++ row ∷ [])
    there payouts =
        any-last (is_payout_of row.client_id row.id) payouts row
          (rw ((==_iff row.client_id row.client_id).1 refl) ((==_iff row.id row.id).1 refl))

module _ (env : Env) (rely : IsRely env (IsIntact env)) where
  abbrev Intact : Db → Type 0
  Intact = IsIntact env

  pub create_payout-Stays :
      (input : CreatePayoutInput) → Stays Intact (create_payout env (api_service env) input)
  create_payout-Stays input = record {
    at = λ w h. of_stored w.committed h _ (create_payout-Stored env input w);
  }
    where
      of_stored :
          (before : Db)
          → Intact before
          → (after : Db) → Stored env input before after
          → Intact after
      of_stored before h after (nothing reached) = Others-keeps env Intact rely reached h
      of_stored before h after (everything req row key event d valid rows reached after_it) =
          Others-keeps env Intact rely after_it
            (all_rows-Safe env req row key event rows d (Others-keeps env Intact rely reached h))

  get-call :
      (client_id id : Uuid) → Stays Intact (on_pool env (get_payout_by_client_id client_id id))
  get-call client_id id = Stays-on_pool env Intact rely _ λ t db a f h.
      subst (Safe Intact) (sym (get_payout_by_client_id-eq-ok client_id id t db h).1)
        (unchanged-Safe env)

  list-call :
      (client_id : Uuid) (limit offset : ℕ)
      → Stays Intact (on_pool env (list_payouts_by_client_id client_id limit offset))
  list-call client_id limit offset = Stays-on_pool env Intact rely _ λ t db a f h.
      subst (Safe Intact) (sym (list_payouts-eq-ok client_id limit offset t db h).1)
        (unchanged-Safe env)

  pub get_payout-Stays :
      (input : GetPayoutInput) → Stays Intact (View.get_payout env (api_service env) input)
  unfolding View.get_payout
  get_payout-Stays input = search (stays_rules, get-call)

  pub list_payouts-Stays :
      (input : ListPayoutsInput) → Stays Intact (View.list_payouts env (api_service env) input)
  unfolding View.list_payouts
  list_payouts-Stays input = search (stays_rules, list-call)
