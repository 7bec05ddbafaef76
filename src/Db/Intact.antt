-- ===== src/Db/Intact.antt =====
-- Tables whose rows refer to each other as the program means them to, and the changes that keep this.
use payout_orchestrator.Common.{
  ◌≡◌, refl, sym, ap, subst, ◌∙◌, Bool, true, false, Option, none, some, List, [], ◌∷◌, ◌++◌, any,
  find, inl, inr, Bool-cases, update_where, any-update_where, if◌then◌else◌,
}
use payout_orchestrator.Status.{Status}
use payout_orchestrator.Outcome.{ok}
use payout_orchestrator.Db.Models.{
  process_payout, payout_result_webhook, Uuid, Time, PgText, EventType, IdempotencyKey, OutboxEvent,
  Payout, FundingSource, Db,
}
use payout_orchestrator.Db.Session.{Env, Tick, unchanged}
use payout_orchestrator.Db.Session.Invariant.{Safe, SafeStatement}
use payout_orchestrator.Db.Session.Inversion.{err-ne-ok, ok-injective}
use payout_orchestrator.Db.Effects.{
  update_payout_status-eq-ok, update_payout_failure-eq-ok, create_outbox_event-eq-ok,
  create_funding_source-eq-ok,
}
use payout_orchestrator.Db.FundingSources.{
  CreateFundingSourceParams, add_source, create_funding_source,
}
use payout_orchestrator.Db.Payouts.{
  is_payout_of, has_id, add_payout, change_payout, set_status, set_failure, update_payout_status,
  update_payout_failure,
}
use payout_orchestrator.Db.OutboxEvents.{
  CreateOutboxEventParams, has_event_id, update_event, create_outbox_event, claim,
  mark_outbox_event_as_processed, release_outbox_event_claim,
}
use payout_orchestrator.Db.OutboxEvents.Claims.{claim_next_pending-eq-ok, claim_next_by_types-eq-ok}
use payout_orchestrator.Db.OutboxEvents.Found.{
  claim_statement, update_answer, finished, released, mark_outbox_event_as_processed_lem,
  release_outbox_event_claim_lem,
}
use payout_orchestrator.Outbox.Payload.{marshal_process_payout_payload}

-- Every row of a table.
abbrev pub Every : {A : Type 0} → (A → Type 0) → List A → Type 0
Every R [] = Unit
Every R (x ∷ xs) = R x × Every R xs

module _ {A : Type 0} where
  pub Every-implies :
      (R S : A → Type 0) (xs : List A) → ((x : A) → R x → S x) → Every R xs → Every S xs
  Every-implies R S [] sub h = tt
  Every-implies R S (x ∷ xs) sub (h, rest) = (sub x h, Every-implies R S xs sub rest)

  pub Every-last :
      (R : A → Type 0) (xs : List A) (x : A) → Every R xs → R x → Every R (xs ++ x ∷ [])
  Every-last R [] x h new = (new, tt)
  Every-last R (y ∷ ys) x (h, rest) new = (h, Every-last R ys x rest new)

  changed-row :
      (R : A → Type 0) (b : Bool) (f : A → A) (x : A)
      → ((y : A) → R y → R (f y))
      → R x
      → R (if b then f x else x)
  changed-row R true f x keeps h = keeps x h
  changed-row R false f x keeps h = h

  Every-update_where :
      (R : A → Type 0) (p : A → Bool) (f : A → A) (xs : List A)
      → ((x : A) → R x → R (f x))
      → Every R xs
      → Every R (update_where p f xs)
  Every-update_where R p f [] keeps h = tt
  Every-update_where R p f (x ∷ xs) keeps (h, rest) =
      (changed-row R (p x) f x keeps h, Every-update_where R p f xs keeps rest)

  any-before : (p : A → Bool) (xs : List A) (x : A) → any p xs ≡ true → any p (xs ++ x ∷ []) ≡ true
  any-before p [] x h = cc
  any-before p (y ∷ ys) x h = elim (Bool-cases (p y)) [
    | inl e ↦ rw e refl
    | inr e ↦ rw e (any-before p ys x (rw e at h))
  ]

-- The client has a payout with this id.
abbrev pub HasPayout : Uuid → Uuid → List Payout → Type 0
HasPayout client_id id payouts = any (is_payout_of client_id id) payouts ≡ true

-- The key's payout belongs to the key's client.
abbrev pub KeyIntact : List Payout → IdempotencyKey → Type 0
KeyIntact payouts k = HasPayout k.client_id k.payout_id payouts

-- The worker's event names a payout with its client, in its column and in its payload alike.
abbrev pub EventIntact : Env → List Payout → OutboxEvent → Type 0
EventIntact env payouts e =
    e.event_type ≡ process_payout
    → (client_id : Uuid) × HasPayout client_id e.entity_id payouts
      × (e.payload
          ≡ env.jsonb (
              marshal_process_payout_payload (env.uuid_text e.entity_id) (env.uuid_text client_id)))

pub record IsIntact (env : Env) (db : Db) : Type 0 where
  pub keys : Every (KeyIntact db.payouts) db.idempotency_keys
  pub events : Every (EventIntact env db.payouts) db.outbox_events

-- No payout is lost.
abbrev Grows : List Payout → List Payout → Type 0
Grows before after =
    (client_id id : Uuid) → HasPayout client_id id before → HasPayout client_id id after

webhook-ne-process : payout_result_webhook ≡ process_payout → ⊥
webhook-ne-process h = cc

module _ (env : Env) where
  grown-events :
      (before after : List Payout) (es : List OutboxEvent)
      → Grows before after
      → Every (EventIntact env before) es
      → Every (EventIntact env after) es
  grown-events before after es grows h =
      Every-implies _ _ es
        (λ e intact kind.
          let (client_id, there, payload) = intact kind in
          (client_id, grows client_id e.entity_id there, payload))
        h

  grown-keys :
      (before after : List Payout) (ks : List IdempotencyKey)
      → Grows before after
      → Every (KeyIntact before) ks
      → Every (KeyIntact after) ks
  grown-keys before after ks grows h =
      Every-implies _ _ ks (λ k there. grows k.client_id k.payout_id there) h

  pub add_payout-Safe : (row : Payout) → Safe (IsIntact env) (add_payout row)
  add_payout-Safe row db h = record {
    keys =
        grown-keys db.payouts (db.payouts ++ row ∷ []) db.idempotency_keys
          (λ c i there. any-before (is_payout_of c i) db.payouts row there) h.keys;
    events =
        grown-events db.payouts (db.payouts ++ row ∷ []) db.outbox_events
          (λ c i there. any-before (is_payout_of c i) db.payouts row there) h.events;
  }

  change_payout-Safe :
      (id : Uuid) (g : Payout → Payout)
      → ((c i : Uuid) (p : Payout) → is_payout_of c i (g p) ≡ is_payout_of c i p)
      → Safe (IsIntact env) (change_payout id g)
  change_payout-Safe id g keeps db h = record {
    keys =
        grown-keys db.payouts (update_where (has_id id) g db.payouts) db.idempotency_keys same
          h.keys;
    events =
        grown-events db.payouts (update_where (has_id id) g db.payouts) db.outbox_events same
          h.events;
  }
    where
      same : Grows db.payouts (update_where (has_id id) g db.payouts)
      same c i there =
          any-update_where (is_payout_of c i) (has_id id) g db.payouts (keeps c i) ∙ there

  update_event-Safe :
      (id : Uuid) (g : OutboxEvent → OutboxEvent)
      → ((ps : List Payout) (e : OutboxEvent) → EventIntact env ps e → EventIntact env ps (g e))
      → Safe (IsIntact env) (update_event id g)
  update_event-Safe id g keeps db h = record {
    keys = h.keys;
    events = Every-update_where _ (has_event_id id) g db.outbox_events (keeps db.payouts) h.events;
  }

  pub add_source-Safe : (row : FundingSource) → Safe (IsIntact env) (add_source row)
  add_source-Safe row db h = record { keys = h.keys; events = h.events }

  pub unchanged-Safe : Safe (IsIntact env) unchanged
  unchanged-Safe db h = h

  pub status_update-Safe :
      (id : Uuid) (s : Status) → SafeStatement (IsIntact env) (update_payout_status id s)
  status_update-Safe id s t db a f h =
      let (old, there, row, change) = update_payout_status-eq-ok id s t db h in
      subst (Safe (IsIntact env)) (sym change)
        (change_payout-Safe id (set_status s t.now) (λ c i p. refl))

  pub failure_update-Safe :
      (id : Uuid) (reason : PgText) → SafeStatement (IsIntact env) (update_payout_failure id reason)
  failure_update-Safe id reason t db a f h =
      let (old, there, row, change) = update_payout_failure-eq-ok id reason t db h in
      subst (Safe (IsIntact env)) (sym change)
        (change_payout-Safe id (set_failure reason t.now) (λ c i p. refl))

  -- A client's webhook event names no payout to the worker.
  pub webhook-Safe :
      (arg : CreateOutboxEventParams)
      → arg.event_type ≡ payout_result_webhook
      → SafeStatement (IsIntact env) (create_outbox_event env arg)
  webhook-Safe arg kind t db a f h =
      subst (Safe (IsIntact env)) (sym (create_outbox_event-eq-ok env arg t db h)) λ d intact.
        record {
          keys = intact.keys;
          events =
              Every-last _ d.outbox_events _ intact.events
                (λ same. absurd (webhook-ne-process (sym kind ∙ same)));
        }

  pub source-Safe :
      (arg : CreateFundingSourceParams) → SafeStatement (IsIntact env) (create_funding_source arg)
  source-Safe arg t db a f h =
      let (known, row, change) = create_funding_source-eq-ok arg t db h in
      subst (Safe (IsIntact env)) (sym change) (add_source-Safe _)

  claimed-Safe :
      (t : Tick) (old : OutboxEvent) → Safe (IsIntact env) (update_event old.id (claim t))
  claimed-Safe t old = update_event-Safe old.id (claim t) (λ ps e h. h)

  pub claim-Safe :
      (types : List EventType) (limit : Time)
      → SafeStatement (IsIntact env) (claim_statement types limit)
  claim-Safe [] limit t db a f h =
      let (old, (due, free, made, change)) = claim_next_pending-eq-ok limit t db h in
      subst (Safe (IsIntact env)) (sym change) (claimed-Safe t old)
  claim-Safe (ty ∷ types) limit t db a f h =
      let (old, wanted, (due, free, made, change)) =
        claim_next_by_types-eq-ok limit (ty ∷ types) t db h in
      subst (Safe (IsIntact env)) (sym change) (claimed-Safe t old)

  answer-Safe :
      (id : Uuid) (g : OutboxEvent → OutboxEvent) (o : Option OutboxEvent) {a : OutboxEvent}
      {f : Db → Db}
      → ((ps : List Payout) (e : OutboxEvent) → EventIntact env ps e → EventIntact env ps (g e))
      → update_answer id g o ≡ ok (a, f)
      → Safe (IsIntact env) f
  answer-Safe id g none keeps h = absurd (err-ne-ok h)
  answer-Safe id g (some e) {f = f} keeps h =
      subst (Safe (IsIntact env)) (ap (λ (p : OutboxEvent × (Db → Db)). p.1) (ok-injective h))
        (update_event-Safe id g keeps)

  pub mark-Safe : (id : Uuid) → SafeStatement (IsIntact env) (mark_outbox_event_as_processed id)
  mark-Safe id t db a f h =
      answer-Safe id (finished t.now) (find (has_event_id id) db.outbox_events) (λ ps e i. i)
        (sym (mark_outbox_event_as_processed_lem id t db refl) ∙ h)

  pub release-Safe : (id : Uuid) → SafeStatement (IsIntact env) (release_outbox_event_claim id)
  release-Safe id t db a f h =
      answer-Safe id released (find (has_event_id id) db.outbox_events) (λ ps e i. i)
        (sym (release_outbox_event_claim_lem id t db refl) ∙ h)
