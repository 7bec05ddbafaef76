-- ===== src/Payouts/Create/Atomic.antt =====
-- The callback of `CreatePayout`: what it writes, and what it answers from.
use payout_orchestrator.Common.{
  ◌≡◌, refl, sym, ap, ◌∙◌, ◌⊎◌, inl, inr, Bool, true, false, some, find, if◌then◌else◌, Bool-cases,
}
use payout_orchestrator.Text.{Text, text_eq, text_eq_iff}
use payout_orchestrator.Money.{Numeric}
use payout_orchestrator.Outcome.{Error, Result, ok, err, is_no_rows, idempotency_conflict}
use payout_orchestrator.Db.Models.{Uuid, IdempotencyKey, OutboxEvent, Payout, Db, zero_payout}
use payout_orchestrator.Db.Session.{Env, Tick, World, pure, advance, on_tx}
use payout_orchestrator.Db.Session.Transactions.{
  IsTx, IsTx-pure, IsTx-raise, IsTx-lift, IsTx-if, IsTx-on_tx, IsTx-with_result, IsTx-bind,
}
use payout_orchestrator.Db.Session.Inversion.{
  Yields, Yields-on_tx, Yields-pure, Yields-raise, Yields-bind, Yields-with_result, own-on_tx_err,
}
use payout_orchestrator.Db.IdempotencyKeys.{new_key, add_key, is_key_of, get_idempotency_key}
use payout_orchestrator.Db.OutboxEvents.{new_event, add_event}
use payout_orchestrator.Db.Payouts.{new_payout, add_payout, is_payout_of}
use payout_orchestrator.Db.Effects.{
  create_payout-eq-ok, create_idempotency_key-eq-ok, create_outbox_event-eq-ok,
  get_idempotency_key-eq-ok, get_payout_by_client_id-eq-ok, get_funding_source_by_client_id-eq-ok,
}
use payout_orchestrator.Payouts.Store.{tx_store}
use payout_orchestrator.Payouts.Store.Catching.{Yields-catching}
use payout_orchestrator.Payouts.Validation.{Request}
use payout_orchestrator.Payouts.Create.{
  found_key, load_idempotent_payout, missing_source, duplicate, raced, process_event, payout_params,
  key_params, create_new, create_in_tx,
}

ruleset tx_rules =
    (IsTx-pure, IsTx-raise, IsTx-lift, IsTx-if, IsTx-on_tx, IsTx-with_result, IsTx-bind)

module _ (env : Env) where
  found_key-IsTx :
      (client_id : Uuid) (hash : Text) (r : Result IdempotencyKey)
      → IsTx env (found_key (tx_store env) client_id hash r)
  unfolding found_key
  found_key-IsTx client_id hash (err e) = search tx_rules
  found_key-IsTx client_id hash (ok k) = search tx_rules

  load-IsTx :
      (client_id : Uuid) (key hash : Text)
      → IsTx env (load_idempotent_payout (tx_store env) client_id key hash)
  unfolding load_idempotent_payout
  load-IsTx client_id key hash = search (tx_rules, found_key-IsTx)

  create_new-IsTx : (req : Request) → IsTx env (create_new env req (tx_store env))
  unfolding create_new
  create_new-IsTx req = search tx_rules

  -- The callback itself commits nothing.
  pub create_in_tx-IsTx : (req : Request) → IsTx env (create_in_tx env req (tx_store env))
  unfolding create_in_tx
  create_in_tx-IsTx req = search (tx_rules, load-IsTx, create_new-IsTx)

-- The three rows of a new payout, for the request that asks for it.
pub record NewRows (env : Env) (req : Request) (row : Payout) (key : IdempotencyKey)
    (event : OutboxEvent) : Type 0 where
  -- the amount is what the column keeps of the request's
  pub amount : Numeric
  pub kept : env.stored_amount req.amount ≡ some amount
  pub row_tick : Tick
  pub row_made : row ≡ new_payout (payout_params req) amount row_tick
  pub key_tick : Tick
  pub key_made : key ≡ new_key (key_params req row.id) key_tick
  pub event_tick : Tick
  pub event_made : event ≡ new_event env (process_event env row) event_tick

abbrev pub all_rows : Payout → IdempotencyKey → OutboxEvent → Db → Db
all_rows row key event db = add_event event (add_key key (add_payout row db))

writes_compose :
    {g0 g1 g2 g3 g4 f1 f2 f3 f4 h1 h2 h3 h4 : Db → Db}
    → g1 ≡ (λ db. f1 (g0 db))
    → g2 ≡ (λ db. f2 (g1 db))
    → g3 ≡ (λ db. f3 (g2 db))
    → g4 ≡ (λ db. f4 (g3 db))
    → f1 ≡ h1
    → f2 ≡ h2
    → f3 ≡ h3
    → f4 ≡ h4
    → g4 ≡ (λ db. h4 (h3 (h2 (h1 (g0 db)))))
writes_compose o1 o2 o3 o4 e1 e2 e3 e4 = rw (o4, o3, o2, o1, e4, e3, e2, e1) refl

-- What the writes of a successful callback are, for a new key.
abbrev NewIntake : Env → Request → World → Payout → World → Type 0
NewIntake env req w row u =
    (key : IdempotencyKey) × (event : OutboxEvent) × NewRows env req row key event
    × (u.own ≡ (λ db. all_rows row key event (w.own db)))

module _ (env : Env) (req : Request) where
  create_new-Yields :
      (w : World) → Yields (NewIntake env req w) (create_new env req (tx_store env)) w
  unfolding create_new
  create_new-Yields w =
      Yields-bind _ _ _ w (Yields-catching missing_source _ w (Yields-on_tx env _ w))
        λ source w1 (f1, a1, o1).
          Yields-bind _ _ _ w1 (Yields-catching duplicate _ w1 (Yields-on_tx env _ w1))
            λ created w2 (f2, a2, o2).
              Yields-bind _ _ _ w2 (Yields-catching raced _ w2 (Yields-on_tx env _ w2))
                λ key w3 (f3, a3, o3).
                  Yields-bind _ _ _ w3 (Yields-on_tx env _ w3) λ event w4 (f4, a4, o4).
                    let e1 = get_funding_source_by_client_id-eq-ok _ _ _ _ a1 in
                    let (amount, kept, _, made, e2) = create_payout-eq-ok env _ _ _ a2 in
                    let e3 = create_idempotency_key-eq-ok _ _ _ a3 in
                    let e4 = create_outbox_event-eq-ok env _ _ _ a4 in
                    Yields-pure _ created w4 (
                      new_key (key_params req created.id) (env.tick w2.step),
                      new_event env (process_event env created) (env.tick w3.step),
                      record {
                        amount = amount;
                        kept = kept;
                        row_tick = env.tick w1.step;
                        row_made = made;
                        key_tick = env.tick w2.step;
                        key_made = refl;
                        event_tick = env.tick w3.step;
                        event_made = refl;
                      },
                      writes_compose o1 o2 o3 o4 e1 (e2 ∙ ap add_payout (sym made)) e3 e4,
                    )

  -- What a successful callback has done: answered from a key that was there with the request's
  -- hash, and written nothing, or written the three rows.
  pub data Intake (w : World) (row : Payout) (u : World) : Type 0 where
    replayed :
        (seen : Db) (key : IdempotencyKey)
        → find (is_key_of req.client_id req.idempotency_key) seen.idempotency_keys ≡ some key
        → key.request_hash ≡ req.request_hash
        → (seen' : Db) → find (is_payout_of req.client_id key.payout_id) seen'.payouts ≡ some row
        → u.own ≡ w.own
        → Intake w row u
    taken_in : NewIntake env req w row u → Intake w row u

  -- What `loadIdempotentPayout` answers: a payout that was found, or that the key is new.
  abbrev Loaded : World → Payout × Bool → World → Type 0
  Loaded start (row, found) u =
      ((found ≡ true) × Intake start row u) ⊎ ((found ≡ false) × (u.own ≡ start.own))

  known_key-Yields :
      (start w : World) (key : IdempotencyKey) (seen : Db)
      → find (is_key_of req.client_id req.idempotency_key) seen.idempotency_keys ≡ some key
      → w.own ≡ start.own
      → Yields (Loaded start) (found_key (tx_store env) req.client_id req.request_hash (ok key)) w
  unfolding found_key
  known_key-Yields start w key seen found own =
      elim (Bool-cases (text_eq key.request_hash req.request_hash)) [
        | inl same ↦ rw same (
            Yields-bind _ _ _ w (Yields-on_tx env _ w) λ payout u (f, answered, o).
              let (there, e) = get_payout_by_client_id-eq-ok _ _ _ _ answered in
              Yields-pure _ (payout, true) u
                (inl (
                  refl,
                  replayed seen key found ((text_eq_iff _ _).0 same)
                      (w.own (advance env w).committed) there (rw (o, e) own),
                )))
        | inr differs ↦ rw differs (Yields-raise _ idempotency_conflict w)
      ]

  lookup_failed-Yields :
      (start w : World) (e : Error)
      → w.own ≡ start.own
      → Yields (Loaded start) (found_key (tx_store env) req.client_id req.request_hash (err e)) w
  unfolding found_key
  lookup_failed-Yields start w e own = elim (Bool-cases (is_no_rows e)) [
    | inl new ↦ rw new (Yields-pure _ (zero_payout, false) w (inr (refl, own)))
    | inr other ↦ rw other (Yields-raise _ e w)
  ]

  load-Yields :
      (w : World)
      → Yields
          (Loaded w)
          (load_idempotent_payout (tx_store env) req.client_id req.idempotency_key req.request_hash)
          w
  unfolding load_idempotent_payout
  load-Yields w = Yields-with_result _ _ _ w (go w)
    where
      go :
          (start : World) (r : Result IdempotencyKey) (u : World)
          → on_tx env (get_idempotency_key req.client_id req.idempotency_key) start ≡ (r, u)
          → Yields (Loaded start) (found_key (tx_store env) req.client_id req.request_hash r) u
      go start (err e) u h = lookup_failed-Yields start u e (own-on_tx_err env _ start h)
      go start (ok key) u h =
          let (f, answered, o) = (Yields-on_tx env _ start).at key u h in
          let (there, e) = get_idempotency_key-eq-ok _ _ _ _ answered in
          known_key-Yields start u key (start.own (advance env start).committed) there
            (rw (o, e) refl)

  -- What the callback of `CreatePayout` has done where it succeeds.
  pub create_in_tx-Yields : (w : World) → Yields (Intake w) (create_in_tx env req (tx_store env)) w
  unfolding create_in_tx
  create_in_tx-Yields w = Yields-bind _ _ _ w (load-Yields w) λ p u loaded. after_load p u loaded
    where
      after_load :
          (p : Payout × Bool) (u : World)
          → Loaded w p u
          → Yields (Intake w) (if p.1 then pure p.0 else create_new env req (tx_store env)) u
      after_load (row, true) u (inl (_, taken)) = Yields-pure _ row u taken
      after_load (row, false) u (inl (no_way, _)) = cc
      after_load (row, true) u (inr (no_way, _)) = cc
      after_load (row, false) u (inr (_, own)) = record {
        at = λ a v h.
            let (key, event, rows, o) = (create_new-Yields u).at a v h in
            taken_in (key, event, rows, rw (← own) o);
      }
