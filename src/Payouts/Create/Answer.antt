-- ===== src/Payouts/Create/Answer.antt =====
-- What it means that `CreatePayout` answers with a payout.
use payout_orchestrator.Common.{
  ◌≡◌, refl, sym, ap, subst, ◌∙◌, ◌⊎◌, inl, inr, Bool, true, false, some, find, Bool-cases,
}
use payout_orchestrator.Text.{text_eq, text_eq_iff}
use payout_orchestrator.Money.{numeric_string}
use payout_orchestrator.Outcome.{
  Error, Result, ok, err, is_concurrent_insert, is_no_rows, idempotency_conflict,
}
use payout_orchestrator.Db.Models.{IdempotencyKey, Payout, Db, zero_payout}
use payout_orchestrator.Db.Session
use payout_orchestrator.Db.Session.{
  Env, World, Action, continue, pure, raise, lift, ◌>>=◌, with_result, advance, on_pool,
}
use payout_orchestrator.Db.Session.Inversion.{
  err-ne-ok, Yields, Yields-pure, Yields-raise, Yields-bind, Yields-with_result,
}
use payout_orchestrator.Db.Session.Pool.{Yields-on_pool}
use payout_orchestrator.Db.Session.Reports.{Took, within_tx-eq-ok}
use payout_orchestrator.Db.Session.Transactions.{Others, Others-trans, Others-advance}
use payout_orchestrator.Db.IdempotencyKeys.{is_key_of, get_idempotency_key}
use payout_orchestrator.Db.Payouts.{is_payout_of}
use payout_orchestrator.Db.Effects.{get_idempotency_key-eq-ok, get_payout_by_client_id-eq-ok}
use payout_orchestrator.Payouts.Store.{db_tx_runner, pool_store, tx_store, within_tx}
use payout_orchestrator.Payouts.Validation.{Request, CreatePayoutInput, validate}
use payout_orchestrator.Payouts.View
use payout_orchestrator.Payouts.View.{payout_from_db}
use payout_orchestrator.Payouts.Create.{
  found_key, load_idempotent_payout, create_in_tx, after_tx, create_configured, create_payout,
}
use payout_orchestrator.Payouts.Create.Atomic.{Intake, create_in_tx-IsTx, create_in_tx-Yields}
use payout_orchestrator.Payouts.Create.AllOrNothing.{api_service}

-- What is answered from the pool, from the world `v` on: the client's key was in the tables, with the
-- hash of the request, and the row is the client's payout that this key names, in tables that others
-- alone had changed meanwhile.
pub record Loaded (env : Env) (req : Request) (v : World) (row : Payout) : Type 0 where
  pub key : IdempotencyKey
  pub key_found :
      find (is_key_of req.client_id req.idempotency_key) (advance env v).committed.idempotency_keys
      ≡ some key
  pub same_hash : key.request_hash ≡ req.request_hash
  pub seen : Db
  pub reached : Others env v.committed seen
  pub found : find (is_payout_of req.client_id key.payout_id) seen.payouts ≡ some row

-- How the row that is answered was come by.
pub data Source (env : Env) (req : Request) (w : World) (row : Payout) : Type 0 where
  from_tx :
      (v : World) (took : Took env (create_in_tx env req (tx_store env)) w row v)
      → Intake env req took.start row took.last
      → Source env req w row
  from_winner :
      (e : Error) (v : World)
      → is_concurrent_insert e ≡ true
      → Session.within_tx env (create_in_tx env req (tx_store env)) w ≡ (err e, v)
      → Loaded env req v row
      → Source env req w row

pub record Answer (env : Env) (input : CreatePayoutInput) (w : World) (p : View.Payout)
    : Type 0 where
  pub req : Request
  pub valid : validate env input ≡ ok req
  pub row : Payout
  pub shown : payout_from_db env row ≡ ok p
  pub source : Source env req w row

module _ (env : Env) (req : Request) where
  -- A key that is not found leaves the empty row.
  abbrev LoadedOr : World → Payout × Bool → World → Type 0
  LoadedOr v p _ = Loaded env req v p.0 ⊎ (p.0 ≡ zero_payout)

  found_key-Loaded :
      (v u : World) (key : IdempotencyKey)
      → find
          (is_key_of req.client_id req.idempotency_key)
          (advance env v).committed.idempotency_keys
        ≡ some key
      → Others env v.committed u.committed
      → Yields (LoadedOr v) (found_key (pool_store env) req.client_id req.request_hash (ok key)) u
  unfolding found_key
  found_key-Loaded v u key key_found kept =
      elim (Bool-cases (text_eq key.request_hash req.request_hash)) [
        | inl same ↦ rw same (
            Yields-bind _ _ _ u (Yields-on_pool env _ u) λ row x (f, answered, _).
              Yields-pure _ (row, true) x
                (inl (record {
                  key = key;
                  key_found = key_found;
                  same_hash = (text_eq_iff _ _).0 same;
                  seen = (advance env u).committed;
                  reached = Others-trans kept (Others-advance env u);
                  found = (get_payout_by_client_id-eq-ok _ _ _ _ answered).0;
                })))
        | inr differs ↦ rw differs (Yields-raise _ idempotency_conflict u)
      ]

  missing_key-Loaded :
      (v u : World) (e : Error)
      → Yields (LoadedOr v) (found_key (pool_store env) req.client_id req.request_hash (err e)) u
  unfolding found_key
  missing_key-Loaded v u e = elim (Bool-cases (is_no_rows e)) [
    | inl new ↦ rw new (Yields-pure _ (zero_payout, false) u (inr refl))
    | inr other ↦ rw other (Yields-raise _ e u)
  ]

  load-Loaded :
      (v : World)
      → Yields
          (LoadedOr v)
          (load_idempotent_payout
            (pool_store env)
            req.client_id
            req.idempotency_key
            req.request_hash)
          v
  unfolding load_idempotent_payout
  load-Loaded v = Yields-with_result _ _ _ v go
    where
      go :
          (r : Result IdempotencyKey) (u : World)
          → on_pool env (get_idempotency_key req.client_id req.idempotency_key) v ≡ (r, u)
          → Yields (LoadedOr v) (found_key (pool_store env) req.client_id req.request_hash r) u
      go (err e) u h = missing_key-Loaded v u e
      go (ok key) u h =
          let (f, answered, changed) = (Yields-on_pool env _ v).at key u h in
          let (there, e) = get_idempotency_key-eq-ok _ _ _ _ answered in
          found_key-Loaded v u key there (
            subst (λ (d : Db). Others env v.committed d) (sym (changed ∙ rw e refl))
              (Others-advance env v))

  row-Yields :
      (w : World)
      → Yields
          (λ row _. Source env req w row ⊎ (row ≡ zero_payout))
          (with_result
            (within_tx env (db_tx_runner true) (create_in_tx env req))
            (after_tx env req (pool_store env)))
          w
  unfolding within_tx after_tx
  row-Yields w = Yields-with_result _ _ _ w go
    where
      go :
          (r : Result Payout) (v : World)
          → Session.within_tx env (create_in_tx env req (tx_store env)) w ≡ (r, v)
          → Yields
              (λ row _. Source env req w row ⊎ (row ≡ zero_payout))
              (after_tx env req (pool_store env) r)
              v
      go (ok row) v ran =
          let took = within_tx-eq-ok env _ (create_in_tx-IsTx env req) w ran in
          Yields-pure _ row v (
            inl
              (from_tx v took ((create_in_tx-Yields env req took.start).at row took.last took.ran)))
      go (err e) v ran = elim (Bool-cases (is_concurrent_insert e)) [
        | inl lost ↦ rw lost (
            Yields-bind _ _ _ v (load-Loaded v) λ p u loaded.
              Yields-pure _ p.0 u
                (elim loaded [ inl l ↦ inl (from_winner e v lost ran l) | inr empty ↦ inr empty ]))
        | inr other ↦ rw other (Yields-raise _ e v)
      ]

  -- The empty row is no payout that can be shown.
  zero_payout-refused :
      (row : Payout) {p : View.Payout} → row ≡ zero_payout → payout_from_db env row ≡ ok p → ⊥
  unfolding payout_from_db numeric_string
  zero_payout-refused row empty shown = err-ne-ok (rw empty at shown)

module _ (env : Env) (input : CreatePayoutInput) where
  pub create_payout-Answer :
      (w : World) {p : View.Payout} {u : World}
      → create_payout env (api_service env) input w ≡ (ok p, u)
      → Answer env input w p
  unfolding create_payout create_configured
  create_payout-Answer w {p} {u} h = (go (validate env input) refl).at p u h
    where
      rest : Request → Action View.Payout
      rest req =
          with_result (within_tx env (db_tx_runner true) (create_in_tx env req))
            (after_tx env req (pool_store env))
          >>= λ row. lift (payout_from_db env row)

      shows :
          (req : Request) (row : Payout) {q : View.Payout}
          → validate env input ≡ ok req
          → payout_from_db env row ≡ ok q
          → Source env req w row ⊎ (row ≡ zero_payout)
          → Answer env input w q
      shows req row valid shown (inl source) = record {
        req = req;
        valid = valid;
        row = row;
        shown = shown;
        source = source;
      }
      shows req row valid shown (inr empty) = absurd (zero_payout-refused env req row empty shown)

      go :
          (r : Result Request)
          → validate env input ≡ r
          → Yields (λ q _. Answer env input w q) (λ v. continue r rest v) w
      go (err e) refused = Yields-raise _ e w
      go (ok req) valid = record {
        at = λ q x h'.
            (Yields-bind (λ q _. Answer env input w q) _ (λ row. lift (payout_from_db env row)) w
                (row-Yields env req w)
                λ row v source. record {
                  at = λ q' x' k.
                      shows req row valid (ap (λ (z : Result View.Payout × World). z.0) k) source;
                }).at
              q x h';
      }
