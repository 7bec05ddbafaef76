-- ===== src/Execution/Prepare.antt =====
-- The first transaction of `HandleEvent`: which payouts it lets through to the provider.
use payout_orchestrator.Common.{◌≡◌, refl, ap, ◌∙◌, true, false, some, find, find-eq-some, ==_iff}
use payout_orchestrator.Money.{numeric_string}
use payout_orchestrator.Status.{Status}
use payout_orchestrator.Outcome.{ok}
use payout_orchestrator.Db.Models.{Uuid, Time, FundingSource, Payout, Db}
use payout_orchestrator.Db.Session.{Env, World, advance}
use payout_orchestrator.Db.Session.Transactions.{
  Others, IsTx, IsTx-pure, IsTx-raise, IsTx-lift, IsTx-if, IsTx-on_tx, IsTx-bind, Others-advance,
}
use payout_orchestrator.Db.Session.Inversion.{
  Yields, Yields-on_tx, Yields-pure, Yields-raise, Yields-bind, Yields-lift,
}
use payout_orchestrator.Db.Payouts.{is_payout_of, has_id, change_payout, set_status}
use payout_orchestrator.Db.Effects.{
  get_payout_by_client_id-eq-ok, get_funding_source_by_client_id-eq-ok, update_payout_status-eq-ok,
}
use payout_orchestrator.Execution.{
  ParsedPayload, PreparedExecution, ready, prepare_by_status, prepare_execution_in_tx,
}

ruleset tx_rules = (IsTx-pure, IsTx-raise, IsTx-lift, IsTx-if, IsTx-on_tx, IsTx-bind)

-- What the transaction writes, by the status that it found: a pending payout goes to processing.
abbrev pub marks : Status → Uuid → Time → Db → Db
marks Status.pending id now db = change_payout id (set_status Status.processing now) db
marks _ id now db = db

-- The payout goes on to the provider if it was pending or is being processed, with the text of its
-- amount, and is left alone if it has succeeded. No other status comes through.
abbrev pub GoesOn : PreparedExecution → Type 0
GoesOn p =
    (p.should_execute ≡ true)
    × (p.payout.status ≡ Status.processing)
    × (numeric_string p.payout.amount ≡ ok p.amount)

abbrev pub LetsThrough : Status → PreparedExecution → Type 0
LetsThrough Status.pending p = GoesOn p
LetsThrough Status.processing p = GoesOn p
LetsThrough Status.succeeded p = p.should_execute ≡ false
LetsThrough Status.failed p = ⊥
LetsThrough (Status.other s) p = ⊥

pub record Prepared (env : Env) (payload : ParsedPayload) (w : World) (p : PreparedExecution)
    (u : World) : Type 0 where
  -- the row that was found, by the client and the id of the event, and the tables that held it
  pub moment : Db
  pub reached : Others env w.committed moment
  pub row : Payout
  pub there :
      find (is_payout_of payload.client_id payload.payout_id) (w.own moment).payouts ≡ some row
  pub same_payout : p.payout.id ≡ row.id
  pub lets_through : LetsThrough row.status p
  pub now : Time
  pub writes : u.own ≡ (λ db. marks row.status row.id now (w.own db))

module _ (env : Env) where
  ready-IsTx : (payout : Payout) (source : FundingSource) → IsTx env (ready payout source)
  unfolding ready
  ready-IsTx payout source = search tx_rules

  prepare_by_status-IsTx :
      (s : Status) (payout : Payout) (source : FundingSource)
      → IsTx env (prepare_by_status env s payout source)
  unfolding prepare_by_status
  prepare_by_status-IsTx Status.pending payout source = search (tx_rules, ready-IsTx)
  prepare_by_status-IsTx Status.processing payout source = ready-IsTx payout source
  prepare_by_status-IsTx _ payout source = search tx_rules

  pub prepare-IsTx : (payload : ParsedPayload) → IsTx env (prepare_execution_in_tx env payload)
  unfolding prepare_execution_in_tx
  prepare-IsTx payload = search (tx_rules, prepare_by_status-IsTx)

  ready-Yields :
      (payout : Payout) (source : FundingSource) (w : World)
      → Yields
          (λ (p : PreparedExecution) u.
            (p.should_execute ≡ true)
            × (p.payout ≡ payout)
            × (numeric_string payout.amount ≡ ok p.amount)
            × (u.own ≡ w.own))
          (ready payout source)
          w
  unfolding ready
  ready-Yields payout source w =
      Yields-bind _ _ _ w (Yields-lift (numeric_string payout.amount) w)
        λ amount u (printed, own). Yields-pure _ _ u (refl, refl, printed, own)

  -- The `switch`, for a row that was found with the status `s`.
  Switched : Status → Payout → World → PreparedExecution → World → Type 0
  Switched s row w p u =
      (now : Time) × (p.payout.id ≡ row.id)
      × LetsThrough s p
      × (u.own ≡ (λ db. marks s row.id now (w.own db)))

  prepare_by_status-Yields :
      (s : Status) (row : Payout) (source : FundingSource) (w : World)
      → row.status ≡ s
      → Yields (Switched s row w) (prepare_by_status env s row source) w
  unfolding prepare_by_status Switched
  prepare_by_status-Yields Status.pending row source w e =
      Yields-bind _ _ _ w (Yields-on_tx env _ w) λ updated u (f, answered, own).
        let (old, there, made, change) = update_payout_status-eq-ok _ _ _ _ answered in
        record {
          at = λ p v h.
              let (go, same, printed, kept) = (ready-Yields updated source u).at p v h in
              (
                (env.tick w.step).now,
                ap (λ (q : Payout). q.id) (same ∙ made)
                    ∙ (==_iff old.id row.id).0 (find-eq-some (has_id row.id) _ there),
                (
                  go,
                  ap (λ (q : Payout). q.status) (same ∙ made),
                  ap (λ (q : Payout). numeric_string q.amount) same ∙ printed,
                ),
                kept ∙ rw change at own,
              );
        }
  prepare_by_status-Yields Status.processing row source w e = record {
    at = λ p v h.
        let (go, same, printed, kept) = (ready-Yields row source w).at p v h in
        (
          0,
          ap (λ (q : Payout). q.id) same,
          (
            go,
            ap (λ (q : Payout). q.status) same ∙ e,
            ap (λ (q : Payout). numeric_string q.amount) same ∙ printed,
          ),
          kept,
        );
  }
  prepare_by_status-Yields Status.succeeded row source w e = Yields-pure _ _ w (0, refl, refl, refl)
  prepare_by_status-Yields Status.failed row source w e = Yields-raise _ _ w
  prepare_by_status-Yields (Status.other s) row source w e = Yields-raise _ _ w

  pub prepare-Yields :
      (payload : ParsedPayload) (w : World)
      → Yields (Prepared env payload w) (prepare_execution_in_tx env payload) w
  unfolding prepare_execution_in_tx Switched
  prepare-Yields payload w = Yields-bind _ _ _ w (Yields-on_tx env _ w) λ row w1 (f1, a1, o1).
      let (there, e1) = get_payout_by_client_id-eq-ok _ _ _ _ a1 in
      Yields-bind _ _ _ w1 (Yields-on_tx env _ w1) λ source w2 (f2, a2, o2).
        let e2 = get_funding_source_by_client_id-eq-ok _ _ _ _ a2 in
        let same : w2.own ≡ w.own = rw (o2, e2, o1, e1) refl in
        record {
          at = λ p u h.
              let (now, same_id, through, writes) =
                (prepare_by_status-Yields row.status row source w2 refl).at p u h in
              record {
                moment = (advance env w).committed;
                reached = Others-advance env w;
                row = row;
                there = there;
                same_payout = same_id;
                lets_through = through;
                now = now;
                writes = rw same at writes;
              };
        }

  -- Where the first transaction's callback reports a result, the payout is one of the event's client
  -- and is pending, processing or succeeded in the tables that it was read from. A pending payout is
  -- moved to processing, which is all that the callback writes; pending and processing payouts go on
  -- to the provider, with the text of the row's amount, and a succeeded one does not.
  pub prepare-Prepared :
      (payload : ParsedPayload) (w : World) {p : PreparedExecution} {u : World}
      → prepare_execution_in_tx env payload w ≡ (ok p, u)
      → Prepared env payload w p u
  prepare-Prepared payload w {p} {u} h = (prepare-Yields payload w).at p u h
