-- ===== src/Execution/Record.antt =====
-- The second transaction of `HandleEvent`: the provider's answer, and the event that tells the
-- client.
use payout_orchestrator.Common.{
  ℕ, suc, ◌≡◌, refl, ap, subst, ◌∙◌, ◌⊎◌, inl, inr, true, false, some, find, ◌==◌, Bool-cases,
}
use payout_orchestrator.Status.{Status}
use payout_orchestrator.Provider.{ExecutePayoutResult}
use payout_orchestrator.Outcome.{ok}
use payout_orchestrator.Db.Models.{Time, Client, Payout, Db}
use payout_orchestrator.Db.Session.{Env, World, unchanged, advance}
use payout_orchestrator.Db.Session.Transactions.{
  IsTx, IsTx-pure, IsTx-raise, IsTx-lift, IsTx-if, IsTx-on_tx, IsTx-bind,
}
use payout_orchestrator.Db.Session.Inversion.{
  world_after, Yields, Yields-on_tx, Yields-on_tx_world, Yields-pure, Yields-raise, Yields-bind,
}
use payout_orchestrator.Db.OutboxEvents.{new_event, add_event}
use payout_orchestrator.Db.Payouts.{has_id, change_payout, set_status, set_failure}
use payout_orchestrator.Db.Effects.{
  get_client_by_id-eq-ok, create_outbox_event-eq-ok, update_payout_status-eq-ok,
  update_payout_failure-eq-ok, Updated,
}
use payout_orchestrator.Execution.{
  create_webhook_if_configured, webhook_event, no_target, target_url, reason_param, record_in_tx,
}

ruleset tx_rules = (IsTx-pure, IsTx-raise, IsTx-lift, IsTx-if, IsTx-on_tx, IsTx-bind)

-- What the client of `final` is told, from the world `w` on: the client is looked up in the tables
-- that the lookup sees; an event is added that is addressed to the client's URL, trimmed, or none if
-- the client has no URL or a blank one.
pub record Notifies (env : Env) (w : World) (final : Payout) (tell : Db → Db) : Type 0 where
  pub client : Client
  pub there :
      find (λ (c : Client). c.id == final.client_id) (w.own (advance env w).committed).clients
      ≡ some client
  pub told :
      ((no_target client ≡ true) × (tell ≡ unchanged))
      ⊎ ((no_target client ≡ false)
          × (tell
              ≡ add_event (
                  new_event env
                    (webhook_event env final (target_url client))
                    (env.tick (suc w.step)))))

module _ (env : Env) where
  webhook-IsTx : (payout : Payout) → IsTx env (create_webhook_if_configured env payout)
  unfolding create_webhook_if_configured
  webhook-IsTx payout = search tx_rules

  pub record-IsTx :
      (payout : Payout) (r : ExecutePayoutResult) (s : Status)
      → IsTx env (record_in_tx env payout r s)
  unfolding record_in_tx
  record-IsTx payout r Status.succeeded = search (tx_rules, webhook-IsTx)
  record-IsTx payout r Status.failed = search (tx_rules, webhook-IsTx)
  record-IsTx payout r _ = search tx_rules

  webhook-Yields :
      (final : Payout) (w : World)
      → Yields
          (λ _ u. (tell : Db → Db) × Notifies env w final tell × (u.own ≡ (λ db. tell (w.own db))))
          (create_webhook_if_configured env final)
          w
  unfolding create_webhook_if_configured
  webhook-Yields final w =
      Yields-bind _ _ _ w (Yields-on_tx_world env _ w) λ client u (f, answered, world).
        let (there, e) = get_client_by_id-eq-ok _ _ _ answered in
        let kept : u.own ≡ w.own = rw (world, e) refl in
        elim (Bool-cases (no_target client)) [
          | inl silent ↦ rw silent (
              Yields-pure _ tt u (
                unchanged,
                record { client = client; there = there; told = inl (silent, refl) },
                kept,
              ))
          | inr loud ↦ rw loud (
              Yields-bind _ _ _ u (Yields-on_tx env _ u) λ event v (g, added, own').
                let made = create_outbox_event-eq-ok env _ _ _ added in
                let next : u.step ≡ suc w.step = rw world refl in
                Yields-pure _ tt v (
                  g,
                  record {
                    client = client;
                    there = there;
                    told = inr (
                      loud,
                      made
                          ∙ ap
                              (λ (n : ℕ). add_event (
                                new_event env (webhook_event env final (target_url client))
                                  (env.tick n)))
                              next,
                    );
                  },
                  own' ∙ rw kept refl,
                ))
        ]

-- The status and the reason that the provider's answer `r` gives a payout, at a time.
pub data Final (r : ExecutePayoutResult) (now : Time) : (Payout → Payout) → Type 0 where
  as_succeeded : r.status ≡ Status.succeeded → Final r now (set_status Status.succeeded now)
  as_failed :
      r.status ≡ Status.failed → Final r now (set_failure (reason_param r.failure_reason) now)

-- What the transaction has written for the answer `r` about `payout`: the final status, with the
-- reason of a failure, on the payout's row `old`, and what the client of the changed row is told.
pub record Recorded (env : Env) (w : World) (payout : Payout) (r : ExecutePayoutResult) (u : World)
    : Type 0 where
  pub change : Payout → Payout
  pub final : Final r (env.tick w.step).now change
  pub old : Payout
  pub there : find (has_id payout.id) (w.own (advance env w).committed).payouts ≡ some old
  pub tell : Db → Db
  pub notifies : Notifies env (world_after env w (change_payout payout.id change)) (change old) tell
  pub writes : u.own ≡ (λ db. tell (change_payout payout.id change (w.own db)))

module _ (env : Env) (payout : Payout) (r : ExecutePayoutResult) where
  -- Behind an update of the payout's row.
  after_update-Yields :
      (w v : World) (change : Payout → Payout) (final : Payout) (f : Db → Db)
      → Final r (env.tick w.step).now change
      → Updated payout.id change (w.own (advance env w).committed) final f
      → v ≡ world_after env w f
      → Yields (λ _ u. Recorded env w payout r u) (create_webhook_if_configured env final) v
  after_update-Yields w v change final f is (old, there, made, changed) world =
      let reached : v ≡ world_after env w (change_payout payout.id change) =
        world ∙ ap (world_after env w) changed in
      record {
        at = λ a u h.
            let (tell, told, own) = (webhook-Yields env final v).at a u h in
            record {
              change = change;
              final = is;
              old = old;
              there = there;
              tell = tell;
              notifies =
                  subst (λ (q : World × Payout). Notifies env q.0 q.1 tell)
                    (λ i. (reached i, made i)) told;
              writes = own ∙ rw reached refl;
            };
      }

  of_status :
      (s : Status) (w : World)
      → r.status ≡ s
      → Yields (λ _ u. Recorded env w payout r u) (record_in_tx env payout r s) w
  unfolding record_in_tx
  of_status Status.succeeded w e =
      Yields-bind _ _ _ w (Yields-on_tx_world env _ w) λ final v (f, answered, world).
        after_update-Yields w v _ final f (as_succeeded e)
          (update_payout_status-eq-ok _ _ _ _ answered) world
  of_status Status.failed w e =
      Yields-bind _ _ _ w (Yields-on_tx_world env _ w) λ final v (f, answered, world).
        after_update-Yields w v _ final f (as_failed e)
          (update_payout_failure-eq-ok _ _ _ _ answered) world
  of_status _ w e = Yields-raise _ _ w

  pub record-Yields :
      (w : World) → Yields (λ _ u. Recorded env w payout r u) (record_in_tx env payout r r.status) w
  record-Yields w = of_status r.status w refl

  -- Where the second transaction's callback reports success, the provider's answer was success or
  -- failure; the payout has that final status, with the reason of a failure, NULL if it is blank;
  -- and exactly one webhook event is added if the client has a URL that is not blank, and none if
  -- it has not.
  pub record-Recorded :
      (w : World) {u : World}
      → record_in_tx env payout r r.status w ≡ (ok tt, u)
      → Recorded env w payout r u
  record-Recorded w {u} h = (record-Yields w).at tt u h
