-- ===== src/Execution/Finish.antt =====
-- What it means that `HandleEvent` reports success, after which the worker acknowledges the message.
use payout_orchestrator.Common.{
  ◌≡◌, refl, ◌⊎◌, inl, inr, Bool, true, false, some, ◌∷◌, if◌then◌else◌,
}
use payout_orchestrator.Outcome.{Result, ok, err}
use payout_orchestrator.Provider.{ExecutePayoutResult, PayoutProvider}
use payout_orchestrator.Db.Models.{EventType, process_payout, payout_result_webhook, other_type}
use payout_orchestrator.Db.Session.{Env, World, Action, continue, pure, ◌>>=◌}
use payout_orchestrator.Db.Session.Inversion.{Yields, Yields-pure, Yields-raise, Yields-bind}
use payout_orchestrator.Db.Session.Reports.{Took, within_tx-eq-ok, Yields-within_tx}
use payout_orchestrator.Outbox.Event.{Event}
use payout_orchestrator.Execution.{
  ParsedPayload, PreparedExecution, parse_payload, prepare_execution_in_tx, record_in_tx,
  record_execution_result, provider_input, ask, execute_prepared, handle_payload, handle_typed,
  handle_event,
}
use payout_orchestrator.Execution.Prepare.{Prepared, prepare-IsTx, prepare-Yields}
use payout_orchestrator.Execution.Record.{Recorded, record-IsTx, record-Yields}

-- The world when the provider has been asked.
abbrev pub asking : Env → PreparedExecution → World → World
asking env p w = record w { asked = provider_input env p ∷ w.asked }

-- The provider's answer to the request about `p`, and the transaction that has recorded it.
pub record Answered (env : Env) (provider : PayoutProvider) (p : PreparedExecution) (w u : World)
    : Type 0 where
  pub answer : ExecutePayoutResult
  pub said : provider.execute_payout w.step (provider_input env p) ≡ ok answer
  pub took : Took env (record_in_tx env p.payout answer answer.status) (asking env p w) tt u
  pub recorded : Recorded env took.start p.payout answer took.last

-- The first transaction's writes are in the tables. If the payout was to be executed, the provider
-- has answered and the answer's writes are in the tables as well; if not, nothing else happened.
pub record Finished (env : Env) (provider : PayoutProvider) (event : Event) (w u : World)
    : Type 0 where
  pub payload : ParsedPayload
  pub named : parse_payload env event.payload ≡ ok payload
  pub prepared : PreparedExecution
  pub between : World
  pub took : Took env (prepare_execution_in_tx env payload) w prepared between
  pub passed : Prepared env payload took.start prepared took.last
  pub rest :
      ((prepared.should_execute ≡ false) × (u ≡ between))
      ⊎ ((prepared.should_execute ≡ true) × Answered env provider prepared between u)

module _ (env : Env) (provider : PayoutProvider) where
  answered :
      (p : PreparedExecution) (w : World) (x : Result ExecutePayoutResult)
      → provider.execute_payout w.step (provider_input env p) ≡ x
      → Yields
          (λ _ u. Answered env provider p w u)
          (λ v. continue x (record_execution_result env p) v)
          (asking env p w)
  unfolding record_execution_result
  answered p w (err e) said = Yields-raise _ e (asking env p w)
  answered p w (ok r) said = record {
    at = λ _ u h.
        let took = within_tx-eq-ok env _ (record-IsTx env p.payout r r.status) (asking env p w) h in
        record {
          answer = r;
          said = said;
          took = took;
          recorded = (record-Yields env p.payout r took.start).at tt took.last took.ran;
        };
  }

  execute-Yields :
      (p : PreparedExecution) (w : World)
      → Yields
          (λ _ u.
            ((p.should_execute ≡ false) × (u ≡ w))
            ⊎ ((p.should_execute ≡ true) × Answered env provider p w u))
          (execute_prepared env provider p)
          w
  unfolding execute_prepared ask
  execute-Yields p w = by_due p.should_execute refl
    where
      call : Action (Unit {0})
      call = ask provider (provider_input env p) >>= λ r. record_execution_result env p r

      by_due :
          (b : Bool)
          → p.should_execute ≡ b
          → Yields
              (λ _ u.
                ((p.should_execute ≡ false) × (u ≡ w))
                ⊎ ((p.should_execute ≡ true) × Answered env provider p w u))
              (if b then call else pure tt)
              w
      by_due true due = record { at = λ a u h. inr (due, (answered p w _ refl).at a u h) }
      by_due false skipped = Yields-pure _ _ w (inl (skipped, refl))

  payload-Yields :
      (event : Event) (payload : ParsedPayload) (w : World)
      → parse_payload env event.payload ≡ ok payload
      → Yields (λ _ u. Finished env provider event w u) (handle_payload env provider payload) w
  unfolding handle_payload
  payload-Yields event payload w named =
      Yields-bind _ _ _ w (Yields-within_tx env _ (prepare-IsTx env payload) w) λ p x took. record {
        at = λ a u h. record {
          payload = payload;
          named = named;
          prepared = p;
          between = x;
          took = took;
          passed = (prepare-Yields env payload took.start).at p took.last took.ran;
          rest = (execute-Yields p x).at a u h;
        };
      }

  parsed-Yields :
      (event : Event) (x : Result ParsedPayload) (w : World)
      → parse_payload env event.payload ≡ x
      → Yields
          (λ _ u. Finished env provider event w u)
          (λ v. continue x (handle_payload env provider) v)
          w
  parsed-Yields event (ok payload) w named = record {
    at = (payload-Yields event payload w named).at;
  }
  parsed-Yields event (err e) w named = Yields-raise _ e w

  typed-Yields :
      (t : EventType) (event : Event) (w : World)
      → Yields (λ _ u. Finished env provider event w u) (handle_typed env provider t event) w
  unfolding handle_typed
  typed-Yields process_payout event w = record { at = (parsed-Yields event _ w refl).at }
  typed-Yields payout_result_webhook event w = Yields-raise _ _ w
  typed-Yields (other_type s) event w = Yields-raise _ _ w

  -- If `HandleEvent` reports success, then the event's payout was found in a status that lets it
  -- through, and the first transaction's writes are in the tables. If the payout had not succeeded
  -- before, the provider has answered the request for it, and in one commit the final status and the
  -- reason of a failure are in the tables too, together with the webhook event for the client of the
  -- payout's row, if the client has a URL that is not blank.
  pub handle_event-Finished :
      (event : Event) (w : World) {u : World}
      → handle_event env (some provider) event w ≡ (ok tt, u)
      → Finished env provider event w u
  unfolding handle_event
  handle_event-Finished event w {u} h = (typed-Yields event.event_type event w).at tt u h
