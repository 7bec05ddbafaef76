-- ===== src/Execution/Course.antt =====
-- The whole of `HandleEvent`: the first transaction, the provider, the second transaction.
use payout_orchestrator.Common.{
  ◌≡◌, refl, sym, ap, ◌∙◌, ◌⊎◌, inl, inr, Bool, true, false, some, ◌∷◌, if◌then◌else◌,
}
use payout_orchestrator.Outcome.{Result, ok, err}
use payout_orchestrator.Provider.{ExecutePayoutResult, PayoutProvider}
use payout_orchestrator.Db.Models.{EventType, process_payout, payout_result_webhook, other_type}
use payout_orchestrator.Db.Session.{Env, World, Action, pure, continue, ◌>>=◌, within_tx}
use payout_orchestrator.Db.Session.Reports.{Took, asked-within_tx, within_tx-eq-ok}
use payout_orchestrator.Outbox.Event.{Event}
use payout_orchestrator.Execution.{
  ParsedPayload, PreparedExecution, parse_payload, prepare_execution_in_tx, record_in_tx,
  record_execution_result, provider_input, ask, execute_prepared, handle_payload, handle_typed,
  handle_event,
}
use payout_orchestrator.Execution.Prepare.{Prepared, prepare-IsTx, prepare-Yields}
use payout_orchestrator.Execution.Record.{record-IsTx}

-- The provider has been asked once, for the payout that the event names: the first transaction
-- found it, let it through, and its writes were in the tables when the request was made.
pub record AskedOnce (env : Env) (event : Event) (w u : World) : Type 0 where
  pub payload : ParsedPayload
  pub named : parse_payload env event.payload ≡ ok payload
  pub prepared : PreparedExecution
  pub between : World
  pub took : Took env (prepare_execution_in_tx env payload) w prepared between
  pub passed : Prepared env payload took.start prepared took.last
  pub due : prepared.should_execute ≡ true
  pub request : u.asked ≡ provider_input env prepared ∷ w.asked

module _ (env : Env) (provider : PayoutProvider) where
  asked-record :
      (p : PreparedExecution) (r : ExecutePayoutResult) (w : World)
      → (record_execution_result env p r w).1.asked ≡ w.asked
  unfolding record_execution_result
  asked-record p r w =
      asked-within_tx env (record_in_tx env p.payout r r.status)
        (record-IsTx env p.payout r r.status) w

  asked-continue :
      (p : PreparedExecution) (x : Result ExecutePayoutResult) (w : World)
      → (continue x (record_execution_result env p) w).1.asked ≡ w.asked
  asked-continue p (ok r) w = asked-record p r w
  asked-continue p (err e) w = refl

  asked-execute :
      (p : PreparedExecution) (w : World)
      → ((execute_prepared env provider p w).1.asked ≡ w.asked)
        ⊎ ((p.should_execute ≡ true)
            × ((execute_prepared env provider p w).1.asked ≡ provider_input env p ∷ w.asked))
  unfolding execute_prepared ask
  asked-execute p w = by_due p.should_execute refl
    where
      call : Action (Unit {0})
      call = ask provider (provider_input env p) >>= λ r. record_execution_result env p r

      asked-call : (call w).1.asked ≡ provider_input env p ∷ w.asked
      asked-call = asked-continue p (provider.execute_payout w.step (provider_input env p)) _

      by_due :
          (b : Bool)
          → p.should_execute ≡ b
          → (((if b then call else pure tt) w).1.asked ≡ w.asked)
            ⊎ ((p.should_execute ≡ true)
                × (((if b then call else pure tt) w).1.asked ≡ provider_input env p ∷ w.asked))
      by_due true due = inr (due, asked-call)
      by_due false skipped = inl refl

  asked-payload :
      (event : Event) (payload : ParsedPayload) (w : World)
      → parse_payload env event.payload ≡ ok payload
      → ((handle_payload env provider payload w).1.asked ≡ w.asked)
        ⊎ AskedOnce env event w (handle_payload env provider payload w).1
  unfolding handle_payload
  asked-payload event payload w named = after (run w).0 (run w).1 refl
    where
      body : Action PreparedExecution
      body = prepare_execution_in_tx env payload

      run : Action PreparedExecution
      run = within_tx env body

      kept : (run w).1.asked ≡ w.asked
      kept = asked-within_tx env body (prepare-IsTx env payload) w

      Goal : World → Type 0
      Goal u = (u.asked ≡ w.asked) ⊎ AskedOnce env event w u

      after :
          (x : Result PreparedExecution) (v : World)
          → run w ≡ (x, v)
          → Goal (continue x (execute_prepared env provider) v).1
      after (err e) v h =
          inl (sym (ap (λ (p : Result PreparedExecution × World). p.1.asked) h) ∙ kept)
      after (ok p) v h =
          let same : v.asked ≡ w.asked =
            sym (ap (λ (p : Result PreparedExecution × World). p.1.asked) h) ∙ kept in
          let took = within_tx-eq-ok env body (prepare-IsTx env payload) w h in
          elim (asked-execute p v) [
            | inl silent ↦ inl (silent ∙ same)
            | inr (due, request) ↦ inr (record {
              payload = payload;
              named = named;
              prepared = p;
              between = v;
              took = took;
              passed = (prepare-Yields env payload took.start).at p took.last took.ran;
              due = due;
              request = request ∙ ap (λ l. provider_input env p ∷ l) same;
            })
          ]

  asked-lifted :
      (event : Event) (x : Result ParsedPayload) (w : World)
      → parse_payload env event.payload ≡ x
      → ((continue x (handle_payload env provider) w).1.asked ≡ w.asked)
        ⊎ AskedOnce env event w (continue x (handle_payload env provider) w).1
  asked-lifted event (ok payload) w named = asked-payload event payload w named
  asked-lifted event (err e) w named = inl refl

  handle_typed-asks :
      (t : EventType) (event : Event) (w : World)
      → ((handle_typed env provider t event w).1.asked ≡ w.asked)
        ⊎ AskedOnce env event w (handle_typed env provider t event w).1
  unfolding handle_typed
  handle_typed-asks process_payout event w =
      asked-lifted event (parse_payload env event.payload) w refl
  handle_typed-asks payout_result_webhook event w = inl refl
  handle_typed-asks (other_type s) event w = inl refl

  -- Whatever fails and whatever other sessions commit meanwhile, the handling of an event makes no
  -- request to the provider, or exactly one. It makes one only if the event's payload names a
  -- payout that the first transaction read as pending or processing, after that transaction's
  -- writes, the move of a pending payout to processing among them, were in the tables.
  pub handle_event-asks :
      (event : Event) (w : World)
      → ((handle_event env (some provider) event w).1.asked ≡ w.asked)
        ⊎ AskedOnce env event w (handle_event env (some provider) event w).1
  unfolding handle_event
  handle_event-asks event w = handle_typed-asks event.event_type event w
