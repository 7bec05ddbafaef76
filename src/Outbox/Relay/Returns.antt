-- ===== src/Outbox/Relay/Returns.antt =====
-- The loop of the relay comes to its wait, and ends there when the context is done.
use payout_orchestrator.Common.{
  ℕ, zero, suc, ◌≡◌, ◌<◌, ◌≤◌, refl, sym, ap, subst, ◌∙◌, inl, inr, ◌-◌, Bool, true, false, not,
  ◌&&◌, Bool-cases, true-ne-false, Option, some, List, [], ◌∷◌, any, update_where, if◌then◌else◌,
  arith, ==_iff,
}
use payout_orchestrator.Outcome.{Error, Result, ok, err}
use payout_orchestrator.Db.Models.{
  Uuid, Time, EventType, OutboxEvent, OutboxStatus, pending, processing, processed, Db,
}
use payout_orchestrator.Db.Session.{Env, Tick, World}
use payout_orchestrator.Db.Session.Inversion.{ok-injective, ok-ne-err}
use payout_orchestrator.Db.Session.Quiet.{IsQuiet}
use payout_orchestrator.Db.OutboxEvents.{has_event_id, claim, claimable, type_eq}
use payout_orchestrator.Db.OutboxEvents.Claims.{earliest-any, earliest-passes, and-eq-true}
use payout_orchestrator.Db.OutboxEvents.Found.{is_wanted, finished}
use payout_orchestrator.Outbox.Event.{Event, EventHandler}
use payout_orchestrator.Outbox.Relay.{Config, run_once}
use payout_orchestrator.Outbox.Relay.Round.{
  Ends, idle, dispatched, given_back, panicked, lost, claimed_world, run_once-Ends,
}
use payout_orchestrator.Outbox.Relay.Run.{Wake, context_done, go_on, relay_loop}

abbrev pub is_unprocessed : OutboxEvent → Bool
is_unprocessed e = elim e.status [ pending ↦ true | processing ↦ true | processed ↦ false ]

-- How many events wait for the relay, or for whoever has claimed them.
abbrev pub unprocessed : List OutboxEvent → ℕ
unprocessed [] = 0
unprocessed (e ∷ es) = if is_unprocessed e then suc (unprocessed es) else unprocessed es

claimable-unprocessed :
    (limit : Time) (e : OutboxEvent) → claimable limit e ≡ true → is_unprocessed e ≡ true
unfolding claimable
claimable-unprocessed limit e h = by_status e.status refl
  where
    by_status : (s : OutboxStatus) → e.status ≡ s → is_unprocessed e ≡ true
    by_status pending is = rw is refl
    by_status processing is = rw is refl
    by_status processed is = absurd (true-ne-false (sym h ∙ rw (is, claimable) refl))

wanted-unprocessed :
    (types : List EventType) (limit : Time) (e : OutboxEvent)
    → is_wanted types limit e ≡ true
    → is_unprocessed e ≡ true
wanted-unprocessed [] limit e h = claimable-unprocessed limit e h
wanted-unprocessed (t ∷ types) limit e h =
    claimable-unprocessed limit e (and-eq-true (any (type_eq e.event_type) (t ∷ types)) _ h).1

module _ (q : OutboxEvent → Bool) (g : OutboxEvent → OutboxEvent)
    (finishes : (x : OutboxEvent) → is_unprocessed (g x) ≡ false) where
  unprocessed-update_le :
      (es : List OutboxEvent) → unprocessed (update_where q g es) ≤ unprocessed es
  unprocessed-update_le [] = omega arith
  unprocessed-update_le (e ∷ es) = elim (Bool-cases (q e)) [
    | inl hit ↦
        rw (hit, finishes e)
          (elim (Bool-cases (is_unprocessed e)) [
            | inl waits ↦ rw waits (omega (arith, unprocessed-update_le es))
            | inr done ↦ rw done (unprocessed-update_le es)
          ])
    | inr miss ↦ rw miss (elim (Bool-cases (is_unprocessed e)) [
      | inl waits ↦ rw waits (omega (arith, unprocessed-update_le es))
      | inr done ↦ rw done (unprocessed-update_le es)
    ])
  ]

  -- Where one of the events that are finished was not processed before, there is one less to wait for.
  unprocessed-update_lt :
      (es : List OutboxEvent)
      → any (λ (e : OutboxEvent). q e && is_unprocessed e) es ≡ true
      → unprocessed (update_where q g es) < unprocessed es
  unprocessed-update_lt [] h = cc
  unprocessed-update_lt (e ∷ es) h = elim (Bool-cases (q e)) [
    | inl hit ↦
        rw (hit, finishes e)
          (elim (Bool-cases (is_unprocessed e)) [
            | inl waits ↦ rw waits (omega (arith, unprocessed-update_le es))
            | inr done ↦ rw done (unprocessed-update_lt es (rw (hit, done) at h))
          ])
    | inr miss ↦ rw miss (elim (Bool-cases (is_unprocessed e)) [
      | inl waits ↦ rw waits (omega (arith, unprocessed-update_lt es (rw miss at h)))
      | inr done ↦ rw done (unprocessed-update_lt es (rw miss at h))
    ])
  ]

update_where-twice :
    (id : Uuid) (f g : OutboxEvent → OutboxEvent) (es : List OutboxEvent)
    → ((e : OutboxEvent) → (g e).id ≡ e.id)
    → update_where (has_event_id id) f (update_where (has_event_id id) g es)
      ≡ update_where (has_event_id id) (λ e. f (g e)) es
update_where-twice id f g [] keeps = refl
update_where-twice id f g (e ∷ es) keeps = elim (Bool-cases (has_event_id id e)) [
  | inl hit ↦ rw (hit, keeps e, hit, update_where-twice id f g es keeps) refl
  | inr miss ↦ rw (miss, miss, update_where-twice id f g es keeps) refl
]

module _ (env : Env) (quiet : IsQuiet env) (config : Config) (dispatch : EventHandler)
    (keeps : (event : Event) (v : World) → (dispatch event v).1.committed ≡ v.committed) where
  -- A round that goes on leaves one event less.
  dispatched-lt :
      (now : Time) (w : World) {u : World}
      → run_once env config dispatch now w ≡ (ok true, u)
      → unprocessed u.committed.outbox_events < unprocessed w.committed.outbox_events
  dispatched-lt now w {u} ran =
      of_end
        (subst (Ends env config dispatch now w) ran (run_once-Ends env quiet config dispatch now w))
    where
      of_end :
          Ends env config dispatch now w (ok true, u)
          → unprocessed u.committed.outbox_events < unprocessed w.committed.outbox_events
      of_end (idle none_left answer same) = absurd (true-ne-false (ok-injective answer))
      of_end (given_back e row x v next sent failed there answer after) = absurd (ok-ne-err answer)
      of_end (panicked e x v next sent left answer after) = absurd (ok-ne-err answer)
      of_end (lost e answer' v next sent gone answer after) = absurd (ok-ne-err answer)
      of_end (dispatched e row v next sent there answer after) =
          subst (λ (es : List OutboxEvent). unprocessed es < unprocessed w.committed.outbox_events)
            (sym changed)
            (unprocessed-update_lt (has_event_id e.id) (λ x. finish (claim t x)) (λ x. refl)
              w.committed.outbox_events
              (earliest-any wanted waiting w.committed.outbox_events next
                (rw ((==_iff e.id e.id).1 refl) fits)))
        where
          t : Tick
          t = env.tick (suc w.step)

          finish : OutboxEvent → OutboxEvent
          finish = finished (env.tick (suc v.step)).now

          wanted : OutboxEvent → Bool
          wanted x =
              is_wanted config.event_types (now - config.claim_timeout) x && not (t.locked x.id)

          waiting : OutboxEvent → Bool
          waiting x = has_event_id e.id x && is_unprocessed x

          fits : is_unprocessed e ≡ true
          fits =
              wanted-unprocessed config.event_types (now - config.claim_timeout) e
                (and-eq-true _ _ (earliest-passes wanted w.committed.outbox_events next)).0

          kept : v.committed ≡ (claimed_world env e w).committed
          kept = sym (ap (λ (p : Result (Unit {0}) × World). p.1.committed) sent) ∙ keeps _ _

          changed :
              u.committed.outbox_events
              ≡ update_where (has_event_id e.id) (λ x. finish (claim t x)) w.committed.outbox_events
          changed =
              ap (λ (d : Db). d.outbox_events) after
              ∙ ap (λ (d : Db). update_where (has_event_id e.id) finish d.outbox_events) kept
              ∙ update_where-twice e.id finish (claim t) w.committed.outbox_events (λ x. refl)

  -- The loop has ended, with an error.
  pub record Returns (end : Option (Result (Unit {0})) × World) : Type 0 where
    pub error : Error
    pub result : end.0 ≡ some (err error)

  module _ (clock : ℕ → Time) (done : Error) (wakes : List Wake) where
    follow :
        (fuel n : ℕ) (w : World) (r : Result Bool) (v : World)
        → run_once env config dispatch (clock n) w ≡ (r, v)
        → unprocessed w.committed.outbox_events < suc fuel
        → (unprocessed v.committed.outbox_events < fuel
            → Returns
                (relay_loop env config dispatch clock fuel (suc n) (context_done done ∷ wakes) v))
        → Returns (
            go_on
              (λ (wakes' : List Wake). relay_loop env config dispatch clock fuel (suc n) wakes' v)
              r
              (context_done done ∷ wakes)
              v)
    unfolding go_on
    follow fuel n w (err e) v ran enough rest = record { error = e; result = refl }
    follow fuel n w (ok false) v ran enough rest = record { error = done; result = refl }
    follow fuel n w (ok true) v ran enough rest =
        rest (omega (arith, dispatched-lt (clock n) w ran))

    -- A relay whose context is done when it first waits comes to this wait, or fails before: it ends,
    -- within as many rounds as there are unprocessed events, and one. No statement fails, no other
    -- session commits, and the dispatcher leaves the tables as they are.
    pub relay_loop-Returns :
        (fuel n : ℕ) (w : World)
        → unprocessed w.committed.outbox_events < fuel
        → Returns (relay_loop env config dispatch clock fuel n (context_done done ∷ wakes) w)
    unfolding relay_loop
    relay_loop-Returns zero n w enough = absurd (omega arith)
    relay_loop-Returns (suc fuel) n w enough =
        follow fuel n w _ _ refl enough (λ less. relay_loop-Returns fuel (suc n) _ less)
