-- ===== src/Worker/Settled.antt =====
-- How deliveries are settled, and what an acknowledgement means.
use payout_orchestrator.Common.{
  ℕ, suc, ◌≡◌, refl, ◌⊎◌, inl, inr, true, false, some, List, [], ◌∷◌, length, ◌+◌, arith,
  Bool-cases,
}
use payout_orchestrator.Outcome.{Error, Result, ok, err, is_panic}
use payout_orchestrator.Provider.{PayoutProvider}
use payout_orchestrator.Db.Models.{Db}
use payout_orchestrator.Db.Session.{Env, World}
use payout_orchestrator.Db.Session.Invariant.{Stays}
use payout_orchestrator.Outbox.Event.{Event, EventHandler}
use payout_orchestrator.Broker.{decode_payout_job}
use payout_orchestrator.Execution.{handle_event}
use payout_orchestrator.Execution.Finish.{Finished, handle_event-Finished}
use payout_orchestrator.Worker.{
  settling, panicked, Settlement, acked, nacked, Delivery, Handled, settle_handled, handle_decoded,
  handle_delivery, Arrival, cancelled, closed, delivered, join_handled, consume_loop,
}

-- What became of a delivery: dropped if its body is no job, put back if the handler reports an
-- error, not settled if it panics, and acknowledged if it reports success.
pub data Settles (env : Env) (handler : EventHandler) (d : Delivery) (w : World)
    (end : Handled × World) : Type 0 where
  dropped :
      (e : Error)
      → decode_payout_job env d.body ≡ err e
      → end.0 ≡ settling d (nacked false)
      → end.1 ≡ w
      → Settles env handler d w end
  requeued :
      (event : Event) (e : Error)
      → decode_payout_job env d.body ≡ ok event
      → handler event w ≡ (err e, end.1)
      → is_panic e ≡ false
      → end.0 ≡ settling d (nacked true)
      → Settles env handler d w end
  left_open :
      (event : Event) (e : Error)
      → decode_payout_job env d.body ≡ ok event
      → handler event w ≡ (err e, end.1)
      → is_panic e ≡ true
      → end.0 ≡ panicked e
      → Settles env handler d w end
  done :
      (event : Event)
      → decode_payout_job env d.body ≡ ok event
      → handler event w ≡ (ok tt, end.1)
      → end.0 ≡ settling d acked
      → Settles env handler d w end

module _ (env : Env) (P : Db → Type 0) (handler : EventHandler)
    (keeps : (event : Event) → Stays P (handler event)) where
  -- A property of the tables that the handler keeps is kept by the worker.
  pub handle_delivery-Stays :
      (d : Delivery) (w : World) → P w.committed → P (handle_delivery env handler d w).1.committed
  unfolding handle_delivery
  handle_delivery-Stays d w h = by_body (decode_payout_job env d.body)
    where
      by_body : (r : Result Event) → P (handle_decoded handler d r w).1.committed
      by_body (err e) = h
      by_body (ok event) = (keeps event).at w h

module _ (env : Env) where
  decoded-Settles :
      (handler : EventHandler) (d : Delivery) (w : World) (x : Result Event)
      → decode_payout_job env d.body ≡ x
      → Settles env handler d w (handle_decoded handler d x w)
  unfolding handle_decoded settle_handled
  decoded-Settles handler d w (err e) bad = dropped e bad refl refl
  decoded-Settles handler d w (ok event) named = by_answer (handler event w).0 refl
    where
      by_answer :
          (r : Result (Unit {0}))
          → (handler event w).0 ≡ r
          → Settles env handler d w (settle_handled d (handler event w).0, (handler event w).1)
      by_answer (err e) h = elim (Bool-cases (is_panic e)) [
        | inl lost ↦
            left_open event e named (λ i. (h i, (handler event w).1)) lost (rw (h, lost) refl)
        | inr failed ↦
            requeued event e named (λ i. (h i, (handler event w).1)) failed (rw (h, failed) refl)
      ]
      by_answer (ok tt) h = done event named (λ i. (h i, (handler event w).1)) (rw h refl)

  -- Every delivery is settled exactly once, unless the handler panics on its event: it is dropped if
  -- its body is no job, and then the handler is not called; it is put back if the handler reports an
  -- error; and it is acknowledged if the handler reports success. A panic leaves the consumer, and
  -- the delivery is not settled.
  pub handle_delivery-Settles :
      (handler : EventHandler) (d : Delivery) (w : World)
      → Settles env handler d w (handle_delivery env handler d w)
  unfolding handle_delivery
  handle_delivery-Settles handler d w = decoded-Settles handler d w _ refl

  pub acknowledges :
      (handler : EventHandler) (d : Delivery) (event : Event) (w : World) {u : World}
      → decode_payout_job env d.body ≡ ok event
      → handler event w ≡ (ok tt, u)
      → handle_delivery env handler d w ≡ (settling d acked, u)
  unfolding handle_delivery handle_decoded settle_handled
  acknowledges handler d event w decoded handled = rw (decoded, handled) refl

  -- A delivery is acknowledged only if its job's event was handled with success: the payout was found
  -- in a status that lets it through, and whatever was to be done for it is in the tables.
  pub handle_delivery-acked :
      (provider : PayoutProvider) (d : Delivery) (w : World)
      → (handle_delivery env (handle_event env (some provider)) d w).0 ≡ settling d acked
      → (event : Event) × (decode_payout_job env d.body ≡ ok event)
        × Finished env provider event w
            (handle_delivery env (handle_event env (some provider)) d w).1
  handle_delivery-acked provider d w a = of_end _ a (handle_delivery-Settles _ d w)
    where
      of_end :
          (end : Handled × World)
          → end.0 ≡ settling d acked
          → Settles env (handle_event env (some provider)) d w end
          → (event : Event) × (decode_payout_job env d.body ≡ ok event)
            × Finished env provider event w end.1
      of_end end a (dropped e bad how same) = cc
      of_end end a (requeued event e named failed _ how) = cc
      of_end end a (left_open event e named failed _ how) = cc
      of_end end a (done event named handled how) =
          (event, named, handle_event-Finished env provider event w handled)

  -- The handler has panicked on the event of a delivery.
  abbrev pub Panics : EventHandler → Handled × World → Type 0
  Panics handler end =
      (event : Event) × (v : World) × (e : Error) × (handler event v ≡ (err e, end.1))
      × (is_panic e ≡ true)
      × (end.0.result ≡ some (err e))

  settled_once :
      (handler : EventHandler) (d : Delivery) (w : World) (end : Handled × World)
      → Settles env handler d w end
      → (Panics handler end × (end.0.settlements ≡ []))
        ⊎ ((s : Settlement) × (end.0 ≡ settling d s))
  settled_once handler d w end (dropped e bad how same) = inr (nacked false, how)
  settled_once handler d w end (requeued event e named failed _ how) = inr (nacked true, how)
  settled_once handler d w end (left_open event e named failed lost how) =
      inl ((event, w, e, failed, lost, rw how refl), rw how refl)
  settled_once handler d w end (done event named handled how) = inr (acked, how)

  -- The messages that arrive before the context is done or the channel is closed.
  abbrev pub messages : List Arrival → ℕ
  messages [] = 0
  messages (cancelled e ∷ rest) = 0
  messages (closed ∷ rest) = 0
  messages (delivered d ∷ rest) = suc (messages rest)

  -- The broker takes every settlement.
  abbrev pub AllSettle : List Arrival → Type 0
  AllSettle [] = Unit
  AllSettle (cancelled e ∷ rest) = AllSettle rest
  AllSettle (closed ∷ rest) = AllSettle rest
  AllSettle (delivered d ∷ rest) = ((s : Settlement) → d.settle s ≡ ok tt) × AllSettle rest

  -- The consumer has settled every message, or a panic has ended it before that.
  abbrev pub SettlesAll : EventHandler → ℕ → Handled × World → Type 0
  SettlesAll handler n end =
      (Panics handler end × ((missing : ℕ) × (length end.0.settlements + suc missing ≡ n)))
      ⊎ (length end.0.settlements ≡ n)

  behind-one :
      (handler : EventHandler) (n : ℕ) (s : Settlement) (end : Handled × World)
      → SettlesAll handler n end
      → SettlesAll handler
          (suc n)
          (record { settlements = s ∷ end.0.settlements; result = end.0.result }, end.1)
  behind-one handler n s end (inl (p, (missing, fewer))) = inl (p, (missing, omega (arith, fewer)))
  behind-one handler n s end (inr all) = inr (omega (arith, all))

  join-SettlesAll :
      (handler : EventHandler) (d : Delivery) (rest : List Arrival) (x : Handled × World)
      → (Panics handler x × (x.0.settlements ≡ [])) ⊎ ((s : Settlement) × (x.0 ≡ settling d s))
      → ((s : Settlement) → d.settle s ≡ ok tt)
      → SettlesAll handler (messages rest) (consume_loop env handler rest x.1)
      → SettlesAll handler (suc (messages rest)) (join_handled x (consume_loop env handler rest))
  unfolding join_handled
  join-SettlesAll handler d rest x (inl ((event, v, e, ran, lost, result), none_yet)) takes ih =
      rw result (inl ((event, v, e, ran, lost, refl), (messages rest, rw none_yet (omega arith))))
  join-SettlesAll handler d rest x (inr (s, how)) takes ih =
      rw (how, takes s)
        (behind-one handler (messages rest) s (consume_loop env handler rest x.1) ih)

  -- Where the broker takes every settlement, the consumer makes as many settlements as messages
  -- arrive before the context is done or the channel is closed, unless the handler panics on an
  -- event: the panic is then the consumer's end, and there are fewer settlements.
  pub consume_loop-length :
      (handler : EventHandler) (arrivals : List Arrival) (w : World)
      → AllSettle arrivals
      → SettlesAll handler (messages arrivals) (consume_loop env handler arrivals w)
  unfolding consume_loop
  consume_loop-length handler [] w h = inr refl
  consume_loop-length handler (cancelled e ∷ rest) w h = inr refl
  consume_loop-length handler (closed ∷ rest) w h = inr refl
  consume_loop-length handler (delivered d ∷ rest) w (takes, h) =
      join-SettlesAll handler d rest (handle_delivery env handler d w)
        (settled_once handler d w _ (handle_delivery-Settles handler d w)) takes
        (consume_loop-length handler rest (handle_delivery env handler d w).1 h)
