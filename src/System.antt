-- ===== src/System.antt =====
-- The processes at work on the same tables, as a step relation: the server of cmd/api/main.go with its
-- requests and its relay, the worker of cmd/payout-worker/main.go, and other sessions.
pub mod Accepts
mod Tests
use payout_orchestrator.Common.{ℕ, ◌≡◌, refl, sym, subst, some}
use payout_orchestrator.Text.{Text}
use payout_orchestrator.Provider.{PayoutProvider}
use payout_orchestrator.Db.Models.{Time, Db}
use payout_orchestrator.Db.Session.{Env, World}
use payout_orchestrator.Db.Session.Invariant.{IsRely, Stays}
use payout_orchestrator.Db.Intact.{IsIntact}
use payout_orchestrator.Outbox.Event.{Event}
use payout_orchestrator.Outbox.Relay.{Config, run_once}
use payout_orchestrator.Outbox.Relay.Intact.{run_once-Stays}
use payout_orchestrator.Broker.{MessagePublisher, dispatch}
use payout_orchestrator.Broker.RoundTrip.{dispatch_lem}
use payout_orchestrator.Worker.{Delivery, handle_delivery}
use payout_orchestrator.Worker.Settled.{handle_delivery-Stays}
use payout_orchestrator.Execution.{handle_event}
use payout_orchestrator.Execution.Intact.{handle_event-Stays}
use payout_orchestrator.Api.Http.{Request, Web}
use payout_orchestrator.Api.Router.{Route, serve}
use payout_orchestrator.Api.Intact.{serve-Stays}
use payout_orchestrator.Pipeline.{payout_publisher}

-- The broker's client does not touch the tables.
pub record IsBroker (publish : MessagePublisher) : Type 0 where
  pub keeps :
      (exchange key body : Text) (w : World)
      → (publish exchange key body w).1.committed ≡ w.committed

module _ (env : Env) (web : Web) (publish : MessagePublisher) where
  -- A request to the server, whatever it is; a round of the relay; a message that the worker handles,
  -- whatever its body; and commits of other sessions.
  pub data Step (w : World) : World → Type 0 where
    requested : (route : Route) (r : Request) → Step w (serve env web route r w).1
    relayed :
        (config : Config) (now : Time)
        → Step w (run_once env config (dispatch env (payout_publisher publish)) now w).1
    handled :
        (provider : PayoutProvider) (d : Delivery)
        → Step w (handle_delivery env (handle_event env (some provider)) d w).1
    elsewhere : (n : ℕ) → Step w (record w { committed = (env.tick n).others w.committed })

  pub data Reaches (w : World) : World → Type 0 where
    at_first : Reaches w w
    after_step : {u v : World} → Reaches w u → Step u v → Reaches w v

  module _ (rely : IsRely env (IsIntact env)) (broker : IsBroker publish) where
    sends-Stays :
        (event : Event) → Stays (IsIntact env) (dispatch env (payout_publisher publish) event)
    sends-Stays event =
        rw (dispatch_lem env publish event)
          (record { at = λ w h. subst (IsIntact env) (sym (broker.keeps _ _ _ w)) h })

    Step-IsIntact : {u v : World} → Step u v → IsIntact env u.committed → IsIntact env v.committed
    Step-IsIntact (requested route r) h = (serve-Stays env rely web route r).at _ h
    Step-IsIntact (relayed config now) h = (run_once-Stays env rely _ sends-Stays config now).at _ h
    Step-IsIntact (handled provider d) h =
        handle_delivery-Stays env (IsIntact env) (handle_event env (some provider))
          (handle_event-Stays env rely provider) d _ h
    Step-IsIntact (elsewhere n) h = rely.at n _ h

    -- Whatever the processes do, in whatever order, and whichever of their statements and commits
    -- fail: from intact tables they reach intact tables only. Each idempotency key names a payout of
    -- its own client, and each event for the worker names a payout and its client, in its column and
    -- in its payload alike. Other sessions are taken to keep this, and the broker's client not to
    -- touch the tables.
    pub Reaches-IsIntact :
        {w u : World} → Reaches w u → IsIntact env w.committed → IsIntact env u.committed
    Reaches-IsIntact at_first h = h
    Reaches-IsIntact (after_step before step) h = Step-IsIntact step (Reaches-IsIntact before h)
