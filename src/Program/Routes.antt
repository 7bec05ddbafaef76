-- ===== src/Program/Routes.antt =====
-- The server's messages reach the worker's queue.
use payout_orchestrator.Common.{
  ℕ, ◌≡◌, sym, ap, ◌∙◌, Bool, true, false, Option, none, some, [], ◌∷◌, if◌then◌else◌,
}
use payout_orchestrator.Common.Int.{ℤ, pos}
use payout_orchestrator.Text.{Text, codes}
use payout_orchestrator.Outcome.{Error, Result, ok, ◌>>◌, >>=-eq-ok}
use payout_orchestrator.Db.Models.{process_payout}
use payout_orchestrator.Db.Session.{Env}
use payout_orchestrator.Db.Session.Inversion.{ok-injective}
use payout_orchestrator.Broker.{MessagePublisher, Topology, new_payout_topology}
use payout_orchestrator.Rabbit.{Library, opened, open_client}
use payout_orchestrator.Rabbit.Declaring.{ensure_topology, Declares, ensure_topology-Declares}
use payout_orchestrator.Worker.{Worker}
use payout_orchestrator.Program.{load_bool_env, load_string_env}
use payout_orchestrator.Program.Start.{
  Settings, load_settings, load_duration_env, OutboxRelay, outbox_relay, declare_topology,
  start_relay, start_api, start_worker,
}

-- The relay takes the worker's events only, and what it publishes goes to an exchange from which both
-- programs have bound the queue that the worker consumes, under the key that it publishes with.
pub record Routes (server worker_side : Library) (relay : OutboxRelay) (worker : Worker)
    : Type 0 where
  pub event_types : relay.config.event_types ≡ process_payout ∷ []
  pub topology : Topology
  pub exchange : relay.dispatcher.exchange_name ≡ topology.exchange_name
  pub key : relay.dispatcher.routing_key ≡ topology.routing_key
  pub queue : worker.queue_name ≡ topology.queue_name
  pub by_server : Declares server topology (ensure_topology server opened topology)
  pub by_worker : Declares worker_side topology (ensure_topology worker_side opened topology)

none-ne-some : {r : OutboxRelay} → ok none ≡ ok (some r) → ⊥
none-ne-some h = cc

relay-same : {r s : OutboxRelay} → ok (some r) ≡ ok (some s) → r ≡ s
relay-same h = cc

unit_ok : (r : Result (Unit {0})) {x : Unit {0}} → r ≡ ok x → r ≡ ok tt
unit_ok r h = h

declared :
    (answer : Library) (url : Text) (topology : Topology) {u : Unit {0}}
    → declare_topology answer url topology ≡ ok u
    → Declares answer topology (ensure_topology answer opened topology)
declared answer url topology h =
    let (opened_ok, was, rest) = >>=-eq-ok (open_client answer url).result _ h in
    ensure_topology-Declares answer opened topology rest

-- What a relay that has been started is.
started_relay :
    (answer : Library) (publish : MessagePublisher) (settings : Settings) {relay : OutboxRelay}
    → start_relay answer publish settings ≡ ok (some relay)
    → (relay ≡ outbox_relay publish settings (new_payout_topology settings.payout_queue_name))
      × Declares answer
          (new_payout_topology settings.payout_queue_name)
          (ensure_topology answer opened (new_payout_topology settings.payout_queue_name))
started_relay answer publish settings {relay} h = by_flag settings.outbox_relay_enabled h
  where
    topology : Topology
    topology = new_payout_topology settings.payout_queue_name

    by_flag :
        (b : Bool)
        → (if b
            then (do
              declare_topology answer settings.rabbitmq_url
                  (new_payout_topology settings.payout_queue_name)
              ok (
                  some (
                    outbox_relay publish settings
                      (new_payout_topology settings.payout_queue_name))))
            else ok none)
          ≡ ok (some relay)
        → (relay ≡ outbox_relay publish settings (new_payout_topology settings.payout_queue_name))
          × Declares answer
              (new_payout_topology settings.payout_queue_name)
              (ensure_topology answer opened (new_payout_topology settings.payout_queue_name))
    by_flag true h' =
        let (u, did, is) =
          >>=-eq-ok
            (declare_topology answer settings.rabbitmq_url
              (new_payout_topology settings.payout_queue_name))
            _ h' in
        (sym (relay-same is), declared answer _ _ did)
    by_flag false h' = absurd (none-ne-some h')

queue_read :
    (parse_duration : Text → Result ℤ) (getenv : Text → Text) {settings : Settings}
    → load_settings parse_duration getenv ≡ ok settings
    → settings.payout_queue_name
      ≡ load_string_env getenv (codes "PAYOUT_QUEUE_NAME") (codes "payout.jobs")
queue_read parse_duration getenv {settings} h =
    let (enabled, h0, k1) =
      >>=-eq-ok (load_bool_env getenv (codes "PROCESSOR_ENABLED") false) _ h in
    let (poll, h1, k2) =
      >>=-eq-ok
        (load_duration_env parse_duration getenv (codes "PROCESSOR_POLL_INTERVAL") (pos 1000000)) _
        k1 in
    let (claim, h2, k3) =
      >>=-eq-ok
        (load_duration_env parse_duration getenv (codes "PROCESSOR_CLAIM_TIMEOUT") (pos 30000000)) _
        k2 in
    ap (λ (s : Settings). s.payout_queue_name) (sym (ok-injective k3))

-- Where the server and the worker have both started with the same environment, and the server runs a
-- relay, the relay takes the events of payouts only, and it publishes to an exchange and under a key
-- from which both programs have bound the queue that the worker consumes.
pub start_api-Routes :
    (env : Env) (server worker_side : Library)
    (open_postgres open_postgres' : Text → Result (Unit {0})) (getenv : Text → Text)
    (parse_duration : Text → Result ℤ) (publish : MessagePublisher) (cancelled : ℕ → Option Error)
    (started : Result (Unit {0})) {relay : OutboxRelay} {worker : Worker}
    → start_api server open_postgres getenv parse_duration publish ≡ ok (some relay)
    → start_worker worker_side open_postgres' getenv env cancelled started ≡ ok worker
    → Routes server worker_side relay worker
start_api-Routes env server worker_side open_postgres open_postgres' getenv parse_duration publish
      cancelled started h k =
    let (settings, read, h1) = >>=-eq-ok (load_settings parse_duration getenv) _ h in
    let (_, _, h2) = >>=-eq-ok (open_postgres settings.db_url) _ h1 in
    let (relay_is, by_server) = started_relay server publish settings h2 in
    let (_, _, k1) = >>=-eq-ok (open_postgres' (getenv (codes "DB_URL"))) _ k in
    let (_, did, worker_is) =
      >>=-eq-ok
        (declare_topology worker_side (getenv (codes "RABBITMQ_URL")) (
          new_payout_topology
            (load_string_env getenv (codes "PAYOUT_QUEUE_NAME") (codes "payout.jobs"))))
        _ k1 in
    let same = queue_read parse_duration getenv read in
    record {
      event_types = ap (λ (r : OutboxRelay). r.config.event_types) relay_is;
      topology = new_payout_topology settings.payout_queue_name;
      exchange = ap (λ (r : OutboxRelay). r.dispatcher.exchange_name) relay_is;
      key = ap (λ (r : OutboxRelay). r.dispatcher.routing_key) relay_is;
      queue = ap (λ (w : Worker). w.queue_name) (sym (ok-injective worker_is)) ∙ sym same;
      by_server = by_server;
      by_worker = rw same (declared worker_side _ _ did);
    }
