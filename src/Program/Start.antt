-- ===== src/Program/Start.antt =====
-- How the two programs start: `main` of cmd/api/main.go up to `runApplication`, and `main` of
-- cmd/payout-worker/main.go. What `log.Fatalf` reports is an error here.
use payout_orchestrator.Common.{ℕ, Bool, false, Option, none, some, [], ◌∷◌, if◌then◌else◌}
use payout_orchestrator.Common.Int.{ℤ, pos}
use payout_orchestrator.Text.{Text, codes, is_empty}
use payout_orchestrator.Outcome.{Error, Result, ok, err, canceled, ◌>>=◌, ◌>>◌}
use payout_orchestrator.Provider.{PayoutProvider}
use payout_orchestrator.Provider.Simulator
use payout_orchestrator.Provider.Simulator.{unset}
use payout_orchestrator.Db.Models.{process_payout}
use payout_orchestrator.Db.Session.{Env}
use payout_orchestrator.Outbox.Relay.Run.{RelayConfig}
use payout_orchestrator.Broker.{MessagePublisher, PayoutPublisher, Topology, new_payout_topology}
use payout_orchestrator.Rabbit.{Library, opened, open_client}
use payout_orchestrator.Rabbit.Declaring.{ensure_topology}
use payout_orchestrator.Worker.{Worker}
use payout_orchestrator.Execution.{handle_event}
use payout_orchestrator.Program.{load_bool_env, load_string_env}

-- loadDurationEnv, in microseconds; `time.ParseDuration` is a parameter.
abbrev pub load_duration_env : (Text → Result ℤ) → (Text → Text) → Text → ℤ → Result ℤ
load_duration_env parse_duration getenv name fallback =
    let raw = getenv name in if is_empty raw then ok fallback else parse_duration raw

-- What the server reads of its environment.
pub record Settings : Type 0 where
  pub db_url : Text
  pub rabbitmq_url : Text
  pub payout_queue_name : Text
  pub outbox_relay_enabled : Bool
  pub poll_interval : ℤ
  pub claim_timeout : ℤ

abbrev pub load_settings : (Text → Result ℤ) → (Text → Text) → Result Settings
load_settings parse_duration getenv = do
  outbox_relay_enabled ← load_bool_env getenv (codes "PROCESSOR_ENABLED") false
  poll_interval ←
      load_duration_env parse_duration getenv (codes "PROCESSOR_POLL_INTERVAL") (pos 1000000)
  claim_timeout ←
      load_duration_env parse_duration getenv (codes "PROCESSOR_CLAIM_TIMEOUT") (pos 30000000)
  ok (record {
    db_url = getenv (codes "DB_URL");
    rabbitmq_url = getenv (codes "RABBITMQ_URL");
    payout_queue_name = load_string_env getenv (codes "PAYOUT_QUEUE_NAME") (codes "payout.jobs");
    outbox_relay_enabled = outbox_relay_enabled;
    poll_interval = poll_interval;
    claim_timeout = claim_timeout;
  })

-- The relay that the server runs: its configuration, its dispatcher, and what was declared for it.
pub record OutboxRelay : Type 0 where
  pub config : RelayConfig
  pub dispatcher : PayoutPublisher
  pub topology : Topology

-- The broker's client opens, and the topology is declared.
abbrev pub declare_topology : Library → Text → Topology → Result (Unit {0})
declare_topology answer rabbitmq_url topology = do
  (open_client answer rabbitmq_url).result
  (ensure_topology answer opened topology).result

abbrev pub outbox_relay : MessagePublisher → Settings → Topology → OutboxRelay
outbox_relay publish settings topology = record {
  config = record {
    poll_interval = settings.poll_interval;
    claim_timeout = settings.claim_timeout;
    event_types = process_payout ∷ [];
  };
  dispatcher = record {
    publisher = some publish;
    exchange_name = topology.exchange_name;
    routing_key = topology.routing_key;
  };
  topology = topology;
}

abbrev pub start_relay : Library → MessagePublisher → Settings → Result (Option OutboxRelay)
start_relay answer publish settings =
    if settings.outbox_relay_enabled
    then (do
      declare_topology answer settings.rabbitmq_url (new_payout_topology settings.payout_queue_name)
      ok (some (outbox_relay publish settings (new_payout_topology settings.payout_queue_name))))
    else ok none

module _ (answer : Library) (open_postgres : Text → Result (Unit {0})) (getenv : Text → Text) where
  -- main of the server, up to `runApplication`
  abbrev pub start_api : (Text → Result ℤ) → MessagePublisher → Result (Option OutboxRelay)
  start_api parse_duration publish = do
    settings ← load_settings parse_duration getenv
    open_postgres settings.db_url
    start_relay answer publish settings

  -- `providersimulator.New(providersimulator.Config{})`, whose context may be done by a call
  abbrev pub default_provider : (ℕ → Option Error) → PayoutProvider
  default_provider cancelled = record {
    execute_payout = λ step input.
        Simulator.execute_payout (cancelled step) (record { outcome = unset; failure_reason = [] })
          input;
  }

  -- main of the worker, up to `worker.Run`; `started` is the answer to its subscription
  abbrev pub start_worker : Env → (ℕ → Option Error) → Result (Unit {0}) → Result Worker
  start_worker env cancelled started = do
    let queue = load_string_env getenv (codes "PAYOUT_QUEUE_NAME") (codes "payout.jobs")
    open_postgres (getenv (codes "DB_URL"))
    declare_topology answer (getenv (codes "RABBITMQ_URL")) (new_payout_topology queue)
    ok (record {
      consumer = some started;
      handler = some (handle_event env (some (default_provider cancelled)));
      queue_name = queue;
    })

-- What main of the worker makes of the end of `Run`.
abbrev pub worker_exit : Result (Unit {0}) → Result (Unit {0})
worker_exit (err canceled) = ok tt
worker_exit r = r
