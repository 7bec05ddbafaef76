-- ===== src/Program/Tests.antt =====
-- The application at concrete ends.
use payout_orchestrator.Common.{◌≡◌, ◌↔◌, refl, true, Option, none, some, [], ◌∷◌, if◌then◌else◌}
use payout_orchestrator.Common.Int.{ℤ, pos}
use payout_orchestrator.Text.{Text, codes, text_eq}
use payout_orchestrator.Db.Models.{process_payout}
use payout_orchestrator.Db.Session.{pure}
use payout_orchestrator.Broker.{
  MessagePublisher, payout_exchange_name, payout_routing_key, new_payout_topology,
}
use payout_orchestrator.Rabbit.{Library, open_client}
use payout_orchestrator.Rabbit.Declaring.{ensure_topology}
use payout_orchestrator.Worker.{Worker}
use payout_orchestrator.Execution.{handle_event}
use payout_orchestrator.Program.Start.{OutboxRelay, default_provider, start_api, start_worker}
use payout_orchestrator.Program.Routes.{Routes, start_api-Routes}
use payout_orchestrator.Sample.{calm_env}
use payout_orchestrator.Outcome.{Result, ok, err, server_closed, canceled}
use payout_orchestrator.Program.{
  Ended, signalled, run_application, ServerFine, RelayFine, run_application-ends,
}

abbrev relay : Option Ended
relay = some (err canceled)

run_application-ends_example :
    (run_application true relay signalled (err server_closed) (ok tt) ≡ ok tt)
    ↔ (ServerFine (err server_closed) × ServerFine (ok tt) × RelayFine relay)
run_application-ends_example = run_application-ends relay signalled (err server_closed) (ok tt)

-- Both programs start with the same environment, and a broker that takes every call.
abbrev getenv : Text → Text
getenv name =
    if text_eq name (codes "PROCESSOR_ENABLED")
    then codes "true"
    else if text_eq name (codes "RABBITMQ_URL")
    then codes "amqp://broker"
    else []

abbrev willing : Library
willing c = ok tt

abbrev open_postgres : Text → Result (Unit {0})
open_postgres url = ok tt

abbrev parse_duration : Text → Result ℤ
parse_duration raw = ok (pos 0)

abbrev accept_message : MessagePublisher
accept_message exchange key body = pure tt

abbrev server_relay : OutboxRelay
server_relay = record {
  config = record {
    poll_interval = pos 1000000;
    claim_timeout = pos 30000000;
    event_types = process_payout ∷ [];
  };
  dispatcher = record {
    publisher = some accept_message;
    exchange_name = payout_exchange_name;
    routing_key = payout_routing_key;
  };
  topology = new_payout_topology (codes "payout.jobs");
}

abbrev worker : Worker
worker = record {
  consumer = some (ok tt);
  handler =
      some (
        handle_event calm_env
          (some (default_provider willing open_postgres getenv (λ step. none))));
  queue_name = codes "payout.jobs";
}

server_starts :
    start_api willing open_postgres getenv parse_duration accept_message ≡ ok (some server_relay)
unfolding text_eq open_client ensure_topology
server_starts = refl

worker_starts :
    start_worker willing open_postgres getenv calm_env (λ step. none) (ok tt) ≡ ok worker
unfolding text_eq open_client ensure_topology
worker_starts = refl

start_api-Routes_example : Routes willing willing server_relay worker
start_api-Routes_example =
    start_api-Routes calm_env willing willing open_postgres open_postgres getenv parse_duration
      accept_message (λ step. none) (ok tt) server_starts worker_starts
