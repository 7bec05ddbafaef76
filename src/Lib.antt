-- ===== src/Lib.antt =====
-- The payout orchestrator: an API that takes payout requests in, an outbox that hands them on, and a
-- worker that has a provider execute them.
--
-- A request reaches `CreatePayout` of internal/apps/api/services/payouts/service.go. One transaction
-- writes the payout, the client's idempotency key and an outbox event (internal/db). The relay of
-- internal/outbox/relay.go publishes the event, and the worker gives it to `HandleEvent` of
-- internal/apps/payoutworker/execution/execution.go: one transaction moves the payout to
-- processing, the provider (internal/provider, internal/providersimulator) is asked, and a second
-- transaction records the answer and adds the event for the client's webhook.
--
-- Which file models what:
--   Common, Common/*       Booleans, lists and integers over the native natural numbers.
--   Text, Text/Trim        Go strings as byte lists; TrimSpace of the package strings and the
--                          hexadecimal encoding, which the code uses.
--   Money, Money/*         pgtype.Numeric and `numericString`.
--   Outcome                The error values of the packages, and results.
--   Status, Status/Machine internal/domain/payout/status.go.
--   Json                   JSON documents as trees, with the way in which Go matches field names.
--   Provider, Provider/*   internal/provider/provider.go and internal/providersimulator/simulator.go.
--   Db/Models              The rows of internal/db/models.go, and the tables.
--   Db/Session, and below  How statements run, in a transaction and on the pool; `WithinTx` of the
--                          three tx.go files. Quiet is about runs that nothing disturbs, Invariant
--                          about what all changes keep.
--   Db/Clients, Db/FundingSources, Db/IdempotencyKeys, Db/OutboxEvents, Db/Payouts,
--   Db/WebhookDeliveries   The statements of internal/db/*.sql.go, with the constraints of
--                          migrations/. Db/Effects, Db/OutboxEvents/Claims and Db/OutboxEvents/Found
--                          say what they answer; Db/Paging is the order and the page of a list, and
--                          Db/Intact which rows refer to each other, and which changes keep it.
--   Outbox/*               internal/outbox: Payload is payload.go, Event and Relay are relay.go; below
--                          it, Claiming is about the claim, Dispatched about a round that succeeds,
--                          Round about one that nothing disturbs, Run and Returns about the loop.
--   Payouts/*              internal/apps/api/services/payouts: Store the interfaces and tx.go,
--                          Validation the checks of the request, View the reading side, Create
--                          `CreatePayout` and `loadIdempotentPayout`; below it,
--                          Replay and Progress are about calls that nothing disturbs, and Ledger
--                          is the contract of the idempotency keys.
--   Execution, Execution/* internal/apps/payoutworker/execution/execution.go: Prepare the first
--                          transaction, Record the second, Course and Finish the whole handler;
--                          Preparing, Recording and Delivery the same where nothing disturbs it.
--   FundingSources/*       internal/apps/api/services/fundingsources/service.go.
--   Base64/*               encoding/base64, which encoding/json writes a []byte in.
--   Broker/*               internal/broker/rabbitmq/payout_publisher.go.
--   Rabbit/*               internal/platform/rabbitmq/client.go: the connection and its calls, Declaring
--                          the topology, Publish and Acknowledged the wait for a confirmation.
--   Worker/*               internal/apps/payoutworker/worker.go, with `Consume` of the client.
--   Api/*                  internal/apps/api and cmd/api/router.go: Auth is the service and the
--                          middleware, Query the pagination, Documents the JSON bodies, Payouts and
--                          FundingSources the handlers (with clients.go), Router the patterns.
--   Program/*              cmd/api/main.go and cmd/payout-worker/main.go: Start up to the server and
--                          up to the worker's `Run`, Routes what the two have in common.
--   Pipeline/*             The parts together, where nothing disturbs them: a request, a round of the
--                          relay and a delivery.
--   System/*               The processes on the same tables, as steps in any order. What each of them
--                          leaves intact is in the modules named Intact.
--   Sample                 Concrete data for the tests.
--
-- How it is modelled. An action takes the world (the committed tables, the writes of the open
-- transaction, the number of the next statement, the requests made to the provider) to a result and
-- a world. A statement answers from the tables that it sees. What PostgreSQL contributes from
-- outside comes from `Env`: for each statement a tick with the time, a fresh id, the error that it
-- may meet, what other sessions have committed before it, and, for a COMMIT that meets an error,
-- whether it took effect all the same. The theorems hold for every such environment, and so for
-- every interleaving with other sessions at the level of READ COMMITTED, but for those that say that
-- no statement fails and no other session commits. A statement on the pool that meets an error has
-- no effect. UUID and numeric parsing, SHA-256, the rounding of a NUMERIC
-- column, the normal form of JSONB, which need not keep the order of keys, and the syntax of JSON are parameters of `Env` as well; the
-- provider is a parameter of the handler, and may answer differently at each call. `Web` holds what
-- the handlers use of the standard library: the format of a time, which depends on the time zone,
-- and the first document of a body. What a `select` takes is an argument: in `Consume` the list of
-- what arrives, in the relay what ends its waiting, in `Publish` what the two waits take.
--
-- The worker lets a payout that is processing through, as the code does;
-- docs/design/payout_orchestrator_system_design.md (Worker execution gate) excludes it. A panic of
-- the handler leaves the consumer, and its message unsettled; one of the dispatcher leaves the relay,
-- and its event claimed.
--
-- Bounds and fuel. `strip` runs on the length of its string, and every step takes at least one
-- byte off; `decimal` runs on one more than the number, and every step divides it by ten. The loop
-- of the relay runs for a number of rounds, since the source's never ends by itself; Run holds for
-- every such number, and Returns says how many are enough for a relay whose context is done. No
-- other definition has fuel. The exponent of a Numeric is an int32, at whose least value the
-- source's negation overflows; there the model answers with a panic.
--
-- Not modelled: logging; cancelled contexts, except in the simulator and where a `select` takes them;
-- the choice of a pattern by http.ServeMux; failures of writing a response; UpdateClient, ListClients
-- and GetPendingOutboxEvents, which no code of the program calls; signals, and what happens inside
-- the database pool, whose opening is an argument. Timestamps are numbers, and UUIDs are numbers
-- that are valid.
pub mod Common
pub mod Text
pub mod Money
pub mod Outcome
pub mod Status
pub mod Json
pub mod Api
pub mod Base64
pub mod Provider
pub mod Db
pub mod Outbox
pub mod FundingSources
pub mod Broker
pub mod Rabbit
pub mod Payouts
pub mod Pipeline
pub mod System
pub mod Execution
pub mod Worker
pub mod Program
pub mod Sample
