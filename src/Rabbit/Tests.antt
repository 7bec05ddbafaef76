-- ===== src/Rabbit/Tests.antt =====
-- The client at concrete calls.
use payout_orchestrator.Common.{◌≡◌, ◌↔◌, refl, true, some}
use payout_orchestrator.Text.{codes}
use payout_orchestrator.Outcome.{ok}
use payout_orchestrator.Broker.{Topology, payout_exchange_name, payout_routing_key}
use payout_orchestrator.Rabbit.{Library, Ran, opened}
use payout_orchestrator.Rabbit.Publish.{timer_fired, confirmed, late, publish}
use payout_orchestrator.Rabbit.Acknowledged.{Acknowledged, publish-Acknowledged}
use payout_orchestrator.Rabbit.Declaring.{ensure_topology}

abbrev willing : Library
willing c = ok tt

abbrev payouts : Topology
payouts = record {
  exchange_name = payout_exchange_name;
  queue_name = codes "payouts";
  routing_key = payout_routing_key;
}

declared : (ensure_topology willing opened payouts).result ≡ ok tt
unfolding ensure_topology
declared = refl

abbrev acked_message : Ran
acked_message =
    publish willing opened (codes "payouts") (codes "payout.process") (codes "{}")
      (late (confirmed (some (record { delivery_tag = 1; ack = true })))) timer_fired

publish-Acknowledged_example :
    (acked_message.result ≡ ok tt)
    ↔ Acknowledged willing opened
        (codes "payouts")
        (codes "payout.process")
        (codes "{}")
        (late (confirmed (some (record { delivery_tag = 1; ack = true }))))
        acked_message
publish-Acknowledged_example =
    publish-Acknowledged willing opened (codes "payouts") (codes "payout.process") (codes "{}")
      (late (confirmed (some (record { delivery_tag = 1; ack = true })))) timer_fired
