-- ===== src/Worker.antt =====
-- internal/apps/payoutworker/worker.go, with `Consume` of internal/platform/rabbitmq/client.go, which
-- hands it its deliveries.
pub mod Settled
mod Tests
use payout_orchestrator.Common.{
  Bool, true, false, Option, none, some, List, [], ◌∷◌, ◌++◌, if◌then◌else◌,
}
use payout_orchestrator.Text.{Text, codes, is_empty}
use payout_orchestrator.Outcome.{Error, Result, ok, err, failure, is_panic}
use payout_orchestrator.Db.Session.{Env, World, Action}
use payout_orchestrator.Outbox.Event.{Event, EventHandler}
use payout_orchestrator.Broker.{decode_payout_job}

-- `Ack()` and `Nack(requeue)` of a delivery.
pub data Settlement : Type 0 where
  acked : Settlement
  nacked : Bool → Settlement

-- A delivery of the broker: its body, and how the broker's library answers a settlement.
pub record Delivery : Type 0 where
  pub body : Text
  pub settle : Settlement → Result (Unit {0})

-- What the handling of deliveries has done: the settlements that it asked for, in their order, and
-- its result, which is `none` while the consumer waits for a message.
pub record Handled : Type 0 where
  pub settlements : List Settlement
  pub result : Option (Result (Unit {0}))

-- One settlement, whose error is the result.
abbrev pub settling : Delivery → Settlement → Handled
settling d s = record { settlements = s ∷ []; result = some (d.settle s) }

-- A panic of the handler leaves the consumer, and the delivery unsettled.
abbrev pub panicked : Error → Handled
panicked e = record { settlements = []; result = some (err e) }

-- The end of `handleDelivery`, by what the handler has answered.
settle_handled : Delivery → Result (Unit {0}) → Handled
settle_handled d (err e) = if is_panic e then panicked e else settling d (nacked true)
settle_handled d (ok _) = settling d acked

handle_decoded : EventHandler → Delivery → Result Event → World → Handled × World
unfolding settle_handled
handle_decoded handler d (err e) w = (settling d (nacked false), w)
handle_decoded handler d (ok event) w = let (r, w') = handler event w in (settle_handled d r, w')

-- handleDelivery
pub handle_delivery : Env → EventHandler → Delivery → World → Handled × World
unfolding handle_decoded
handle_delivery env handler d w = handle_decoded handler d (decode_payout_job env d.body) w

-- What the `select` of `Consume` takes: a context that is done, a closed channel, or a message.
pub data Arrival : Type 0 where
  cancelled : Error → Arrival
  closed : Arrival
  delivered : Delivery → Arrival

-- The handling of one message goes before that of the others, if it has no error.
join_handled : Handled × World → (World → Handled × World) → Handled × World
join_handled (h, w) rest = elim h.result [
  | some (err e) ↦ (h, w)
  | _ ↦
      let (h', w') = rest w in
      (record { settlements = h.settlements ++ h'.settlements; result = h'.result }, w')
]

-- The loop of `Consume`, over what arrives.
pub consume_loop : Env → EventHandler → List Arrival → World → Handled × World
unfolding join_handled
consume_loop env handler [] w = (record { settlements = []; result = none }, w)
consume_loop env handler (cancelled e ∷ rest) w =
    (record { settlements = []; result = some (err e) }, w)
consume_loop env handler (closed ∷ rest) w = (
  record {
    settlements = [];
    result = some (err (failure (codes "rabbitmq deliveries channel closed")));
  },
  w,
)
consume_loop env handler (delivered d ∷ rest) w =
    join_handled (handle_delivery env handler d w) (consume_loop env handler rest)

abbrev refused : Text → World → Handled × World
refused message w = (record { settlements = []; result = some (err (failure message)) }, w)

-- Consume, of a client that is configured and a handler that is given; `started` is the answer of
-- the broker's library to the subscription.
pub consume : Env → Result (Unit {0}) → Text → EventHandler → List Arrival → World → Handled × World
unfolding consume_loop
consume env started queue handler arrivals w =
    if is_empty queue then refused (codes "rabbitmq queue name is required") w else elim started [
      | err e ↦ (record { settlements = []; result = some (err e) }, w)
      | ok _ ↦ consume_loop env handler arrivals w
    ]

-- A nil consumer or handler stands as `none`; a consumer is the answer to its subscription.
pub record Worker : Type 0 where
  pub consumer : Option (Result (Unit {0}))
  pub handler : Option EventHandler
  pub queue_name : Text

run_configured :
    Env → Result (Unit {0}) → EventHandler → Text → List Arrival → World → Handled × World
run_configured env started handler queue arrivals w =
    if is_empty queue
    then refused (codes "payout worker queue name is required") w
    else consume env started queue handler arrivals w

-- Run
pub run : Env → Worker → List Arrival → World → Handled × World
unfolding run_configured
run env worker arrivals w = elim worker.consumer [
  | none ↦ refused (codes "payout worker is not configured") w
  | some started ↦ elim worker.handler [
    | none ↦ refused (codes "payout worker is not configured") w
    | some handler ↦ run_configured env started handler worker.queue_name arrivals w
  ]
]
