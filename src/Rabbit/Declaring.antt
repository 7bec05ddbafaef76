-- ===== src/Rabbit/Declaring.antt =====
-- EnsureTopology and EnsureQueue of internal/platform/rabbitmq/client.go.
use payout_orchestrator.Common.{
  ◌≡◌, refl, ap, subst, ◌∙◌, Bool, true, false, not, ◌||◌, List, [], ◌∷◌, ◌++◌, if◌then◌else◌,
}
use payout_orchestrator.Text.{Text, codes, is_empty}
use payout_orchestrator.Outcome.{Result, ok, err, failure}
use payout_orchestrator.Db.Session.Inversion.{err-ne-ok}
use payout_orchestrator.Broker.{Topology}
use payout_orchestrator.Rabbit.{
  Library, Ran, Client, Call, exchange_declare, queue_declare, queue_bind, stop,
}

abbrev refuse : Text → Ran
refuse text = stop (err (failure text))

-- `if err := first; err != nil { return err }`, before the rest.
abbrev after : Result (Unit {0}) → List Call → Ran → Ran
after (err e) calls rest = record { result = err e; calls = calls }
after (ok _) calls rest = record { result = rest.result; calls = calls ++ rest.calls }

abbrev followed : Ran → Ran → Ran
followed first rest = after first.result first.calls rest

abbrev pub asked_once : Library → Call → Ran
asked_once answer c = record { result = answer c; calls = c ∷ [] }

-- EnsureQueue
unfoldable pub ensure_queue : Library → Client → Text → Ran
ensure_queue answer client name =
    if not client.has_channel
    then refuse (codes "rabbitmq client is not configured")
    else if is_empty name
    then refuse (codes "rabbitmq queue name is required")
    else asked_once answer (queue_declare name)

-- EnsureTopology
unfoldable pub ensure_topology : Library → Client → Topology → Ran
unfolding ensure_queue
ensure_topology answer client topology =
    if not client.has_channel
    then refuse (codes "rabbitmq client is not configured")
    else if is_empty topology.exchange_name
    then refuse (codes "rabbitmq exchange name is required")
    else if is_empty topology.queue_name
    then refuse (codes "rabbitmq queue name is required")
    else if is_empty topology.routing_key
    then refuse (codes "rabbitmq routing key is required")
    else followed (asked_once answer (exchange_declare topology.exchange_name)) (
        followed (ensure_queue answer client topology.queue_name) (
          asked_once answer
            (queue_bind topology.queue_name topology.routing_key topology.exchange_name)))

-- The exchange, the queue and the binding have been declared, in this order, by calls that had no
-- error, and nothing else was called.
pub record Declares (answer : Library) (topology : Topology) (ran : Ran) : Type 0 where
  pub calls :
      ran.calls
      ≡ exchange_declare topology.exchange_name
        ∷ queue_declare topology.queue_name
        ∷ queue_bind topology.queue_name topology.routing_key topology.exchange_name
        ∷ []
  pub exchange : answer (exchange_declare topology.exchange_name) ≡ ok tt
  pub queue : answer (queue_declare topology.queue_name) ≡ ok tt
  pub binding :
      answer (queue_bind topology.queue_name topology.routing_key topology.exchange_name) ≡ ok tt
  pub named :
      is_empty topology.exchange_name
        || is_empty topology.queue_name
        || is_empty topology.routing_key
      ≡ false

unless-ok :
    (b : Bool) (text : Text) (ran : Ran)
    → (if b then refuse text else ran).result ≡ ok tt
    → (b ≡ false) × ((if b then refuse text else ran) ≡ ran)
unless-ok true text ran h = absurd (err-ne-ok h)
unless-ok false text ran h = (refl, refl)

after-ok :
    (r : Result (Unit {0})) (calls : List Call) (rest : Ran)
    → (after r calls rest).result ≡ ok tt
    → (r ≡ ok tt) × (rest.result ≡ ok tt) × ((after r calls rest).calls ≡ calls ++ rest.calls)
after-ok (err e) calls rest h = absurd (err-ne-ok h)
after-ok (ok _) calls rest h = (refl, h, refl)

abbrev Ends : Ran → Type 0
Ends ran = ran.result ≡ ok tt

-- Where `EnsureTopology` succeeds, the three names are not empty, and the exchange, the queue and
-- the binding, with these names, were declared in this order without an error.
pub ensure_topology-Declares :
    (answer : Library) (client : Client) (topology : Topology)
    → (ensure_topology answer client topology).result ≡ ok tt
    → Declares answer topology (ensure_topology answer client topology)
unfolding ensure_topology ensure_queue
ensure_topology-Declares answer client topology h =
    let (has, e0) = unless-ok (not client.has_channel) _ _ h in
    let (exchange_named, e1) = unless-ok (is_empty topology.exchange_name) _ _ (subst Ends e0 h) in
    let (queue_named, e2) = unless-ok (is_empty topology.queue_name) _ _ (subst Ends (e0 ∙ e1) h) in
    let (key_named, e3) =
      unless-ok (is_empty topology.routing_key) _ _ (subst Ends (e0 ∙ e1 ∙ e2) h) in
    let (exchange, rest, c1) = after-ok _ _ _ (subst Ends (e0 ∙ e1 ∙ e2 ∙ e3) h) in
    let (queue_ran, binding, c2) = after-ok _ _ _ rest in
    let (_, e4) = unless-ok (not client.has_channel) _ _ queue_ran in
    let (_, e5) = unless-ok (is_empty topology.queue_name) _ _ (subst Ends e4 queue_ran) in
    record {
      calls =
          ap (λ (ran : Ran). ran.calls) (e0 ∙ e1 ∙ e2 ∙ e3)
          ∙ c1
          ∙ ap (λ (cs : List Call). exchange_declare topology.exchange_name ∷ cs)
              (c2
                ∙ ap
                    (λ (ran : Ran).
                      ran.calls
                      ++ queue_bind topology.queue_name topology.routing_key topology.exchange_name
                        ∷ [])
                    (e4 ∙ e5));
      exchange = exchange;
      queue = subst Ends (e4 ∙ e5) queue_ran;
      binding = binding;
      named = rw (exchange_named, queue_named, key_named) refl;
    }
