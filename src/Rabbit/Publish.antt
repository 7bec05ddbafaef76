-- ===== src/Rabbit/Publish.antt =====
-- Publish and waitForPublishConfirm of internal/platform/rabbitmq/client.go.
use payout_orchestrator.Common.{ℕ, Bool, not, Option, none, some, [], ◌∷◌, if◌then◌else◌}
use payout_orchestrator.Text.{Text, codes, is_empty}
use payout_orchestrator.Outcome.{Error, Result, ok, err, failure}
use payout_orchestrator.Rabbit.{Library, Ran, Client, Call, publish_message, stop}

-- amqp.Confirmation, and amqp.Return as far as it is read.
pub record Confirmation : Type 0 where
  pub delivery_tag : ℕ
  pub ack : Bool

pub record Return : Type 0 where
  pub reply_code : ℕ
  pub reply_text : Text

-- What a `select` takes: the context that is done, the timer, or a confirmation, which is `none`
-- where its channel is closed; the first of the two may also take a return.
pub data Late : Type 0 where
  context_done : Error → Late
  timer_fired : Late
  confirmed : Option Confirmation → Late

pub data Pick : Type 0 where
  late : Late → Pick
  returned : Option Return → Pick

abbrev pub timed_out : Error
timed_out = failure (codes "rabbitmq publish confirmation timed out")

abbrev pub not_acknowledged : Error
not_acknowledged = failure (codes "rabbitmq publish was negatively acknowledged")

abbrev pub was_returned : Return → Error
was_returned r = failure (codes "rabbitmq publish was returned")

-- A case of a `select`, where `answer` is what an acknowledgement leads to.
abbrev pub take_late : Result (Unit {0}) → Late → Result (Unit {0})
take_late answer (context_done e) = err e
take_late answer timer_fired = err timed_out
take_late answer (confirmed none) =
    err (failure (codes "rabbitmq publish confirmations channel closed"))
take_late answer (confirmed (some c)) = if c.ack then answer else err not_acknowledged

-- waitForPublishConfirm, by what its two `select`s take.
unfoldable pub wait_for_publish_confirm : Pick → Late → Result (Unit {0})
wait_for_publish_confirm (late first) second = take_late (ok tt) first
wait_for_publish_confirm (returned none) second =
    err (failure (codes "rabbitmq publish returns channel closed"))
wait_for_publish_confirm (returned (some r)) second = take_late (err (was_returned r)) second

abbrev refuse : Text → Ran
refuse text = stop (err (failure text))

abbrev pub after_sending : Call → Result (Unit {0}) → Result (Unit {0}) → Ran
after_sending c (err e) waited = record { result = err e; calls = c ∷ [] }
after_sending c (ok _) waited = record { result = waited; calls = c ∷ [] }

-- Publish, which holds the client's lock from the call of the library on.
unfoldable pub publish : Library → Client → Text → Text → Text → Pick → Late → Ran
unfolding wait_for_publish_confirm
publish answer client exchange routing_key body first second =
    let sent = publish_message exchange routing_key body in
    if not client.has_channel
    then refuse (codes "rabbitmq client is not configured")
    else if is_empty exchange
    then refuse (codes "rabbitmq exchange name is required")
    else if is_empty routing_key
    then refuse (codes "rabbitmq routing key is required")
    else if not client.has_confirmations
    then refuse (codes "rabbitmq publish confirmations are not configured")
    else if not client.has_returns
    then refuse (codes "rabbitmq publish returns are not configured")
    else after_sending sent (answer sent) (wait_for_publish_confirm first second)
