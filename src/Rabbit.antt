-- ===== src/Rabbit.antt =====
-- internal/platform/rabbitmq/client.go: the connection to the broker, its topology and publishing.
pub mod Declaring
pub mod Publish
pub mod Acknowledged
mod Tests
use payout_orchestrator.Common.{
  ℕ, ◌≡◌, refl, Bool, true, false, not, Option, none, some, List, [], ◌∷◌, ◌++◌, if◌then◌else◌,
}
use payout_orchestrator.Text.{Text, codes, is_empty}
use payout_orchestrator.Outcome.{Error, Result, ok, err, failure}

-- The calls of github.com/rabbitmq/amqp091-go, with the arguments that the program chooses.
pub data Call : Type 0 where
  dial : Text → Call
  open_channel confirm_mode : Call
  close_channel close_connection : Call
  -- a durable direct exchange, a durable queue, and the binding of the queue
  exchange_declare : Text → Call
  queue_declare : Text → Call
  queue_bind : Text → Text → Text → Call
  -- exchange, routing key and body, mandatory and persistent
  publish_message : Text → Text → Text → Call

-- How the library answers a call.
abbrev pub Library : Type 0
Library = Call → Result (Unit {0})

-- A call of the program: its result, and the calls that it has made, in their order.
pub record Ran : Type 0 where
  pub result : Result (Unit {0})
  pub calls : List Call

abbrev pub stop : Result (Unit {0}) → Ran
stop r = record { result = r; calls = [] }

abbrev pub behind : Call → Ran → Ran
behind c ran = record { result = ran.result; calls = c ∷ ran.calls }

-- A client with its channels; a field that is nil in the source is `false`, and a nil client has
-- no channel. A client that `Open` returns has all of them.
pub record Client : Type 0 where
  pub has_connection : Bool
  pub has_channel : Bool
  pub has_confirmations : Bool
  pub has_returns : Bool

abbrev pub opened : Client
opened = record {
  has_connection = true;
  has_channel = true;
  has_confirmations = true;
  has_returns = true;
}

-- The end of `Open` that closes what is open; the errors of closing are dropped.
abbrev closing : Error → List Call → Ran
closing e calls = record { result = err e; calls = calls }

abbrev confirming : Library → Result (Unit {0}) → Ran
confirming answer (ok _) = stop (ok tt)
confirming answer (err e) = closing e (close_channel ∷ close_connection ∷ [])

abbrev with_channel : Library → Result (Unit {0}) → Ran
with_channel answer (ok _) = behind confirm_mode (confirming answer (answer confirm_mode))
with_channel answer (err e) = closing e (close_connection ∷ [])

abbrev dialled : Library → Result (Unit {0}) → Ran
dialled answer (ok _) = behind open_channel (with_channel answer (answer open_channel))
dialled answer (err e) = closing e []

-- Open; its client is `opened`.
unfoldable pub open_client : Library → Text → Ran
open_client answer url =
    if is_empty url
    then stop (err (failure (codes "rabbitmq url is required")))
    else behind (dial url) (dialled answer (answer (dial url)))

-- The first error of the two.
abbrev pub first_error : Result (Unit {0}) → Result (Unit {0}) → Result (Unit {0})
first_error (err e) r = err e
first_error (ok _) r = r

abbrev closed_if : Bool → Library → Call → Ran
closed_if false answer c = stop (ok tt)
closed_if true answer c = record { result = answer c; calls = c ∷ [] }

-- Close
unfoldable pub close : Library → Option Client → Ran
close answer none = stop (ok tt)
close answer (some client) =
    let first = closed_if client.has_channel answer close_channel in
    let second = closed_if client.has_connection answer close_connection in
    record { result = first_error first.result second.result; calls = first.calls ++ second.calls }

close_tests :
    ((close (λ c. ok tt) (some opened)).calls ≡ close_channel ∷ close_connection ∷ [])
    × ((open_client (λ c. ok tt) (codes "amqp://")).calls
        ≡ dial (codes "amqp://") ∷ open_channel ∷ confirm_mode ∷ [])
unfolding close open_client
close_tests = (refl, refl)
