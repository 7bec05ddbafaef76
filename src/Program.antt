-- ===== src/Program.antt =====
-- cmd/api/main.go: how the server and the relay run side by side and end, and what is read of the
-- environment's variables.
pub mod Start
pub mod Routes
mod Tests
use payout_orchestrator.Common.{
  ◌≡◌, ◌↔◌, refl, Bool, true, false, ◌||◌, Option, none, some, [], if◌then◌else◌,
}
use payout_orchestrator.Text.{Text, codes, is_empty, text_eq}
use payout_orchestrator.Outcome.{Error, Result, ok, err, failure, server_closed, canceled}

abbrev pub Ended : Type 0
Ended = Result (Unit {0})

-- normalizeServeError
abbrev pub normalize_serve_error : Ended → Ended
normalize_serve_error (err server_closed) = ok tt
normalize_serve_error r = r

-- normalizeOutboxRelayError
abbrev pub normalize_outbox_relay_error : Ended → Ended
normalize_outbox_relay_error (err canceled) = ok tt
normalize_outbox_relay_error r = r

-- firstNonNilError, of two errors
abbrev pub first_non_nil_error : Ended → Ended → Ended
first_non_nil_error (err e) r = err e
first_non_nil_error (ok _) r = r

-- What the `select` of `runApplication` takes. The relay can end first only if there is one, since
-- a nil channel is never ready.
pub data First : Option Ended → Type 0 where
  server_ends : {relay : Option Ended} → First relay
  relay_ends : {r : Ended} → First (some r)
  signalled : {relay : Option Ended} → First relay

-- The server's error, where `served` is what `serve` has returned, by the time it is received.
abbrev pub server_error : {relay : Option Ended} → First relay → Ended → Ended → Ended
server_error server_ends served stopped =
    first_non_nil_error (normalize_serve_error served) (normalize_serve_error stopped)
server_error relay_ends served stopped =
    first_non_nil_error (normalize_serve_error stopped) (normalize_serve_error served)
server_error signalled served stopped =
    first_non_nil_error (normalize_serve_error stopped) (normalize_serve_error served)

abbrev pub relay_error : Option Ended → Ended
relay_error none = ok tt
relay_error (some r) = normalize_outbox_relay_error r

-- runApplication: what `serve`, the relay and `Shutdown` have returned, for a server that is
-- configured or not. Both goroutines are waited for.
unfoldable pub run_application : Bool → (relay : Option Ended) → First relay → Ended → Ended → Ended
run_application false relay first served stopped =
    err (failure (codes "http server is not configured"))
run_application true relay first served stopped =
    first_non_nil_error (server_error first served stopped) (relay_error relay)

-- Nothing went wrong, but that the server was closed.
pub data ServerFine : Ended → Type 0 where
  served : ServerFine (ok tt)
  closed : ServerFine (err server_closed)

-- The relay has returned, or was stopped by the context, or there is none.
pub data RelayFine : Option Ended → Type 0 where
  absent : RelayFine none
  returned : RelayFine (some (ok tt))
  stopped : RelayFine (some (err canceled))

err-ne-ok : {e : Error} {u : Unit {0}} → err e ≡ ok u → ⊥
err-ne-ok h = cc

first-fine : (r s : Ended) → first_non_nil_error r s ≡ ok tt → (r ≡ ok tt) × (s ≡ ok tt)
first-fine (err e) s h = absurd (err-ne-ok h)
first-fine (ok _) s h = (refl, h)

server-fine : (r : Ended) → normalize_serve_error r ≡ ok tt → ServerFine r
server-fine (ok _) h = served
server-fine (err server_closed) h = closed
server-fine (err e) h = absurd (err-ne-ok h)

relay-fine : (o : Option Ended) → relay_error o ≡ ok tt → RelayFine o
relay-fine none h = absent
relay-fine (some (ok _)) h = returned
relay-fine (some (err canceled)) h = stopped
relay-fine (some (err e)) h = absurd (err-ne-ok h)

errors-fine :
    {relay : Option Ended} (first : First relay) (r s : Ended)
    → server_error first r s ≡ ok tt
    → ServerFine r × ServerFine s
errors-fine server_ends r s h =
    let (a, b) = first-fine (normalize_serve_error r) (normalize_serve_error s) h in
    (server-fine r a, server-fine s b)
errors-fine relay_ends r s h =
    let (a, b) = first-fine (normalize_serve_error s) (normalize_serve_error r) h in
    (server-fine r b, server-fine s a)
errors-fine signalled r s h =
    let (a, b) = first-fine (normalize_serve_error s) (normalize_serve_error r) h in
    (server-fine r b, server-fine s a)

fine-errors :
    {relay : Option Ended} (first : First relay) {r s : Ended}
    → ServerFine r
    → ServerFine s
    → server_error first r s ≡ ok tt
fine-errors server_ends served served = refl
fine-errors server_ends served closed = refl
fine-errors server_ends closed served = refl
fine-errors server_ends closed closed = refl
fine-errors relay_ends served served = refl
fine-errors relay_ends served closed = refl
fine-errors relay_ends closed served = refl
fine-errors relay_ends closed closed = refl
fine-errors signalled served served = refl
fine-errors signalled served closed = refl
fine-errors signalled closed served = refl
fine-errors signalled closed closed = refl

fine-relay : {o : Option Ended} → RelayFine o → relay_error o ≡ ok tt
fine-relay absent = refl
fine-relay returned = refl
fine-relay stopped = refl

-- A configured application ends without an error where the server and its shutdown have none but
-- that the server was closed, and the relay, where there is one, none but that it was cancelled, and
-- only then, whichever of the server, the relay and the signal came first: no error is lost.
pub run_application-ends :
    (relay : Option Ended) (first : First relay) (r s : Ended)
    → (run_application true relay first r s ≡ ok tt)
      ↔ (ServerFine r × ServerFine s × RelayFine relay)
unfolding run_application
run_application-ends relay first r s = (
  λ h.
      let (server, other) = first-fine (server_error first r s) (relay_error relay) h in
      let (ran, shut) = errors-fine first r s server in (ran, shut, relay-fine relay other),
  λ (ran, shut, other). rw (fine-errors first ran shut, fine-relay other) refl,
)

-- loadStringEnv, where a variable that is not set is empty
abbrev pub load_string_env : (Text → Text) → Text → Text → Text
load_string_env getenv name fallback =
    let raw = getenv name in if is_empty raw then fallback else raw

-- `strconv.ParseBool`
abbrev parse_bool : Text → Result Bool
parse_bool raw =
    if text_eq raw (codes "1")
      || text_eq raw (codes "t")
      || text_eq raw (codes "T")
      || text_eq raw (codes "TRUE")
      || text_eq raw (codes "true")
      || text_eq raw (codes "True")
    then ok true
    else if text_eq raw (codes "0")
        || text_eq raw (codes "f")
        || text_eq raw (codes "F")
        || text_eq raw (codes "FALSE")
        || text_eq raw (codes "false")
        || text_eq raw (codes "False")
    then ok false
    else err (failure (codes "strconv.ParseBool"))

-- loadBoolEnv
abbrev pub load_bool_env : (Text → Text) → Text → Bool → Result Bool
load_bool_env getenv name fallback =
    let raw = getenv name in if is_empty raw then ok fallback else parse_bool raw

load_tests :
    (load_bool_env (λ name. codes "T") [] false ≡ ok true)
    × (load_bool_env (λ name. []) [] true ≡ ok true)
    × (load_string_env (λ name. []) [] (codes "payout.jobs") ≡ codes "payout.jobs")
unfolding text_eq
load_tests = (refl, refl, refl)
