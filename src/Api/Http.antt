-- ===== src/Api/Http.antt =====
-- What the handlers read of a request and write as a response: net/http, and
-- internal/apps/api/auth/context.go.
use payout_orchestrator.Common.{ℕ, Option, none, some}
use payout_orchestrator.Text.{Text, codes}
use payout_orchestrator.Json.{Json}
use payout_orchestrator.Outcome.{Result, err, panic}
use payout_orchestrator.Db.Models.{Time}
use payout_orchestrator.Db.Session.{Action, raise, pure, with_result}

-- Client, as internal/apps/api/auth/context.go declares it.
pub record Client : Type 0 where
  pub id : Text
  pub name : Text

-- `r.Header.Get`, `r.PathValue` and `r.URL.Query().Get` give the empty string for what is missing.
-- The client is the value that the request's context holds.
pub record Request : Type 0 where
  pub header : Text → Text
  pub path_value : Text → Text
  pub query : Text → Text
  pub body : Text
  pub client : Option Client

-- What an answer holds: the message of `http.Error`, a JSON document, or plain text.
pub data Body : Type 0 where
  message : Text → Body
  document : Json → Body
  plain : Text → Body

pub record Response : Type 0 where
  pub status : ℕ
  pub body : Body

-- The standard library's part that the model takes as it is: `Format(time.RFC3339Nano)`, which
-- depends on the time zone of the process, and the first JSON document of a body.
pub record Web : Type 0 where
  pub format_time : Time → Text
  pub first_document : Text → Option Json

abbrev pub Handler : Type 0
Handler = Request → Action Response

-- `http.Error`
abbrev pub http_error : Text → ℕ → Response
http_error text status = record { status = status; body = message text }

-- `json.NewEncoder(w).Encode` behind the header with that status. Encoding a struct of strings
-- has no error of its own.
abbrev pub json_response : ℕ → Json → Response
json_response status doc = record { status = status; body = document doc }

-- `WithClient`
abbrev pub with_client : Request → Client → Request
with_client r c = record r { client = some c }

-- A panic leaves the handler; by any other result it chooses what follows.
abbrev pub past_panic : {A B : Type 0} → (Result A → Action B) → Result A → Action B
past_panic k (err panic) = raise panic
past_panic k r = k r

abbrev pub calling : {A B : Type 0} → Action A → (Result A → Action B) → Action B
calling m k = with_result m (past_panic k)

-- A call whose result alone decides the response.
abbrev pub answering : {A : Type 0} → Action A → (Result A → Response) → Action Response
answering m f = calling m (λ r. pure (f r))

abbrev pub no_client : Response
no_client = http_error (codes "client not found in context") 500

abbrev pub server_error : Response
server_error = http_error (codes "internal server error") 500

-- What a handler begins with: its service, then the client of the context.
abbrev pub guarded :
    {S : Type 0}
    → Response
    → Option S
    → Option Client
    → (S → Client → Action Response)
    → Action Response
guarded unset none client body = pure unset
guarded unset (some service) none body = pure no_client
guarded unset (some service) (some client) body = body service client
