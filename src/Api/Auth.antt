-- ===== src/Api/Auth.antt =====
-- internal/apps/api/services/auth/service.go and internal/apps/api/middleware/api_key.go
use payout_orchestrator.Common.{Option, none, some, if◌then◌else◌}
use payout_orchestrator.Text.{Text, codes, is_empty}
use payout_orchestrator.Outcome.{
  Error, Result, ok, err, failure, invalid_api_key, unauthorized, is_no_rows,
}
use payout_orchestrator.Db.Models.{Uuid}
use payout_orchestrator.Db.Models
use payout_orchestrator.Db.Session.{Env, Action, pure, raise, lift, ◌>>=◌, on_pool}
use payout_orchestrator.Db.Clients.{get_client_by_api_key}
use payout_orchestrator.Payouts.Store.{catching}
use payout_orchestrator.Payouts.Validation.{or_invalid}
use payout_orchestrator.Api.Http.{
  Client, Request, Response, Handler, http_error, with_client, calling,
}

-- ClientStore
pub record ClientStore : Type 0 where
  pub get_client_by_api_key : Uuid → Action Models.Client

-- *db.Queries on the pool, which cmd/api/main.go gives to the service.
abbrev pub pool_clients : Env → ClientStore
pool_clients env = record {
  get_client_by_api_key = λ api_key. on_pool env (get_client_by_api_key api_key);
}

-- A nil *Service stands as one without a store.
pub record AuthService : Type 0 where
  pub clients : Option ClientStore

abbrev not_configured : Error
not_configured = failure (codes "auth service is not configured")

-- `if errors.Is(err, pgx.ErrNoRows) { return ErrUnauthorized }`
abbrev pub no_client : Error → Error
no_client e = if is_no_rows e then unauthorized else e

abbrev pub client_from_db : Env → Models.Client → Client
client_from_db env c = record { id = env.uuid_text c.id; name = c.name }

-- AuthenticateAPIKey
unfoldable pub authenticate_api_key : Env → AuthService → Text → Action Client
authenticate_api_key env s raw_api_key = elim s.clients [
  | none ↦ raise not_configured
  | some clients ↦ do
    api_key ← lift (or_invalid (env.parse_uuid raw_api_key) invalid_api_key)
    client_row ← catching no_client (clients.get_client_by_api_key api_key)
    pure (client_from_db env client_row)
]

-- Authenticator
pub record Authenticator : Type 0 where
  pub authenticate_api_key : Text → Action Client

abbrev pub authenticator : Env → AuthService → Authenticator
authenticator env s = record { authenticate_api_key = authenticate_api_key env s }

-- The response to a key that was not accepted.
abbrev pub refusal : Error → Response
refusal invalid_api_key = http_error (codes "unauthorized") 401
refusal unauthorized = http_error (codes "unauthorized") 401
refusal _ = http_error (codes "internal server error") 500

-- What the authenticator's answer leads to.
abbrev pub admit : Handler → Request → Result Client → Action Response
admit next r (ok client) = next (with_client r client)
admit next r (err e) = pure (refusal e)

-- APIKey
unfoldable pub api_key : Option Authenticator → Handler → Handler
api_key none next r = pure (http_error (codes "auth middleware is not configured") 500)
api_key (some auth) next r =
    let key = r.header (codes "X-API-Key") in
    if is_empty key
    then pure (http_error (codes "missing api key") 401)
    else calling (auth.authenticate_api_key key) (admit next r)
