-- ===== src/Api/Admission.antt =====
-- Which requests reach the handlers behind the middleware.
use payout_orchestrator.Common.{
  ◌≡◌, refl, sym, ap, ◌∙◌, ◌⊎◌, inl, inr, Bool, true, false, some, Bool-cases, find,
}
use payout_orchestrator.Text.{Text, codes, is_empty}
use payout_orchestrator.Outcome.{Error, Result, ok, err, invalid_api_key, unauthorized, panic}
use payout_orchestrator.Db.Models.{Uuid, Db}
use payout_orchestrator.Db.Models
use payout_orchestrator.Db.Session.{Env, World, Action, pure, advance, on_pool}
use payout_orchestrator.Db.Session.Transactions.{
  Others, here, IsTx, IsTx-pure, IsTx-lift, IsTx-bind, Others-advance,
}
use payout_orchestrator.Db.Session.Pool.{IsTx-on_pool, Yields-on_pool}
use payout_orchestrator.Db.Session.Inversion.{
  Yields, Yields-pure, Yields-raise, Yields-lift_bind, Yields-bind, Yields-with_result,
}
use payout_orchestrator.Db.Clients.{get_client_by_api_key, has_key}
use payout_orchestrator.Db.Effects.{get_client_by_api_key-eq-ok}
use payout_orchestrator.Payouts.Store.{catching}
use payout_orchestrator.Payouts.Store.Catching.{Yields-catching, IsTx-catching}
use payout_orchestrator.Payouts.Validation.{or_invalid, or_invalid-eq-ok}
use payout_orchestrator.Api.Http.{
  Client, Request, Response, Web, Handler, http_error, with_client, past_panic,
}
use payout_orchestrator.Api.Auth.{
  authenticator, no_client, client_from_db, authenticate_api_key, refusal, admit, api_key,
}
use payout_orchestrator.Api.Router.{
  Route, health, endpoint, payout_reads, source_calls, auth_service, serve,
}

-- The client whose key a request shows, as of a moment of the committed tables.
pub record Known (env : Env) (raw : Text) (w : World) (client : Client) (u : World) : Type 0 where
  pub key : Uuid
  pub read : env.parse_uuid raw ≡ some key
  pub row : Models.Client
  pub moment : Db
  pub reached : Others env w.committed moment
  pub there : find (has_key key) moment.clients ≡ some row
  pub is : client ≡ client_from_db env row
  pub kept : u.committed ≡ moment

module _ (env : Env) where
  abbrev pub authenticate : Text → Action Client
  authenticate raw = authenticate_api_key env (auth_service env) raw

  authenticate-Known : (raw : Text) (w : World) → Yields (Known env raw w) (authenticate raw) w
  unfolding authenticate_api_key
  authenticate-Known raw w = Yields-lift_bind _ (or_invalid (env.parse_uuid raw) _) _ w λ key read.
      Yields-bind _ _ _ w (Yields-catching no_client _ w (Yields-on_pool env _ w))
        λ row u (f, answered, changed).
          let (there, same) = get_client_by_api_key-eq-ok _ _ _ answered in
          Yields-pure _ (client_from_db env row) u (record {
            key = key;
            read = or_invalid-eq-ok _ _ read;
            row = row;
            moment = (advance env w).committed;
            reached = Others-advance env w;
            there = there;
            is = refl;
            kept = changed ∙ ap (λ (g : Db → Db). g (advance env w).committed) same;
          })

  pub authenticate-IsTx : (raw : Text) → IsTx env (authenticate raw)
  unfolding authenticate_api_key
  authenticate-IsTx raw =
      IsTx-bind env _ _ (IsTx-lift env (or_invalid (env.parse_uuid raw) _)) λ key.
        IsTx-bind env {A = Models.Client}
          (catching no_client (on_pool env (get_client_by_api_key key)))
          (λ row. pure (client_from_db env row))
          (IsTx-catching env no_client _
            (IsTx-on_pool env _ λ t db a f h. (get_client_by_api_key-eq-ok key t db h).1))
          λ row. IsTx-pure env _

  refusal-status : (e : Error) → ((refusal e).status ≡ 401) ⊎ ((refusal e).status ≡ 500)
  refusal-status invalid_api_key = inl refl
  refusal-status unauthorized = inl refl
  refusal-status _ = inr refl

  -- The middleware has refused the request, and the committed tables were changed by others only.
  pub record Refused (w : World) (resp : Response) (u : World) : Type 0 where
    pub status : (resp.status ≡ 401) ⊎ (resp.status ≡ 500)
    pub quiet : Others env w.committed u.committed

  -- The handler has run, for the client whose key the request shows.
  pub record Admitted (next : Handler) (r : Request) (w : World) (resp : Response) (u : World)
      : Type 0 where
    pub client : Client
    pub entered : World
    pub known : Known env (r.header (codes "X-API-Key")) w client entered
    pub ran : next (with_client r client) entered ≡ (ok resp, u)

  abbrev pub Guarded : Handler → Request → World → Response → World → Type 0
  Guarded next r w resp u = Refused w resp u ⊎ Admitted next r w resp u

  admit-Guarded :
      (next : Handler) (r : Request) (w : World) (res : Result Client) (v : World)
      → authenticate (r.header (codes "X-API-Key")) w ≡ (res, v)
      → Yields (Guarded next r w) (past_panic (admit next r) res) v
  admit-Guarded next r w (ok client) v ran = record {
    at = λ resp u h. inr (record {
      client = client;
      entered = v;
      known = (authenticate-Known (r.header (codes "X-API-Key")) w).at client v ran;
      ran = h;
    });
  }
  admit-Guarded next r w (err panic) v ran = Yields-raise _ panic v
  admit-Guarded next r w (err e) v ran = Yields-pure _ (refusal e) v (
      inl (record {
        status = refusal-status e;
        quiet =
            rw (sym (ap (λ (p : Result Client × World). p.1.committed) ran))
              ((authenticate-IsTx (r.header (codes "X-API-Key"))).at w);
      }))

  api_key-Guarded :
      (next : Handler) (r : Request) (w : World)
      → Yields (Guarded next r w) (api_key (some (authenticator env (auth_service env))) next r) w
  unfolding api_key
  api_key-Guarded next r w = elim (Bool-cases (is_empty (r.header (codes "X-API-Key")))) [
    | inl missing ↦ rw missing (
        Yields-pure _ (http_error (codes "missing api key") 401) w
          (inl (record { status = inl refl; quiet = here })))
    | inr present ↦ rw present (
        Yields-with_result _ (authenticate (r.header (codes "X-API-Key"))) _ w
          (admit-Guarded next r w))
  ]

  abbrev pub is_protected : Route → Bool
  is_protected health = false
  is_protected _ = true

  -- Behind every route but the health check, a request is either refused with 401 or 500, without
  -- a change of the committed tables, or its key is a client's in the tables at a moment, and the
  -- response is the one of the route's handler for that client.
  pub serve-Guarded :
      (web : Web) (route : Route) (r : Request) (w : World) {resp : Response} {u : World}
      → is_protected route ≡ true
      → serve env web route r w ≡ (ok resp, u)
      → Guarded (endpoint web (some (source_calls env)) (some (payout_reads env)) route) r w resp u
  unfolding serve
  serve-Guarded web health r w p h = cc
  serve-Guarded web route r w {resp} {u} p h = (api_key-Guarded _ r w).at resp u h
