-- ===== src/Api/Creation.antt =====
-- What POST /payouts leaves in the tables, and for whom.
mod Tests
use payout_orchestrator.Common.{
  ◌≡◌, refl, sym, ap, inl, inr, Bool, true, false, Option, some, Bool-cases, arith,
}
use payout_orchestrator.Text.{Text, codes, is_empty, trim_space}
use payout_orchestrator.Outcome.{
  Error, Result, ok, err, invalid_client_id, duplicate_external_id, invalid_funding_source_id,
  invalid_idempotency_key, invalid_payout, funding_source_not_found, idempotency_conflict,
}
use payout_orchestrator.Db.Session.{Env, World, Action, pure}
use payout_orchestrator.Db.Session.Inversion.{Yields, Yields-pure}
use payout_orchestrator.Payouts.Create.AllOrNothing.{Stored, create_payout-Stored}
use payout_orchestrator.Payouts.Create.Answer.{Answer, create_payout-Answer}
use payout_orchestrator.Payouts.View.{Payout}
use payout_orchestrator.Api.Http.{Client, Request, Response, Web, http_error, document, with_client}
use payout_orchestrator.Api.Documents.{
  decode_body, decode_payout_key, zero_payout_request, CreatePayoutRequest, payout_response,
}
use payout_orchestrator.Api.Payouts.{
  PayoutReadService, created, payout_input, create_decoded, create_for, create_payout,
}
use payout_orchestrator.Api.Router.{payout_create, payout_reads, serve}
use payout_orchestrator.Api.Admission.{Known, Refused, Admitted, serve-Guarded}
use payout_orchestrator.Api.Isolation.{Yields-answering}

module _ (env : Env) (web : Web) where
  created-error : (e : Error) → (created web (err e)).status ≡ 201 → ⊥
  created-error invalid_payout h = omega arith
  created-error invalid_funding_source_id h = omega arith
  created-error invalid_idempotency_key h = omega arith
  created-error idempotency_conflict h = omega arith
  created-error duplicate_external_id h = omega arith
  created-error funding_source_not_found h = omega arith
  created-error invalid_client_id h = omega arith
  created-error _ h = omega arith

  Refused-created :
      {w : World} {resp : Response} {u : World} → Refused env w resp u → resp.status ≡ 201 → ⊥
  Refused-created refused h = elim refused.status [ inl e ↦ omega arith | inr e ↦ omega arith ]

  -- What a request asks the service for, for a client.
  pub record Posted (r : Request) (w : World) (resp : Response) (u : World) : Type 0 where
    pub client : Client
    pub entered : World
    pub known : Known env (r.header (codes "X-API-Key")) w client entered
    pub given : is_empty (trim_space (r.header (codes "Idempotency-Key"))) ≡ false
    pub req : CreatePayoutRequest
    pub decoded :
        decode_body decode_payout_key (web.first_document r.body) zero_payout_request ≡ ok req
    pub shown : Payout
    pub ran :
        (payout_reads env).create_payout
          (payout_input client (trim_space (r.header (codes "Idempotency-Key"))) req)
          entered
        ≡ (ok shown, u)
    pub answer :
        Answer env
          (payout_input client (trim_space (r.header (codes "Idempotency-Key"))) req)
          entered
          shown
    pub stored :
        Stored env
          (payout_input client (trim_space (r.header (codes "Idempotency-Key"))) req)
          entered.committed
          u.committed
    pub body : resp.body ≡ document (payout_response web shown)

  module _ (r : Request) (w : World) where
    create_decoded-Posted :
        (client : Client) (entered : World)
        → Known env (r.header (codes "X-API-Key")) w client entered
        → is_empty (trim_space (r.header (codes "Idempotency-Key"))) ≡ false
        → (d : Result CreatePayoutRequest)
        → decode_body decode_payout_key (web.first_document r.body) zero_payout_request ≡ d
        → Yields
            (λ resp v. resp.status ≡ 201 → Posted r w resp v)
            (create_decoded web
              (payout_reads env)
              client
              (trim_space (r.header (codes "Idempotency-Key")))
              d)
            entered
    create_decoded-Posted client entered known given (err e) decoded =
        Yields-pure _ (http_error (codes "invalid request body") 400) entered
          λ h. absurd (omega arith)
    create_decoded-Posted client entered known given (ok req) decoded =
        let input = payout_input client (trim_space (r.header (codes "Idempotency-Key"))) req in
        Yields-answering (created web) 201 (Posted r w) ((payout_reads env).create_payout input)
          entered created-error
          λ shown v ran. record {
            client = client;
            entered = entered;
            known = known;
            given = given;
            req = req;
            decoded = decoded;
            shown = shown;
            ran = ran;
            answer = create_payout-Answer env input entered ran;
            stored =
                rw (sym (ap (λ (p : Result Payout × World). p.1.committed) ran))
                  (create_payout-Stored env input entered);
            body = refl;
          }

    create_for-Posted :
        (client : Client) (entered : World)
        → Known env (r.header (codes "X-API-Key")) w client entered
        → Yields
            (λ resp v. resp.status ≡ 201 → Posted r w resp v)
            (create_for web (with_client r client) (payout_reads env) client)
            entered
    unfolding create_for
    create_for-Posted client entered known =
        elim (Bool-cases (is_empty (trim_space (r.header (codes "Idempotency-Key"))))) [
          | inl missing ↦ rw missing (
              Yields-pure _ (http_error (codes "idempotency key is required") 400) entered
                λ h. absurd (omega arith))
          | inr given ↦ rw given (create_decoded-Posted client entered known given _ refl)
        ]

    posted :
        {resp : Response} {u : World}
        → resp.status ≡ 201
        → Admitted env (create_payout web (some (payout_reads env))) r w resp u
        → Posted r w resp u
    unfolding create_payout
    posted {resp} {u} answered admitted =
        (create_for-Posted admitted.client admitted.entered admitted.known).at resp u admitted.ran
          answered

    -- Where POST /payouts answers 201, the key of the request is a client's in the tables at a
    -- moment, an idempotency key is given, the body was read, and the response is the document of
    -- the payout that the service has answered with, for the request of this client; from then on
    -- the committed tables were changed by others only, or hold the payout, its idempotency key and
    -- its event as well.
    pub create_payout-Posted :
        {resp : Response} {u : World}
        → serve env web payout_create r w ≡ (ok resp, u)
        → resp.status ≡ 201
        → Posted r w resp u
    create_payout-Posted h answered = elim (serve-Guarded env web payout_create r w refl h) [
      | inl refused ↦ absurd (Refused-created refused answered)
      | inr admitted ↦ posted answered admitted
    ]
