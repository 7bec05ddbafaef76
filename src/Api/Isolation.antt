-- ===== src/Api/Isolation.antt =====
-- Whose payouts the routes of the API show.
use payout_orchestrator.Common.{
  ℕ, ◌≤◌, ◌≡◌, refl, sym, ap, subst, inl, inr, Option, some, List, arith, find,
}
use payout_orchestrator.Common.Int.{ℤ, abs}
use payout_orchestrator.Text.{Text, codes}
use payout_orchestrator.Json.{arr}
use payout_orchestrator.Outcome.{
  Error, Result, ok, err, panic, or_error, invalid_client_id, invalid_pagination, invalid_payout_id,
  payout_not_found,
}
use payout_orchestrator.Db.Models.{Uuid, Db, Payout as PayoutRow}
use payout_orchestrator.Db.Session.{Env, World, Action, pure}
use payout_orchestrator.Db.Session.Transactions.{Others, Others-trans}
use payout_orchestrator.Db.Session.Inversion.{Yields, Yields-pure, Yields-raise, Yields-with_result}
use payout_orchestrator.Db.Payouts.{is_payout_of, is_of_client}
use payout_orchestrator.Db.Paging.{IsPage}
use payout_orchestrator.Payouts.View.{
  Payout, payout_from_db, payouts_from_db, GetPayoutInput, ListPayoutsInput,
}
use payout_orchestrator.Payouts.Reads.{created_at, id_of, get_payout-Shown, list_payouts-Listed}
use payout_orchestrator.Api.Http.{
  Client, Request, Response, Web, document, with_client, past_panic, answering,
}
use payout_orchestrator.Api.Query.{pagination_params, pagination_params-bounds}
use payout_orchestrator.Api.Documents.{payout_response, responses}
use payout_orchestrator.Api.Payouts.{
  got, get_payout, listed, payout_pagination, list_paged, list_payouts,
}
use payout_orchestrator.Api.Router.{payout_get, payout_list, payout_reads, serve}
use payout_orchestrator.Api.Admission.{Known, Refused, Admitted, serve-Guarded}

module _ {A : Type 0} (f : Result A → Response) (status : ℕ) where
  -- A handler whose response has a status that no error has.
  pub Yields-answering :
      (Q : Response → World → Type 0) (m : Action A) (w : World)
      → ((e : Error) → (f (err e)).status ≡ status → ⊥)
      → ((a : A) (u : World) → m w ≡ (ok a, u) → Q (f (ok a)) u)
      → Yields (λ resp u. resp.status ≡ status → Q resp u) (answering m f) w
  Yields-answering Q m w never q = Yields-with_result _ m _ w go
    where
      go :
          (r : Result A) (u : World)
          → m w ≡ (r, u)
          → Yields (λ resp v. resp.status ≡ status → Q resp v) (past_panic (λ r. pure (f r)) r) u
      go (ok a) u ran = Yields-pure _ (f (ok a)) u λ h. q a u ran
      go (err panic) u ran = Yields-raise _ panic u
      go (err e) u ran = Yields-pure _ (f (err e)) u λ h. absurd (never e h)

abbrev own_input : Request → Client → GetPayoutInput
own_input r client = record { client_id = client.id; id = r.path_value (codes "id") }

abbrev own_page : Client → ℤ → ℤ → ListPayoutsInput
own_page client limit offset = record { client_id = client.id; limit = limit; offset = offset }

module _ (env : Env) (web : Web) where
  got-error : (e : Error) → (got web (err e)).status ≡ 200 → ⊥
  got-error payout_not_found h = omega arith
  got-error invalid_payout_id h = omega arith
  got-error invalid_client_id h = omega arith
  got-error _ h = omega arith

  listed-error : (e : Error) → (listed web (err e)).status ≡ 200 → ⊥
  listed-error invalid_pagination h = omega arith
  listed-error invalid_client_id h = omega arith
  listed-error _ h = omega arith

  -- A refused request is not answered with 200.
  Refused-status :
      {w : World} {resp : Response} {u : World} → Refused env w resp u → resp.status ≡ 200 → ⊥
  Refused-status refused h = elim refused.status [ inl e ↦ omega arith | inr e ↦ omega arith ]

  -- What GET /payouts/{id} shows: the payout with that id of the client that the key belongs to.
  pub record OwnPayout (r : Request) (w : World) (resp : Response) (u : World) : Type 0 where
    pub client : Client
    pub entered : World
    pub known : Known env (r.header (codes "X-API-Key")) w client entered
    pub id : Uuid
    pub named : env.parse_uuid (r.path_value (codes "id")) ≡ some id
    pub row : PayoutRow
    pub moment : Db
    pub reached : Others env w.committed moment
    pub there : find (is_payout_of known.row.id id) moment.payouts ≡ some row
    pub shown : Payout
    pub shows : payout_from_db env row ≡ ok shown
    pub body : resp.body ≡ document (payout_response web shown)
    pub kept : u.committed ≡ moment

  -- What GET /payouts shows.
  pub record OwnPayouts (r : Request) (w : World) (resp : Response) (u : World) : Type 0 where
    pub client : Client
    pub entered : World
    pub known : Known env (r.header (codes "X-API-Key")) w client entered
    pub moment : Db
    pub reached : Others env w.committed moment
    pub rows : List PayoutRow
    pub limit : ℕ
    pub limit_le : limit ≤ 100
    pub is_page : IsPage created_at id_of (is_of_client known.row.id) limit rows
    pub shown : List Payout
    pub shows : payouts_from_db env rows ≡ ok shown
    pub body : resp.body ≡ document (arr (responses (payout_response web) shown))
    pub kept : u.committed ≡ moment

  -- Two readings of one text.
  same_id : {a b : Uuid} {s : Option Uuid} → s ≡ some a → s ≡ some b → a ≡ b
  same_id h k = cc

  module _ (round : (id : Uuid) → env.parse_uuid (env.uuid_text id) ≡ some id) where
    -- The id that the service reads of the context's client is the one in the tables.
    client_id-eq :
        {raw : Text} {w : World} {client : Client} {u : World} {id : Uuid}
        (known : Known env raw w client u)
        → env.parse_uuid client.id ≡ some id
        → id ≡ known.row.id
    client_id-eq known h = same_id h (rw (ap (λ (c : Client). c.id) known.is) (round known.row.id))

    Others-known :
        {raw : Text} {w : World} {client : Client} {u : World} {moment : Db}
        (known : Known env raw w client u)
        → Others env u.committed moment
        → Others env w.committed moment
    Others-known {moment = moment} known rest =
        Others-trans known.reached (subst (λ (d : Db). Others env d moment) known.kept rest)

    own_payout :
        (r : Request) (w : World) {resp : Response} {u : World}
        → resp.status ≡ 200
        → Admitted env (get_payout web (some (payout_reads env))) r w resp u
        → OwnPayout r w resp u
    unfolding get_payout
    own_payout r w {resp} {u} answered admitted =
        (Yields-answering (got web) 200 (OwnPayout r w)
            ((payout_reads env).get_payout (own_input r admitted.client)) admitted.entered got-error
            λ shown v ran.
              let read = get_payout-Shown env (own_input r admitted.client) admitted.entered ran in
              let mine = client_id-eq admitted.known read.client in
              record {
                client = admitted.client;
                entered = admitted.entered;
                known = admitted.known;
                id = read.id;
                named = read.named;
                row = read.row;
                moment = read.moment;
                reached = Others-known admitted.known read.reached;
                there = rw (sym mine) read.there;
                shown = shown;
                shows = read.shows;
                body = refl;
                kept = read.kept;
              }).at
          resp u admitted.ran answered

    -- Where GET /payouts/{id} answers 200, the key of the request is a client's in the tables at a
    -- moment, and the response is the document of the payout that has the path's id and belongs to
    -- this client; the committed tables are changed by others only. The parser of UUIDs is taken
    -- to read back what is printed.
    pub get_payout-Isolated :
        (r : Request) (w : World) {resp : Response} {u : World}
        → serve env web payout_get r w ≡ (ok resp, u)
        → resp.status ≡ 200
        → OwnPayout r w resp u
    get_payout-Isolated r w {resp} {u} h answered =
        elim (serve-Guarded env web payout_get r w refl h) [
          | inl refused ↦ absurd (Refused-status refused answered)
          | inr admitted ↦ own_payout r w answered admitted
        ]

    paged :
        (r : Request) (w : World) (client : Client) (entered : World)
        → Known env (r.header (codes "X-API-Key")) w client entered
        → (b : Result (ℤ × ℤ)) → pagination_params (with_client r client) 50 100 ≡ b
        → Yields
            (λ answer v. answer.status ≡ 200 → OwnPayouts r w answer v)
            (list_paged web (payout_reads env) client (or_error b invalid_pagination))
            entered
    paged r w client entered known (err e) read = Yields-pure _ _ entered λ h'. absurd (omega arith)
    paged r w client entered known (ok (limit, offset)) read =
        Yields-answering (listed web) 200 (OwnPayouts r w)
          ((payout_reads env).list_payouts (own_page client limit offset)) entered listed-error
          λ shown v ran.
            let bounds = pagination_params-bounds (with_client r client) 50 100 read in
            let page = list_payouts-Listed env (own_page client limit offset) entered ran in
            let mine = client_id-eq known page.client in
            record {
              client = client;
              entered = entered;
              known = known;
              moment = page.moment;
              reached = Others-known known page.reached;
              rows = page.rows;
              limit = abs limit;
              limit_le = rw bounds.limit_is bounds.at_most;
              is_page = rw (sym mine) page.is_page;
              shown = shown;
              shows = page.shows;
              body = refl;
              kept = page.kept;
            }

    own_payouts :
        (r : Request) (w : World) {resp : Response} {u : World}
        → resp.status ≡ 200
        → Admitted env (list_payouts web (some (payout_reads env))) r w resp u
        → OwnPayouts r w resp u
    unfolding list_payouts payout_pagination
    own_payouts r w {resp} {u} answered admitted =
        (paged r w admitted.client admitted.entered admitted.known _ refl).at resp u admitted.ran
          answered

    -- Where GET /payouts answers 200, the key of the request is a client's in the tables at a
    -- moment, and the response is the document of at most 100 payouts that all belong to this
    -- client, the newest first; the committed tables are changed by others only. The parser of
    -- UUIDs is taken to read back what is printed.
    pub list_payouts-Isolated :
        (r : Request) (w : World) {resp : Response} {u : World}
        → serve env web payout_list r w ≡ (ok resp, u)
        → resp.status ≡ 200
        → OwnPayouts r w resp u
    list_payouts-Isolated r w {resp} {u} h answered =
        elim (serve-Guarded env web payout_list r w refl h) [
          | inl refused ↦ absurd (Refused-status refused answered)
          | inr admitted ↦ own_payouts r w answered admitted
        ]
