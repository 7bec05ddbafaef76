-- ===== src/Payouts/Reads.antt =====
-- What the success of `GetPayout` and `ListPayouts` says, for the service that cmd/api/main.go builds.
mod Tests
use payout_orchestrator.Common.{◌≡◌, refl, sym, ap, subst, ◌∙◌, false, not, ◌||◌, some, List, find}
use payout_orchestrator.Common.Int.{abs, is_negative, is_nonpositive}
use payout_orchestrator.Outcome.{ok, guard, guard-eq-ok, invalid_pagination}
use payout_orchestrator.Db.Models.{Uuid, Time, Db, Payout as PayoutRow}
use payout_orchestrator.Db.Session.{Env, World, advance}
use payout_orchestrator.Db.Session.Transactions.{Others, Others-advance}
use payout_orchestrator.Db.Session.Inversion.{
  Yields, Yields-lift_end, Yields-lift_bind, Yields-bind,
}
use payout_orchestrator.Db.Session.Pool.{Yields-on_pool}
use payout_orchestrator.Db.Paging.{IsPage, page, page-IsPage}
use payout_orchestrator.Db.Payouts.{is_payout_of, is_of_client, list_payouts_by_client_id}
use payout_orchestrator.Db.Effects.{get_payout_by_client_id-eq-ok, list_payouts-eq-ok}
use payout_orchestrator.Payouts.Store.Catching.{Yields-catching}
use payout_orchestrator.Payouts.Validation.{or_invalid, or_invalid-eq-ok}
use payout_orchestrator.Payouts.View.{
  Payout, payout_from_db, payouts_from_db, GetPayoutInput, ListPayoutsInput, missing_payout,
  get_payout, list_payouts,
}
use payout_orchestrator.Payouts.Create.AllOrNothing.{api_service}

abbrev pub created_at : PayoutRow → Time
created_at p = p.created_at

abbrev pub id_of : PayoutRow → Uuid
id_of p = p.id

-- The payout that a read shows, of the committed tables at a moment, which it leaves as they are.
pub record PayoutShown (env : Env) (input : GetPayoutInput) (w : World) (shown : Payout) (u : World)
    : Type 0 where
  pub client_id : Uuid
  pub client : env.parse_uuid input.client_id ≡ some client_id
  pub id : Uuid
  pub named : env.parse_uuid input.id ≡ some id
  pub moment : Db
  pub reached : Others env w.committed moment
  pub row : PayoutRow
  pub there : find (is_payout_of client_id id) moment.payouts ≡ some row
  pub shows : payout_from_db env row ≡ ok shown
  pub kept : u.committed ≡ moment

pub record PayoutsListed (env : Env) (input : ListPayoutsInput) (w : World) (shown : List Payout)
    (u : World) : Type 0 where
  pub client_id : Uuid
  pub client : env.parse_uuid input.client_id ≡ some client_id
  pub bounds : is_nonpositive input.limit || is_negative input.offset ≡ false
  pub moment : Db
  pub reached : Others env w.committed moment
  pub rows : List PayoutRow
  pub from :
      rows
      ≡ page created_at id_of
          (is_of_client client_id)
          (abs input.limit)
          (abs input.offset)
          moment.payouts
  pub is_page : IsPage created_at id_of (is_of_client client_id) (abs input.limit) rows
  pub shows : payouts_from_db env rows ≡ ok shown
  pub kept : u.committed ≡ moment

module _ (env : Env) where
  -- Where `GetPayout` answers, both ids were read, and it shows the payout with that id of the client
  -- that the request names, as the committed tables held it at a moment; the tables are left as
  -- they were then.
  pub get_payout-Shown :
      (input : GetPayoutInput) (w : World) {shown : Payout} {u : World}
      → get_payout env (api_service env) input w ≡ (ok shown, u)
      → PayoutShown env input w shown u
  unfolding get_payout
  get_payout-Shown input w {shown} {u} h = yielded.at shown u h
    where
      yielded : Yields (PayoutShown env input w) (get_payout env (api_service env) input) w
      yielded =
          Yields-lift_bind _ (or_invalid (env.parse_uuid input.client_id) _) _ w λ client_id hc.
            Yields-lift_bind _ (or_invalid (env.parse_uuid input.id) _) _ w λ id hi.
              Yields-bind _ _ _ w (Yields-catching missing_payout _ w (Yields-on_pool env _ w))
                λ row v (f, answered, changed).
                  let (there, same) = get_payout_by_client_id-eq-ok _ _ _ _ answered in
                  Yields-lift_end _ (payout_from_db env row) v λ shown hs. record {
                    client_id = client_id;
                    client = or_invalid-eq-ok _ _ hc;
                    id = id;
                    named = or_invalid-eq-ok _ _ hi;
                    moment = (advance env w).committed;
                    reached = Others-advance env w;
                    row = row;
                    there = there;
                    shows = hs;
                    kept = changed ∙ ap (λ (g : Db → Db). g (advance env w).committed) same;
                  }

  -- Where `ListPayouts` answers, the limit is positive and the offset is not negative, and it shows
  -- the page from the offset on of the payouts that the client of the request has in the committed
  -- tables at a moment: its payouts only, at most as many as the limit, the newest first; the
  -- tables are left as they were then.
  pub list_payouts-Listed :
      (input : ListPayoutsInput) (w : World) {shown : List Payout} {u : World}
      → list_payouts env (api_service env) input w ≡ (ok shown, u)
      → PayoutsListed env input w shown u
  unfolding list_payouts
  list_payouts-Listed input w {shown} {u} h = yielded.at shown u h
    where
      yielded : Yields (PayoutsListed env input w) (list_payouts env (api_service env) input) w
      yielded =
          Yields-lift_bind _ (or_invalid (env.parse_uuid input.client_id) _) _ w λ client_id hc.
            Yields-lift_bind _
              (guard (not (is_nonpositive input.limit || is_negative input.offset))
                invalid_pagination)
              _ w
              λ _ hg.
                Yields-bind _ _ _ w
                  (Yields-on_pool env
                    (list_payouts_by_client_id client_id (abs input.limit) (abs input.offset)) w)
                  λ rows v (f, answered, changed).
                    let (listed, same) =
                      list_payouts-eq-ok client_id (abs input.limit) (abs input.offset)
                        (env.tick w.step) (advance env w).committed answered in
                    Yields-lift_end _ (payouts_from_db env rows) v λ shown hs. record {
                      client_id = client_id;
                      client = or_invalid-eq-ok _ _ hc;
                      bounds = guard-eq-ok _ _ hg;
                      moment = (advance env w).committed;
                      reached = Others-advance env w;
                      rows = rows;
                      from = listed;
                      is_page =
                          subst (IsPage created_at id_of (is_of_client client_id) (abs input.limit))
                            (sym listed) (page-IsPage created_at id_of _ _ _ _);
                      shows = hs;
                      kept = changed ∙ ap (λ (g : Db → Db). g (advance env w).committed) same;
                    }
