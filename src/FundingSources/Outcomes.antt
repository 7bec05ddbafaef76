-- ===== src/FundingSources/Outcomes.antt =====
-- What the success of the service's calls says, for the service that cmd/api/main.go builds.
use payout_orchestrator.Common.{
  ◌≡◌, refl, sym, ap, subst, ◌∙◌, true, false, not, ◌||◌, some, List, map, find, any, ◌==◌,
}
use payout_orchestrator.Common.Int.{abs, is_negative, is_nonpositive}
use payout_orchestrator.Text.{is_empty, trim_space}
use payout_orchestrator.Outcome.{ok, guard, guard-eq-ok, invalid_funding_source, invalid_pagination}
use payout_orchestrator.Db.Models.{Uuid, Client, Db}
use payout_orchestrator.Db.Models
use payout_orchestrator.Db.Session.{Env, Tick, World, advance}
use payout_orchestrator.Db.Session.Transactions.{Others, Others-advance}
use payout_orchestrator.Db.Session.Inversion.{Yields, Yields-pure, Yields-bind, Yields-lift_bind}
use payout_orchestrator.Db.Session.Pool.{Yields-on_pool}
use payout_orchestrator.Db.Paging.{IsPage, page, page-IsPage}
use payout_orchestrator.Db.FundingSources.{
  new_source, add_source, is_source_of, is_of_client, list_funding_sources_by_client_id,
}
use payout_orchestrator.Db.Effects.{
  get_funding_source_by_client_id-eq-ok, find-get_funding_source, create_funding_source-eq-ok,
  list_funding_sources-eq-ok,
}
use payout_orchestrator.Payouts.Store.Catching.{Yields-catching}
use payout_orchestrator.Payouts.Validation.{or_invalid, or_invalid-eq-ok}
use payout_orchestrator.FundingSources.{
  pool_store, Service, CreateFundingSourceInput, GetFundingSourceInput, ListFundingSourcesInput,
  FundingSource, funding_source_from_db, missing_source, create_stored, create_funding_source,
  get_stored, get_funding_source, list_stored, list_funding_sources,
}

abbrev pub api_service : Env → Service
api_service env = record { store = some (pool_store env) }

abbrev pub created_at : Models.FundingSource → Models.Time
created_at s = s.created_at

abbrev pub id_of : Models.FundingSource → Uuid
id_of s = s.id

-- The source that a read shows: a row of the client that the request names, as of a moment of the
-- committed tables, which the read leaves as they are.
pub record Shown (env : Env) (input : GetFundingSourceInput) (w : World) (shown : FundingSource)
    (u : World) : Type 0 where
  pub client_id : Uuid
  pub client : env.parse_uuid input.client_id ≡ some client_id
  pub id : Uuid
  pub named : env.parse_uuid input.id ≡ some id
  pub row : Models.FundingSource
  pub moment : Db
  pub reached : Others env w.committed moment
  pub there : find (is_source_of client_id id) moment.funding_sources ≡ some row
  pub shows : shown ≡ funding_source_from_db env row
  pub kept : u.committed ≡ moment

pub record Listed (env : Env) (input : ListFundingSourcesInput) (w : World)
    (shown : List FundingSource) (u : World) : Type 0 where
  pub client_id : Uuid
  pub client : env.parse_uuid input.client_id ≡ some client_id
  pub moment : Db
  pub reached : Others env w.committed moment
  pub rows : List Models.FundingSource
  pub from :
      rows
      ≡ page created_at id_of
          (is_of_client client_id)
          (abs input.limit)
          (abs input.offset)
          moment.funding_sources
  pub is_page : IsPage created_at id_of (is_of_client client_id) (abs input.limit) rows
  pub shows : shown ≡ map (funding_source_from_db env) rows
  pub kept : u.committed ≡ moment

pub record Created (env : Env) (input : CreateFundingSourceInput) (w : World)
    (shown : FundingSource) (u : World) : Type 0 where
  pub client_id : Uuid
  pub client : env.parse_uuid input.client_id ≡ some client_id
  pub given :
      is_empty (trim_space input.name)
        || is_empty (trim_space input.source_type)
        || is_empty (trim_space input.payment_account_id)
      ≡ false
  pub tick : Tick
  pub row : Models.FundingSource
  pub made :
      row
      ≡ new_source
          (record {
            client_id = client_id;
            name = trim_space input.name;
            source_type = trim_space input.source_type;
            payment_account_id = trim_space input.payment_account_id;
          })
          tick
  pub moment : Db
  pub reached : Others env w.committed moment
  pub known : any (λ (c : Client). c.id == client_id) moment.clients ≡ true
  pub shows : shown ≡ funding_source_from_db env row
  pub kept : u.committed ≡ add_source row moment

module _ (env : Env) where
  get-Yields :
      (input : GetFundingSourceInput) (w : World)
      → Yields (Shown env input w) (get_stored env (pool_store env) input) w
  unfolding get_stored
  get-Yields input w =
      Yields-lift_bind _ (or_invalid (env.parse_uuid input.client_id) _) _ w λ client_id hc.
        Yields-lift_bind _ (or_invalid (env.parse_uuid input.id) _) _ w λ id hi.
          Yields-bind _ _ _ w (Yields-catching missing_source _ w (Yields-on_pool env _ w))
            λ row u (f, answered, changed).
              Yields-pure _ (funding_source_from_db env row) u (record {
                client_id = client_id;
                client = or_invalid-eq-ok _ _ hc;
                id = id;
                named = or_invalid-eq-ok _ _ hi;
                row = row;
                moment = (advance env w).committed;
                reached = Others-advance env w;
                there = find-get_funding_source _ _ _ _ answered;
                shows = refl;
                kept =
                    changed
                    ∙ ap (λ (g : Db → Db). g (advance env w).committed)
                        (get_funding_source_by_client_id-eq-ok _ _ _ _ answered);
              })

  list-Yields :
      (input : ListFundingSourcesInput) (w : World)
      → Yields (Listed env input w) (list_stored env (pool_store env) input) w
  unfolding list_stored
  list-Yields input w =
      Yields-lift_bind _ (or_invalid (env.parse_uuid input.client_id) _) _ w λ client_id hc.
        Yields-lift_bind _
          (guard (not (is_nonpositive input.limit || is_negative input.offset)) invalid_pagination)
          _ w
          λ _ hg.
            Yields-bind _ _ _ w
              (Yields-on_pool env
                (list_funding_sources_by_client_id client_id (abs input.limit) (abs input.offset))
                w)
              λ rows u (f, answered, changed).
                let (listed, same) =
                  list_funding_sources-eq-ok client_id (abs input.limit) (abs input.offset)
                    (env.tick w.step) (advance env w).committed answered in
                Yields-pure _ (map (funding_source_from_db env) rows) u (record {
                  client_id = client_id;
                  client = or_invalid-eq-ok _ _ hc;
                  moment = (advance env w).committed;
                  reached = Others-advance env w;
                  rows = rows;
                  from = listed;
                  is_page =
                      subst (IsPage created_at id_of (is_of_client client_id) (abs input.limit))
                        (sym listed) (page-IsPage created_at id_of _ _ _ _);
                  shows = refl;
                  kept = changed ∙ ap (λ (g : Db → Db). g (advance env w).committed) same;
                })

  create-Yields :
      (input : CreateFundingSourceInput) (w : World)
      → Yields (Created env input w) (create_stored env (pool_store env) input) w
  unfolding create_stored
  create-Yields input w =
      Yields-lift_bind _
        (guard
          (not (
            is_empty (trim_space input.name)
            || is_empty (trim_space input.source_type)
            || is_empty (trim_space input.payment_account_id)))
          invalid_funding_source)
        _ w
        λ _ hg.
          Yields-lift_bind _ (or_invalid (env.parse_uuid input.client_id) _) _ w λ client_id hc.
            Yields-bind _ _ _ w (Yields-on_pool env _ w) λ row u (f, answered, changed).
              let (known, made, change) = create_funding_source-eq-ok _ _ _ answered in
              Yields-pure _ (funding_source_from_db env row) u (record {
                client_id = client_id;
                client = or_invalid-eq-ok _ _ hc;
                given = guard-eq-ok _ _ hg;
                tick = env.tick w.step;
                row = row;
                made = made;
                moment = (advance env w).committed;
                reached = Others-advance env w;
                known = known;
                shows = refl;
                kept =
                    changed
                    ∙ ap (λ (g : Db → Db). g (advance env w).committed)
                        (change ∙ ap add_source (sym made));
              })

  -- Where `GetFundingSource` answers, both ids were read, and it shows a row of the client that the
  -- request names, with the id that it names, as the committed tables held it at a moment; the
  -- tables are left as they were then.
  pub get_funding_source-Shown :
      (input : GetFundingSourceInput) (w : World) {shown : FundingSource} {u : World}
      → get_funding_source env (api_service env) input w ≡ (ok shown, u)
      → Shown env input w shown u
  unfolding get_funding_source
  get_funding_source-Shown input w {shown} {u} h = (get-Yields input w).at shown u h

  -- Where `ListFundingSources` answers, it shows rows of the client that the request names only, at
  -- most as many as the limit, newest first, which are the page from the offset on of the
  -- committed tables at a moment; the tables are left as they were then.
  pub list_funding_sources-Listed :
      (input : ListFundingSourcesInput) (w : World) {shown : List FundingSource} {u : World}
      → list_funding_sources env (api_service env) input w ≡ (ok shown, u)
      → Listed env input w shown u
  unfolding list_funding_sources
  list_funding_sources-Listed input w {shown} {u} h = (list-Yields input w).at shown u h

  -- Where `CreateFundingSource` answers, the client was read and is in the tables, the name, the type
  -- and the account are not blank, and exactly one row with these three texts, trimmed, has been added,
  -- which is the one that is shown.
  pub create_funding_source-Created :
      (input : CreateFundingSourceInput) (w : World) {shown : FundingSource} {u : World}
      → create_funding_source env (api_service env) input w ≡ (ok shown, u)
      → Created env input w shown u
  unfolding create_funding_source
  create_funding_source-Created input w {shown} {u} h = (create-Yields input w).at shown u h
