-- ===== src/Db/FundingSources.antt =====
-- internal/db/funding_sources.sql.go
use payout_orchestrator.Db.Paging.{page}
use payout_orchestrator.Common.{
  ℕ, suc, Bool, List, ltb, leb, ◌||◌, none, some, [], ◌∷◌, ◌++◌, ◌&&◌, any, find, ◌==◌,
  if◌then◌else◌,
}
use payout_orchestrator.Text.{Text, codes}
use payout_orchestrator.Outcome.{ok, err, no_rows, pg, unique_violation}
use payout_orchestrator.Db.Models.{Uuid, Client, FundingSource, Db}
use payout_orchestrator.Db.Session.{Tick, Statement, unchanged}

pub record CreateFundingSourceParams : Type 0 where
  pub client_id : Uuid
  pub name : Text
  pub source_type : Text
  pub payment_account_id : Text

-- The characters of a UTF-8 text: its bytes but for the continuation bytes.
characters : Text → ℕ
characters [] = 0
characters (c ∷ s) = let rest = characters s in if leb 128 c && ltb c 192 then rest else suc rest

-- VARCHAR(n) takes n characters at most. The texts that the program writes have no spaces at
-- their end, which a column would cut off.
unfoldable pub too_long : ℕ → Text → Bool
unfolding characters
too_long n s = ltb n (characters s)

abbrev pub new_source : CreateFundingSourceParams → Tick → FundingSource
new_source arg t = record {
  id = t.fresh;
  client_id = arg.client_id;
  name = arg.name;
  source_type = arg.source_type;
  payment_account_id = arg.payment_account_id;
  status = codes "active";
  created_at = t.now;
  updated_at = t.now;
}

abbrev pub add_source : FundingSource → Db → Db
add_source row d = record d { funding_sources = d.funding_sources ++ row ∷ [] }

abbrev pub is_source_of : Uuid → Uuid → FundingSource → Bool
is_source_of client_id id s = s.client_id == client_id && s.id == id

-- CreateFundingSource: the id, the status and the times are the column defaults.
unfoldable pub create_funding_source : CreateFundingSourceParams → Statement FundingSource
unfolding too_long characters
create_funding_source arg t db =
    if too_long 255 arg.name || too_long 50 arg.source_type || too_long 255 arg.payment_account_id
    then err (pg (codes "22001") [])
    else if any (λ (s : FundingSource). s.id == t.fresh) db.funding_sources
    then err (pg unique_violation (codes "funding_sources_pkey"))
    else if any (λ (c : Client). c.id == arg.client_id) db.clients
    then ok (new_source arg t, add_source (new_source arg t))
    else err (pg (codes "23503") (codes "funding_sources_client_id_fkey"))

-- GetFundingSourceByClientID
unfoldable pub get_funding_source_by_client_id : Uuid → Uuid → Statement FundingSource
get_funding_source_by_client_id client_id id t db =
    elim (find (is_source_of client_id id) db.funding_sources) [
      | none ↦ err no_rows
      | some s ↦ ok (s, unchanged)
    ]

abbrev pub is_of_client : Uuid → FundingSource → Bool
is_of_client client_id s = s.client_id == client_id

-- ListFundingSourcesByClientID
unfoldable pub list_funding_sources_by_client_id : Uuid → ℕ → ℕ → Statement (List FundingSource)
list_funding_sources_by_client_id client_id limit offset t db = ok (
  page (λ (s : FundingSource). s.created_at) (λ (s : FundingSource). s.id) (is_of_client client_id)
      limit offset db.funding_sources,
  unchanged,
)
