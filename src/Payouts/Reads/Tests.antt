-- ===== src/Payouts/Reads/Tests.antt =====
-- The reads at concrete requests.
use payout_orchestrator.Common.{◌≡◌, refl, [], ◌∷◌}
use payout_orchestrator.Common.Int.{pos}
use payout_orchestrator.Text.{codes}
use payout_orchestrator.Money.{numeric_string}
use payout_orchestrator.Status
use payout_orchestrator.Outcome.{ok}
use payout_orchestrator.Db.Session.{World, session}
use payout_orchestrator.Db.Paging.{page}
use payout_orchestrator.Db.Payouts.{get_payout_by_client_id, list_payouts_by_client_id}
use payout_orchestrator.Payouts.View.{
  Payout, GetPayoutInput, ListPayoutsInput, get_payout, list_payouts,
}
use payout_orchestrator.Payouts.Create.AllOrNothing.{api_service}
use payout_orchestrator.Sample.{calm_env, world_with}

abbrev getting : GetPayoutInput
getting = record { client_id = codes "u"; id = codes "uuu" }

abbrev shown : Payout
shown = record {
  id = codes "uuu";
  client_id = codes "u";
  funding_source_id = codes "uu";
  external_id = [];
  recipient_name = [];
  recipient_account_id = [];
  amount = codes "12.50";
  currency = codes "USD";
  status = Status.pending;
  failure_reason = [];
  created_at = 5;
  updated_at = 5;
}

abbrev after_get : World
after_get = (get_payout calm_env (api_service calm_env) getting (world_with Status.pending)).1

gets :
    get_payout calm_env (api_service calm_env) getting (world_with Status.pending)
    ≡ (ok shown, after_get)
unfolding get_payout session get_payout_by_client_id numeric_string
gets = refl

abbrev listing : ListPayoutsInput
listing = record { client_id = codes "u"; limit = pos 5; offset = pos 0 }

abbrev after_list : World
after_list = (list_payouts calm_env (api_service calm_env) listing (world_with Status.pending)).1

lists :
    list_payouts calm_env (api_service calm_env) listing (world_with Status.pending)
    ≡ (ok (shown ∷ []), after_list)
unfolding list_payouts session list_payouts_by_client_id page numeric_string
lists = refl
