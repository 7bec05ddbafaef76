-- ===== src/Payouts/Create/Progress/Tests.antt =====
-- A new request that is taken in.
use payout_orchestrator.Common.{◌≡◌, refl, []}
use payout_orchestrator.Common.Int.{pos, negsuc}
use payout_orchestrator.Text.{codes, trim_space, hex_encode}
use payout_orchestrator.Money.{number, numeric_string}
use payout_orchestrator.Outcome.{ok}
use payout_orchestrator.Db.Payouts.{positive}
use payout_orchestrator.Payouts.Validation.{
  Request, hashed_parts, create_payout_request_hash, validate, normalize_required_text,
  normalize_optional_text, parse_positive_numeric, hash_input,
}
use payout_orchestrator.Payouts.View.{payout_from_db}
use payout_orchestrator.Payouts.Create.{create_payout}
use payout_orchestrator.Payouts.Create.AllOrNothing.{api_service}
use payout_orchestrator.Db.Session.Quiet.{IsQuiet}
use payout_orchestrator.Payouts.Create.Progress.{Acceptable, row, after_rows, create_payout-creates}
use payout_orchestrator.Sample.{calm_env, tables, treasury, start, request}

pub calm : IsQuiet calm_env
calm = record { fault = λ n. refl; others = λ n d. refl }

abbrev pub new_request : Request
new_request = record {
  client_id = 1;
  funding_source_id = 2;
  external_id = [];
  recipient_name = codes "Ann";
  recipient_account_id = codes "acc-7";
  amount = number (pos 1250) (negsuc 1);
  currency = codes "USD";
  idempotency_key = codes "key-1";
  request_hash =
      create_payout_request_hash calm_env
        (hashed_parts calm_env 1 2 [] (codes "Ann") (codes "acc-7") (codes "12.50") (codes "USD"));
}

pub valid : validate calm_env request ≡ ok new_request
unfolding validate normalize_required_text normalize_optional_text parse_positive_numeric trim_space
    numeric_string
valid = refl

pub acceptable : Acceptable calm_env new_request 0 tables
unfolding positive create_payout_request_hash hex_encode hash_input
acceptable = record {
  new_key_of = refl;
  source = treasury;
  owned = refl;
  amount = number (pos 1250) (negsuc 1);
  kept = refl;
  sign = refl;
  new_id = refl;
  new_external_id = refl;
  known_client = refl;
  key_given = refl;
  hash_given = refl;
  new_key_id = refl;
  new_event_id = refl;
}

create_payout-creates_example :
    ((create_payout calm_env (api_service calm_env) request start).0
      ≡ payout_from_db calm_env (row calm_env new_request 0 tables acceptable))
    × ((create_payout calm_env (api_service calm_env) request start).1.committed
        ≡ after_rows calm_env calm new_request start acceptable tables)
create_payout-creates_example =
    create_payout-creates calm_env calm new_request start acceptable request valid
