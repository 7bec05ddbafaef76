-- ===== src/Payouts/Create/Replay/Tests.antt =====
-- Requests that come again.
use payout_orchestrator.Common.{◌≡◌, refl, false, some, find, [], ◌∷◌}
use payout_orchestrator.Common.Int.{pos, negsuc}
use payout_orchestrator.Text.{Text, codes, hex_encode, text_eq, text_eq_refl, trim_space}
use payout_orchestrator.Money.{number, numeric_string}
use payout_orchestrator.Status
use payout_orchestrator.Outcome.{ok, err, idempotency_conflict}
use payout_orchestrator.Db.Models.{IdempotencyKey}
use payout_orchestrator.Db.Session.{World, unchanged}
use payout_orchestrator.Db.IdempotencyKeys.{is_key_of}
use payout_orchestrator.Payouts.Validation.{
  Request, hashed_parts, create_payout_request_hash, validate, normalize_required_text,
  normalize_optional_text, parse_positive_numeric, hash_input,
}
use payout_orchestrator.Payouts.View.{payout_from_db}
use payout_orchestrator.Payouts.Create.{create_payout}
use payout_orchestrator.Payouts.Create.AllOrNothing.{api_service}
use payout_orchestrator.Db.Session.Quiet.{IsQuiet}
use payout_orchestrator.Payouts.Create.Replay.{
  Repeated, create_payout-conflicts, create_payout-replays,
}
use payout_orchestrator.Sample.{calm_env, tables, request, payout_row}

calm : IsQuiet calm_env
calm = record { fault = λ n. refl; others = λ n d. refl }

abbrev taken_request : Request
taken_request = record {
  client_id = 1;
  funding_source_id = 2;
  external_id = [];
  recipient_name = codes "Ann";
  recipient_account_id = codes "acc-7";
  amount = number (pos 1250) (negsuc 1);
  currency = codes "USD";
  idempotency_key = codes "key-1";
  request_hash =
      create_payout_request_hash calm_env
        (hashed_parts calm_env 1 2 [] (codes "Ann") (codes "acc-7") (codes "12.50") (codes "USD"));
}

valid : validate calm_env request ≡ ok taken_request
unfolding validate normalize_required_text normalize_optional_text parse_positive_numeric trim_space
    numeric_string
valid = refl

abbrev key_with : Text → IdempotencyKey
key_with hash = record {
  key = codes "key-1";
  client_id = 1;
  request_hash = hash;
  payout_id = 3;
  created_at = 5;
}

abbrev holding : Text → World
holding hash = record {
  committed = record tables {
    idempotency_keys = key_with hash ∷ [];
    payouts = payout_row Status.pending ∷ [];
  };
  own = unchanged;
  step = 0;
  asked = [];
}

taken :
    (hash : Text)
    → find (is_key_of 1 (codes "key-1")) (holding hash).committed.idempotency_keys
      ≡ some (key_with hash)
unfolding text_eq
taken hash = refl

abbrev repeated : (hash : Text) → Repeated calm_env request (holding hash)
repeated hash = record {
  req = taken_request;
  valid = valid;
  key = key_with hash;
  taken = taken hash;
}

differs : text_eq [] taken_request.request_hash ≡ false
unfolding text_eq create_payout_request_hash hex_encode hash_input
differs = refl

create_payout-conflicts_example :
    ((create_payout calm_env (api_service calm_env) request (holding [])).0
      ≡ err idempotency_conflict)
    × ((create_payout calm_env (api_service calm_env) request (holding [])).1.committed
        ≡ (holding []).committed)
create_payout-conflicts_example =
    create_payout-conflicts calm_env calm request (holding []) (repeated []) differs

create_payout-replays_example :
    ((create_payout calm_env (api_service calm_env) request (holding taken_request.request_hash)).0
      ≡ payout_from_db calm_env (payout_row Status.pending))
    × ((create_payout calm_env
          (api_service calm_env)
          request
          (holding taken_request.request_hash)).1.committed
        ≡ (holding taken_request.request_hash).committed)
create_payout-replays_example =
    create_payout-replays calm_env calm request (holding taken_request.request_hash)
      (repeated taken_request.request_hash) (text_eq_refl taken_request.request_hash) refl
