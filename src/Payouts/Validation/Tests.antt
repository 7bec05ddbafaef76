-- ===== src/Payouts/Validation/Tests.antt =====
-- The checks of `CreatePayout` on a concrete request.
use payout_orchestrator.Common.{◌≡◌, refl, [], ◌∷◌}
use payout_orchestrator.Common.Int.{pos, negsuc}
use payout_orchestrator.Text.{codes, trim_space}
use payout_orchestrator.Money.{number, numeric_string}
use payout_orchestrator.Outcome.{ok}
use payout_orchestrator.Payouts.Validation.{
  Request, normalize_required_text, normalize_optional_text, parse_positive_numeric,
  create_payout_request_hash, hashed_parts, validate,
}
use payout_orchestrator.Payouts.Validation.Accepted.{Accepted, validate-Accepted}
use payout_orchestrator.Payouts.Validation.Hash.{hash_input-injective}
use payout_orchestrator.Sample.{calm_env, request}

abbrev accepted_request : Request
accepted_request = record {
  client_id = 1;
  funding_source_id = 2;
  external_id = [];
  recipient_name = codes "Ann";
  recipient_account_id = codes "acc-7";
  amount = number (pos 1250) (negsuc 1);
  currency = codes "USD";
  idempotency_key = codes "key-1";
  request_hash =
      create_payout_request_hash calm_env
        (hashed_parts calm_env 1 2 [] (codes "Ann") (codes "acc-7") (codes "12.50") (codes "USD"));
}

accepting : validate calm_env request ≡ ok accepted_request
unfolding validate normalize_required_text normalize_optional_text parse_positive_numeric trim_space
    numeric_string
accepting = refl

validate-Accepted_example : Accepted calm_env request accepted_request
validate-Accepted_example = validate-Accepted calm_env request accepting

hash_input-injective_example : codes "a" ∷ [] ∷ [] ≡ codes "a" ∷ [] ∷ []
hash_input-injective_example =
    hash_input-injective (codes "a" ∷ [] ∷ []) (codes "a" ∷ [] ∷ []) (((λ e. cc), tt), (tt, tt))
      (((λ e. cc), tt), (tt, tt)) refl
