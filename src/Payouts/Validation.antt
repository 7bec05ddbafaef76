-- ===== src/Payouts/Validation.antt =====
-- The part of `CreatePayout` that looks at the request alone, with its helpers.
pub mod Accepted
pub mod Hash
mod Tests
use payout_orchestrator.Common.{
  ◌≡◌, ℕ, Bool, true, false, not, ◌&&◌, ◌||◌, Option, none, some, List, [], ◌∷◌, ◌++◌,
  if◌then◌else◌, ltb, length,
}
use payout_orchestrator.Common.Int.{is_nonpositive}
use payout_orchestrator.Text.{Text, is_empty, trim_space, hex_encode}
use payout_orchestrator.Money.{Numeric, supported_int, numeric_string}
use payout_orchestrator.Outcome.{
  Error, Result, ok, err, invalid_client_id, invalid_funding_source_id, invalid_idempotency_key,
  invalid_payout, ◌>>=◌, ◌>>◌, guard,
}
use payout_orchestrator.Db.Models.{Uuid, PgText}
use payout_orchestrator.Db.Session.{Env}

pub record CreatePayoutInput : Type 0 where
  pub client_id : Text
  pub funding_source_id : Text
  pub idempotency_key : Text
  pub external_id : Text
  pub recipient_name : Text
  pub recipient_account_id : Text
  pub amount : Text
  pub currency : Text

-- What the service goes on with: the parsed and trimmed fields, and the hash of the request.
pub record Request : Type 0 where
  pub client_id : Uuid
  pub funding_source_id : Uuid
  pub external_id : Text
  pub recipient_name : Text
  pub recipient_account_id : Text
  pub amount : Numeric
  pub currency : Text
  pub idempotency_key : Text
  pub request_hash : Text

abbrev pub or_invalid {ℓ} : {A : Type ℓ} → Option A → Error → Result A
or_invalid none e = err e
or_invalid (some a) e = ok a

pub or_invalid-eq-ok :
    {A : Type 0} (o : Option A) (e : Error) {a : A} → or_invalid o e ≡ ok a → o ≡ some a
or_invalid-eq-ok none e h = cc
or_invalid-eq-ok (some b) e h = cc

-- normalizeRequiredText
unfoldable pub normalize_required_text : Text → ℕ → Option Text
normalize_required_text raw max_len =
    let value = trim_space raw in
    if is_empty value || ltb max_len (length value) then none else some value

-- normalizeOptionalText
unfoldable pub normalize_optional_text : Text → ℕ → Option Text
normalize_optional_text raw max_len =
    let value = trim_space raw in if ltb max_len (length value) then none else some value

-- textParam
abbrev pub text_param : Text → PgText
text_param value = record { string = value; is_valid = not (is_empty value) }

-- The test of `parsePositiveNumeric` on a scanned amount.
abbrev pub is_positive_amount : Numeric → Bool
is_positive_amount amount = elim (supported_int amount) [
  | none ↦ false
  | some i ↦ not (is_nonpositive i)
]

-- parsePositiveNumeric; its caller turns either error into ErrInvalidPayout.
unfoldable pub parse_positive_numeric : Env → Text → Option Numeric
parse_positive_numeric env raw = elim (env.scan_numeric (trim_space raw)) [
  | none ↦ none
  | some amount ↦ if is_positive_amount amount then some amount else none
]

-- What is written to the hash: each part, and a zero byte behind it.
unfoldable pub hash_input : List Text → Text
hash_input [] = []
hash_input (part ∷ parts) = part ++ 0 ∷ hash_input parts

-- createPayoutRequestHash
unfoldable pub create_payout_request_hash : Env → List Text → Text
create_payout_request_hash env parts = hex_encode (env.sha256 (hash_input parts))

-- The parts of a request that its hash is about.
abbrev pub hashed_parts : Env → Uuid → Uuid → Text → Text → Text → Text → Text → List Text
hashed_parts env client_id funding_source_id external_id recipient_name recipient_account_id amount
      currency =
    env.uuid_text client_id
    ∷ env.uuid_text funding_source_id
    ∷ external_id
    ∷ recipient_name
    ∷ recipient_account_id
    ∷ amount
    ∷ currency
    ∷ []

-- The checks of `CreatePayout` in their order, up to the request's hash.
unfoldable pub validate : Env → CreatePayoutInput → Result Request
validate env input = do
  client_id ← or_invalid (env.parse_uuid input.client_id) invalid_client_id
  funding_source_id ← or_invalid (env.parse_uuid input.funding_source_id) invalid_funding_source_id
  external_id ← or_invalid (normalize_optional_text input.external_id 255) invalid_payout
  recipient_name ← or_invalid (normalize_required_text input.recipient_name 255) invalid_payout
  recipient_account_id ←
      or_invalid (normalize_required_text input.recipient_account_id 255) invalid_payout
  amount ← or_invalid (parse_positive_numeric env input.amount) invalid_payout
  let currency = trim_space input.currency
  guard (not (is_empty currency || ltb 12 (length currency))) invalid_payout
  let idempotency_key = trim_space input.idempotency_key
  guard (not (is_empty idempotency_key)) invalid_idempotency_key
  amount_hash_value ← numeric_string amount
  ok (record {
    client_id = client_id;
    funding_source_id = funding_source_id;
    external_id = external_id;
    recipient_name = recipient_name;
    recipient_account_id = recipient_account_id;
    amount = amount;
    currency = currency;
    idempotency_key = idempotency_key;
    request_hash = create_payout_request_hash env (
        hashed_parts env client_id funding_source_id external_id recipient_name recipient_account_id
          amount_hash_value currency);
  })
