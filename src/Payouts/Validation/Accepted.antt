-- ===== src/Payouts/Validation/Accepted.antt =====
-- What the checks of `CreatePayout` let through.
use payout_orchestrator.Common.{
  ℕ, ◌≤◌, ◌≡◌, refl, sym, subst, ◌∙◌, Bool, true, false, not, ◌||◌, Option, none, some, length, ltb,
  arith, if◌then◌else◌,
}
use payout_orchestrator.Common.Int.{ℤ, is_nonpositive}
use payout_orchestrator.Text.{Text, is_empty, trim_space}
use payout_orchestrator.Text.Trim.{trim_space_idem}
use payout_orchestrator.Money.{Numeric, supported_int, numeric_string}
use payout_orchestrator.Outcome.{Error, ok, guard, >>=-eq-ok}
use payout_orchestrator.Db.Session.{Env}
use payout_orchestrator.Db.Session.Inversion.{ok-injective}
use payout_orchestrator.Payouts.Validation.{
  CreatePayoutInput, Request, or_invalid, normalize_required_text, normalize_optional_text,
  is_positive_amount, parse_positive_numeric, create_payout_request_hash, hashed_parts, validate,
}

-- A text of at most `max` bytes with no white space around it.
abbrev pub Fits : ℕ → Text → Type 0
Fits max v = (trim_space v ≡ v) × (length v ≤ max)

abbrev pub Given : ℕ → Text → Type 0
Given max v = (is_empty v ≡ false) × Fits max v

pub record Accepted (env : Env) (input : CreatePayoutInput) (req : Request) : Type 0 where
  pub client : env.parse_uuid input.client_id ≡ some req.client_id
  pub source : env.parse_uuid input.funding_source_id ≡ some req.funding_source_id
  pub external_id : Fits 255 req.external_id
  pub recipient_name : Given 255 req.recipient_name
  pub recipient_account_id : Given 255 req.recipient_account_id
  pub currency : Given 12 req.currency
  pub key :
      (is_empty req.idempotency_key ≡ false)
      × (trim_space req.idempotency_key ≡ req.idempotency_key)
  pub positive : (i : ℤ) × (supported_int req.amount ≡ some i) × (is_nonpositive i ≡ false)
  pub hash :
      (t : Text) × (numeric_string req.amount ≡ ok t)
      × (req.request_hash
          ≡ create_payout_request_hash env (
              hashed_parts env req.client_id req.funding_source_id req.external_id
                req.recipient_name req.recipient_account_id t req.currency))

or_invalid-eq-ok :
    {A : Type 0} (o : Option A) (e : Error) {a : A} → or_invalid o e ≡ ok a → o ≡ some a
or_invalid-eq-ok none e h = cc
or_invalid-eq-ok (some b) e h = cc

true-ne-false : true ≡ false → ⊥
true-ne-false h = cc

unless-eq-some :
    {A : Type 0} (b : Bool) (x : A) {v : A}
    → (if b then none else some x) ≡ some v
    → (b ≡ false) × (x ≡ v)
unless-eq-some true x h = cc
unless-eq-some false x h = (refl, cc)

when-eq-some :
    {A : Type 0} (b : Bool) (x : A) {v : A}
    → (if b then some x else none) ≡ some v
    → (b ≡ true) × (x ≡ v)
when-eq-some true x h = (refl, cc)
when-eq-some false x h = cc

guard-eq-ok : (b : Bool) (e : Error) {t : Unit} → guard b e ≡ ok t → b ≡ true
guard-eq-ok true e h = refl
guard-eq-ok false e h = cc

or-eq-false : (a b : Bool) → a || b ≡ false → (a ≡ false) × (b ≡ false)
or-eq-false false b h = (refl, h)
or-eq-false true b h = cc

not-eq-true : (b : Bool) → not b ≡ true → b ≡ false
not-eq-true false h = refl
not-eq-true true h = cc

bounded_of :
    (max : ℕ) (raw : Text)
    → is_empty (trim_space raw) || ltb max (length (trim_space raw)) ≡ false
    → Given max (trim_space raw)
bounded_of max raw h =
    let (given, short) = or-eq-false (is_empty (trim_space raw)) _ h in
    (given, (trim_space_idem raw, ground arith))

required-Given :
    (raw : Text) (max : ℕ) {v : Text} → normalize_required_text raw max ≡ some v → Given max v
unfolding normalize_required_text
required-Given raw max h =
    let (fine, same) = unless-eq-some _ (trim_space raw) h in
    subst (Given max) same (bounded_of max raw fine)

optional-Fits :
    (raw : Text) (max : ℕ) {v : Text} → normalize_optional_text raw max ≡ some v → Fits max v
unfolding normalize_optional_text
optional-Fits raw max h =
    let (fine, same) = unless-eq-some _ (trim_space raw) h in
    subst (Fits max) same (trim_space_idem raw, ground arith)

Positive : Numeric → Type 0
Positive amount = (i : ℤ) × (supported_int amount ≡ some i) × (is_nonpositive i ≡ false)

is_positive_amount-Positive : (n : Numeric) → is_positive_amount n ≡ true → Positive n
unfolding Positive
is_positive_amount-Positive n h = go (supported_int n) refl
  where
    go : (o : Option ℤ) → supported_int n ≡ o → Positive n
    go none e = absurd (true-ne-false (sym h ∙ rw (e, is_positive_amount) refl))
    go (some i) e = (i, e, not-eq-true (is_nonpositive i) (rw (e, is_positive_amount) at h))

parsed-Positive :
    (env : Env) (raw : Text) {n : Numeric} → parse_positive_numeric env raw ≡ some n → Positive n
unfolding parse_positive_numeric
parsed-Positive env raw {n} h = go (env.scan_numeric (trim_space raw)) h
  where
    go :
        (o : Option Numeric)
        → elim o [ none ↦ none | some a ↦ if is_positive_amount a then some a else none ] ≡ some n
        → Positive n
    go none e = cc
    go (some a) e =
        let (fine, same) = when-eq-some (is_positive_amount a) a e in
        subst Positive same (is_positive_amount-Positive a fine)

module _ (env : Env) where
  -- Where the checks accept a request, both ids were read; the name, the account, the currency and
  -- the key are not blank, they and the external id have no white space around them, and all but the
  -- key are within their bounds of 255 and 12 bytes; the amount is a positive finite number; and
  -- the request's hash is that of these parts, with the amount as `numericString` prints it.
  pub validate-Accepted :
      (input : CreatePayoutInput) {req : Request}
      → validate env input ≡ ok req
      → Accepted env input req
  unfolding validate Positive
  validate-Accepted input {req} h =
      let (c, hc, k1) = >>=-eq-ok (or_invalid (env.parse_uuid input.client_id) _) _ h in
      let (f, hf, k2) = >>=-eq-ok (or_invalid (env.parse_uuid input.funding_source_id) _) _ k1 in
      let (x, hx, k3) =
        >>=-eq-ok (or_invalid (normalize_optional_text input.external_id 255) _) _ k2 in
      let (n, hn, k4) =
        >>=-eq-ok (or_invalid (normalize_required_text input.recipient_name 255) _) _ k3 in
      let (a, ha, k5) =
        >>=-eq-ok (or_invalid (normalize_required_text input.recipient_account_id 255) _) _ k4 in
      let (m, hm, k6) = >>=-eq-ok (or_invalid (parse_positive_numeric env input.amount) _) _ k5 in
      let currency = trim_space input.currency in
      let (_, gc, k7) =
        >>=-eq-ok (guard (not (is_empty currency || ltb 12 (length currency))) _) _ k6 in
      let (_, gk, k8) =
        >>=-eq-ok (guard (not (is_empty (trim_space input.idempotency_key))) _) _ k7 in
      let (t, ht, made) = >>=-eq-ok (numeric_string m) _ k8 in
      subst (Accepted env input) (ok-injective made) (record {
        client = or_invalid-eq-ok _ _ hc;
        source = or_invalid-eq-ok _ _ hf;
        external_id = optional-Fits input.external_id 255 (or_invalid-eq-ok _ _ hx);
        recipient_name = required-Given input.recipient_name 255 (or_invalid-eq-ok _ _ hn);
        recipient_account_id =
            required-Given input.recipient_account_id 255 (or_invalid-eq-ok _ _ ha);
        currency = bounded_of 12 input.currency (not-eq-true _ (guard-eq-ok _ _ gc));
        key = (not-eq-true _ (guard-eq-ok _ _ gk), trim_space_idem input.idempotency_key);
        positive = parsed-Positive env input.amount (or_invalid-eq-ok _ _ hm);
        hash = (t, ht, refl);
      })
