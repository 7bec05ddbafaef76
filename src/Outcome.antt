-- ===== src/Outcome.antt =====
-- Go's error results. A function that returns `(T, error)` returns a `Result T`.
use payout_orchestrator.Common.{◌≡◌, refl, Bool, true, false, not, ◌&&◌}
use payout_orchestrator.Text.{Text, codes, text_eq}

-- The sentinel errors of the packages, by their messages: packages that declare a variable of one
-- name and message share the constructor. The rest are the errors of pgx, and `failure` for every
-- other value (errors.New at the place of use, the network, a context that is done).
pub data Error : Type 0 where
  -- pgx.ErrNoRows
  no_rows : Error
  -- *pgconn.PgError: its Code and its ConstraintName
  pg : Text → Text → Error
  failure : Text → Error
  -- internal/apps/api/services/payouts/service.go
  invalid_client_id duplicate_external_id invalid_funding_source_id : Error
  invalid_idempotency_key invalid_pagination invalid_payout invalid_payout_id : Error
  funding_source_not_found idempotency_conflict payout_not_found : Error
  unsupported_numeric concurrent_idempotency_key_insert : Error
  -- internal/apps/payoutworker/execution/execution.go
  invalid_outbox_payload invalid_outbox_entity payout_not_ready_for_execution : Error
  unsupported_event unsupported_provider_result : Error
  -- internal/provider/provider.go and internal/providersimulator/simulator.go
  invalid_result invalid_outcome : Error
  -- a run-time panic
  panic : Error
  -- internal/apps/api/services/fundingsources/service.go and internal/apps/api/services/auth/service.go
  invalid_funding_source invalid_source_id : Error
  invalid_api_key unauthorized : Error
  -- http.ErrServerClosed and context.Canceled
  server_closed canceled : Error

pub data Result {ℓ} (A : Type ℓ) : Type ℓ where
  ok : A → Result A
  err : Error → Result A

-- `if !ok { return err }`
abbrev pub guard : Bool → Error → Result (Unit {0})
guard false refusal = err refusal
guard true refusal = ok tt

-- A step after which the rest runs only if it has not failed.
infixl 5 ◌>>=◌ ◌>>◌
abbrev pub ◌>>=◌ {ℓ κ} : {B : Type κ} {A : Type ℓ} → Result A → (A → Result B) → Result B
err failed >>= rest = err failed
ok value >>= rest = rest value

abbrev pub ◌>>◌ {ℓ} : {B : Type ℓ} → Result (Unit {0}) → Result B → Result B
step >> rest = step >>= λ done. rest

-- `if err != nil { return other }`
abbrev pub or_error {ℓ} : {A : Type ℓ} → Result A → Error → Result A
or_error (ok a) e = ok a
or_error (err _) e = err e

-- `errors.Is(err, pgx.ErrNoRows)`
abbrev pub is_no_rows : Error → Bool
is_no_rows no_rows = true
is_no_rows _ = false

-- `errors.Is(err, errConcurrentIdempotencyKeyInsert)`
abbrev pub is_concurrent_insert : Error → Bool
is_concurrent_insert concurrent_idempotency_key_insert = true
is_concurrent_insert _ = false

-- A panic is no error that a caller gets back.
abbrev pub is_panic : Error → Bool
is_panic panic = true
is_panic _ = false

abbrev pub unique_violation : Text
unique_violation = codes "23505"

-- `isUniqueViolation`
unfoldable pub is_unique_violation : Error → Bool
is_unique_violation (pg code constraint) = text_eq code unique_violation
is_unique_violation _ = false

-- `isUniqueConstraintViolation`
unfoldable pub is_unique_constraint_violation : Error → Text → Bool
is_unique_constraint_violation (pg code constraint) name =
    text_eq code unique_violation && text_eq constraint name
is_unique_constraint_violation _ name = false

-- Inversion of a successful bind.
pub >>=-eq-ok {ℓ κ} :
    {B : Type κ} {A : Type ℓ} (step : Result A) (rest : A → Result B) {end : B}
    → (step >>= rest) ≡ ok end
    → (value : A) × (step ≡ ok value) × (rest value ≡ ok end)
>>=-eq-ok (err failed) rest h = cc
>>=-eq-ok (ok value) rest h = (value, refl, h)

pub guard-eq-ok : (b : Bool) (e : Error) {t : Unit} → guard (not b) e ≡ ok t → b ≡ false
guard-eq-ok false e h = refl
guard-eq-ok true e h = cc
