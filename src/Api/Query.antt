-- ===== src/Api/Query.antt =====
-- internal/apps/api/handlers/request_helpers.go: the limit and the offset of a list.
use payout_orchestrator.Common.{
  ℕ, zero, suc, ◌+◌, ◌-◌, ◌*◌, ◌^◌, ◌≤◌, ◌<◌, ◌≡◌, refl, sym, ap, subst, ◌∙◌, inl, inr, Bool, false,
  not, ◌&&◌, ◌||◌, Option, none, some, [], ◌∷◌, arith, ltb, leb, ◌==◌, if◌then◌else◌, Bool-cases,
}
use payout_orchestrator.Common.Int.{ℤ, pos, negsuc, is_negative, is_nonpositive}
use payout_orchestrator.Text.{Text, codes, is_empty}
use payout_orchestrator.Outcome.{
  Error, Result, ok, err, failure, guard, ◌>>=◌, ◌>>◌, >>=-eq-ok, guard-eq-ok,
}
use payout_orchestrator.Api.Http.{Request}

-- The digits of a number, each of them read.
digits_from : Text → ℕ → Option ℕ
digits_from [] n = some n
digits_from (c ∷ s) n =
    let rest = digits_from s (n * 10 + (c - b'0')) in
    if leb b'0' c && leb c b'9' then rest else none

digits : Text → Option ℕ
unfolding digits_from
digits [] = none
digits (c ∷ s) = digits_from (c ∷ s) 0

minus : ℕ → ℤ
minus zero = pos zero
minus (suc n) = negsuc n

-- An int32 holds what lies from -2^31 to 2^31 - 1.
positive_int32 : Option ℕ → Option ℤ
positive_int32 none = none
positive_int32 (some n) = if ltb n (2 ^ 31) then some (pos n) else none

negative_int32 : Option ℕ → Option ℤ
unfolding minus
negative_int32 none = none
negative_int32 (some n) = if leb n (2 ^ 31) then some (minus n) else none

-- `strconv.ParseInt(raw, 10, 32)`, either of whose errors is `none`.
unfoldable pub parse_int32 : Text → Option ℤ
unfolding digits digits_from positive_int32 negative_int32 minus
parse_int32 [] = none
parse_int32 (c ∷ s) =
    if c == b'-'
    then negative_int32 (digits s)
    else if c == b'+'
    then positive_int32 (digits s)
    else positive_int32 (digits (c ∷ s))

abbrev error_invalid_pagination : Error
error_invalid_pagination = failure (codes "invalid pagination")

abbrev parsed : Option ℤ → Result ℤ
parsed none = err (failure (codes "strconv.ParseInt"))
parsed (some value) = ok value

-- int32QueryParam
unfoldable pub int32_query_param : Request → Text → ℤ → Result ℤ
int32_query_param r name default =
    let raw = r.query name in if is_empty raw then ok default else parsed (parse_int32 raw)

-- `limit > maxLimit`
abbrev pub exceeds : ℤ → ℕ → Bool
exceeds (pos n) max = ltb max n
exceeds (negsuc n) max = false

-- paginationParams; the two lists pass the bound as a constant.
unfoldable pub pagination_params : Request → ℕ → ℕ → Result (ℤ × ℤ)
pagination_params r default_limit max_limit = do
  limit ← int32_query_param r (codes "limit") (pos default_limit)
  guard (not (is_nonpositive limit || exceeds limit max_limit)) error_invalid_pagination
  offset ← int32_query_param r (codes "offset") (pos 0)
  guard (not (is_negative offset)) error_invalid_pagination
  ok (limit, offset)

positive_int32-bound : (o : Option ℕ) {n : ℕ} → positive_int32 o ≡ some (pos n) → n < 2 ^ 31
unfolding positive_int32
positive_int32-bound none h = cc
positive_int32-bound (some m) h = ground arith

negative_int32-bound : (o : Option ℕ) {n : ℕ} → negative_int32 o ≡ some (pos n) → n < 2 ^ 31
unfolding negative_int32 minus
negative_int32-bound none h = cc
negative_int32-bound (some zero) h = ground arith
negative_int32-bound (some (suc m)) h = ground arith

-- A number that is read and is not negative lies below 2^31.
parse_int32-bound : (raw : Text) {n : ℕ} → parse_int32 raw ≡ some (pos n) → n < 2 ^ 31
unfolding parse_int32
parse_int32-bound [] h = cc
parse_int32-bound (c ∷ s) h = elim (Bool-cases (c == b'-')) [
  | inl is_minus ↦ negative_int32-bound (digits s) (rw (is_minus, parse_int32) at h)
  | inr no_minus ↦ elim (Bool-cases (c == b'+')) [
    | inl is_plus ↦ positive_int32-bound (digits s) (rw (no_minus, is_plus, parse_int32) at h)
    | inr no_plus ↦ positive_int32-bound (digits (c ∷ s)) (rw (no_minus, no_plus, parse_int32) at h)
  ]
]

ok_pos-injective : {n m : ℕ} → ok (pos n) ≡ ok (pos m) → n ≡ m
ok_pos-injective h = cc

parsed-bound : (o : Option ℤ) {n : ℕ} → parsed o ≡ ok (pos n) → o ≡ some (pos n)
parsed-bound none h = cc
parsed-bound (some value) h = cc

int32_query_param-bound :
    (r : Request) (name : Text) (default : ℕ) {n : ℕ}
    → default < 2 ^ 31
    → int32_query_param r name (pos default) ≡ ok (pos n)
    → n < 2 ^ 31
unfolding int32_query_param
int32_query_param-bound r name default small h = elim (Bool-cases (is_empty (r.query name))) [
  | inl missing ↦
      subst (λ (k : ℕ). k < 2 ^ 31) (ok_pos-injective (rw (missing, int32_query_param) at h)) small
  | inr given ↦
      parse_int32-bound (r.query name) (parsed-bound _ (rw (given, int32_query_param) at h))
]

-- The limit and the offset that the query holds.
pub record InBounds (max : ℕ) (limit offset : ℤ) : Type 0 where
  pub n : ℕ
  pub m : ℕ
  pub limit_is : limit ≡ pos n
  pub offset_is : offset ≡ pos m
  pub positive : 1 ≤ n
  pub at_most : n ≤ max
  pub fits : m < 2 ^ 31

limit-bounds :
    (max : ℕ) (limit : ℤ)
    → is_nonpositive limit || exceeds limit max ≡ false
    → (n : ℕ) × (limit ≡ pos n) × (1 ≤ n) × (n ≤ max)
limit-bounds max (pos zero) h = cc
limit-bounds max (pos (suc n)) h = (suc n, refl, ground arith, ground arith)
limit-bounds max (negsuc n) h = cc

offset-bounds : (offset : ℤ) → is_negative offset ≡ false → (m : ℕ) × (offset ≡ pos m)
offset-bounds (pos m) h = (m, refl)
offset-bounds (negsuc m) h = cc

same_pair : {p q : ℤ × ℤ} → ok p ≡ ok q → p ≡ q
same_pair h = cc

-- Where the pagination of a list is accepted, the limit lies from 1 to the greatest one, and the
-- offset is not negative and below 2^31.
pub pagination_params-bounds :
    (r : Request) (default_limit max_limit : ℕ) {limit offset : ℤ}
    → pagination_params r default_limit max_limit ≡ ok (limit, offset)
    → InBounds max_limit limit offset
unfolding pagination_params
pagination_params-bounds r default_limit max_limit h =
    let (limit, read_limit, h1) =
      >>=-eq-ok (int32_query_param r (codes "limit") (pos default_limit)) _ h in
    let (_, first, h2) =
      >>=-eq-ok
        (guard (not (is_nonpositive limit || exceeds limit max_limit)) error_invalid_pagination) _
        h1 in
    let (offset, read_offset, h3) = >>=-eq-ok (int32_query_param r (codes "offset") (pos 0)) _ h2 in
    let (_, second, h4) =
      >>=-eq-ok (guard (not (is_negative offset)) error_invalid_pagination) _ h3 in
    let (n, limit_is, low, high) = limit-bounds max_limit limit (guard-eq-ok _ _ first) in
    let (m, offset_is) = offset-bounds offset (guard-eq-ok _ _ second) in
    let same = same_pair h4 in
    record {
      n = n;
      m = m;
      limit_is = ap (λ (p : ℤ × ℤ). p.0) (sym same) ∙ limit_is;
      offset_is = ap (λ (p : ℤ × ℤ). p.1) (sym same) ∙ offset_is;
      positive = low;
      at_most = high;
      fits =
          int32_query_param-bound r (codes "offset") 0 (omega arith) (rw offset_is at read_offset);
    }
