-- ===== src/Money.antt =====
-- pgtype.Numeric as the program uses it, and `numericString`, which stands with the same text in
-- internal/apps/api/services/payouts/service.go and internal/apps/payoutworker/execution/execution.go.
pub mod Reading
mod Tests
use payout_orchestrator.Common.{
  ℕ, zero, suc, ◌+◌, ◌-◌, ◌/◌, ◌%◌, ◌^◌, ◌≡◌, refl, Bool, true, false, not, ◌&&◌, ◌||◌, Option,
  none, some, [], ◌∷◌, ◌++◌, ltb, leb, ◌==◌, if◌then◌else◌, length, take, drop, replicate,
}
use payout_orchestrator.Common.Int.{ℤ, pos, negsuc, abs, is_negative, is_nonpositive}
use payout_orchestrator.Text.{Text, codes}
use payout_orchestrator.Outcome.{Result, ok, err, unsupported_numeric, panic}

pub data InfinityModifier : Type 0 where
  finite infinity negative_infinity : InfinityModifier

-- Int * 10^Exp; `int` is `none` for a nil *big.Int, and `exp` is an int32.
pub record Numeric : Type 0 where
  pub int : Option ℤ
  pub exp : ℤ
  pub nan : Bool
  pub infinity_modifier : InfinityModifier
  pub valid : Bool

-- The zero value `pgtype.Numeric{}`.
abbrev pub zero_numeric : Numeric
zero_numeric = record {
  int = none;
  exp = pos 0;
  nan = false;
  infinity_modifier = finite;
  valid = false;
}

abbrev pub is_finite : InfinityModifier → Bool
is_finite finite = true
is_finite _ = false

-- The integer of a number that is valid, finite and no NaN: the guard of `numericString`.
abbrev pub supported_int : Numeric → Option ℤ
supported_int v = if v.valid && not v.nan && is_finite v.infinity_modifier then v.int else none

-- `big.Int.String` of a non-negative number, with enough fuel for its digits.
decimal_from : ℕ → ℕ → Text
decimal_from zero n = []
decimal_from (suc fuel) n =
    let rest = decimal_from fuel (n / 10) in
    if ltb n 10 then (b'0' + n) ∷ [] else rest ++ (b'0' + n % 10) ∷ []

pub decimal : ℕ → Text
unfolding decimal_from
decimal n = decimal_from (suc n) n

abbrev pub zeros : ℕ → Text
zeros n = replicate n b'0'

abbrev pub sign : ℤ → Text
sign i = if is_negative i then codes "-" else []

-- The branch `value.Exp < 0`, for the digits of the absolute value.
pub with_point : Text → ℕ → Text
with_point digits scale =
    if leb (length digits) scale
    then codes "0." ++ (zeros (scale - length digits) ++ digits)
    else let point = length digits - scale in take point digits ++ (codes "." ++ drop point digits)

-- The text of `i` * 10^`exp`. At the least int32 the negation `-value.Exp` overflows: the scale is
-- negative, and the slice expression panics.
pub print_numeric : ℤ → ℤ → Result Text
print_numeric i (pos e) = ok (sign i ++ (decimal (abs i) ++ zeros e))
print_numeric i (negsuc m) =
    if suc m == 2 ^ 31 then err panic else ok (sign i ++ with_point (decimal (abs i)) (suc m))

unfoldable pub numeric_string : Numeric → Result Text
unfolding print_numeric decimal with_point
numeric_string v = elim (supported_int v) [
  | none ↦ err unsupported_numeric
  | some i ↦ print_numeric i v.exp
]

-- A number that `numericString` takes.
abbrev pub number : ℤ → ℤ → Numeric
number i e = record { int = some i; exp = e; nan = false; infinity_modifier = finite; valid = true }

numeric_string_tests :
    (numeric_string (number (pos 1205) (negsuc 1)) ≡ ok (codes "12.05"))
    × (numeric_string (number (pos 7) (negsuc 2)) ≡ ok (codes "0.007"))
    × (numeric_string (number (negsuc 41) (pos 2)) ≡ ok (codes "-4200"))
    × (numeric_string zero_numeric ≡ err unsupported_numeric)
unfolding numeric_string
numeric_string_tests = (refl, refl, refl, refl)
