-- ===== src/Money/Reading.antt =====
-- An independent reading of decimal text, to compare `numericString` with.
pub mod Printing
use native.Mathlib.Nat.{pow-suc, zero-mul, mul-one}
use payout_orchestrator.Common.{
  ℕ, zero, suc, ◌+◌, ◌-◌, ◌*◌, ◌/◌, ◌%◌, ◌^◌, ◌≤◌, ◌<◌, ◌≡◌, ◌≢◌, refl, ap, ◌∙◌, inl, inr, Bool,
  true, false, ◌&&◌, Option, none, some, [], ◌∷◌, ◌++◌, arith, ltb, leb, ◌==◌, if◌then◌else◌,
  Bool-cases, length, take, drop, length-append, length-drop, length-replicate, take-append-drop,
}
use payout_orchestrator.Common.Int.{ℤ, pos, negsuc, abs, is_negative}
use payout_orchestrator.Text.{Text, codes}
use payout_orchestrator.Outcome.{ok}
use payout_orchestrator.Money.{
  Numeric, supported_int, decimal_from, decimal, zeros, sign, with_point, print_numeric,
  numeric_string,
}

abbrev is_digit : ℕ → Bool
is_digit c = leb b'0' c && leb c b'9'

-- What a text says: a sign, the number that its digits make, and how many of them follow the point.
pub record Reading : Type 0 where
  pub negative : Bool
  pub value : ℕ
  pub scale : ℕ

abbrev Scan : Type 0
Scan = Option (ℕ × ℕ)

read_fraction : Text → ℕ → ℕ → Scan
read_fraction [] n k = some (n, k)
read_fraction (c ∷ s) n k =
    let rest = read_fraction s (n * 10 + (c - b'0')) (k + 1) in if is_digit c then rest else none

pub read_whole : Text → ℕ → Scan
unfolding read_fraction
read_whole [] n = some (n, 0)
read_whole (c ∷ s) n =
    let rest = read_whole s (n * 10 + (c - b'0')) in
    if is_digit c then rest else if c == b'.' then read_fraction s n 0 else none

abbrev pub with_sign : Bool → Scan → Option Reading
with_sign negative none = none
with_sign negative (some (n, k)) = some (record { negative = negative; value = n; scale = k })

-- Digits with an optional sign in front and at most one point, read from the left.
pub read : Text → Option Reading
unfolding read_whole
read [] = none
read (c ∷ s) =
    if c == b'-' then with_sign true (read_whole s 0) else with_sign false (read_whole (c ∷ s) 0)

read_tests :
    (read (codes "-12.050") ≡ some (record { negative = true; value = 12050; scale = 3 }))
    × (read (codes "1.2.3") ≡ none)
unfolding read
read_tests = (refl, refl)

abbrev pub AllDigits : Text → Type 0
AllDigits [] = Unit
AllDigits (c ∷ s) = (b'0' ≤ c) × (c ≤ b'9') × AllDigits s

pub AllDigits-append : (s t : Text) → AllDigits s → AllDigits t → AllDigits (s ++ t)
AllDigits-append [] t h k = k
AllDigits-append (c ∷ s) t (low, high, h) k = (low, high, AllDigits-append s t h k)

pub AllDigits-zeros : (n : ℕ) → AllDigits (zeros n)
AllDigits-zeros zero = tt
AllDigits-zeros (suc n) = (omega arith, omega arith, AllDigits-zeros n)

pub AllDigits-take : (n : ℕ) (s : Text) → AllDigits s → AllDigits (take n s)
AllDigits-take zero s h = tt
AllDigits-take (suc n) [] h = tt
AllDigits-take (suc n) (c ∷ s) (low, high, h) = (low, high, AllDigits-take n s h)

pub AllDigits-drop : (n : ℕ) (s : Text) → AllDigits s → AllDigits (drop n s)
AllDigits-drop zero s h = h
AllDigits-drop (suc n) [] h = tt
AllDigits-drop (suc n) (c ∷ s) (low, high, h) = AllDigits-drop n s h

-- The number that a row of digits makes, behind the number `n`.
pub value_from : ℕ → Text → ℕ
value_from n [] = n
value_from n (c ∷ s) = value_from (n * 10 + (c - b'0')) s

pub value_from-append : (n : ℕ) (s t : Text) → value_from n (s ++ t) ≡ value_from (value_from n s) t
unfolding value_from
value_from-append n [] t = refl
value_from-append n (c ∷ s) t = value_from-append (n * 10 + (c - b'0')) s t

pub value_from-zeros : (n k : ℕ) → value_from n (zeros k) ≡ n * 10 ^ k
unfolding value_from
value_from-zeros n zero = omega arith
value_from-zeros n (suc k) = rw (value_from-zeros (n * 10 + 0) k, pow-suc) (grind arith)

read_fraction_digits :
    (s : Text) (n k : ℕ) → AllDigits s → read_fraction s n k ≡ some (value_from n s, k + length s)
unfolding read_fraction value_from
read_fraction_digits [] n k h = ground arith
read_fraction_digits (c ∷ s) n k (low, high, h) =
    ground (arith, read_fraction_digits s (n * 10 + (c - b'0')) (k + 1) h)

read_whole_digits :
    (s t : Text) (n : ℕ) → AllDigits s → read_whole (s ++ t) n ≡ read_whole t (value_from n s)
unfolding read_whole value_from
read_whole_digits [] t n h = refl
read_whole_digits (c ∷ s) t n (low, high, h) =
    ground (arith, read_whole_digits s t (n * 10 + (c - b'0')) h)

-- The digits of a number: at least one, and they make the number.
decimal_from-value : (fuel n : ℕ) → n < fuel → value_from 0 (decimal_from fuel n) ≡ n
unfolding decimal_from value_from
decimal_from-value zero n h = absurd (omega arith)
decimal_from-value (suc fuel) n h = elim (Bool-cases (ltb n 10)) [
  | inl small ↦ rw small (omega arith)
  | inr large ↦
      rw
        (
          large,
          value_from-append 0 (decimal_from fuel (n / 10)) ((b'0' + n % 10) ∷ []),
          decimal_from-value fuel (n / 10) (ground arith),
        )
        (omega arith)
]

decimal_from-AllDigits : (fuel n : ℕ) → AllDigits (decimal_from fuel n)
unfolding decimal_from
decimal_from-AllDigits zero n = tt
decimal_from-AllDigits (suc fuel) n = elim (Bool-cases (ltb n 10)) [
  | inl small ↦ rw small (omega arith, ground arith, tt)
  | inr large ↦ rw large (
      AllDigits-append (decimal_from fuel (n / 10)) _ (decimal_from-AllDigits fuel (n / 10))
        (omega arith, omega arith, tt))
]

-- The leading byte of a text is a digit.
abbrev pub DigitFirst : Text → Type 0
DigitFirst [] = ⊥
DigitFirst (c ∷ s) = b'0' ≤ c

pub DigitFirst-append : (s t : Text) → DigitFirst s → DigitFirst (s ++ t)
DigitFirst-append [] t h = absurd h
DigitFirst-append (c ∷ s) t h = h

decimal_from-DigitFirst : (fuel n : ℕ) → n < fuel → DigitFirst (decimal_from fuel n)
unfolding decimal_from
decimal_from-DigitFirst zero n h = absurd (omega arith)
decimal_from-DigitFirst (suc fuel) n h = elim (Bool-cases (ltb n 10)) [
  | inl small ↦ rw small (omega arith)
  | inr large ↦ rw large (
      DigitFirst-append (decimal_from fuel (n / 10)) ((b'0' + n % 10) ∷ [])
        (decimal_from-DigitFirst fuel (n / 10) (ground arith)))
]

-- `big.Int.String` prints digits only, at least one, and they make the number.
pub decimal_lem :
    (n : ℕ) → AllDigits (decimal n) × DigitFirst (decimal n) × (value_from 0 (decimal n) ≡ n)
unfolding decimal
decimal_lem n = (
  decimal_from-AllDigits (suc n) n,
  decimal_from-DigitFirst (suc n) n (omega arith),
  decimal_from-value (suc n) n (omega arith),
)

pub read-sign :
    (i : ℤ) (s : Text)
    → DigitFirst s
    → read (sign i ++ s) ≡ with_sign (is_negative i) (read_whole s 0)
unfolding read
read-sign i [] h = absurd h
read-sign (pos n) (c ∷ s) h = ground arith
read-sign (negsuc n) (c ∷ s) h = refl

pub read_whole_all : (s : Text) (n : ℕ) → AllDigits s → read_whole s n ≡ some (value_from n s, 0)
unfolding read_whole value_from
read_whole_all [] n h = refl
read_whole_all (c ∷ s) n (low, high, h) = ground (arith, read_whole_all s (n * 10 + (c - b'0')) h)

pub read_whole_point :
    (s t : Text)
    → AllDigits s
    → AllDigits t
    → read_whole (s ++ (codes "." ++ t)) 0 ≡ some (value_from 0 (s ++ t), length t)
unfolding read_whole
read_whole_point s t h k =
    rw (read_whole_digits s (codes "." ++ t) 0 h, read_fraction_digits t (value_from 0 s) 0 k)
      (rw value_from-append (ground arith))
