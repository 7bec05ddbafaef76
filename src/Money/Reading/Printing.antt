-- ===== src/Money/Reading/Printing.antt =====
-- `numericString` against the reading of decimal text.
use native.Mathlib.Nat.{zero-mul, mul-one}
use payout_orchestrator.Common.{
  ℕ, zero, suc, ◌+◌, ◌-◌, ◌*◌, ◌^◌, ◌<◌, ◌≡◌, ◌≢◌, refl, ap, ◌∙◌, inl, inr, false, some, [], ◌∷◌,
  ◌++◌, arith, leb, ◌==◌, Bool-cases, length, take, drop, length-append, length-drop,
  length-replicate, take-append-drop,
}
use payout_orchestrator.Common.Int.{ℤ, pos, negsuc, abs, is_negative}
use payout_orchestrator.Text.{Text}
use payout_orchestrator.Outcome.{ok}
use payout_orchestrator.Money.{
  Numeric, supported_int, decimal, zeros, sign, with_point, print_numeric, numeric_string,
}
use payout_orchestrator.Money.Reading.{
  read, AllDigits, AllDigits-append, AllDigits-zeros, AllDigits-take, AllDigits-drop, value_from,
  value_from-append, value_from-zeros, DigitFirst, DigitFirst-append, decimal_lem, read-sign,
  read_whole_all, read_whole_point, read_whole,
}

-- The power of ten that the digits are multiplied by, and the number of digits behind the point.
abbrev pub shift : ℤ → ℕ
shift (pos e) = e
shift (negsuc m) = 0

abbrev pub places : ℤ → ℕ
places (pos e) = 0
places (negsuc m) = suc m

-- The text says `i` * 10^`e`.
abbrev pub Says : Text → ℤ → ℤ → Type 0
Says t i e =
    read t
    ≡ some (record { negative = is_negative i; value = abs i * 10 ^ shift e; scale = places e })

DigitFirst-take : (n : ℕ) (s : Text) → 0 < n → DigitFirst s → DigitFirst (take n s)
DigitFirst-take zero s p h = absurd (omega arith)
DigitFirst-take (suc n) [] p h = h
DigitFirst-take (suc n) (c ∷ s) p h = h

-- Leading zeros do not count.
value_from-zeros_front : (k : ℕ) (d : Text) → value_from 0 (b'0' ∷ (zeros k ++ d)) ≡ value_from 0 d
unfolding value_from
value_from-zeros_front k d =
    rw (value_from-append 0 (zeros k) d, value_from-zeros 0 k, zero-mul) refl

length_filled : (j : ℕ) (d : Text) (k : ℕ) → j + length d ≡ k → length (zeros j ++ d) ≡ k
length_filled j d k h = omega (arith, length-append (zeros j) d, length-replicate {A = ℕ} j b'0')

length_after_point : (d : Text) (k : ℕ) → k < length d → length (drop (length d - k) d) ≡ k
length_after_point d k h = omega (arith, length-drop (length d - k) d)

with_point-reads :
    (d : Text) (k : ℕ)
    → AllDigits d
    → DigitFirst d
    → DigitFirst (with_point d k) × (read_whole (with_point d k) 0 ≡ some (value_from 0 d, k))
unfolding with_point
with_point-reads d k all first = elim (Bool-cases (leb (length d) k)) [
  | inl short ↦
      let fill = zeros (k - length d) in
      rw short (
        omega arith,
        read_whole_point (b'0' ∷ []) (fill ++ d) (omega arith, omega arith, tt)
              (AllDigits-append fill d (AllDigits-zeros (k - length d)) all)
            ∙ cc (
              value_from-zeros_front (k - length d) d,
              length_filled (k - length d) d k (ground arith),
            ),
      )
  | inr long ↦
      let point = length d - k in
      rw long (
        DigitFirst-append (take point d) _ (DigitFirst-take point d (ground arith) first),
        read_whole_point (take point d) (drop point d) (AllDigits-take point d all)
              (AllDigits-drop point d all)
            ∙ cc (take-append-drop point d, length_after_point d k (ground arith)),
      )
]

-- A text of digits with zeros behind it.
shifted-Says : (i : ℤ) (e : ℕ) → Says (sign i ++ (decimal (abs i) ++ zeros e)) i (pos e)
shifted-Says i e =
    let (all, first, made) = decimal_lem (abs i) in
    let digits = decimal (abs i) in
    rw
      (
        read-sign i (digits ++ zeros e) (DigitFirst-append digits (zeros e) first),
        read_whole_all (digits ++ zeros e) 0
            (AllDigits-append digits (zeros e) all (AllDigits-zeros e)),
        value_from-append 0 digits (zeros e),
        made,
        value_from-zeros (abs i) e,
      )
      refl

pointed-Says : (i : ℤ) (m : ℕ) → Says (sign i ++ with_point (decimal (abs i)) (suc m)) i (negsuc m)
pointed-Says i m =
    let (all, first, made) = decimal_lem (abs i) in
    let (front, whole) = with_point-reads (decimal (abs i)) (suc m) all first in
    rw (read-sign i _ front, whole, made, mul-one) refl

in_range : (m : ℕ) → negsuc m ≢ negsuc (2 ^ 31 - 1) → suc m == 2 ^ 31 ≡ false
in_range m h = elim (Bool-cases (suc m == 2 ^ 31)) [
  | inl least ↦ absurd (h (ap negsuc (ground arith)))
  | inr e ↦ e
]

print_numeric-Says :
    (i e : ℤ) → e ≢ negsuc (2 ^ 31 - 1) → (t : Text) × (print_numeric i e ≡ ok t) × Says t i e
unfolding print_numeric
print_numeric-Says i (pos e) range = (_, refl, shifted-Says i e)
print_numeric-Says i (negsuc m) range = (_, rw (in_range m range) refl, pointed-Says i m)

-- On a number that is valid, finite and no NaN, and whose exponent is not the least int32,
-- `numericString` prints its exact value: the text reads as Int * 10^Exp, with -Exp digits behind
-- the point if the exponent is negative.
pub numeric_string-Says :
    (v : Numeric) (i : ℤ)
    → supported_int v ≡ some i
    → v.exp ≢ negsuc (2 ^ 31 - 1)
    → (t : Text) × (numeric_string v ≡ ok t) × Says t i v.exp
unfolding numeric_string
numeric_string-Says v i h range = rw (h, numeric_string) (print_numeric-Says i v.exp range)
