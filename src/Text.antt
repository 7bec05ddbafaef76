-- ===== src/Text.antt =====
-- Go strings as byte lists, and what the program uses of the packages strings and encoding/hex.
pub mod Trim
use Prim.Native.Char.{code}
use Prim.Native.String.{String}
use payout_orchestrator.Common.{
  ℕ, zero, suc, ◌+◌, ◌-◌, ◌/◌, ◌%◌, ◌≡◌, refl, ◌↔◌, inl, inr, Bool, true, false, ◌&&◌, ◌||◌, Option,
  none, some, List, [], ◌∷◌, ◌++◌, reverse, arith, ltb, leb, ◌==◌, if◌then◌else◌, length, ==_iff,
}

-- A Go string is a sequence of bytes, so `len` is `length`.
abbrev pub Text : Type 0
Text = List ℕ

-- The bytes of an ASCII literal.
abbrev pub codes : String → Text
codes String.[] = []
codes (String.◌∷◌ c s) = code c ∷ codes s

-- `==` on strings
unfoldable pub text_eq : Text → Text → Bool
text_eq [] [] = true
text_eq (a ∷ s) (b ∷ t) = a == b && text_eq s t
text_eq _ _ = false

-- `s == ""`
abbrev pub is_empty : Text → Bool
is_empty [] = true
is_empty (_ ∷ _) = false

pub text_eq_iff : (s t : Text) → (text_eq s t ≡ true) ↔ (s ≡ t)
unfolding text_eq
text_eq_iff [] [] = (λ h. refl, λ h. refl)
text_eq_iff [] (b ∷ t) = (λ h. cc, λ h. cc)
text_eq_iff (a ∷ s) [] = (λ h. cc, λ h. cc)
text_eq_iff (a ∷ s) (b ∷ t) =
    (λ h. ground (arith, text_eq_iff s t), λ h. ground (arith, text_eq_iff s t))

pub text_eq_refl : (s : Text) → text_eq s s ≡ true
text_eq_refl s = (text_eq_iff s s).1 refl

-- The white space of `unicode.IsSpace`, by the length of its UTF-8 form.
ascii_space : ℕ → Bool
ascii_space a = leb 9 a && leb a 13 || a == 32

two_byte_space : ℕ → ℕ → Bool
two_byte_space a b = a == 0xC2 && (b == 0x85 || b == 0xA0)

three_byte_space : ℕ → ℕ → ℕ → Bool
three_byte_space a b c =
    (a == 0xE1 && b == 0x9A && c == 0x80)
    || (a == 0xE2 && b == 0x80 && (leb 0x80 c && leb c 0x8A || c == 0xA8 || c == 0xA9 || c == 0xAF))
    || (a == 0xE2 && b == 0x81 && c == 0x9F)
    || (a == 0xE3 && b == 0x80 && c == 0x80)

-- The string without the white space that it begins with; `none` where there is none.
pub white_front : Text → Option Text
white_front [] = none
white_front (a ∷ []) = if ascii_space a then some [] else none
white_front (a ∷ b ∷ []) =
    if ascii_space a then some (b ∷ []) else if two_byte_space a b then some [] else none
white_front (a ∷ b ∷ c ∷ r) =
    if ascii_space a
    then some (b ∷ c ∷ r)
    else if two_byte_space a b
    then some (c ∷ r)
    else if three_byte_space a b c
    then some r
    else none

-- The same at the end of a string, which is read from its last byte backwards.
pub white_back : Text → Option Text
white_back [] = none
white_back (c ∷ []) = if ascii_space c then some [] else none
white_back (c ∷ b ∷ []) =
    if ascii_space c then some (b ∷ []) else if two_byte_space b c then some [] else none
white_back (c ∷ b ∷ a ∷ r) =
    if ascii_space c
    then some (b ∷ a ∷ r)
    else if two_byte_space b c
    then some (a ∷ r)
    else if three_byte_space a b c
    then some r
    else none

-- The loop that drops white space while there is some; a string has at most `length s` of it.
pub strip : (Text → Option Text) → ℕ → Text → Text
strip white zero s = s
strip white (suc fuel) s = elim (white s) [ none ↦ s | some r ↦ strip white fuel r ]

pub trim_left : Text → Text
unfolding strip white_front ascii_space two_byte_space three_byte_space
trim_left s = strip white_front (length s) s

pub trim_right : Text → Text
unfolding strip white_back ascii_space two_byte_space three_byte_space
trim_right s = reverse (strip white_back (length s) (reverse s))

-- `strings.TrimSpace`
unfoldable pub trim_space : Text → Text
unfolding trim_left trim_right
trim_space s = trim_right (trim_left s)

hex_digit : ℕ → ℕ
hex_digit d = if ltb d 10 then b'0' + d else b'a' + (d - 10)

-- `hex.EncodeToString`
unfoldable pub hex_encode : Text → Text
unfolding hex_digit
hex_encode [] = []
hex_encode (b ∷ s) = hex_digit (b / 16) ∷ hex_digit (b % 16) ∷ hex_encode s

trim_space_tests :
    (trim_space (codes "  a b\n") ≡ codes "a b")
    × (trim_space (0xC2 ∷ 0xA0 ∷ 0x41 ∷ 0xE2 ∷ 0x80 ∷ 0x83 ∷ []) ≡ codes "A")
    × (trim_space (codes " \t ") ≡ [])
unfolding trim_space
trim_space_tests = (refl, refl, refl)
