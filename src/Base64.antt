-- ===== src/Base64.antt =====
-- encoding/base64 in its standard alphabet with padding, which encoding/json writes a []byte in.
pub mod RoundTrip
use payout_orchestrator.Common.{
  ℕ, ◌+◌, ◌-◌, ◌*◌, ◌/◌, ◌%◌, ◌≡◌, refl, Bool, true, false, ◌&&◌, ◌||◌, not, Option, none, some,
  List, [], ◌∷◌, ◌++◌, ltb, leb, ◌==◌, if◌then◌else◌,
}
use payout_orchestrator.Text.{Text, codes, is_empty}

abbrev pub encode_digit : ℕ → ℕ
encode_digit d =
    if ltb d 26
    then b'A' + d
    else if ltb d 52
    then b'a' + (d - 26)
    else if ltb d 62
    then b'0' + (d - 52)
    else if d == 62
    then b'+'
    else b'/'

-- `StdEncoding.EncodeToString`: three bytes are four characters.
unfoldable pub encode : Text → Text
encode [] = []
encode (a ∷ []) = encode_digit (a / 4) ∷ encode_digit (a % 4 * 16) ∷ b'=' ∷ b'=' ∷ []
encode (a ∷ b ∷ []) =
    encode_digit (a / 4)
    ∷ encode_digit (a % 4 * 16 + b / 16)
    ∷ encode_digit (b % 16 * 4)
    ∷ b'='
    ∷ []
encode (a ∷ b ∷ c ∷ rest) =
    encode_digit (a / 4)
    ∷ encode_digit (a % 4 * 16 + b / 16)
    ∷ encode_digit (b % 16 * 4 + c / 64)
    ∷ encode_digit (c % 64)
    ∷ encode rest

abbrev pub decode_digit : ℕ → Option ℕ
decode_digit c =
    if leb b'A' c && leb c b'Z'
    then some (c - b'A')
    else if leb b'a' c && leb c b'z'
    then some (c - b'a' + 26)
    else if leb b'0' c && leb c b'9'
    then some (c - b'0' + 52)
    else if c == b'+'
    then some 62
    else if c == b'/'
    then some 63
    else none

infixl 5 ◌>>=◌
abbrev ◌>>=◌ : {A B : Type 0} → Option A → (A → Option B) → Option B
none >>= k = none
some x >>= k = k x

-- The last group, with one or two characters of padding. The bits that are left over do not count.
last_one : ℕ → ℕ → Option Text
last_one a b = do x ← decode_digit a; y ← decode_digit b; some ((x * 4 + y / 16) ∷ [])

last_two : ℕ → ℕ → ℕ → Option Text
last_two a b c = do
  x ← decode_digit a
  y ← decode_digit b
  z ← decode_digit c
  some ((x * 4 + y / 16) ∷ (y % 16 * 16 + z / 4) ∷ [])

whole : ℕ → ℕ → ℕ → ℕ → Option Text → Option Text
whole a b c d more = do
  x ← decode_digit a
  y ← decode_digit b
  z ← decode_digit c
  v ← decode_digit d
  rest ← more
  some ((x * 4 + y / 16) ∷ (y % 16 * 16 + z / 4) ∷ (z % 4 * 64 + v) ∷ rest)

-- Line ends in the text are passed over.
without_line_ends : Text → Text
without_line_ends [] = []
without_line_ends (c ∷ s) =
    let rest = without_line_ends s in if c == 10 || c == 13 then rest else c ∷ rest

decode_groups : Text → Option Text
unfolding last_one last_two whole
decode_groups [] = some []
decode_groups (a ∷ b ∷ c ∷ d ∷ rest) =
    let more = decode_groups rest in
    if d == b'='
    then (if is_empty rest then (if c == b'=' then last_one a b else last_two a b c) else none)
    else whole a b c d more
decode_groups _ = none

-- `StdEncoding.DecodeString`
unfoldable pub decode : Text → Option Text
unfolding decode_groups without_line_ends
decode s = decode_groups (without_line_ends s)

tests :
    (encode (codes "payout") ≡ codes "cGF5b3V0")
    × (encode (codes "ab") ≡ codes "YWI=")
    × (decode (codes "YWI=") ≡ some (codes "ab"))
    × (decode (codes "cGF5\nb3V0") ≡ some (codes "payout"))
    × (decode (codes "YWI") ≡ none)
unfolding encode decode
tests = (refl, refl, refl, refl, refl)
