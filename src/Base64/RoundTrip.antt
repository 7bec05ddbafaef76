-- ===== src/Base64/RoundTrip.antt =====
-- What is encoded is decoded to the same bytes.
use payout_orchestrator.Common.{
  ℕ, ◌+◌, ◌*◌, ◌/◌, ◌%◌, ◌<◌, ◌≡◌, refl, false, some, [], ◌∷◌, ◌||◌, ◌==◌, arith,
}
use payout_orchestrator.Text.{Text}
use payout_orchestrator.Base64.{
  encode_digit, encode, decode_digit, last_one, last_two, whole, without_line_ends, decode_groups,
  decode,
}

abbrev pub AllBytes : Text → Type 0
AllBytes [] = Unit
AllBytes (c ∷ s) = (c < 256) × AllBytes s

decode_digit-encode_digit : (d : ℕ) → d < 64 → decode_digit (encode_digit d) ≡ some d
decode_digit-encode_digit d h = ground arith

encode_digit-ne-pad : (d : ℕ) → encode_digit d == b'=' ≡ false
encode_digit-ne-pad d = ground arith

encode_digit-plain : (d : ℕ) → encode_digit d == 10 || encode_digit d == 13 ≡ false
encode_digit-plain d = ground arith

plain-cons :
    (d : ℕ) (s : Text)
    → without_line_ends s ≡ s
    → without_line_ends (encode_digit d ∷ s) ≡ encode_digit d ∷ s
unfolding without_line_ends
plain-cons d s h = rw (encode_digit-plain d, h) refl

pad-cons : (s : Text) → without_line_ends s ≡ s → without_line_ends (b'=' ∷ s) ≡ b'=' ∷ s
unfolding without_line_ends
pad-cons s h = rw h refl

nil-plain : without_line_ends [] ≡ []
unfolding without_line_ends
nil-plain = refl

ruleset plain_rules = (plain-cons, pad-cons, nil-plain)

without_line_ends-encode : (s : Text) → without_line_ends (encode s) ≡ encode s
unfolding encode
without_line_ends-encode [] = nil-plain
without_line_ends-encode (a ∷ []) = search plain_rules
without_line_ends-encode (a ∷ b ∷ []) = search plain_rules
without_line_ends-encode (a ∷ b ∷ c ∷ s) = search (plain_rules, without_line_ends-encode s)

decode_groups-encode : (s : Text) → AllBytes s → decode_groups (encode s) ≡ some s
unfolding encode decode_groups last_one last_two whole
decode_groups-encode [] h = refl
decode_groups-encode (a ∷ []) (p, _) =
    rw
      (
        decode_digit-encode_digit (a / 4) (omega arith),
        decode_digit-encode_digit (a % 4 * 16) (omega arith),
      )
      (ground arith)
decode_groups-encode (a ∷ b ∷ []) (p, (q, _)) =
    rw
      (
        encode_digit-ne-pad (b % 16 * 4),
        decode_digit-encode_digit (a / 4) (omega arith),
        decode_digit-encode_digit (a % 4 * 16 + b / 16) (omega arith),
        decode_digit-encode_digit (b % 16 * 4) (omega arith),
      )
      (ground arith)
decode_groups-encode (a ∷ b ∷ c ∷ s) (p, (q, (r, h))) =
    rw
      (
        encode_digit-ne-pad (c % 64),
        decode_digit-encode_digit (a / 4) (omega arith),
        decode_digit-encode_digit (a % 4 * 16 + b / 16) (omega arith),
        decode_digit-encode_digit (b % 16 * 4 + c / 64) (omega arith),
        decode_digit-encode_digit (c % 64) (omega arith),
        decode_groups-encode s h,
      )
      (ground arith)

pub decode-encode : (s : Text) → AllBytes s → decode (encode s) ≡ some s
unfolding decode
decode-encode s h = rw (without_line_ends-encode s) (decode_groups-encode s h)
