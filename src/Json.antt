-- ===== src/Json.antt =====
-- encoding/json, as far as the program uses it: documents as trees, and decoding into a struct
-- whose fields are strings. A []byte that holds JSON stands for the tree that it spells.
use payout_orchestrator.Common.{ℕ, ◌+◌, Bool, ◌&&◌, [], ◌∷◌, leb, ◌==◌, if◌then◌else◌}
use payout_orchestrator.Text.{Text, codes, text_eq}
use payout_orchestrator.Outcome.{Result, ok, err, failure}

mutual
  pub data Json : Type 0 where
    null : Json
    bool : Bool → Json
    num : Text → Json
    str : Text → Json
    arr : Items → Json
    obj : Fields → Json

  pub data Items : Type 0 where
    nil : Items
    cons : Json → Items → Items

  pub data Fields : Type 0 where
    end : Fields
    field : Text → Json → Fields → Fields

-- The case folding that the decoder matches keys by: ASCII letters, and the two runes beyond ASCII
-- that fold to one, U+017F and U+212A.
lower : ℕ → ℕ
lower c = if leb b'A' c && leb c b'Z' then c + 32 else c

unfoldable pub fold_name : Text → Text
unfolding lower
fold_name [] = []
fold_name (a ∷ []) = lower a ∷ []
fold_name (a ∷ b ∷ []) =
    let rest = fold_name (b ∷ []) in if a == 0xC5 && b == 0xBF then b's' ∷ [] else lower a ∷ rest
fold_name (a ∷ b ∷ c ∷ s) =
    let after_one = fold_name (b ∷ c ∷ s) in
    let after_two = fold_name (c ∷ s) in
    let after_three = fold_name s in
    if a == 0xC5 && b == 0xBF
    then b's' ∷ after_two
    else if a == 0xE2 && b == 0x84 && c == 0xAA
    then b'k' ∷ after_three
    else lower a ∷ after_one

-- A key names a field if it is the field's name up to case. The program's structs have no two
-- names that agree up to case, so that the decoder's preference for an exact match decides nothing.
unfoldable pub names : Text → Text → Bool
unfolding fold_name text_eq
names key name = text_eq (fold_name key) (fold_name name)

-- What one key does to a string field: `null` leaves it, a string sets it, and any other value is
-- an error that the decoder reports.
abbrev pub decode_string : Json → Text → Result Text
decode_string null old = ok old
decode_string (str s) old = ok s
decode_string _ old = err (failure (codes "json: cannot unmarshal into Go value of type string"))
