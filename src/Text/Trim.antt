-- ===== src/Text/Trim.antt =====
-- What `strings.TrimSpace` leaves of a string.
use mathlib.Core.List.{reverse-append, reverse-reverse, append_assoc}
use payout_orchestrator.Common.{
  ℕ, zero, suc, ◌≤◌, ◌<◌, ◌≡◌, refl, sym, ap, ◌∙◌, inl, inr, Option, none, some, [], ◌∷◌, ◌++◌,
  reverse, arith, length, length-reverse, Bool, true, false, if◌then◌else◌, Option-cases,
}
use payout_orchestrator.Text.{
  Text, white_front, white_back, strip, trim_left, trim_right, trim_space,
}

-- The second string is the end of the first, which is longer.
abbrev EndsBy : Text → Text → Type 0
EndsBy s r = (w : Text) × (s ≡ w ++ r) × (length r < length s)

-- Taking white space off makes a string shorter, and what is left is its end.
abbrev Shortens : (Text → Option Text) → Type 0
Shortens white = (s r : Text) → white s ≡ some r → EndsBy s r

ends_one : (a : ℕ) (s r : Text) → s ≡ r → EndsBy (a ∷ s) r
ends_one a s r e = (a ∷ [], cc, ground (arith, ap length e))

ends_two : (a b : ℕ) (s r : Text) → s ≡ r → EndsBy (a ∷ b ∷ s) r
ends_two a b s r e = (a ∷ b ∷ [], cc, ground (arith, ap length e))

ends_three : (a b c : ℕ) (s r : Text) → s ≡ r → EndsBy (a ∷ b ∷ c ∷ s) r
ends_three a b c s r e = (a ∷ b ∷ c ∷ [], cc, ground (arith, ap length e))

ends_of_two :
    (a b : ℕ) (p q : Bool) (r : Text)
    → (if p then some (b ∷ []) else if q then some [] else none) ≡ some r
    → EndsBy (a ∷ b ∷ []) r
ends_of_two a b true q r h = ends_one a (b ∷ []) r (ground arith)
ends_of_two a b false true r h = ends_two a b [] r (ground arith)
ends_of_two a b false false r h = cc

ends_of_three :
    (a b c : ℕ) (p q t : Bool) (s r : Text)
    → (if p then some (b ∷ c ∷ s) else if q then some (c ∷ s) else if t then some s else none)
      ≡ some r
    → EndsBy (a ∷ b ∷ c ∷ s) r
ends_of_three a b c true q t s r h = ends_one a (b ∷ c ∷ s) r (ground arith)
ends_of_three a b c false true t s r h = ends_two a b (c ∷ s) r (ground arith)
ends_of_three a b c false false true s r h = ends_three a b c s r (ground arith)
ends_of_three a b c false false false s r h = cc

white_front-Shortens : Shortens white_front
unfolding white_front
white_front-Shortens [] r h = cc
white_front-Shortens (a ∷ []) r h = ends_one a [] r (ground arith)
white_front-Shortens (a ∷ b ∷ []) r h = ends_of_two a b _ _ r h
white_front-Shortens (a ∷ b ∷ c ∷ s) r h = ends_of_three a b c _ _ _ s r h

white_back-Shortens : Shortens white_back
unfolding white_back
white_back-Shortens [] r h = cc
white_back-Shortens (a ∷ []) r h = ends_one a [] r (ground arith)
white_back-Shortens (a ∷ b ∷ []) r h = ends_of_two a b _ _ r h
white_back-Shortens (a ∷ b ∷ c ∷ s) r h = ends_of_three a b c _ _ _ s r h

strip-stops :
    (white : Text → Option Text) (short : Shortens white) (nothing : white [] ≡ none) (fuel : ℕ)
    (s : Text)
    → length s ≤ fuel
    → white (strip white fuel s) ≡ none
unfolding strip
strip-stops white short nothing zero [] h = nothing
strip-stops white short nothing zero (x ∷ s) h = absurd (omega arith)
strip-stops white short nothing (suc fuel) s h = elim (Option-cases (white s)) [
  | inl e ↦ rw (e, strip) e
  | inr (r, e) ↦
      rw (e, strip) (strip-stops white short nothing fuel r (omega (arith, (short s r e).2)))
]

strip-suffix :
    (white : Text → Option Text) (short : Shortens white) (fuel : ℕ) (s : Text)
    → (w : Text) × (s ≡ w ++ strip white fuel s)
unfolding strip
strip-suffix white short zero s = ([], refl)
strip-suffix white short (suc fuel) s = elim (Option-cases (white s)) [
  | inl e ↦ ([], rw (e, strip) refl)
  | inr (r, e) ↦
      let (w, split, _) = short s r e in
      let (w', more) = strip-suffix white short fuel r in
      (w ++ w', rw (e, strip) (split ∙ ap (λ t. w ++ t) more ∙ sym (append_assoc w w' _)))
]

strip-of_stopped :
    (white : Text → Option Text) (fuel : ℕ) (s : Text) → white s ≡ none → strip white fuel s ≡ s
unfolding strip
strip-of_stopped white zero s h = refl
strip-of_stopped white (suc fuel) s h = rw (h, strip) refl

-- White space at the front of a part is white space at the front of the whole.
white_front-append : (p q : Text) → white_front (p ++ q) ≡ none → white_front p ≡ none
unfolding white_front
white_front-append [] q h = refl
white_front-append (a ∷ []) [] h = h
white_front-append (a ∷ []) (b ∷ []) h = ground arith
white_front-append (a ∷ []) (b ∷ c ∷ q) h = ground arith
white_front-append (a ∷ b ∷ []) [] h = h
white_front-append (a ∷ b ∷ []) (c ∷ q) h = ground arith
white_front-append (a ∷ b ∷ c ∷ p) q h = ground arith

-- The left end is free of white space.
abbrev StartsPlain : Text → Type 0
StartsPlain s = white_front s ≡ none

-- So is the right end.
abbrev EndsPlain : Text → Type 0
EndsPlain s = white_back (reverse s) ≡ none

trim_left-StartsPlain : (s : Text) → StartsPlain (trim_left s)
unfolding trim_left
trim_left-StartsPlain s =
    strip-stops white_front white_front-Shortens (unfold white_front in refl) (length s) s
      (omega arith)

trim_right-EndsPlain : (s : Text) → EndsPlain (trim_right s)
unfolding trim_right
trim_right-EndsPlain s = rw reverse-reverse (
    strip-stops white_back white_back-Shortens (unfold white_back in refl) (length s) (reverse s)
      (omega (arith, length-reverse s)))

-- Trimming on the right leaves a front part.
trim_right-prefix : (s : Text) → (w : Text) × (s ≡ trim_right s ++ w)
unfolding trim_right
trim_right-prefix s =
    let (w, split) = strip-suffix white_back white_back-Shortens (length s) (reverse s) in
    (reverse w, sym (reverse-reverse s) ∙ ap reverse split ∙ reverse-append w _)

trim_right-StartsPlain : (s : Text) → StartsPlain s → StartsPlain (trim_right s)
trim_right-StartsPlain s h =
    let (w, split) = trim_right-prefix s in white_front-append (trim_right s) w (rw split at h)

-- Neither end of a trimmed string has white space.
pub trim_space-IsTrimmed : (s : Text) → StartsPlain (trim_space s) × EndsPlain (trim_space s)
unfolding trim_space
trim_space-IsTrimmed s = (
  trim_right-StartsPlain (trim_left s) (trim_left-StartsPlain s),
  trim_right-EndsPlain (trim_left s),
)

trim_left_of_plain : (s : Text) → StartsPlain s → trim_left s ≡ s
unfolding trim_left
trim_left_of_plain s h = strip-of_stopped white_front (length s) s h

trim_right_of_plain : (s : Text) → EndsPlain s → trim_right s ≡ s
unfolding trim_right
trim_right_of_plain s h =
    ap reverse (strip-of_stopped white_back (length s) (reverse s) h) ∙ reverse-reverse s

-- A string that neither begins nor ends with white space is left as it is.
pub trim_space_of_plain : (s : Text) → StartsPlain s → EndsPlain s → trim_space s ≡ s
unfolding trim_space
trim_space_of_plain s front back = rw (trim_left_of_plain s front) (trim_right_of_plain s back)

-- Trimming a trimmed string changes nothing.
pub trim_space_idem : (s : Text) → trim_space (trim_space s) ≡ trim_space s
trim_space_idem s =
    let (front, back) = trim_space-IsTrimmed s in trim_space_of_plain (trim_space s) front back
