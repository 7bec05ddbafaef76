-- ===== src/Payouts/Validation/Hash.antt =====
-- What is hashed of a request.
use payout_orchestrator.Common.{ℕ, ◌≡◌, ◌≢◌, refl, sym, List, [], ◌∷◌, ◌++◌}
use payout_orchestrator.Text.{Text}
use payout_orchestrator.Payouts.Validation.{hash_input}

-- The text holds no zero byte.
abbrev pub NoZero : Text → Type 0
NoZero [] = Unit
NoZero (c ∷ s) = (c ≢ 0) × NoZero s

abbrev pub AllNoZero : List Text → Type 0
AllNoZero [] = Unit
AllNoZero (part ∷ parts) = NoZero part × AllNoZero parts

∷-injective : {a b : ℕ} {s t : Text} → a ∷ s ≡ b ∷ t → (a ≡ b) × (s ≡ t)
∷-injective h = (cc, cc)

-- A part ends at the first zero byte.
cut : (a b s t : Text) → NoZero a → NoZero b → a ++ (0 ∷ s) ≡ b ++ (0 ∷ t) → (a ≡ b) × (s ≡ t)
cut [] [] s t p q h = (refl, (∷-injective h).1)
cut [] (b ∷ other) s t p (nonzero, q) h = absurd (nonzero (sym (∷-injective h).0))
cut (a ∷ more) [] s t (nonzero, p) q h = absurd (nonzero (∷-injective h).0)
cut (a ∷ more) (b ∷ other) s t (_, p) (_, q) h =
    let (same, rest) = ∷-injective h in
    let (parts, ends) = cut more other s t p q rest in (rw (same, parts) refl, ends)

filled : (a s : Text) → a ++ (0 ∷ s) ≡ [] → ⊥
filled [] s h = cc
filled (c ∷ a) s h = cc

-- Lists of parts without zero bytes that give the hash the same input are the same, in number, order
-- and content.
pub hash_input-injective :
    (xs ys : List Text) → AllNoZero xs → AllNoZero ys → hash_input xs ≡ hash_input ys → xs ≡ ys
unfolding hash_input
hash_input-injective [] [] p q h = refl
hash_input-injective [] (y ∷ ys) p q h = absurd (filled y (hash_input ys) (sym h))
hash_input-injective (x ∷ xs) [] p q h = absurd (filled x (hash_input xs) h)
hash_input-injective (x ∷ xs) (y ∷ ys) (p, ps) (q, qs) h =
    let (same, rest) = cut x y (hash_input xs) (hash_input ys) p q h in
    rw (same, hash_input-injective xs ys ps qs rest) refl
