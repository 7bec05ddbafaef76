-- ===== src/Common/Lists.antt =====
-- Lists over the native numbers, and the row operations of a table.
use Prim.Native.Nat.{ℕ, zero, suc, ◌+◌, ◌-◌}
use mathlib.Core.Path.{◌≡◌, refl, sym, ◌∙◌}
use mathlib.Core.Logic.{inl, inr}
use mathlib.Core.Bool.{Bool, true, false}
use mathlib.Core.Option.{Option, none, some}
use mathlib.Core.List.{List, [], ◌∷◌, ◌++◌, reverse, reverse-cons}
use native.Mathlib.Omega.{arith}
use payout_orchestrator.Common.Tests.{if◌then◌else◌, Bool-cases}

module _ {ℓ} {A : Type ℓ} where
  abbrev pub length : List A → ℕ
  length [] = 0
  length (x ∷ xs) = suc (length xs)

  abbrev pub take : ℕ → List A → List A
  take zero xs = []
  take (suc n) [] = []
  take (suc n) (x ∷ xs) = x ∷ take n xs

  abbrev pub drop : ℕ → List A → List A
  drop zero xs = xs
  drop (suc n) [] = []
  drop (suc n) (x ∷ xs) = drop n xs

  abbrev pub replicate : ℕ → A → List A
  replicate zero x = []
  replicate (suc n) x = x ∷ replicate n x

  -- The first row that passes a test.
  abbrev pub find : (A → Bool) → List A → Option A
  find p [] = none
  find p (x ∷ xs) = if p x then some x else find p xs

  abbrev pub any : (A → Bool) → List A → Bool
  any p [] = false
  any p (x ∷ xs) = if p x then true else any p xs

  abbrev pub filter_rows : (A → Bool) → List A → List A
  filter_rows p [] = []
  filter_rows p (x ∷ xs) = if p x then x ∷ filter_rows p xs else filter_rows p xs

  -- The rows that pass a test, each replaced by its update; the others stay.
  abbrev pub update_where : (A → Bool) → (A → A) → List A → List A
  update_where p f [] = []
  update_where p f (x ∷ xs) = (if p x then f x else x) ∷ update_where p f xs

  pub length-append : (xs ys : List A) → length (xs ++ ys) ≡ length xs + length ys
  length-append [] ys = omega arith
  length-append (x ∷ xs) ys = omega (arith, length-append xs ys)

  pub length-reverse : (xs : List A) → length (reverse xs) ≡ length xs
  length-reverse [] = refl
  length-reverse (x ∷ xs) =
      rw reverse-cons (omega (arith, length-append (reverse xs) (x ∷ []), length-reverse xs))

  pub take-append-drop : (n : ℕ) (xs : List A) → take n xs ++ drop n xs ≡ xs
  take-append-drop zero xs = refl
  take-append-drop (suc n) [] = refl
  take-append-drop (suc n) (x ∷ xs) = λ i. x ∷ take-append-drop n xs i

  pub length-drop : (n : ℕ) (xs : List A) → length (drop n xs) ≡ length xs - n
  length-drop zero xs = omega arith
  length-drop (suc n) [] = omega arith
  length-drop (suc n) (x ∷ xs) = omega (arith, length-drop n xs)

  pub length-replicate : (n : ℕ) (x : A) → length (replicate n x) ≡ n
  length-replicate zero x = refl
  length-replicate (suc n) x = omega (arith, length-replicate n x)

  -- A row that was found passes the test.
  pub find-eq-some : (p : A → Bool) (xs : List A) {x : A} → find p xs ≡ some x → p x ≡ true
  find-eq-some p [] h = cc
  find-eq-some p (x ∷ xs) h = elim (Bool-cases (p x)) [
    | inl e ↦ ground (arith, e)
    | inr e ↦ find-eq-some p xs (ground (arith, e))
  ]

pub true-ne-false : true ≡ false → ⊥
true-ne-false h = cc

module _ {ℓ} {A : Type ℓ} where
  some-ne-none : {x : A} → some x ≡ none → ⊥
  some-ne-none h = cc

  any-cons : (q : A → Bool) (y : A) (ys : List A) → any q ys ≡ true → any q (y ∷ ys) ≡ true
  any-cons q y ys h = elim (Bool-cases (q y)) [ inl e ↦ rw e refl | inr e ↦ rw (e, h) refl ]

  pub any-of_find :
      (p q : A → Bool) (xs : List A) {x : A}
      → ((y : A) → p y ≡ true → q y ≡ true)
      → find p xs ≡ some x
      → any q xs ≡ true
  any-of_find p q [] sub h = absurd (some-ne-none (sym h))
  any-of_find p q (y ∷ ys) sub h = elim (Bool-cases (p y)) [
    | inl e ↦ rw (sub y e) refl
    | inr e ↦ any-cons q y ys (any-of_find p q ys sub (rw e at h))
  ]

  pub any-of_none : (p : A → Bool) (xs : List A) → find p xs ≡ none → any p xs ≡ false
  any-of_none p [] h = refl
  any-of_none p (y ∷ ys) h = elim (Bool-cases (p y)) [
    | inl e ↦ absurd (some-ne-none (rw e at h))
    | inr e ↦ rw e (any-of_none p ys (rw e at h))
  ]

  pub any-last : (p : A → Bool) (xs : List A) (x : A) → p x ≡ true → any p (xs ++ x ∷ []) ≡ true
  any-last p [] x h = rw h refl
  any-last p (y ∷ ys) x h = any-cons p y (ys ++ x ∷ []) (any-last p ys x h)

  pub some-injective : {x y : A} → some x ≡ some y → x ≡ y
  some-injective h = cc

  -- A row that is found by a test that the update keeps is found as before, or changed if it is one
  -- of the rows that are updated.
  pub find-update_where :
      (p q : A → Bool) (f : A → A) (xs : List A) {x : A}
      → ((y : A) → p (f y) ≡ p y)
      → find p xs ≡ some x
      → q x ≡ true
      → find p (update_where q f xs) ≡ some (f x)
  find-update_where p q f [] keeps h changes = absurd (some-ne-none (sym h))
  find-update_where p q f (y ∷ ys) {x} keeps h changes = elim (Bool-cases (p y)) [
    | inl e ↦
        let same : y ≡ x = some-injective (rw e at h) in
        let hit : q y ≡ true = rw same changes in rw (hit, keeps y, e, same) refl
    | inr e ↦
        let rest = find-update_where p q f ys keeps (rw e at h) changes in
        elim (Bool-cases (q y)) [
          | inl hit ↦ rw (hit, keeps y, e) rest
          | inr miss ↦ rw (miss, e) rest
        ]
  ]

  -- A row behind rows that fail the test.
  pub find-last :
      (p : A → Bool) (xs : List A) (x : A)
      → any p xs ≡ false
      → p x ≡ true
      → find p (xs ++ x ∷ []) ≡ some x
  find-last p [] x h fits = rw fits refl
  find-last p (y ∷ ys) x h fits = elim (Bool-cases (p y)) [
    | inl e ↦ absurd (true-ne-false (rw e at h))
    | inr e ↦ rw e (find-last p ys x (rw e at h) fits)
  ]

  pub any-last_none :
      (p : A → Bool) (xs : List A) (x : A)
      → any p xs ≡ false
      → p x ≡ false
      → any p (xs ++ x ∷ []) ≡ false
  any-last_none p [] x h misses = rw misses refl
  any-last_none p (y ∷ ys) x h misses = elim (Bool-cases (p y)) [
    | inl e ↦ absurd (true-ne-false (rw e at h))
    | inr e ↦ rw e (any-last_none p ys x (rw e at h) misses)
  ]

  -- Where no row passes a test, none passes a stronger one.
  pub any-none_sub :
      (p q : A → Bool) (xs : List A)
      → ((y : A) → p y ≡ true → q y ≡ true)
      → any q xs ≡ false
      → any p xs ≡ false
  any-none_sub p q [] sub h = refl
  any-none_sub p q (y ∷ ys) sub h = elim (Bool-cases (q y)) [
    | inl e ↦ absurd (true-ne-false (rw e at h))
    | inr e ↦ elim (Bool-cases (p y)) [
      | inl e' ↦ absurd (true-ne-false (sym (sub y e') ∙ e))
      | inr e' ↦ rw e' (any-none_sub p q ys sub (rw e at h))
    ]
  ]

  pub any-update_where :
      (p q : A → Bool) (f : A → A) (xs : List A)
      → ((y : A) → p (f y) ≡ p y)
      → any p (update_where q f xs) ≡ any p xs
  any-update_where p q f [] keeps = refl
  any-update_where p q f (y ∷ ys) keeps = elim (Bool-cases (q y)) [
    | inl e ↦ rw (e, keeps y, any-update_where p q f ys keeps) refl
    | inr e ↦ rw (e, any-update_where p q f ys keeps) refl
  ]
