-- ===== src/Db/Paging.antt =====
-- `WHERE ... ORDER BY created_at DESC, id DESC LIMIT $2 OFFSET $3`, which both lists of the API use.
use native.Mathlib.Nat.{zero-add, suc-add}
use payout_orchestrator.Common.{
  ℕ, zero, suc, ◌+◌, ◌≤◌, ◌≡◌, refl, ap, ◌∙◌, inl, inr, Bool, true, false, not, ◌&&◌, ◌||◌, List,
  [], ◌∷◌, ◌++◌, arith, ltb, ◌==◌, if◌then◌else◌, Bool-cases, length, take, drop, filter_rows,
}
use payout_orchestrator.Db.Models.{Uuid, Time}

module _ {A : Type 0} (created_at : A → Time) (id : A → Uuid) where
  abbrev pub not_after : A → A → Bool
  not_after p q =
      ltb (created_at q) (created_at p) || created_at p == created_at q && not (ltb (id p) (id q))

  insert_row : A → List A → List A
  insert_row p [] = p ∷ []
  insert_row p (q ∷ qs) = if not_after p q then p ∷ q ∷ qs else q ∷ insert_row p qs

  unfoldable pub newest_first : List A → List A
  unfolding insert_row
  newest_first [] = []
  newest_first (p ∷ ps) = insert_row p (newest_first ps)

  -- The rows of a table that pass a test, in their order, from an offset up to a limit.
  unfoldable pub page : (A → Bool) → ℕ → ℕ → List A → List A
  unfolding newest_first
  page test limit offset rows = take limit (drop offset (newest_first (filter_rows test rows)))

  -- Every row of the list passes.
  abbrev pub AllPass : (A → Bool) → List A → Type 0
  AllPass test [] = Unit
  AllPass test (p ∷ ps) = (test p ≡ true) × AllPass test ps

  -- A row is not older than any behind it; rows of one time go by their ids.
  abbrev pub IsNewestFirst : List A → Type 0
  IsNewestFirst [] = Unit
  IsNewestFirst (p ∷ ps) = AllPass (not_after p) ps × IsNewestFirst ps

  AllPass-insert :
      (test : A → Bool) (p : A) (ps : List A)
      → test p ≡ true
      → AllPass test ps
      → AllPass test (insert_row p ps)
  unfolding insert_row
  AllPass-insert test p [] h all = (h, tt)
  AllPass-insert test p (q ∷ qs) h (k, all) = elim (Bool-cases (not_after p q)) [
    | inl before ↦ rw before (h, (k, all))
    | inr behind ↦ rw behind (k, AllPass-insert test p qs h all)
  ]

  not_after_trans : (p q r : A) → not_after p q ≡ true → not_after q r ≡ true → not_after p r ≡ true
  not_after_trans p q r h k = ground arith

  not_after_total : (p q : A) → not_after p q ≡ false → not_after q p ≡ true
  not_after_total p q h = ground arith

  AllPass-trans :
      (p q : A) (ps : List A)
      → not_after p q ≡ true
      → AllPass (not_after q) ps
      → AllPass (not_after p) ps
  AllPass-trans p q [] h all = tt
  AllPass-trans p q (r ∷ rs) h (k, all) = (not_after_trans p q r h k, AllPass-trans p q rs h all)

  insert-IsNewestFirst : (p : A) (ps : List A) → IsNewestFirst ps → IsNewestFirst (insert_row p ps)
  unfolding insert_row
  insert-IsNewestFirst p [] s = (tt, tt)
  insert-IsNewestFirst p (q ∷ qs) (all, s) = elim (Bool-cases (not_after p q)) [
    | inl before ↦ rw before ((before, AllPass-trans p q qs before all), (all, s))
    | inr behind ↦ rw behind (
      AllPass-insert (not_after q) p qs (not_after_total p q behind) all,
      insert-IsNewestFirst p qs s,
    )
  ]

  newest_first-IsNewestFirst : (ps : List A) → IsNewestFirst (newest_first ps)
  unfolding newest_first
  newest_first-IsNewestFirst [] = tt
  newest_first-IsNewestFirst (p ∷ ps) = insert-IsNewestFirst p _ (newest_first-IsNewestFirst ps)

  AllPass-newest_first :
      (test : A → Bool) (ps : List A) → AllPass test ps → AllPass test (newest_first ps)
  unfolding newest_first
  AllPass-newest_first test [] all = tt
  AllPass-newest_first test (p ∷ ps) (h, all) =
      AllPass-insert test p _ h (AllPass-newest_first test ps all)

  AllPass-filter : (test : A → Bool) (ps : List A) → AllPass test (filter_rows test ps)
  AllPass-filter test [] = tt
  AllPass-filter test (p ∷ ps) = elim (Bool-cases (test p)) [
    | inl passes ↦ rw passes (passes, AllPass-filter test ps)
    | inr fails ↦ rw fails (AllPass-filter test ps)
  ]

  AllPass-take :
      (test : A → Bool) (n : ℕ) (ps : List A) → AllPass test ps → AllPass test (take n ps)
  AllPass-take test zero ps all = tt
  AllPass-take test (suc n) [] all = tt
  AllPass-take test (suc n) (p ∷ ps) (h, all) = (h, AllPass-take test n ps all)

  AllPass-drop :
      (test : A → Bool) (n : ℕ) (ps : List A) → AllPass test ps → AllPass test (drop n ps)
  AllPass-drop test zero ps all = all
  AllPass-drop test (suc n) [] all = tt
  AllPass-drop test (suc n) (p ∷ ps) (h, all) = AllPass-drop test n ps all

  take-IsNewestFirst : (n : ℕ) (ps : List A) → IsNewestFirst ps → IsNewestFirst (take n ps)
  take-IsNewestFirst zero ps s = tt
  take-IsNewestFirst (suc n) [] s = tt
  take-IsNewestFirst (suc n) (p ∷ ps) (all, s) =
      (AllPass-take (not_after p) n ps all, take-IsNewestFirst n ps s)

  drop-IsNewestFirst : (n : ℕ) (ps : List A) → IsNewestFirst ps → IsNewestFirst (drop n ps)
  drop-IsNewestFirst zero ps s = s
  drop-IsNewestFirst (suc n) [] s = tt
  drop-IsNewestFirst (suc n) (p ∷ ps) (all, s) = drop-IsNewestFirst n ps s

  length-take-le : (n : ℕ) (ps : List A) → length (take n ps) ≤ n
  length-take-le zero ps = omega arith
  length-take-le (suc n) [] = omega arith
  length-take-le (suc n) (p ∷ ps) = omega (arith, length-take-le n ps)

  -- What a page of the rows is.
  pub record IsPage (test : A → Bool) (limit : ℕ) (ps : List A) : Type 0 where
    pub passes : AllPass test ps
    pub sorted : IsNewestFirst ps
    pub bounded : length ps ≤ limit

  pub page-IsPage :
      (test : A → Bool) (limit offset : ℕ) (rows : List A)
      → IsPage test limit (page test limit offset rows)
  unfolding page
  page-IsPage test limit offset rows = record {
    passes =
        AllPass-take test limit _
          (AllPass-drop test offset _ (AllPass-newest_first test _ (AllPass-filter test rows)));
    sorted =
        take-IsNewestFirst limit _
          (drop-IsNewestFirst offset _ (newest_first-IsNewestFirst (filter_rows test rows)));
    bounded = length-take-le limit _;
  }

  take-nil : (n : ℕ) → [] ≡ take {A = A} n []
  take-nil zero = refl
  take-nil (suc n) = refl

  drop-nil : (n : ℕ) → [] ≡ drop {A = A} n []
  drop-nil zero = refl
  drop-nil (suc n) = refl

  take-add : (m n : ℕ) (ps : List A) → take (m + n) ps ≡ take m ps ++ take n (drop m ps)
  take-add zero n ps = rw zero-add
  take-add (suc m) n [] = rw suc-add (take-nil n)
  take-add (suc m) n (p ∷ ps) = rw suc-add (ap (λ rest. p ∷ rest) (take-add m n ps))

  drop-add : (m n : ℕ) (ps : List A) → drop (m + n) ps ≡ drop n (drop m ps)
  drop-add zero n ps = rw zero-add
  drop-add (suc m) n [] = rw suc-add (drop-nil n)
  drop-add (suc m) n (p ∷ ps) = rw suc-add (drop-add m n ps)

  -- Consecutive pages of the same rows neither overlap nor leave a row out.
  pub page-add :
      (test : A → Bool) (m n offset : ℕ) (rows : List A)
      → page test (m + n) offset rows ≡ page test m offset rows ++ page test n (offset + m) rows
  unfolding page
  page-add test m n offset rows = take-add m n _ ∙ rw (drop-add offset m) refl
