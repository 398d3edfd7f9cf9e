-- ===== src/Prelude/Sort.antt =====
-- Stable sorting, for Python's `sorted` and SQL's ORDER BY, and SQL's WHERE and LIMIT on rows.
use Prim.Native.Nat.{ℕ, zero, suc}
use mathlib.Core.Path.{◌≡◌, refl, ap, ◌∙◌}
use mathlib.Core.Logic.{inl, inr}
use mathlib.Core.Bool.{Bool, true, false, ◌||◌}
use mathlib.Core.List.{List, [], ◌∷◌}
use native.Mathlib.Omega.{arith}
use real_time_ai_call_audit.Prelude.Tests.{if◌then◌else◌, Bool-cases}
use real_time_ai_call_audit.Prelude.Lists.{length, All, any, delete_if, take}

module _ {ℓ} {A : Type ℓ} where
  -- The rows that `WHERE p` selects.
  unfoldable pub select : (A → Bool) → List A → List A
  select p [] = []
  select p (x ∷ xs) = let rest = select p xs in if p x then x ∷ rest else rest

  unfoldable pub insert_by : (A → A → Bool) → A → List A → List A
  insert_by before a [] = a ∷ []
  insert_by before a (x ∷ xs) =
      let rest = insert_by before a xs in if before a x then a ∷ x ∷ xs else x ∷ rest

  -- Equal keys stay in their order.
  unfoldable pub sort_by : (A → A → Bool) → List A → List A
  sort_by before [] = []
  sort_by before (x ∷ xs) = insert_by before x (sort_by before xs)

  -- Each member is before every later one.
  abbrev pub IsSorted : (A → A → Bool) → List A → Type ℓ
  IsSorted before [] = Unit
  IsSorted before (x ∷ xs) = All (λ y. before x y ≡ true) xs × IsSorted before xs

module _ {ℓ} {A : Type ℓ} (before : A → A → Bool) where
  any-insert_by :
      (p : A → Bool) (a : A) (xs : List A) → any p (insert_by before a xs) ≡ (p a || any p xs)
  unfolding insert_by
  any-insert_by p a [] = refl
  any-insert_by p a (x ∷ xs) = ground (arith, any-insert_by p a xs)

  -- Sorting loses and invents no member.
  pub any-sort_by : (p : A → Bool) (xs : List A) → any p (sort_by before xs) ≡ any p xs
  unfolding sort_by
  any-sort_by p [] = refl
  any-sort_by p (x ∷ xs) =
      any-insert_by p x (sort_by before xs) ∙ ap (λ b. p x || b) (any-sort_by p xs)

  length-insert_by : (a : A) (xs : List A) → length (insert_by before a xs) ≡ suc (length xs)
  unfolding insert_by
  length-insert_by a [] = refl
  length-insert_by a (x ∷ xs) = ground (arith, length-insert_by a xs)

  pub length-sort_by : (xs : List A) → length (sort_by before xs) ≡ length xs
  unfolding sort_by
  length-sort_by [] = refl
  length-sort_by (x ∷ xs) = length-insert_by x (sort_by before xs) ∙ ap suc (length-sort_by xs)

  -- What is sorted stays as it is.
  pub sort_by_of_IsSorted : (xs : List A) → IsSorted before xs → sort_by before xs ≡ xs
  unfolding sort_by insert_by
  sort_by_of_IsSorted [] h = refl
  sort_by_of_IsSorted (x ∷ []) h = refl
  sort_by_of_IsSorted (x ∷ y ∷ ys) h = rw (sort_by_of_IsSorted (y ∷ ys) h.1, insert_by) (rw h.0.0)

module _ {ℓ κ} {A : Type ℓ} (before : A → A → Bool) (P : A → Type κ) where
  All-insert_by : (a : A) (xs : List A) → P a → All P xs → All P (insert_by before a xs)
  unfolding insert_by
  All-insert_by a [] ha h = (ha, tt)
  All-insert_by a (x ∷ xs) ha h = ground (arith, All-insert_by a xs ha h.1)

  pub All-sort_by : (xs : List A) → All P xs → All P (sort_by before xs)
  unfolding sort_by
  All-sort_by [] h = tt
  All-sort_by (x ∷ xs) h = All-insert_by x (sort_by before xs) h.0 (All-sort_by xs h.1)

  pub All-take : (n : ℕ) (xs : List A) → All P xs → All P (take n xs)
  All-take zero xs h = tt
  All-take (suc n) [] h = tt
  All-take (suc n) (x ∷ xs) h = (h.0, All-take n xs h.1)

  pub All-select : (p : A → Bool) (xs : List A) → All P xs → All P (select p xs)
  unfolding select
  All-select p [] h = tt
  All-select p (x ∷ xs) h = ground (arith, All-select p xs h.1)

  pub All-delete_if : (p : A → Bool) (xs : List A) → All P xs → All P (delete_if p xs)
  unfolding delete_if
  All-delete_if p [] h = tt
  All-delete_if p (x ∷ xs) h = ground (arith, All-delete_if p xs h.1)

-- An order that is total and transitive sorts.
module _ {ℓ} {A : Type ℓ} (before : A → A → Bool)
    (total : (a b : A) → before a b ≡ false → before b a ≡ true)
    (trans : (a b c : A) → before a b ≡ true → before b c ≡ true → before a c ≡ true) where
  All-before :
      (a b : A) (xs : List A)
      → before a b ≡ true
      → All (λ y. before b y ≡ true) xs
      → All (λ y. before a y ≡ true) xs
  All-before a b [] h all = tt
  All-before a b (x ∷ xs) h all = (trans a b x h all.0, All-before a b xs h all.1)

  insert_by-IsSorted :
      (a : A) (xs : List A) → IsSorted before xs → IsSorted before (insert_by before a xs)
  unfolding insert_by
  insert_by-IsSorted a [] h = (tt, tt)
  insert_by-IsSorted a (x ∷ xs) h = elim (Bool-cases (before a x)) [
    | inl yes_before ↦ rw yes_before ((yes_before, All-before a x xs yes_before h.0), h)
    | inr not_before ↦ rw not_before (
      All-insert_by before (λ y. before x y ≡ true) a xs (total a x not_before) h.0,
      insert_by-IsSorted a xs h.1,
    )
  ]

  pub sort_by-IsSorted : (xs : List A) → IsSorted before (sort_by before xs)
  unfolding sort_by
  sort_by-IsSorted [] = tt
  sort_by-IsSorted (x ∷ xs) = insert_by-IsSorted x (sort_by before xs) (sort_by-IsSorted xs)
