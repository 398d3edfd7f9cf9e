-- ===== src/WordAlignment.antt =====
-- app/transcript_verification.py: word-level comparison of a transcript with a reference.
-- A position `i` in a list of words is held as the reversed prefix of length `i`, whose head is the
-- word at `i - 1`; so the loops over positions are recursions on these prefixes. Words are values of
-- any type with a Boolean equality, Python's `==` on `str`.
pub mod Table
pub mod Backtrack
pub mod Optimal
pub mod Words
pub mod Report
pub mod Complete
mod Examples
pub mod Located
use mathlib.Core.List.{reverse}
use real_time_ai_call_audit.Prelude.{
  ℕ, zero, suc, ◌+◌, min, ◌≡◌, Bool, true, false, ◌&&◌, ◌||◌, Option, none, some, List, [], ◌∷◌,
  ◌++◌, map, ◌==◌, ltb, if◌then◌else◌, length,
}

-- MAX_WORDS
abbrev pub max_words : ℕ
max_words = 20000

-- AlignmentOp: `same` is the source's "match", with both words.
pub data AlignmentOp (W : Type 0) : Type 0 where
  same : W → W → AlignmentOp W
  substitute : W → W → AlignmentOp W
  delete : W → AlignmentOp W
  insert : W → AlignmentOp W

pub data AlignError : Type 0 where
  too_many_words index_error : AlignError

pub data Aligned (A : Type 0) : Type 0 where
  ok : A → Aligned A
  raise : AlignError → Aligned A

module _ {W : Type 0} (eq : W → W → Bool) where
  -- The inner loop: the cells of a row to the right of `left`, from the row above.
  unfoldable pub fill_row : W → ℕ → List ℕ → List W → List ℕ
  fill_row r left (diagonal ∷ above ∷ row) (h ∷ hs) =
      let cell = if eq r h then diagonal else 1 + min (min diagonal above) left in
      cell ∷ fill_row r cell (above ∷ row) hs
  fill_row r left _ _ = []

  -- The outer loop, from row `i` on: `row` is the row above.
  unfoldable pub fill_rows : ℕ → List ℕ → List W → List W → List (List ℕ)
  fill_rows i row [] hs = []
  fill_rows i row (r ∷ rs) hs =
      let next = i ∷ fill_row r i row hs in next ∷ fill_rows (suc i) next rs hs

  -- Row 0 is 0, 1, …, the length of the hypothesis.
  unfoldable pub first_row : ℕ → List W → List ℕ
  first_row j [] = j ∷ []
  first_row j (h ∷ hs) = j ∷ first_row (suc j) hs

  unfoldable pub fill_table : List W → List W → List (List ℕ)
  fill_table reference hypothesis =
      let row = first_row 0 hypothesis in row ∷ fill_rows 1 row reference hypothesis

abbrev pub nth {ℓ} : {A : Type ℓ} → A → List A → ℕ → A
nth d [] n = d
nth d (x ∷ xs) zero = x
nth d (x ∷ xs) (suc n) = nth d xs n

-- table[i][j]; the positions read are always in range.
unfoldable pub cell_at : List (List ℕ) → ℕ → ℕ → ℕ
cell_at table i j = nth 0 (nth [] table i) j

abbrev pub cons_op :
    {W : Type 0} → AlignmentOp W → Option (List (AlignmentOp W)) → Option (List (AlignmentOp W))
cons_op op none = none
cons_op op (some ops) = some (op ∷ ops)

module _ {W : Type 0} (eq : W → W → Bool) where
  -- The `while i > 0 or j > 0` loop, from the ends; `t i j` is table[i][j]. The last branch takes a
  -- word from both lists: `none` where one of them has none left.
  unfoldable pub backtrack : (ℕ → ℕ → ℕ) → List W → List W → Option (List (AlignmentOp W))
  backtrack t [] [] = some []
  backtrack t [] (h ∷ hs) =
      let inserted = backtrack t [] hs in
      if t 0 (suc (length hs)) == t 0 (length hs) + 1 then cons_op (insert h) inserted else none
  backtrack t (r ∷ rs) [] =
      let deleted = backtrack t rs [] in
      if t (suc (length rs)) 0 == t (length rs) 0 + 1 then cons_op (delete r) deleted else none
  backtrack t (r ∷ rs) (h ∷ hs) =
      let here = t (suc (length rs)) (suc (length hs)) in
      let diagonal = t (length rs) (length hs) in
      let matched = cons_op (same r h) (backtrack t rs hs) in
      let inserted = cons_op (insert h) (backtrack t (r ∷ rs) hs) in
      let deleted = cons_op (delete r) (backtrack t rs (h ∷ hs)) in
      let substituted = cons_op (substitute r h) (backtrack t rs hs) in
      if eq r h && (here == diagonal)
      then matched
      else if here == t (suc (length rs)) (length hs) + 1
      then inserted
      else if here == t (length rs) (suc (length hs)) + 1
      then deleted
      else substituted

  unfoldable pub align_words : List W → List W → Aligned (List (AlignmentOp W))
  align_words reference hypothesis =
      if ltb max_words (length reference) || ltb max_words (length hypothesis)
      then raise too_many_words
      else elim (backtrack (cell_at (fill_table eq reference hypothesis)) (reverse reference)
          (reverse hypothesis)) [ none ↦ raise index_error | some ops ↦ ok (reverse ops) ]

module _ {W : Type 0} where
  -- The words of either side that the operations consume, in order.
  abbrev pub reference_of : List (AlignmentOp W) → List W
  reference_of [] = []
  reference_of (same r h ∷ ops) = r ∷ reference_of ops
  reference_of (substitute r h ∷ ops) = r ∷ reference_of ops
  reference_of (delete r ∷ ops) = r ∷ reference_of ops
  reference_of (insert h ∷ ops) = reference_of ops

  abbrev pub hypothesis_of : List (AlignmentOp W) → List W
  hypothesis_of [] = []
  hypothesis_of (same r h ∷ ops) = h ∷ hypothesis_of ops
  hypothesis_of (substitute r h ∷ ops) = h ∷ hypothesis_of ops
  hypothesis_of (delete r ∷ ops) = hypothesis_of ops
  hypothesis_of (insert h ∷ ops) = h ∷ hypothesis_of ops

  -- substitutions + deletions + insertions
  abbrev pub errors : List (AlignmentOp W) → ℕ
  errors [] = 0
  errors (same r h ∷ ops) = errors ops
  errors (substitute r h ∷ ops) = errors ops + 1
  errors (delete r ∷ ops) = errors ops + 1
  errors (insert h ∷ ops) = errors ops + 1

  -- A match pairs equal words.
  abbrev pub IsHonest : List (AlignmentOp W) → Type 0
  IsHonest [] = Unit {0}
  IsHonest (same r h ∷ ops) = (r ≡ h) × IsHonest ops
  IsHonest (substitute r h ∷ ops) = IsHonest ops
  IsHonest (delete r ∷ ops) = IsHonest ops
  IsHonest (insert h ∷ ops) = IsHonest ops
