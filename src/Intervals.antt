-- ===== src/Intervals.antt =====
-- Intervals of positions or of milliseconds, from `start` up to but not including `end`, and the loop
-- that merges a sorted list of them: of app/privacy.py, `_merge_spans`, and of app/compliance.py,
-- `_normalise_holds`.
use real_time_ai_call_audit.Prelude.{
  ℕ, ◌≤◌, ◌<◌, max, ◌≡◌, refl, ◌∙◌, Bool, true, ◌&&◌, ◌||◌, List, [], ◌∷◌, ◌==◌, ltb, leb,
  if◌then◌else◌, arith, All, any, sort_by, IsSorted, Bool-cases, inl, inr, any-sort_by, All-sort_by,
  sort_by-IsSorted,
}

pub record Interval : Type 0 where
  pub start : ℕ
  pub end : ℕ

-- The order of the pairs (start, end).
unfoldable pub pair_before : Interval → Interval → Bool
pair_before a b = ltb a.start b.start || a.start == b.start && leb a.end b.end

-- The loop: `last` is merged[-1].
unfoldable pub merge_from : Interval → List Interval → List Interval
merge_from last [] = last ∷ []
merge_from last (s ∷ ss) =
    let joined = merge_from (record { start = last.start; end = max last.end s.end }) ss in
    let apart = last ∷ merge_from s ss in if leb s.start last.end then joined else apart

unfoldable pub merge_sorted : List Interval → List Interval
merge_sorted [] = []
merge_sorted (s ∷ ss) = merge_from s ss

unfoldable pub merge : List Interval → List Interval
merge ss = merge_sorted (sort_by pair_before ss)

abbrev pub contains : ℕ → Interval → Bool
contains i s = leb s.start i && ltb i s.end

abbrev pub covers : List Interval → ℕ → Bool
covers ss i = any (contains i) ss

-- Each interval ends before every later one starts: neither overlap nor touch.
abbrev pub Separated : List Interval → Type 0
Separated [] = Unit {0}
Separated (s ∷ ss) = All (λ t. s.end < t.start) ss × Separated ss

abbrev Ascending : List Interval → Type 0
Ascending [] = Unit {0}
Ascending (s ∷ ss) = All (λ t. s.start ≤ t.start) ss × Ascending ss

ascending : (ss : List Interval) → IsSorted pair_before ss → Ascending ss
unfolding pair_before
ascending [] h = tt
ascending (s ∷ ss) h = (starts ss h.0, ascending ss h.1)
  where
    starts :
        (ts : List Interval)
        → All (λ t. pair_before s t ≡ true) ts
        → All (λ t. s.start ≤ t.start) ts
    starts [] g = tt
    starts (t ∷ ts) g = (ground arith, starts ts g.1)

sorted-Ascending : (ss : List Interval) → Ascending (sort_by pair_before ss)
unfolding pair_before
sorted-Ascending ss =
    ascending (sort_by pair_before ss)
      (sort_by-IsSorted pair_before (λ a b no. ground arith) (λ a b c h g. ground arith) ss)

merge_from-All {κ} :
    (P : Interval → Type κ) (last : Interval) (ss : List Interval)
    → ((a b : Interval) → P a → P b → P (record { start = a.start; end = max a.end b.end }))
    → P last
    → All P ss
    → All P (merge_from last ss)
unfolding merge_from
merge_from-All P last [] join h all = (h, tt)
merge_from-All P last (s ∷ ss) join h all = elim (Bool-cases (leb s.start last.end)) [
  | inl near ↦ rw near (merge_from-All P _ ss join (join last s h all.0) all.1)
  | inr far ↦ rw far (h, merge_from-All P s ss join all.0 all.1)
]

-- What holds of the intervals, and is kept when two are joined, holds of the merged ones.
pub All-merge {κ} :
    (P : Interval → Type κ) (ss : List Interval)
    → ((a b : Interval) → P a → P b → P (record { start = a.start; end = max a.end b.end }))
    → All P ss
    → All P (merge ss)
unfolding merge merge_sorted
All-merge P ss join all = of_sorted (sort_by pair_before ss) (All-sort_by pair_before P ss all)
  where
    of_sorted : (ts : List Interval) → All P ts → All P (merge_sorted ts)
    of_sorted [] g = tt
    of_sorted (t ∷ ts) g = merge_from-All P t ts join g.0 g.1

merge_from-Separated :
    (last : Interval) (ss : List Interval) → Ascending (last ∷ ss) → Separated (merge_from last ss)
unfolding merge_from
merge_from-Separated last [] h = (tt, tt)
merge_from-Separated last (s ∷ ss) h = elim (Bool-cases (leb s.start last.end)) [
  | inl near ↦ rw near (merge_from-Separated _ ss (h.0.1, h.1.1))
  | inr far ↦ rw far (
    merge_from-All (λ t. last.end < t.start) s ss (λ a b g g'. g) (ground arith)
        (later last.end s.start ss (ground arith) h.1.0),
    merge_from-Separated s ss h.1,
  )
]
  where
    later :
        (a b : ℕ) (ts : List Interval)
        → a < b
        → All (λ t. b ≤ t.start) ts
        → All (λ t. a < t.start) ts
    later a b [] lt g = tt
    later a b (t ∷ ts) lt g = (omega (arith, g.0), later a b ts lt g.1)

pub merge-Separated : (ss : List Interval) → Separated (merge ss)
unfolding merge merge_sorted
merge-Separated ss = of_sorted (sort_by pair_before ss) (sorted-Ascending ss)
  where
    of_sorted : (ts : List Interval) → Ascending ts → Separated (merge_sorted ts)
    of_sorted [] g = tt
    of_sorted (t ∷ ts) g = merge_from-Separated t ts g

covers-merge_from :
    (i : ℕ) (last : Interval) (ss : List Interval)
    → Ascending (last ∷ ss)
    → covers (merge_from last ss) i ≡ (contains i last || covers ss i)
unfolding merge_from
covers-merge_from i last [] h = ground arith
covers-merge_from i last (s ∷ ss) h =
    let joined =
      covers-merge_from i (record { start = last.start; end = max last.end s.end }) ss
        (h.0.1, h.1.1) in
    let apart = covers-merge_from i s ss h.1 in
    let low : last.start ≤ s.start = h.0.0 in
    elim (Bool-cases (leb s.start last.end)) [
      | inl near ↦ rw near (joined ∙ union near low)
      | inr far ↦ rw far (rw apart)
    ]
  where
    union :
        leb s.start last.end ≡ true
        → last.start ≤ s.start
        → (contains i (record { start = last.start; end = max last.end s.end }) || covers ss i)
          ≡ (contains i last || (contains i s || covers ss i))
    union near low = ground arith

-- Merging covers what the intervals cover, no more and no less.
pub covers-merge : (ss : List Interval) (i : ℕ) → covers (merge ss) i ≡ covers ss i
unfolding merge merge_sorted
covers-merge ss i =
    of_sorted (sort_by pair_before ss) (sorted-Ascending ss)
    ∙ any-sort_by pair_before (contains i) ss
  where
    of_sorted : (ts : List Interval) → Ascending ts → covers (merge_sorted ts) i ≡ covers ts i
    of_sorted [] g = refl
    of_sorted (t ∷ ts) g = covers-merge_from i t ts g
