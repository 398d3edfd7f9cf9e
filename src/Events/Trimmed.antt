-- ===== src/Events/Trimmed.antt =====
-- How many of a tenant's events the cutoff of a trim leaves.
use real_time_ai_call_audit.Prelude.{
  ℕ, zero, suc, ◌≤◌, max, min, ◌≡◌, refl, subst, inl, inr, true, some, some_eq, List, [], ◌∷◌, ◌++◌,
  ltb, leb, arith, length, All, All-sort_by, drop, select, sort_by, IsSorted, Option-cases,
}
use real_time_ai_call_audit.Store.{Outbox}
use real_time_ai_call_audit.Events.{
  find_counter, stream, newest_first, first_of_rows, cutoff, oldest_kept, oldest_of,
}
use real_time_ai_call_audit.Events.Stream.{
  Rises, sort-Falls, length-select_sort, cutoff-none, cutoff-some, length-select_le,
}
use real_time_ai_call_audit.Events.Retained.{StreamValid, InWindow, IsValid}

first_All {κ} :
    (P : ℕ → Type κ) (n c : ℕ) (xs : List ℕ) → All P xs → first_of_rows (drop n xs) ≡ some c → P c
first_All P zero c [] h e = cc
first_All P (suc n) c [] h e = cc
first_All P zero c (x ∷ xs) h e = subst P (some_eq e) h.0
first_All P (suc n) c (x ∷ xs) h e = first_All P n c xs h.1 e

-- The members up to place `n` of a falling list reach the one at that place.
reaches_place :
    (n c : ℕ) (xs : List ℕ)
    → IsSorted (λ a b. ltb b a) xs
    → first_of_rows (drop n xs) ≡ some c
    → suc n ≤ length (select (leb c) xs)
unfolding select
reaches_place zero c [] f e = cc
reaches_place (suc n) c [] f e = cc
reaches_place zero c (x ∷ xs) f e = ground (arith, some_eq e)
reaches_place (suc n) c (x ∷ xs) f e =
    let low : ltb c x ≡ true = first_All (λ y. ltb y x ≡ true) n c xs f.0 e in
    ground (arith, reaches_place n c xs f.1 e)

cutoff-enough :
    (n c : ℕ) (xs : List ℕ) → Rises xs → cutoff n xs ≡ some c → suc n ≤ length (select (leb c) xs)
unfolding cutoff
cutoff-enough n c xs r e = omega (
  arith,
  reaches_place n c (sort_by newest_first xs) (sort-Falls xs r) e,
  length-select_sort (leb c) xs,
)

cutoff-All {κ} : (P : ℕ → Type κ) (n c : ℕ) (xs : List ℕ) → All P xs → cutoff n xs ≡ some c → P c
unfolding cutoff
cutoff-All P n c xs h e =
    first_All P n c (sort_by newest_first xs) (All-sort_by newest_first P xs h) e

all_kept : (m : ℕ) (xs : List ℕ) → All (λ x. m ≤ x) xs → length (select (leb m) xs) ≡ length xs
unfolding select
all_kept m [] h = refl
all_kept m (x ∷ xs) h = ground (arith, all_kept m xs h.1)

-- A trim keeps the newest sequences, as many as the history holds.
pub length-trimmed :
    (n oldest : ℕ) (xs : List ℕ)
    → Rises xs
    → All (λ x. oldest ≤ x) xs
    → length (select (leb (oldest_kept oldest (cutoff n xs))) xs) ≡ min (suc n) (length xs)
length-trimmed n oldest xs r h = elim (Option-cases (cutoff n xs)) [
  | inl e ↦ rw e (omega (arith, all_kept oldest xs h, cutoff-none n xs e))
  | inr (c, e) ↦
      let low : oldest ≤ c = cutoff-All (λ x. oldest ≤ x) n c xs h e in
      let edge : max oldest c ≡ c = omega (arith, low) in
      rw (e, edge)
        (omega
          (arith, cutoff-some n c xs r e, cutoff-enough n c xs r e, length-select_le (leb c) xs))
]

pub All-snoc_ge :
    (m a : ℕ) (xs : List ℕ) → m ≤ a → All (λ x. m ≤ x) xs → All (λ x. m ≤ x) (xs ++ a ∷ [])
All-snoc_ge m a [] h k = (h, tt)
All-snoc_ge m a (x ∷ xs) h k = (k.0, All-snoc_ge m a xs h k.1)

-- In a valid stream every stored event is at or after the oldest sequence.
pub own_kept :
    (n org : ℕ) (o : Outbox)
    → IsValid (suc n) o
    → All (λ x. oldest_of (find_counter org o.counters) ≤ x) (stream org o.events)
own_kept n org o v = elim (Option-cases (find_counter org o.counters)) [
  | inl e ↦
      let empty : stream org o.events ≡ [] =
        subst (λ c. StreamValid (suc n) c (stream org o.events)) e (v org) in
      rw (e, empty) tt
  | inr (c, e) ↦
      let w : InWindow (suc n) c (stream org o.events) =
        subst (λ c. StreamValid (suc n) c (stream org o.events)) e (v org) in
      rw e w.kept
]
