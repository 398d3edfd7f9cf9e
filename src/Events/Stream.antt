-- ===== src/Events/Stream.antt =====
-- Lemmas on the sequences of one tenant, its counter and the query for the cutoff.
use real_time_ai_call_audit.Prelude.{
  ℕ, zero, suc, ◌+◌, ◌≤◌, ◌<◌, ◌≡◌, ◌≢◌, refl, Bool, true, false, ◌&&◌, none, some, List, [], ◌∷◌,
  ◌++◌, ◌==◌, ltb, leb, if◌then◌else◌, arith, length, All, drop, select, sort_by, insert_by,
  delete_if, IsSorted, Bool-cases, Option-cases, inl, inr, All-sort_by, length-sort_by,
}
use real_time_ai_call_audit.Store.{Counter, Event}
use real_time_ai_call_audit.Events.{
  find_counter, bump_counter, raise_oldest, stream, newest_first, first_of_rows, cutoff, last_of,
  oldest_of, of_call, latest_of_call,
}

-- An increase of the oldest sequence keeps the last one.
pub find_counter-raise_oldest :
    (org k oldest : ℕ) (cs : List Counter)
    → find_counter k (raise_oldest org oldest cs) ≡ elim (find_counter k cs) [
      | none ↦ none
      | some c ↦ some (
          if k == org && ltb c.oldest_sequence oldest
          then record c { oldest_sequence = oldest }
          else c)
    ]
unfolding find_counter raise_oldest
find_counter-raise_oldest org k oldest [] = refl
find_counter-raise_oldest org k oldest (c ∷ cs) =
    ground (arith, find_counter-raise_oldest org k oldest cs)

pub find_counter-bump_counter_ne :
    (org k : ℕ) (cs : List Counter)
    → k ≢ org
    → find_counter k (bump_counter org cs) ≡ find_counter k cs
unfolding find_counter bump_counter
find_counter-bump_counter_ne org k [] ne = ground arith
find_counter-bump_counter_ne org k (c ∷ cs) ne =
    ground (arith, find_counter-bump_counter_ne org k cs)

-- The counter after a bump: the next sequence, and the oldest one as it was.
pub find_counter-bump_counter :
    (org : ℕ) (cs : List Counter)
    → find_counter org (bump_counter org cs)
      ≡ some (record {
        organisation_id = org;
        last_sequence = last_of (find_counter org cs) + 1;
        oldest_sequence = oldest_of (find_counter org cs);
      })
unfolding find_counter bump_counter
find_counter-bump_counter org [] = ground arith
find_counter-bump_counter org (c ∷ cs) = ground (arith, find_counter-bump_counter org cs)

pub stream-append :
    (org : ℕ) (es : List Event) (e : Event)
    → stream org (es ++ e ∷ [])
      ≡ (if e.organisation_id == org then stream org es ++ e.sequence ∷ [] else stream org es)
unfolding stream
stream-append org [] e = ground arith
stream-append org (x ∷ es) e = ground (arith, stream-append org es e)

-- Rows of one tenant dropped by their sequence.
pub stream-delete_if :
    (org k oldest : ℕ) (es : List Event)
    → stream k (delete_if (λ e. e.organisation_id == org && ltb e.sequence oldest) es)
      ≡ (if k == org then select (leb oldest) (stream k es) else stream k es)
unfolding stream delete_if select
stream-delete_if org k oldest [] = ground arith
stream-delete_if org k oldest (e ∷ es) = ground (arith, stream-delete_if org k oldest es)

select-length_mono :
    (p q : ℕ → Bool)
    → ((x : ℕ) → p x ≡ true → q x ≡ true)
    → (xs : List ℕ) → length (select p xs) ≤ length (select q xs)
unfolding select
select-length_mono p q imp [] = omega arith
select-length_mono p q imp (x ∷ xs) = ground (arith, imp x, select-length_mono p q imp xs)

pub length-select-leb :
    (a b : ℕ) (xs : List ℕ) → a ≤ b → length (select (leb b) xs) ≤ length (select (leb a) xs)
length-select-leb a b xs h = select-length_mono (leb b) (leb a) (λ x e. ground arith) xs

length-select_insert :
    (p : ℕ → Bool) (a : ℕ) (xs : List ℕ)
    → length (select p (insert_by newest_first a xs)) ≡ length (select p (a ∷ xs))
unfolding select insert_by
length-select_insert p a [] = refl
length-select_insert p a (x ∷ xs) = ground (arith, length-select_insert p a xs)

pub length-select_sort :
    (p : ℕ → Bool) (xs : List ℕ)
    → length (select p (sort_by newest_first xs)) ≡ length (select p xs)
unfolding select sort_by
length-select_sort p [] = refl
length-select_sort p (x ∷ xs) =
    ground (arith, length-select_insert p x (sort_by newest_first xs), length-select_sort p xs)

-- Sequences strictly rise along the table.
abbrev pub Rises : List ℕ → Type 0
Rises = IsSorted ltb

abbrev Falls : List ℕ → Type 0
Falls = IsSorted (λ a b. ltb b a)

insert-All :
    (b a : ℕ) (xs : List ℕ)
    → ltb a b ≡ true
    → All (λ y. ltb y b ≡ true) xs
    → All (λ y. ltb y b ≡ true) (insert_by newest_first a xs)
unfolding insert_by
insert-All b a [] h all = (h, tt)
insert-All b a (x ∷ xs) h all = ground (arith, insert-All b a xs h all.1)

insert-Falls :
    (a : ℕ) (xs : List ℕ)
    → All (λ y. ltb a y ≡ true) xs
    → Falls xs
    → Falls (insert_by newest_first a xs)
unfolding insert_by
insert-Falls a [] all f = (tt, tt)
insert-Falls a (x ∷ xs) all f =
    let later : leb x a ≡ false = ground arith in
    rw later (insert-All x a xs all.0 f.0, insert-Falls a xs all.1 f.1)

pub sort-Falls : (xs : List ℕ) → Rises xs → Falls (sort_by newest_first xs)
unfolding sort_by
sort-Falls [] r = tt
sort-Falls (x ∷ xs) r =
    insert-Falls x (sort_by newest_first xs) (All-sort_by newest_first (λ y. ltb x y ≡ true) xs r.0)
      (sort-Falls xs r.1)

none_at_least :
    (c : ℕ) (xs : List ℕ) → All (λ y. ltb y c ≡ true) xs → length (select (leb c) xs) ≡ 0
unfolding select
none_at_least c [] all = refl
none_at_least c (x ∷ xs) all = ground (arith, none_at_least c xs all.1)

-- At most `suc n` members reach the one at place `n` of a falling list.
at_place :
    (n c : ℕ) (xs : List ℕ)
    → Falls xs
    → first_of_rows (drop n xs) ≡ some c
    → length (select (leb c) xs) ≤ suc n
unfolding select
at_place zero c [] f e = cc
at_place (suc n) c [] f e = cc
at_place zero c (x ∷ xs) f e = ground (arith, none_at_least x xs f.0)
at_place (suc n) c (x ∷ xs) f e = ground (arith, at_place n c xs f.1 e)

short_of : (n : ℕ) (xs : List ℕ) → first_of_rows (drop n xs) ≡ none → length xs ≤ n
short_of zero [] e = omega arith
short_of (suc n) [] e = omega arith
short_of zero (x ∷ xs) e = cc
short_of (suc n) (x ∷ xs) e = omega (arith, short_of n xs e)

-- What the cutoff query leaves is at most the history.
pub cutoff-some :
    (n c : ℕ) (xs : List ℕ) → Rises xs → cutoff n xs ≡ some c → length (select (leb c) xs) ≤ suc n
unfolding cutoff
cutoff-some n c xs r e = omega (
  arith,
  at_place n c (sort_by newest_first xs) (sort-Falls xs r) e,
  length-select_sort (leb c) xs,
)

pub cutoff-none : (n : ℕ) (xs : List ℕ) → cutoff n xs ≡ none → length xs ≤ n
unfolding cutoff
cutoff-none n xs e =
    omega (arith, short_of n (sort_by newest_first xs) e, length-sort_by newest_first xs)

pub length-select_le : (p : ℕ → Bool) (xs : List ℕ) → length (select p xs) ≤ length xs
unfolding select
length-select_le p [] = omega arith
length-select_le p (x ∷ xs) = ground (arith, length-select_le p xs)

select-All {κ} : (P : ℕ → Type κ) (p : ℕ → Bool) (xs : List ℕ) → All P xs → All P (select p xs)
unfolding select
select-All P p [] h = tt
select-All P p (x ∷ xs) h = ground (arith, select-All P p xs h.1)

pub select-Rises : (p : ℕ → Bool) (xs : List ℕ) → Rises xs → Rises (select p xs)
unfolding select
select-Rises p [] r = tt
select-Rises p (x ∷ xs) r =
    ground (arith, select-Rises p xs r.1, select-All (λ y. ltb x y ≡ true) p xs r.0)

pub append-Rises : (xs : List ℕ) (a : ℕ) → Rises xs → All (λ y. y < a) xs → Rises (xs ++ a ∷ [])
append-Rises [] a r h = (tt, tt)
append-Rises (x ∷ xs) a r h = (below x xs a r.0 (ground arith), append-Rises xs a r.1 h.1)
  where
    below :
        (x : ℕ) (ys : List ℕ) (a : ℕ)
        → All (λ y. ltb x y ≡ true) ys
        → ltb x a ≡ true
        → All (λ y. ltb x y ≡ true) (ys ++ a ∷ [])
    below x [] a all h = (h, tt)
    below x (y ∷ ys) a all h = (all.0, below x ys a all.1 h)

All-first_drop :
    (b n c : ℕ) (xs : List ℕ) → All (λ y. y ≤ b) xs → first_of_rows (drop n xs) ≡ some c → c ≤ b
All-first_drop b zero c [] h e = cc
All-first_drop b (suc n) c [] h e = cc
All-first_drop b zero c (x ∷ xs) h e = ground arith
All-first_drop b (suc n) c (x ∷ xs) h e = All-first_drop b n c xs h.1 e

pub cutoff_le : (b n c : ℕ) (xs : List ℕ) → All (λ y. y ≤ b) xs → cutoff n xs ≡ some c → c ≤ b
unfolding cutoff
cutoff_le b n c xs h e =
    All-first_drop b n c (sort_by newest_first xs) (All-sort_by newest_first (λ y. y ≤ b) xs h) e

pub All-weaken : (a b : ℕ) (xs : List ℕ) → a ≤ b → All (λ y. y ≤ a) xs → All (λ y. y ≤ b) xs
All-weaken a b [] h all = tt
All-weaken a b (x ∷ xs) h all = (omega arith, All-weaken a b xs h all.1)

pub All-le_lt : (a : ℕ) (xs : List ℕ) → All (λ y. y ≤ a) xs → All (λ y. y < a + 1) xs
All-le_lt a [] all = tt
All-le_lt a (x ∷ xs) all = (omega arith, All-le_lt a xs all.1)

pub All-select_le :
    (b : ℕ) (p : ℕ → Bool) (xs : List ℕ) → All (λ y. y ≤ b) xs → All (λ y. y ≤ b) (select p xs)
All-select_le b p xs h = select-All (λ y. y ≤ b) p xs h

pub All-select_ge : (m : ℕ) (xs : List ℕ) → All (λ y. m ≤ y) (select (leb m) xs)
unfolding select
All-select_ge m [] = tt
All-select_ge m (x ∷ xs) = ground (arith, All-select_ge m xs)

pub All-snoc_le :
    (a : ℕ) (xs : List ℕ) → All (λ y. y ≤ a) xs → All (λ y. y ≤ a + 1) (xs ++ (a + 1) ∷ [])
All-snoc_le a [] all = (omega arith, tt)
All-snoc_le a (x ∷ xs) all = (omega arith, All-snoc_le a xs all.1)

-- Rows deleted by any test leave a part of the stream.
module _ (p : Event → Bool) where
  pub All-stream-delete_if {κ} :
      (P : ℕ → Type κ) (k : ℕ) (es : List Event)
      → All P (stream k es)
      → All P (stream k (delete_if p es))
  unfolding stream delete_if
  All-stream-delete_if P k [] h = tt
  All-stream-delete_if P k (e ∷ es) h = elim (Bool-cases (e.organisation_id == k)) [
    | inl own ↦
        let (a, rest) : P e.sequence × All P (stream k es) = rw own at h in
        elim (Bool-cases (p e)) [
          | inl gone ↦ rw (gone) (All-stream-delete_if P k es rest)
          | inr stays ↦ rw (stays, own) ((a, All-stream-delete_if P k es rest))
        ]
    | inr other ↦
        let rest : All P (stream k es) = rw other at h in
        elim (Bool-cases (p e)) [
          | inl gone ↦ rw (gone) (All-stream-delete_if P k es rest)
          | inr stays ↦ rw (stays, other) (All-stream-delete_if P k es rest)
        ]
  ]

  pub Rises-stream-delete_if :
      (k : ℕ) (es : List Event) → Rises (stream k es) → Rises (stream k (delete_if p es))
  unfolding stream delete_if
  Rises-stream-delete_if k [] r = tt
  Rises-stream-delete_if k (e ∷ es) r = ground (
    arith,
    Rises-stream-delete_if k es,
    All-stream-delete_if (λ (y : ℕ). ltb e.sequence y ≡ true) k es,
  )

  pub length-stream-delete_if :
      (k : ℕ) (es : List Event) → length (stream k (delete_if p es)) ≤ length (stream k es)
  unfolding stream delete_if
  length-stream-delete_if k [] = omega arith
  length-stream-delete_if k (e ∷ es) = ground (arith, length-stream-delete_if k es)

pub stream-delete_if_other :
    (org call k : ℕ) (es : List Event)
    → k ≢ org
    → stream k (delete_if (of_call org call) es) ≡ stream k es
unfolding stream delete_if
stream-delete_if_other org call k [] ne = refl
stream-delete_if_other org call k (e ∷ es) ne =
    ground (arith, stream-delete_if_other org call k es ne)

-- The newest event of a call is one of its tenant's, and none of the call's is newer.
pub latest_of_call_le :
    (b org call : ℕ) (es : List Event) {s : ℕ}
    → All (λ x. x ≤ b) (stream org es)
    → latest_of_call org call es ≡ some s
    → s ≤ b
unfolding stream latest_of_call
latest_of_call_le b org call [] h e = cc
latest_of_call_le b org call (x ∷ es) {s} h e = elim (Option-cases (latest_of_call org call es)) [
  | inl none_left ↦ ground arith
  | inr (t, found) ↦
      ground
        (arith, λ (g : All (λ y. y ≤ b) (stream org es)). latest_of_call_le b org call es g found)
]
