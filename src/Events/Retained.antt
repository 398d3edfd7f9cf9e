-- ===== src/Events/Retained.antt =====
-- The bounded history: what holds of every tenant's stream, and that every write keeps it.
use real_time_ai_call_audit.Prelude.{
  ℕ, suc, ◌+◌, ◌≤◌, max, ◌≡◌, ◌≢◌, inl, inr, String, Option, none, some, List, [], ◌∷◌, ◌++◌, ltb,
  leb, if◌then◌else◌, arith, length, All, select, Bool-cases, Option-cases, subst,
}
use native.Mathlib.Decide.{ℕ_discrete}
use real_time_ai_call_audit.Store.{Counter, Outbox}
use real_time_ai_call_audit.Events.{
  find_counter, stream, cutoff, last_of, oldest_of, drop_before, insert_event, trim, append_keeping,
}
use real_time_ai_call_audit.Events.Stream.{
  find_counter-raise_oldest, find_counter-bump_counter, find_counter-bump_counter_ne, stream-append,
  stream-delete_if, length-select-leb, cutoff-some, cutoff-none, cutoff_le, length-select_le, Rises,
  select-Rises, append-Rises, All-le_lt, All-select_le, All-select_ge, All-snoc_le,
}

-- The stored sequences of one tenant, against its counter: they rise along the table, lie from
-- the oldest sequence up to the last one, and are at most `h`.
pub record InWindow (h : ℕ) (c : Counter) (s : List ℕ) : Type 0 where
  pub started : 1 ≤ c.oldest_sequence
  pub bounded : c.oldest_sequence ≤ c.last_sequence + 1
  pub rises : Rises s
  pub kept : All (λ x. c.oldest_sequence ≤ x) s
  pub numbered : All (λ x. x ≤ c.last_sequence) s
  pub short : length s ≤ h

abbrev pub StreamValid : ℕ → Option Counter → List ℕ → Type 0
StreamValid h none s = s ≡ []
StreamValid h (some c) s = InWindow h c s

abbrev pub IsValid : ℕ → Outbox → Type 0
IsValid h o = (k : ℕ) → StreamValid h (find_counter k o.counters) (stream k o.events)

-- Raising the oldest sequence of one tenant, where what is left fits.
abbrev raised : Counter → ℕ → Counter
raised c m = if ltb c.oldest_sequence m then record c { oldest_sequence = m } else c

raised-InWindow :
    (h m : ℕ) (c : Counter) (s : List ℕ)
    → 1 ≤ c.oldest_sequence
    → c.oldest_sequence ≤ m
    → m ≤ c.last_sequence + 1
    → Rises s
    → All (λ x. x ≤ c.last_sequence) s
    → length (select (leb m) s) ≤ h
    → InWindow h (raised c m) (select (leb m) s)
raised-InWindow h m c s one low high r all len = elim (Bool-cases (ltb c.oldest_sequence m)) [
  | inl lt ↦ rw lt (record {
    started = omega arith;
    bounded = high;
    rises = select-Rises (leb m) s r;
    kept = All-select_ge m s;
    numbered = All-select_le c.last_sequence (leb m) s all;
    short = len;
  })
  | inr ge ↦
      let same : m ≡ c.oldest_sequence = ground arith in
      rw ge (record {
        started = one;
        bounded = omega arith;
        rises = select-Rises (leb m) s r;
        kept = subst (λ k. All (λ x. k ≤ x) (select (leb m) s)) same (All-select_ge m s);
        numbered = All-select_le c.last_sequence (leb m) s all;
        short = len;
      })
]

-- The counter and the stream of a tenant after `drop_before`.
pub drop_before_own :
    (h org m : ℕ) (o : Outbox) (c : Counter)
    → find_counter org o.counters ≡ some c
    → 1 ≤ c.oldest_sequence
    → c.oldest_sequence ≤ m
    → m ≤ c.last_sequence + 1
    → Rises (stream org o.events)
    → All (λ x. x ≤ c.last_sequence) (stream org o.events)
    → length (select (leb m) (stream org o.events)) ≤ h
    → StreamValid h
        (find_counter org (drop_before org m o).counters)
        (stream org (drop_before org m o).events)
unfolding drop_before
drop_before_own h org m o c found one low high r all len =
    rw (find_counter-raise_oldest org org m o.counters, stream-delete_if org org m o.events, found)
      (ground (arith, raised-InWindow h m c (stream org o.events) one low high r all len))

pub drop_before_other :
    (h org k m : ℕ) (o : Outbox)
    → k ≢ org
    → StreamValid h (find_counter k o.counters) (stream k o.events)
    → StreamValid h
        (find_counter k (drop_before org m o).counters)
        (stream k (drop_before org m o).events)
unfolding drop_before
drop_before_other h org k m o ne v =
    rw (find_counter-raise_oldest org k m o.counters, stream-delete_if org k m o.events)
      (elim (Option-cases (find_counter k o.counters)) [
        | inl e ↦ ground arith
        | inr (c, e) ↦ ground arith
      ])

trim_own :
    (n org : ℕ) (o : Outbox) (c : Counter)
    → find_counter org o.counters ≡ some c
    → 1 ≤ c.oldest_sequence
    → c.oldest_sequence ≤ c.last_sequence + 1
    → Rises (stream org o.events)
    → All (λ x. x ≤ c.last_sequence) (stream org o.events)
    → StreamValid
        (suc n)
        (find_counter org (trim n org o).counters)
        (stream org (trim n org o).events)
unfolding trim
trim_own n org o c found one high r all = elim (Option-cases (cutoff n (stream org o.events))) [
  | inl short ↦
      rw (short, found)
        (drop_before_own (suc n) org c.oldest_sequence o c found one (omega arith) high r all (
          omega (
            arith,
            cutoff-none n (stream org o.events) short,
            length-select_le (leb c.oldest_sequence) (stream org o.events),
          )))
  | inr (m, cut) ↦
      rw (cut, found)
        (drop_before_own (suc n) org (max c.oldest_sequence m) o c found one (omega arith)
          (omega (arith, cutoff_le c.last_sequence n m (stream org o.events) all cut)) r all
          (omega (
            arith,
            cutoff-some n m (stream org o.events) r cut,
            length-select-leb m (max c.oldest_sequence m) (stream org o.events) (omega arith),
          )))
]

trim_other :
    (n org k : ℕ) (o : Outbox)
    → k ≢ org
    → StreamValid (suc n) (find_counter k o.counters) (stream k o.events)
    → StreamValid (suc n) (find_counter k (trim n org o).counters) (stream k (trim n org o).events)
unfolding trim
trim_other n org k o ne v = drop_before_other (suc n) org k _ o ne v

module _ (n org call : ℕ) (state : String) (revision : ℕ) (o : Outbox) (v : IsValid (suc n) o) where
  -- The own counter before the write, with the values of an INSERT where there is none.
  pub own_bounds :
      (1 ≤ oldest_of (find_counter org o.counters))
      × (oldest_of (find_counter org o.counters) ≤ last_of (find_counter org o.counters) + 1)
      × Rises (stream org o.events)
      × All (λ x. x ≤ last_of (find_counter org o.counters)) (stream org o.events)
  own_bounds = elim (Option-cases (find_counter org o.counters)) [
    | inl e ↦
        let empty : stream org o.events ≡ [] =
          subst (λ c. StreamValid (suc n) c (stream org o.events)) e (v org) in
        rw (e, empty) ((omega arith, omega arith, tt, tt))
    | inr (c, e) ↦
        let w : InWindow (suc n) c (stream org o.events) =
          subst (λ c. StreamValid (suc n) c (stream org o.events)) e (v org) in
        rw e ((w.started, w.bounded, w.rises, w.numbered))
  ]

  pub inserted_counter :
      find_counter org (insert_event org call state revision o).counters
      ≡ some (record {
        organisation_id = org;
        last_sequence = last_of (find_counter org o.counters) + 1;
        oldest_sequence = oldest_of (find_counter org o.counters);
      })
  unfolding insert_event
  inserted_counter = find_counter-bump_counter org o.counters

  pub inserted_stream :
      stream org (insert_event org call state revision o).events
      ≡ stream org o.events ++ (last_of (find_counter org o.counters) + 1) ∷ []
  unfolding insert_event
  inserted_stream =
      rw (stream-append org o.events, find_counter-bump_counter org o.counters) (ground arith)

  inserted_other :
      (k : ℕ)
      → k ≢ org
      → StreamValid
          (suc n)
          (find_counter k (insert_event org call state revision o).counters)
          (stream k (insert_event org call state revision o).events)
  unfolding insert_event
  inserted_other k ne =
      rw (stream-append k o.events, find_counter-bump_counter_ne org k o.counters ne)
        (ground (arith, v k))

  -- An append keeps the window of every tenant, for a history of `suc n` events.
  pub append_keeping-IsValid : IsValid (suc n) (append_keeping n org call state revision o).1
  unfolding append_keeping
  append_keeping-IsValid k = elim (ℕ_discrete k org) [
    | yes e ↦ rw e (
        trim_own n org (insert_event org call state revision o) _ inserted_counter own_bounds.0
          (omega (arith, own_bounds.1))
          (rw inserted_stream (
            append-Rises (stream org o.events) (last_of (find_counter org o.counters) + 1)
              own_bounds.2
              (All-le_lt (last_of (find_counter org o.counters)) (stream org o.events)
                own_bounds.3)))
          (rw inserted_stream (
            All-snoc_le (last_of (find_counter org o.counters)) (stream org o.events)
              own_bounds.3)))
    | no ne ↦ trim_other n org k (insert_event org call state revision o) ne (inserted_other k ne)
  ]
