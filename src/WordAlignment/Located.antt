-- ===== src/WordAlignment/Located.antt =====
-- Every error of the alignment is reported once, and the report never fails.
use real_time_ai_call_audit.Prelude.{
  ℕ, zero, suc, ◌+◌, ◌<◌, ◌≡◌, refl, String, true, some, List, [], ◌∷◌, ◌++◌, ltb, ◌=?◌, arith,
  length, any, All, length-append, Bool-cases, inl, inr,
}
use real_time_ai_call_audit.WordAlignment.{
  AlignmentOp, same, substitute, delete, insert, hypothesis_of,
}
use real_time_ai_call_audit.WordAlignment.Report.{
  Word, Located, get_owner, change_entry, Cursor, locate, locate_all, missed_of, invented_of,
  misheard_of, add_missed, add_invented, add_substitution,
}

-- An entry has this key.
abbrev pub HasKey : String → List Located → Type 0
HasKey id entries = any (λ e. e.id =? id) entries ≡ true

-- The words that the entries list, in all.
abbrev pub missed_total : List Located → ℕ
missed_total [] = 0
missed_total (e ∷ es) = length e.missed_words_before + missed_total es

abbrev pub invented_total : List Located → ℕ
invented_total [] = 0
invented_total (e ∷ es) = length e.invented_words + invented_total es

abbrev pub substituted_total : List Located → ℕ
substituted_total [] = 0
substituted_total (e ∷ es) = length e.substitutions + substituted_total es

-- A change of an entry that keeps its key and adds one word of one kind.
record Adds (f : Located → Located) (m s i : ℕ) : Type 0 where
  keeps : (e : Located) → (f e).id ≡ e.id
  missed : (e : Located) → length (f e).missed_words_before ≡ length e.missed_words_before + m
  substituted : (e : Located) → length (f e).substitutions ≡ length e.substitutions + s
  invented : (e : Located) → length (f e).invented_words ≡ length e.invented_words + i

add_missed-Adds : (r : Word) → Adds (add_missed r) 1 0 0
add_missed-Adds r = record {
  keeps = λ e. refl;
  missed = λ e. omega (arith, length-append e.missed_words_before (r ∷ []));
  substituted = λ e. omega arith;
  invented = λ e. omega arith;
}

add_invented-Adds : (h : Word) → Adds (add_invented h) 0 0 1
add_invented-Adds h = record {
  keeps = λ e. refl;
  missed = λ e. omega arith;
  substituted = λ e. omega arith;
  invented = λ e. omega (arith, length-append e.invented_words (h ∷ []));
}

add_substitution-Adds : (r h : Word) → Adds (add_substitution r h) 0 1 0
add_substitution-Adds r h = record {
  keeps = λ e. refl;
  missed = λ e. omega arith;
  substituted = λ e. omega (arith, length-append e.substitutions ((r, h) ∷ []));
  invented = λ e. omega arith;
}

-- A change at a key that is there.
change_entry_lem :
    (id : String) (f : Located → Located) (m s i : ℕ) (entries : List Located)
    → Adds f m s i
    → HasKey id entries
    → (entries' : List Located) × (change_entry id f entries ≡ some entries')
      × (missed_total entries' ≡ missed_total entries + m)
      × (substituted_total entries' ≡ substituted_total entries + s)
      × (invented_total entries' ≡ invented_total entries + i)
      × ((k : String) → HasKey k entries → HasKey k entries')
unfolding change_entry
change_entry_lem id f m s i [] a h = cc
change_entry_lem id f m s i (e ∷ es) a h = elim (Bool-cases (e.id =? id)) [
  | inl here ↦ (
    f e ∷ es,
    rw here refl,
    omega (arith, a.missed e),
    omega (arith, a.substituted e),
    omega (arith, a.invented e),
    λ k has. rw (a.keeps e) has,
  )
  | inr later ↦
      let (es', found, p, q, r, keys) = change_entry_lem id f m s i es a (rw later at h) in
      (
        e ∷ es',
        rw (later, found) refl,
        omega arith,
        omega arith,
        omega arith,
        λ k has. ground (arith, has, keys k),
      )
]

-- The owner of a position in range is a key.
owner_lem :
    (owners : List String) (i : ℕ) (entries : List Located)
    → i < length owners
    → All (λ k. HasKey k entries) owners
    → (owner : String) × (get_owner owners i ≡ some owner) × HasKey owner entries
unfolding get_owner
owner_lem [] i entries h all = elim h [ ]
owner_lem (x ∷ xs) zero entries h all = (x, refl, all.0)
owner_lem (x ∷ xs) (suc i) entries h all = owner_lem xs i entries (omega arith) all.1

All-keys :
    (owners : List String) (entries entries' : List Located)
    → ((k : String) → HasKey k entries → HasKey k entries')
    → All (λ k. HasKey k entries) owners
    → All (λ k. HasKey k entries') owners
All-keys [] entries entries' keys all = tt
All-keys (x ∷ xs) entries entries' keys all =
    (keys x all.0, All-keys xs entries entries' keys all.1)

-- What holds before each round, with the operations still to come.
pub record Ready (owners : List String) (c : Cursor) (ops : List (AlignmentOp Word)) : Type 0 where
  pub in_step : c.hypothesis_index + length (hypothesis_of ops) ≡ length owners
  pub together : c.next_owner_index ≡ c.hypothesis_index
  pub keyed : All (λ k. HasKey k c.per_utterance) owners

-- The errors that have been reported, by kind.
abbrev pub missed_in : Cursor → ℕ
missed_in c = missed_total c.per_utterance + length c.unattached_missed_words

abbrev LocatedBy : List String → Cursor → List (AlignmentOp Word) → Type 0
LocatedBy owners c ops =
    (c' : Cursor) × (locate_all owners c ops ≡ some c')
    × (missed_in c' ≡ missed_in c + length (missed_of ops))
    × (substituted_total c'.per_utterance
        ≡ substituted_total c.per_utterance + length (misheard_of ops))
    × (invented_total c'.per_utterance ≡ invented_total c.per_utterance + length (invented_of ops))

pub locate_all-total :
    (owners : List String) (ops : List (AlignmentOp Word)) (c : Cursor)
    → Ready owners c ops
    → LocatedBy owners c ops
unfolding locate_all locate
locate_all-total owners [] c v = (c, refl, omega arith, omega arith, omega arith)
locate_all-total owners (same r h ∷ ops) c v =
    let (o, got, _) =
      owner_lem owners c.hypothesis_index c.per_utterance (omega (arith, v.in_step)) v.keyed in
    let next : Cursor = record c {
      hypothesis_index = c.hypothesis_index + 1;
      next_owner_index = c.hypothesis_index + 1;
    } in
    let (c', run, p, q, s) =
      locate_all-total owners ops next
        (record { in_step = omega (arith, v.in_step); together = refl; keyed = v.keyed }) in
    (c', rw (got, locate_all, locate) run, p, q, s)
locate_all-total owners (substitute r h ∷ ops) c v =
    let (o, got, key) =
      owner_lem owners c.hypothesis_index c.per_utterance (omega (arith, v.in_step)) v.keyed in
    let (es, changed, m, sb, i, keys) =
      change_entry_lem o (add_substitution r h) 0 1 0 c.per_utterance (add_substitution-Adds r h)
        key in
    let next : Cursor = record c {
      per_utterance = es;
      hypothesis_index = c.hypothesis_index + 1;
      next_owner_index = c.hypothesis_index + 1;
    } in
    let (c', run, p, q, s) = locate_all-total owners ops next (record {
      in_step = omega (arith, v.in_step);
      together = refl;
      keyed = All-keys owners c.per_utterance es keys v.keyed;
    }) in
    (c', rw (got, changed, locate_all, locate) run, omega arith, omega arith, omega arith)
locate_all-total owners (insert h ∷ ops) c v =
    let (o, got, key) =
      owner_lem owners c.hypothesis_index c.per_utterance (omega (arith, v.in_step)) v.keyed in
    let (es, changed, m, sb, i, keys) =
      change_entry_lem o (add_invented h) 0 0 1 c.per_utterance (add_invented-Adds h) key in
    let next : Cursor = record c {
      per_utterance = es;
      hypothesis_index = c.hypothesis_index + 1;
      next_owner_index = c.hypothesis_index + 1;
    } in
    let (c', run, p, q, s) = locate_all-total owners ops next (record {
      in_step = omega (arith, v.in_step);
      together = refl;
      keyed = All-keys owners c.per_utterance es keys v.keyed;
    }) in
    (c', rw (got, changed, locate_all, locate) run, omega arith, omega arith, omega arith)
locate_all-total owners (delete r ∷ ops) c v =
    elim (Bool-cases (ltb c.next_owner_index (length owners))) [
      | inl inside ↦
          let (o, got, key) =
            owner_lem owners c.next_owner_index c.per_utterance (ground arith) v.keyed in
          let (es, changed, m, sb, i, keys) =
            change_entry_lem o (add_missed r) 1 0 0 c.per_utterance (add_missed-Adds r) key in
          let next : Cursor = record c { per_utterance = es } in
          let (c', run, p, q, s) = locate_all-total owners ops next (record {
            in_step = v.in_step;
            together = v.together;
            keyed = All-keys owners c.per_utterance es keys v.keyed;
          }) in
          (
            c',
            rw (inside, got, changed, locate_all, locate) run,
            omega arith,
            omega arith,
            omega arith,
          )
      | inr after ↦
          let next : Cursor = record c {
            unattached_missed_words = c.unattached_missed_words ++ r ∷ [];
          } in
          let (c', run, p, q, s) =
            locate_all-total owners ops next
              (record { in_step = v.in_step; together = v.together; keyed = v.keyed }) in
          (
            c',
            rw (after, locate_all, locate) run,
            omega (arith, length-append c.unattached_missed_words (r ∷ [])),
            q,
            s,
          )
    ]
