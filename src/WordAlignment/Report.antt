-- ===== src/WordAlignment/Report.antt =====
-- word_error_rate and compare_transcript: the counts of an alignment, and where in the call each
-- error falls. The ratio `wer` is left as its two numbers, `errors` and `reference_word_count`.
-- An utterance has passed `_validated_hypothesis_utterances`; its two times are any numbers.
use real_time_ai_call_audit.Prelude.{
  ℕ, zero, suc, ◌+◌, ◌≡◌, ◌↔◌, String, Bool, true, false, ◌&&◌, Option, none, some, List, [], ◌∷◌,
  ◌++◌, map, ◌==◌, ltb, ◌=?◌, if◌then◌else◌, arith, length,
}
use real_time_ai_call_audit.WordAlignment.{
  AlignmentOp, same, substitute, delete, insert, index_error, Aligned, ok, raise, align_words,
}
use real_time_ai_call_audit.WordAlignment.Words.{Characters, normalise_words, join_texts}

-- A word, as its characters.
abbrev pub Word : Type 0
Word = List ℕ

unfoldable pub word_eq : Word → Word → Bool
word_eq [] [] = true
word_eq [] (d ∷ ds) = false
word_eq (c ∷ cs) [] = false
word_eq (c ∷ cs) (d ∷ ds) = c == d && word_eq cs ds

pub word_eq_iff : (a b : Word) → (word_eq a b ≡ true) ↔ (a ≡ b)
unfolding word_eq
word_eq_iff [] [] = ground arith
word_eq_iff [] (d ∷ ds) = ground arith
word_eq_iff (c ∷ cs) [] = ground arith
word_eq_iff (c ∷ cs) (d ∷ ds) = ground (arith, word_eq_iff cs ds)

pub record Rates : Type 0 where
  pub reference_word_count : ℕ
  pub hypothesis_word_count : ℕ
  pub matches : ℕ
  pub substitutions : ℕ
  pub deletions : ℕ
  pub insertions : ℕ
  pub missed_words : List Word
  pub invented_words : List Word
  pub misheard_pairs : List (Word × Word)
  pub ops : List (AlignmentOp Word)

-- [op["reference"] for op in ops if op["op"] == "delete"], and the two others.
abbrev pub missed_of : List (AlignmentOp Word) → List Word
missed_of [] = []
missed_of (delete r ∷ ops) = r ∷ missed_of ops
missed_of (same r h ∷ ops) = missed_of ops
missed_of (substitute r h ∷ ops) = missed_of ops
missed_of (insert h ∷ ops) = missed_of ops

abbrev pub invented_of : List (AlignmentOp Word) → List Word
invented_of [] = []
invented_of (insert h ∷ ops) = h ∷ invented_of ops
invented_of (same r h ∷ ops) = invented_of ops
invented_of (substitute r h ∷ ops) = invented_of ops
invented_of (delete r ∷ ops) = invented_of ops

abbrev pub misheard_of : List (AlignmentOp Word) → List (Word × Word)
misheard_of [] = []
misheard_of (substitute r h ∷ ops) = (r, h) ∷ misheard_of ops
misheard_of (same r h ∷ ops) = misheard_of ops
misheard_of (insert h ∷ ops) = misheard_of ops
misheard_of (delete r ∷ ops) = misheard_of ops

-- counts["match"] after the counting loop.
abbrev pub count_same : List (AlignmentOp Word) → ℕ
count_same [] = 0
count_same (same r h ∷ ops) = suc (count_same ops)
count_same (substitute r h ∷ ops) = count_same ops
count_same (insert h ∷ ops) = count_same ops
count_same (delete r ∷ ops) = count_same ops

unfoldable pub rates_of : List Word → List Word → List (AlignmentOp Word) → Rates
rates_of reference hypothesis ops = record {
  reference_word_count = length reference;
  hypothesis_word_count = length hypothesis;
  matches = count_same ops;
  substitutions = length (misheard_of ops);
  deletions = length (missed_of ops);
  insertions = length (invented_of ops);
  missed_words = missed_of ops;
  invented_words = invented_of ops;
  misheard_pairs = misheard_of ops;
  ops = ops;
}

unfoldable pub word_error_rate : Characters → List ℕ → List ℕ → Aligned Rates
word_error_rate u reference_text hypothesis_text =
    let reference = normalise_words u reference_text in
    let hypothesis = normalise_words u hypothesis_text in
    elim (align_words word_eq reference hypothesis) [
      | ok ops ↦ ok (rates_of reference hypothesis ops)
      | raise e ↦ raise e
    ]

pub record HypothesisUtterance : Type 0 where
  pub id : String
  pub start_ms : ℕ
  pub end_ms : ℕ
  pub text : List ℕ

-- An entry of `per_utterance`.
pub record Located : Type 0 where
  pub id : String
  pub start_ms : ℕ
  pub end_ms : ℕ
  pub missed_words_before : List Word
  pub substitutions : List (Word × Word)
  pub invented_words : List Word

abbrev pub empty_entry : HypothesisUtterance → Located
empty_entry x = record {
  id = x.id;
  start_ms = x.start_ms;
  end_ms = x.end_ms;
  missed_words_before = [];
  substitutions = [];
  invented_words = [];
}

-- A later entry with the same key takes the place of an earlier one.
unfoldable pub put_entry : Located → List Located → List Located
put_entry e [] = e ∷ []
put_entry e (x ∷ xs) = let rest = put_entry e xs in if x.id =? e.id then e ∷ xs else x ∷ rest

unfoldable pub entries_of : List Located → List HypothesisUtterance → List Located
entries_of acc [] = acc
entries_of acc (x ∷ xs) = entries_of (put_entry (empty_entry x) acc) xs

-- The utterance (by its id) of each word of the hypothesis.
unfoldable pub word_owners : Characters → List HypothesisUtterance → List String
word_owners u [] = []
word_owners u (x ∷ xs) = map (λ w. x.id) (normalise_words u x.text) ++ word_owners u xs

unfoldable pub get_owner : List String → ℕ → Option String
get_owner [] i = none
get_owner (x ∷ xs) zero = some x
get_owner (x ∷ xs) (suc i) = get_owner xs i

-- per_utterance[id], changed in place; `none` is a KeyError.
unfoldable pub change_entry : String → (Located → Located) → List Located → Option (List Located)
change_entry id f [] = none
change_entry id f (x ∷ xs) =
    let rest = change_entry id f xs in
    if x.id =? id then some (f x ∷ xs) else elim rest [ none ↦ none | some ys ↦ some (x ∷ ys) ]

-- The variables of the loop over the operations.
pub record Cursor : Type 0 where
  pub per_utterance : List Located
  pub unattached_missed_words : List Word
  pub hypothesis_index : ℕ
  pub next_owner_index : ℕ

abbrev with_entries : Cursor → Option (List Located) → Option Cursor
with_entries c none = none
with_entries c (some entries) = some (record c { per_utterance = entries })

abbrev advance : Option Cursor → Option Cursor
advance none = none
advance (some c) = some (record c {
  hypothesis_index = c.hypothesis_index + 1;
  next_owner_index = c.hypothesis_index + 1;
})

abbrev pub add_substitution : Word → Word → Located → Located
add_substitution r h e = record e { substitutions = e.substitutions ++ (r, h) ∷ [] }

abbrev pub add_invented : Word → Located → Located
add_invented h e = record e { invented_words = e.invented_words ++ h ∷ [] }

abbrev pub add_missed : Word → Located → Located
add_missed r e = record e { missed_words_before = e.missed_words_before ++ r ∷ [] }

-- One round; `none` is an IndexError or a KeyError.
unfoldable pub locate : List String → Cursor → AlignmentOp Word → Option Cursor
locate owners c (same r h) = elim (get_owner owners c.hypothesis_index) [
  | none ↦ none
  | some owner ↦ advance (some c)
]
locate owners c (substitute r h) = elim (get_owner owners c.hypothesis_index) [
  | none ↦ none
  | some owner ↦
      advance (with_entries c (change_entry owner (add_substitution r h) c.per_utterance))
]
locate owners c (insert h) = elim (get_owner owners c.hypothesis_index) [
  | none ↦ none
  | some owner ↦ advance (with_entries c (change_entry owner (add_invented h) c.per_utterance))
]
locate owners c (delete r) =
    if ltb c.next_owner_index (length owners)
    then elim (get_owner owners c.next_owner_index) [
      | none ↦ none
      | some owner ↦ with_entries c (change_entry owner (add_missed r) c.per_utterance)
    ]
    else some (record c { unattached_missed_words = c.unattached_missed_words ++ r ∷ [] })

unfoldable pub locate_all : List String → Cursor → List (AlignmentOp Word) → Option Cursor
locate_all owners c [] = some c
locate_all owners c (op ∷ ops) = elim (locate owners c op) [
  | none ↦ none
  | some c' ↦ locate_all owners c' ops
]

abbrev pub begin : List Located → Cursor
begin entries = record {
  per_utterance = entries;
  unattached_missed_words = [];
  hypothesis_index = 0;
  next_owner_index = 0;
}

unfoldable pub compare_transcript :
    Characters → List ℕ → List HypothesisUtterance → Aligned (Rates × Cursor)
compare_transcript u reference_text utterances =
    elim (word_error_rate u reference_text (join_texts u (map (λ x. x.text) utterances))) [
      | raise e ↦ raise e
      | ok rates ↦
          elim (locate_all (word_owners u utterances) (begin (entries_of [] utterances))
            rates.ops) [ none ↦ raise index_error | some c ↦ ok (rates, c) ]
    ]
