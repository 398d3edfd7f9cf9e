-- ===== src/WordAlignment/Examples.antt =====
-- Two short transcripts: one word misheard, one missed.
use mathlib.Core.List.{reverse}
use real_time_ai_call_audit.Prelude.{
  ◌+◌, ◌≤◌, ◌≡◌, refl, List, [], ◌∷◌, ◌==◌, leb, ◌&&◌, codes, length, arith, select,
}
use real_time_ai_call_audit.WordAlignment.{
  AlignmentOp, same, substitute, delete, insert, ok, align_words, reference_of, hypothesis_of,
  errors, IsHonest, fill_row, fill_rows, first_row, fill_table, cell_at, backtrack,
}
use real_time_ai_call_audit.WordAlignment.Table.{distance}
use real_time_ai_call_audit.WordAlignment.Optimal.{align_words_total, align_words_least}
use real_time_ai_call_audit.WordAlignment.Words.{
  Characters, normalise_words, find_tokens, strip_left, strip_punctuation,
}
use real_time_ai_call_audit.WordAlignment.Report.{
  Word, word_eq, word_eq_iff, Rates, word_error_rate, HypothesisUtterance, word_owners, Cursor,
  compare_transcript,
}
use real_time_ai_call_audit.WordAlignment.Located.{missed_in, substituted_total, invented_total}
use real_time_ai_call_audit.WordAlignment.Complete.{
  word_error_rate_counts, compare_transcript_complete,
}

abbrev spoken : List Word
spoken = codes "good" ∷ codes "day" ∷ codes "sir" ∷ []

abbrev heard : List Word
heard = codes "good" ∷ codes "say" ∷ []

abbrev alignment : List (AlignmentOp Word)
alignment =
    same (codes "good") (codes "good")
    ∷ substitute (codes "day") (codes "say")
    ∷ delete (codes "sir")
    ∷ []

align_runs : align_words word_eq spoken heard ≡ ok alignment
unfolding align_words word_eq fill_table fill_rows fill_row first_row cell_at backtrack
align_runs = refl

align_words_total_example :
    (ops : List (AlignmentOp Word)) × (align_words word_eq spoken heard ≡ ok ops)
    × (reference_of ops ≡ spoken)
    × (hypothesis_of ops ≡ heard)
    × IsHonest ops
    × (errors ops ≡ distance word_eq (reverse spoken) (reverse heard))
align_words_total_example =
    align_words_total word_eq word_eq_iff spoken heard (omega arith) (omega arith)

abbrev worse : List (AlignmentOp Word)
worse =
    same (codes "good") (codes "good")
    ∷ delete (codes "day")
    ∷ delete (codes "sir")
    ∷ insert (codes "say")
    ∷ []

align_words_least_example : 2 ≤ 3
align_words_least_example =
    align_words_least word_eq word_eq_iff spoken heard alignment worse align_runs refl refl
      (refl, tt)

-- Letters, the apostrophe and the space of ASCII.
abbrev ascii : Characters
ascii = record { is_space = λ c. c == 32; is_word = λ c. leb 97 c && leb c 122; lower = λ w. w }

reference_short : length (normalise_words ascii (codes "good day, sir")) ≤ 20000
unfolding normalise_words find_tokens strip_left strip_punctuation select
reference_short = omega arith

heard_short : length (normalise_words ascii (codes "good say")) ≤ 20000
unfolding normalise_words find_tokens strip_left strip_punctuation select
heard_short = omega arith

word_error_rate_counts_example :
    (rates : Rates) × (word_error_rate ascii (codes "good day, sir") (codes "good say") ≡ ok rates)
    × (rates.matches + rates.substitutions + rates.deletions ≡ rates.reference_word_count)
    × (rates.matches + rates.substitutions + rates.insertions ≡ rates.hypothesis_word_count)
    × (rates.substitutions + rates.deletions + rates.insertions
        ≡ distance word_eq
            (reverse (normalise_words ascii (codes "good day, sir")))
            (reverse (normalise_words ascii (codes "good say"))))
word_error_rate_counts_example =
    word_error_rate_counts ascii (codes "good day, sir") (codes "good say") reference_short
      heard_short

abbrev utterances : List HypothesisUtterance
utterances =
    record { id = "u1"; start_ms = 0; end_ms = 500; text = codes "good" }
    ∷ record { id = "u2"; start_ms = 500; end_ms = 900; text = codes "say" }
    ∷ []

owners_short : length (word_owners ascii utterances) ≤ 20000
unfolding word_owners normalise_words find_tokens strip_left strip_punctuation select
owners_short = omega arith

compare_transcript_complete_example :
    (rates : Rates) × (c : Cursor) × (compare_transcript ascii (codes "good day, sir") utterances
      ≡ ok (rates, c))
    × (missed_in c ≡ rates.deletions)
    × (substituted_total c.per_utterance ≡ rates.substitutions)
    × (invented_total c.per_utterance ≡ rates.insertions)
compare_transcript_complete_example =
    compare_transcript_complete ascii (codes "good day, sir") utterances refl reference_short
      owners_short
