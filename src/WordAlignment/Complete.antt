-- ===== src/WordAlignment/Complete.antt =====
-- The whole comparison of a transcript with a reference.
use mathlib.Core.List.{reverse}
use real_time_ai_call_audit.Prelude.{
  ℕ, suc, ◌+◌, ◌≤◌, ◌≡◌, refl, ap, sym, ◌∙◌, String, true, List, [], ◌∷◌, map, eq_iff, arith,
  length, All, length-append, All-append,
}
use real_time_ai_call_audit.WordAlignment.{
  AlignmentOp, same, substitute, delete, insert, hypothesis_of, reference_of, errors, ok, max_words,
}
use real_time_ai_call_audit.WordAlignment.Optimal.{align_words_total}
use real_time_ai_call_audit.WordAlignment.Table.{distance}
use real_time_ai_call_audit.WordAlignment.Words.{
  Characters, normalise_words, join_texts, words_of_texts, normalise_words-join,
}
use real_time_ai_call_audit.WordAlignment.Report.{
  Word, word_eq, word_eq_iff, Rates, rates_of, word_error_rate, Located, HypothesisUtterance,
  put_entry, entries_of, empty_entry, word_owners, Cursor, missed_of, invented_of, misheard_of,
  count_same, begin, compare_transcript,
}
use real_time_ai_call_audit.WordAlignment.Located.{
  HasKey, missed_total, invented_total, substituted_total, Ready, missed_in, locate_all-total,
}

-- Each word of a side is matched, misheard or lost on that side.
reference_count :
    (ops : List (AlignmentOp Word))
    → count_same ops + length (misheard_of ops) + length (missed_of ops) ≡ length (reference_of ops)
reference_count [] = omega arith
reference_count (same r h ∷ ops) = omega (arith, reference_count ops)
reference_count (substitute r h ∷ ops) = omega (arith, reference_count ops)
reference_count (delete r ∷ ops) = omega (arith, reference_count ops)
reference_count (insert h ∷ ops) = omega (arith, reference_count ops)

hypothesis_count :
    (ops : List (AlignmentOp Word))
    → count_same ops + length (misheard_of ops) + length (invented_of ops)
      ≡ length (hypothesis_of ops)
hypothesis_count [] = omega arith
hypothesis_count (same r h ∷ ops) = omega (arith, hypothesis_count ops)
hypothesis_count (substitute r h ∷ ops) = omega (arith, hypothesis_count ops)
hypothesis_count (delete r ∷ ops) = omega (arith, hypothesis_count ops)
hypothesis_count (insert h ∷ ops) = omega (arith, hypothesis_count ops)

error_count :
    (ops : List (AlignmentOp Word))
    → length (misheard_of ops) + length (missed_of ops) + length (invented_of ops) ≡ errors ops
error_count [] = omega arith
error_count (same r h ∷ ops) = omega (arith, error_count ops)
error_count (substitute r h ∷ ops) = omega (arith, error_count ops)
error_count (delete r ∷ ops) = omega (arith, error_count ops)
error_count (insert h ∷ ops) = omega (arith, error_count ops)

-- For texts of at most 20,000 words each, `word_error_rate` returns, and its counts add up: every
-- reference word is a match, a substitution or a deletion, every hypothesis word is a match, a
-- substitution or an insertion, and the errors are together the edit distance of the two texts.
pub word_error_rate_counts :
    (u : Characters) (reference hypothesis : List ℕ)
    → length (normalise_words u reference) ≤ max_words
    → length (normalise_words u hypothesis) ≤ max_words
    → (rates : Rates) × (word_error_rate u reference hypothesis ≡ ok rates)
      × (rates.matches + rates.substitutions + rates.deletions ≡ rates.reference_word_count)
      × (rates.matches + rates.substitutions + rates.insertions ≡ rates.hypothesis_word_count)
      × (rates.substitutions + rates.deletions + rates.insertions
          ≡ distance word_eq
              (reverse (normalise_words u reference))
              (reverse (normalise_words u hypothesis)))
unfolding word_error_rate rates_of
word_error_rate_counts u reference hypothesis small small' =
    let (ops, found, r, h, _, e) =
      align_words_total word_eq word_eq_iff (normalise_words u reference)
        (normalise_words u hypothesis) small small' in
    (
      rates_of (normalise_words u reference) (normalise_words u hypothesis) ops,
      rw (found, word_error_rate) refl,
      omega (arith, reference_count ops, ap length r),
      omega (arith, hypothesis_count ops, ap length h),
      omega (arith, error_count ops, e),
    )

put_entry-HasKey :
    (k : String) (e : Located) (es : List Located) → HasKey k es → HasKey k (put_entry e es)
unfolding put_entry
put_entry-HasKey k e [] h = cc
put_entry-HasKey k e (x ∷ xs) h =
    ground (arith, put_entry-HasKey k e xs, eq_iff x.id e.id, eq_iff x.id k, eq_iff e.id k)

put_entry_self : (e : Located) (es : List Located) → HasKey e.id (put_entry e es)
unfolding put_entry
put_entry_self e [] = ground (arith, eq_iff e.id e.id)
put_entry_self e (x ∷ xs) = ground (arith, put_entry_self e xs, eq_iff e.id e.id)

entries_of-keeps :
    (k : String) (acc : List Located) (us : List HypothesisUtterance)
    → HasKey k acc
    → HasKey k (entries_of acc us)
unfolding entries_of
entries_of-keeps k acc [] h = h
entries_of-keeps k acc (x ∷ us) h =
    entries_of-keeps k (put_entry (empty_entry x) acc) us (put_entry-HasKey k (empty_entry x) acc h)

owners_keyed :
    (u : Characters) (us : List HypothesisUtterance) (acc : List Located)
    → All (λ k. HasKey k (entries_of acc us)) (word_owners u us)
unfolding word_owners entries_of
owners_keyed u [] acc = tt
owners_keyed u (x ∷ us) acc =
    All-append (λ k. HasKey k (entries_of (put_entry (empty_entry x) acc) us))
      (map (λ w. x.id) (normalise_words u x.text)) (word_owners u us)
      (repeated x.id (normalise_words u x.text) (
        entries_of-keeps x.id (put_entry (empty_entry x) acc) us
          (put_entry_self (empty_entry x) acc)))
      (owners_keyed u us (put_entry (empty_entry x) acc))
  where
    repeated :
        (k : String) (ws : List Word)
        → HasKey k (entries_of (put_entry (empty_entry x) acc) us)
        → All (λ k. HasKey k (entries_of (put_entry (empty_entry x) acc) us)) (map (λ w. k) ws)
    repeated k [] h = tt
    repeated k (w ∷ ws) h = (h, repeated k ws h)

length-word_owners :
    (u : Characters) (us : List HypothesisUtterance)
    → length (word_owners u us) ≡ length (words_of_texts u (map (λ x. x.text) us))
unfolding word_owners words_of_texts
length-word_owners u [] = refl
length-word_owners u (x ∷ us) = omega (
  arith,
  length-append (map (λ w. x.id) (normalise_words u x.text)) (word_owners u us),
  length-append (normalise_words u x.text) (words_of_texts u (map (λ y. y.text) us)),
  length-word_owners u us,
  mapped (normalise_words u x.text),
)
  where
    mapped : (ws : List Word) → length (map (λ w. x.id) ws) ≡ length ws
    mapped [] = refl
    mapped (w ∷ ws) = ap suc (mapped ws)

-- No entry lists a word before the loop.
put_entry-totals :
    (x : HypothesisUtterance) (es : List Located)
    → (missed_total es ≡ 0) × (substituted_total es ≡ 0) × (invented_total es ≡ 0)
    → (missed_total (put_entry (empty_entry x) es) ≡ 0)
      × (substituted_total (put_entry (empty_entry x) es) ≡ 0)
      × (invented_total (put_entry (empty_entry x) es) ≡ 0)
unfolding put_entry
put_entry-totals x [] h = (refl, refl, refl)
put_entry-totals x (e ∷ es) (m, s, i) =
    let rest = put_entry-totals x es (omega (arith, m), omega (arith, s), omega (arith, i)) in
    ground (arith, rest)

totals-entries_of :
    (acc : List Located) (us : List HypothesisUtterance)
    → (missed_total acc ≡ 0) × (substituted_total acc ≡ 0) × (invented_total acc ≡ 0)
    → (missed_total (entries_of acc us) ≡ 0)
      × (substituted_total (entries_of acc us) ≡ 0)
      × (invented_total (entries_of acc us) ≡ 0)
unfolding entries_of
totals-entries_of acc [] h = h
totals-entries_of acc (x ∷ us) h =
    totals-entries_of (put_entry (empty_entry x) acc) us (put_entry-totals x acc h)

-- For a reference and utterances of at most 20,000 words, where the blank is a space character,
-- `compare_transcript` returns (no word falls outside the utterances, and every owner has its
-- entry), and its report is complete: the missed words listed before utterances and after the
-- last one, the substitutions and the invented words of all utterances are as many as the
-- alignment has of each kind.
pub compare_transcript_complete :
    (u : Characters) (reference : List ℕ) (utterances : List HypothesisUtterance)
    → u.is_space 32 ≡ true
    → length (normalise_words u reference) ≤ max_words
    → length (word_owners u utterances) ≤ max_words
    → (rates : Rates) × (c : Cursor) × (compare_transcript u reference utterances ≡ ok (rates, c))
      × (missed_in c ≡ rates.deletions)
      × (substituted_total c.per_utterance ≡ rates.substitutions)
      × (invented_total c.per_utterance ≡ rates.insertions)
unfolding compare_transcript word_error_rate rates_of
compare_transcript_complete u reference utterances space small small' =
    let words = normalise_words u (join_texts u (map (λ x. x.text) utterances)) in
    let joined = normalise_words-join u (map (λ x. x.text) utterances) space in
    let owned = length-word_owners u utterances ∙ ap length (sym joined) in
    let (ops, found, r, h, _, e) =
      align_words_total word_eq word_eq_iff (normalise_words u reference) words small
        (omega (arith, owned)) in
    let entries = entries_of [] utterances in
    let ready : Ready (word_owners u utterances) (begin entries) ops = record {
      in_step = omega (arith, owned, ap length h);
      together = refl;
      keyed = owners_keyed u utterances [];
    } in
    let (c, run, m, s, i) = locate_all-total (word_owners u utterances) ops (begin entries) ready in
    let none_yet = totals-entries_of [] utterances (refl, refl, refl) in
    (
      rates_of (normalise_words u reference) words ops,
      c,
      rw (found, run, compare_transcript, word_error_rate) refl,
      omega (arith, none_yet.0),
      omega (arith, none_yet.1),
      omega (arith, none_yet.2),
    )
