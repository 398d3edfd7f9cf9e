-- ===== src/Redaction/Examples.antt =====
-- The text "hi Bob!" with a recogniser of one name and a pattern that overlaps it.
use real_time_ai_call_audit.Prelude.{
  ℕ, min, subst, false, ◌≤◌, ◌≡◌, refl, true, some, List, [], ◌∷◌, ◌++◌, All, length, ltb,
  if◌then◌else◌, arith, sort_by, insert_by, select,
}
use real_time_ai_call_audit.Store.{ok, raise}
use real_time_ai_call_audit.Intervals.{Interval, merge, merge_from, merge_sorted, pair_before}
use real_time_ai_call_audit.Redaction.{
  Recognizers, redaction, redact_text, redact_nonempty, spans_of, redact_from, merge_spans,
  before_dash, is_en, max_transcript_text, exceeds_limit,
}
use real_time_ai_call_audit.Redaction.Mask.{mask}
use real_time_ai_call_audit.Redaction.Closed.{
  ReportsWithin, hidden_by, redact_text_fails_closed, redact_text_total,
}

-- A name up to position 6, and a match of a pattern within it.
abbrev names : List ℕ → List Interval
names cs = record { start = 3; end = min 6 (length cs) } ∷ []

abbrev tails : List ℕ → List Interval
tails cs = record { start = 4; end = min 6 (length cs) } ∷ []

abbrev recognizers : Recognizers
recognizers = record { lower = λ cs. cs; structured = tails; analyze = λ text. some (names text) }

abbrev text : List ℕ
text = 104 ∷ 105 ∷ 32 ∷ 66 ∷ 111 ∷ 98 ∷ 33 ∷ []

abbrev en_in : List ℕ
en_in = 101 ∷ 110 ∷ 45 ∷ 105 ∷ 110 ∷ []

abbrev masked : List ℕ
masked = 104 ∷ 105 ∷ 32 ∷ redaction ++ 33 ∷ []

Within : ReportsWithin recognizers
Within cs = (
  (omega arith, tt),
  λ found e.
      (let same : names cs ≡ found = cc e in
        subst (All (λ s. s.end ≤ length cs)) same (omega arith, tt)),
)

redacted : redact_text recognizers text en_in ≡ ok masked
unfolding redact_text redact_nonempty spans_of redact_from merge_spans before_dash merge merge_from
    merge_sorted pair_before sort_by insert_by select
redacted = refl

redact_text_fails_closed_example :
    (found : List Interval) × (some (names text) ≡ some found)
    × (is_en (before_dash en_in) ≡ true)
    × (masked ≡ mask (hidden_by recognizers text found) 0 false text)
    × (length text ≤ max_transcript_text)
    × (length masked ≤ max_transcript_text)
redact_text_fails_closed_example =
    redact_text_fails_closed recognizers Within 104 (105 ∷ 32 ∷ 66 ∷ 111 ∷ 98 ∷ 33 ∷ []) en_in
      masked redacted

redact_text_total_example : redact_text recognizers text en_in ≡ (
    if ltb max_transcript_text
      (length (mask (hidden_by recognizers text (names text)) 0 false text))
    then raise exceeds_limit
    else ok (mask (hidden_by recognizers text (names text)) 0 false text))
unfolding before_dash
redact_text_total_example =
    redact_text_total recognizers Within text en_in (names text) (omega arith) english refl
  where
    english : is_en (before_dash en_in) ≡ true
    english = refl
