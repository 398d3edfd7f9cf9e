-- ===== src/Redaction.antt =====
-- app/privacy.py: the local redaction of a transcript's text. A text is the list of its characters.
-- What the regular expressions and the recogniser of personal data find is a parameter; so is the
-- lower case of Unicode. The two loaders of the recogniser are left out.
pub mod Mask
pub mod Closed
mod Examples
use real_time_ai_call_audit.Prelude.{
  ℕ, zero, suc, ◌+◌, ◌-◌, min, Bool, true, false, not, ◌&&◌, ◌||◌, Option, none, some, List, [],
  ◌∷◌, ◌++◌, map, ◌==◌, ltb, if◌then◌else◌, length, take, drop, select,
}
use real_time_ai_call_audit.Store.{Outcome, ok, raise, ◌>>=◌, ◌>>◌, raise_if}
use real_time_ai_call_audit.Intervals.{Interval, merge}

abbrev pub max_transcript_text : ℕ
max_transcript_text = 10000

-- "[REDACTED]"
abbrev pub redaction : List ℕ
redaction = 91 ∷ 82 ∷ 69 ∷ 68 ∷ 65 ∷ 67 ∷ 84 ∷ 69 ∷ 68 ∷ 93 ∷ []

-- The messages of RedactionError.
pub data RedactionError : Type 0 where
  invalid_text no_recognizer redaction_failed exceeds_limit : RedactionError

-- `structured`: the spans of the matches of _STRUCTURED_PATTERNS (of their first group, if any);
-- `analyze`: those of the recogniser, `none` where it raises.
pub record Recognizers : Type 0 where
  pub lower : List ℕ → List ℕ
  pub structured : List ℕ → List Interval
  pub analyze : List ℕ → Option (List Interval)

-- `_Span(max(0, s.start), min(length, s.end))`, of a span of natural numbers.
abbrev pub clamp : ℕ → Interval → Interval
clamp n s = record { start = s.start; end = min n s.end }

abbrev pub is_proper : Interval → Bool
is_proper s = ltb s.start s.end

unfoldable pub merge_spans : List Interval → ℕ → List Interval
merge_spans spans n = merge (map (clamp n) (select is_proper spans))

-- text[a:b]
abbrev pub slice : ℕ → ℕ → List ℕ → List ℕ
slice a b text = take (b - a) (drop a text)

-- The loop over the merged spans, and the join of `output`.
unfoldable pub redact_from : ℕ → List Interval → List ℕ → List ℕ
redact_from offset [] text = drop offset text
redact_from offset (s ∷ ss) text =
    slice offset s.start text ++ redaction ++ redact_from s.end ss text

-- `.split("-", 1)[0]`
unfoldable pub before_dash : List ℕ → List ℕ
before_dash [] = []
before_dash (c ∷ cs) = let rest = before_dash cs in if c == 45 then [] else c ∷ rest

abbrev pub is_en : List ℕ → Bool
is_en (a ∷ b ∷ []) = a == 101 && b == 110
is_en _ = false

unfoldable pub spans_of : Recognizers → List ℕ → Outcome RedactionError (List Interval)
spans_of r text = elim (r.analyze text) [
  | none ↦ raise redaction_failed
  | some found ↦ ok (r.structured text ++ found)
]

-- What follows the test for an empty text.
unfoldable pub redact_nonempty : Recognizers → List ℕ → List ℕ → Outcome RedactionError (List ℕ)
redact_nonempty r text language = do
  raise_if (not (is_en (before_dash (r.lower language)))) no_recognizer
  spans ← spans_of r text
  let redacted = redact_from 0 (merge_spans spans (length text)) text
  raise_if (ltb max_transcript_text (length redacted)) exceeds_limit
  ok redacted

unfoldable pub redact_text : Recognizers → List ℕ → List ℕ → Outcome RedactionError (List ℕ)
redact_text r [] language = ok []
redact_text r (c ∷ cs) language = do
  raise_if (ltb max_transcript_text (length (c ∷ cs))) invalid_text
  redact_nonempty r (c ∷ cs) language
