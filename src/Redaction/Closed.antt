-- ===== src/Redaction/Closed.antt =====
-- redact_text as a whole: what it returns is masked, and otherwise it raises.
use real_time_ai_call_audit.Prelude.{
  ℕ, ◌≤◌, ◌≡◌, refl, ap, sym, ◌∙◌, Bool, true, false, not, some, List, [], ◌∷◌, ◌++◌, ltb, arith,
  length, All, All-append, Option-cases, Bool-cases, inl, inr, if◌then◌else◌,
}
use real_time_ai_call_audit.Store.{ok, raise, raise_if-ok, >>=-ok, ok-injective}
use real_time_ai_call_audit.Intervals.{Interval, covers}
use real_time_ai_call_audit.Redaction.{
  Recognizers, max_transcript_text, spans_of, redact_from, merge_spans, redact_nonempty,
  redact_text, is_en, before_dash, no_recognizer, invalid_text, exceeds_limit,
}
use real_time_ai_call_audit.Redaction.Mask.{mask, redact_from-mask}

-- The recognisers report spans that end within the text they were given.
abbrev pub ReportsWithin : Recognizers → Type 0
ReportsWithin r =
    (text : List ℕ)
    → All (λ s. s.end ≤ length text) (r.structured text)
      × ((found : List Interval)
          → r.analyze text ≡ some found
          → All (λ s. s.end ≤ length text) found)

-- The spans that are to be hidden, where the recogniser returns `found`.
abbrev pub hidden_by : Recognizers → List ℕ → List Interval → ℕ → Bool
hidden_by r text found = covers (r.structured text ++ found)

module _ (r : Recognizers) (within : ReportsWithin r) where
  spans-All :
      (text : List ℕ) (found : List Interval)
      → r.analyze text ≡ some found
      → All (λ s. s.end ≤ length text) (r.structured text ++ found)
  spans-All text found e =
      All-append (λ s. s.end ≤ length text) (r.structured text) found (within text).0
        ((within text).1 found e)

  -- Redaction fails closed: a text that `redact_text` returns for a text that is not empty is, for a
  -- language whose part before the dash is "en" and a recogniser that returned, the text with
  -- every character of every reported span left out, each run of them shown once as the redaction
  -- mark, and every other character kept in its order; and neither text is over 10,000 characters.
  -- The recognisers report spans that end within the text.
  pub redact_text_fails_closed :
      (c : ℕ) (cs language redacted : List ℕ)
      → redact_text r (c ∷ cs) language ≡ ok redacted
      → (found : List Interval) × (r.analyze (c ∷ cs) ≡ some found)
        × (is_en (before_dash (r.lower language)) ≡ true)
        × (redacted ≡ mask (hidden_by r (c ∷ cs) found) 0 false (c ∷ cs))
        × (length (c ∷ cs) ≤ max_transcript_text)
        × (length redacted ≤ max_transcript_text)
  unfolding redact_text redact_nonempty spans_of
  redact_text_fails_closed c cs language redacted e =
      let text = c ∷ cs in
      let (short, e1) = raise_if-ok (ltb max_transcript_text (length text)) invalid_text _ e in
      let (english, e2) =
        raise_if-ok (not (is_en (before_dash (r.lower language)))) no_recognizer _ e1 in
      let (spans, e3, e4) = >>=-ok (spans_of r text) _ e2 in
      let (fits, e5) =
        raise_if-ok
          (ltb max_transcript_text (length (redact_from 0 (merge_spans spans (length text)) text)))
          exceeds_limit _ e4 in
      let (found, analysed, same) = found_of text spans e3 in
      let masked =
        sym (ok-injective e5)
        ∙ ap (λ ss. redact_from 0 (merge_spans ss (length text)) text) (sym same)
        ∙ redact_from-mask (r.structured text ++ found) text (spans-All text found analysed) in
      let out = ok-injective e5 in
      (found, analysed, ground arith, masked, ground arith, rw out at (not_over _ fits))
    where
      found_of :
          (text : List ℕ) (spans : List Interval)
          → spans_of r text ≡ ok spans
          → (found : List Interval) × (r.analyze text ≡ some found)
            × (r.structured text ++ found ≡ spans)
      found_of text spans h = elim (Option-cases (r.analyze text)) [
        | inl e ↦ cc (rw (e, spans_of) at h)
        | inr (found, e) ↦ (found, e, ok-injective (rw (e, spans_of) at h))
      ]

      not_over : (n : ℕ) → ltb max_transcript_text n ≡ false → n ≤ max_transcript_text
      not_over n h = ground arith

  total-step :
      (c : ℕ) (cs language : List ℕ) (found : List Interval) (m : List ℕ)
      → ltb max_transcript_text (length (c ∷ cs)) ≡ false
      → is_en (before_dash (r.lower language)) ≡ true
      → r.analyze (c ∷ cs) ≡ some found
      → redact_from 0 (merge_spans (r.structured (c ∷ cs) ++ found) (length (c ∷ cs))) (c ∷ cs) ≡ m
      → redact_text r (c ∷ cs) language
        ≡ (if ltb max_transcript_text (length m) then raise exceeds_limit else ok m)
  unfolding redact_text redact_nonempty spans_of
  total-step c cs language found m fits english analysed masked =
      rw (fits, english, redact_nonempty, spans_of, analysed, masked)
        (elim (Bool-cases (ltb max_transcript_text (length m))) [
          | inl over ↦ rw over refl
          | inr under ↦ rw under refl
        ])

  -- A text of at most 10,000 characters in English, of which the recogniser reports its spans, is
  -- redacted: the masked text is returned, or, where the marks make it longer than 10,000
  -- characters, the limit is reported. The recognisers report spans that end within the text.
  pub redact_text_total :
      (text language : List ℕ) (found : List Interval)
      → length text ≤ max_transcript_text
      → is_en (before_dash (r.lower language)) ≡ true
      → r.analyze text ≡ some found
      → redact_text r text language ≡ (
          if ltb max_transcript_text (length (mask (hidden_by r text found) 0 false text))
          then raise exceeds_limit
          else ok (mask (hidden_by r text found) 0 false text))
  unfolding redact_text mask
  redact_text_total [] language found short english analysed = refl
  redact_text_total (c ∷ cs) language found short english analysed =
      let fits : ltb max_transcript_text (length (c ∷ cs)) ≡ false = ground arith in
      total-step c cs language found _ fits english analysed (
        redact_from-mask (r.structured (c ∷ cs) ++ found) (c ∷ cs)
          (spans-All (c ∷ cs) found analysed))
