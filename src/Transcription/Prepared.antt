-- ===== src/Transcription/Prepared.antt =====
-- `prepare_utterances`: all of the batch, redacted, or nothing.
use real_time_ai_call_audit.Store.{ok, >>=-ok, raise_if-ok, ok-injective}
use real_time_ai_call_audit.Prelude.{
  ℕ, suc, ◌+◌, ◌≤◌, ◌≡◌, refl, ap, subst, inl, inr, String, Bool, true, false, not, ◌||◌, List, [],
  ◌∷◌, ltb, leb, length, text_len, is_blank, Bool-cases, arith,
}
use real_time_ai_call_audit.Transcription.{
  TranscriptionError, redactor_output, preparation_failed, Segment, Utterance, Redacted, redacted,
  no_text, raises, max_stt_segments, max_stt_text_chars, redacted_or_raise, new_utterance,
  prepare_segment, is_bad_id, prepare_from, prepare_utterances,
}

redacted_or_raise-ok :
    (other failed : TranscriptionError) (r : Redacted) (text : String)
    → redacted_or_raise other failed r ≡ ok text
    → r ≡ redacted text
redacted_or_raise-ok other failed (redacted t) text e = ap redacted (ok-injective e)
redacted_or_raise-ok other failed no_text text e = cc
redacted_or_raise-ok other failed raises text e = cc

module _ {T : Type 0} (redact : String → Redacted) (digest : String → String)
    (accepts : Utterance T → Bool) where
  -- The utterance is the segment's, final, with the text that the redactor returns for the segment's.
  abbrev pub IsPreparedOf : Segment T → Utterance T → Type 0
  IsPreparedOf segment utterance =
      (redact segment.text ≡ redacted utterance.text_redacted)
      × (utterance.id ≡ digest segment.segment_id)
      × (utterance.segment_id ≡ segment.segment_id)
      × (utterance.start_ms ≡ segment.start_ms)
      × (utterance.end_ms ≡ segment.end_ms)
      × (utterance.role ≡ segment.role)
      × (utterance.is_final ≡ true)

  -- One utterance for each segment with a text, in their order.
  pub data ArePrepared : List (Segment T) → List (Utterance T) → Type 0 where
    nothing_left : ArePrepared [] []
    skipped :
        (segment : Segment T) (segments : List (Segment T)) (utterances : List (Utterance T))
        → is_blank segment.text ≡ true
        → ArePrepared segments utterances
        → ArePrepared (segment ∷ segments) utterances
    prepared :
        (segment : Segment T) (segments : List (Segment T)) (utterance : Utterance T)
        (utterances : List (Utterance T))
        → is_blank segment.text ≡ false
        → IsPreparedOf segment utterance
        → ArePrepared segments utterances
        → ArePrepared (segment ∷ segments) (utterance ∷ utterances)

  prepare_segment-ok :
      (segment : Segment T) (utterance : Utterance T)
      → prepare_segment redact digest accepts segment ≡ ok utterance
      → IsPreparedOf segment utterance
  unfolding prepare_segment
  prepare_segment-ok segment utterance e =
      let (text, e0, e1) =
        >>=-ok (redacted_or_raise redactor_output preparation_failed (redact segment.text)) _ e in
      let (_, e2) =
        raise_if-ok (not (accepts (new_utterance redact digest accepts segment text)))
          preparation_failed (ok (new_utterance redact digest accepts segment text)) e1 in
      subst (IsPreparedOf segment) (ok-injective e2)
        (redacted_or_raise-ok _ _ (redact segment.text) text e0, refl, refl, refl, refl, refl, refl)

  prepare_from-ok :
      (seen : List String) (count total_chars : ℕ) (segments : List (Segment T))
      (utterances : List (Utterance T))
      → count ≤ max_stt_segments
      → prepare_from redact digest accepts seen count total_chars segments ≡ ok utterances
      → ArePrepared segments utterances × (count + length utterances ≤ max_stt_segments)
  unfolding prepare_from
  prepare_from-ok seen count total_chars [] utterances low e =
      subst (λ us. ArePrepared [] us × (count + length us ≤ max_stt_segments)) (ok-injective e)
        (nothing_left, omega (arith, low))
  prepare_from-ok seen count total_chars (segment ∷ segments) utterances low e =
      let next = segment.segment_id ∷ seen in
      let full =
        leb max_stt_segments count
        || ltb max_stt_text_chars (total_chars + text_len segment.text) in
      elim (Bool-cases (is_bad_id redact digest accepts segment.segment_id seen)) [
        | inl bad ↦ cc (rw (bad, prepare_from) at e)
        | inr fine ↦ elim (Bool-cases (is_blank segment.text)) [
          | inl blank ↦
              (let (h, bound) =
                  prepare_from-ok next count total_chars segments utterances low
                    (rw (fine, blank, prepare_from) at e) in
                (skipped segment segments utterances blank h, bound))
          | inr spoken ↦ elim (Bool-cases full) [
            | inl over ↦ cc (rw (fine, spoken, over, prepare_from) at e)
            | inr within ↦
                (let (u, e0, e1) =
                    >>=-ok (prepare_segment redact digest accepts segment) _
                      (rw (fine, spoken, within, prepare_from) at e) in
                  let (us, e2, e3) =
                    >>=-ok
                      (prepare_from redact digest accepts next (suc count)
                        (total_chars + text_len segment.text) segments)
                      _ e1 in
                  let (h, bound) =
                    prepare_from-ok next (suc count) (total_chars + text_len segment.text) segments
                      us (ground arith) e2 in
                  subst
                    (λ xs.
                      ArePrepared (segment ∷ segments) xs × (count + length xs ≤ max_stt_segments))
                    (ok-injective e3)
                    (
                      prepared segment segments u us spoken (prepare_segment-ok segment u e0) h,
                      omega (arith, bound),
                    ))
          ]
        ]
      ]

  -- When a batch is prepared, there is one final utterance for each segment with a text, in their order,
  -- with the segment's times, role and id, and its text is what the redactor returned for the segment's
  -- text; there are at most 50,000.
  pub prepare_utterances-ok :
      (segments : List (Segment T)) (utterances : List (Utterance T))
      → prepare_utterances redact digest accepts segments ≡ ok utterances
      → ArePrepared segments utterances × (length utterances ≤ max_stt_segments)
  unfolding prepare_utterances
  prepare_utterances-ok segments utterances e =
      let (h, bound) = prepare_from-ok [] 0 0 segments utterances (omega arith) e in
      (h, omega (arith, bound))
