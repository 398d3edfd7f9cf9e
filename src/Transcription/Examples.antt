-- ===== src/Transcription/Examples.antt =====
-- Windows of 2 ms that overlap in 1 ms, a model that hears one word in each, and a batch of two
-- segments. Seconds are milliseconds here.
use real_time_ai_call_audit.Store.{ok}
use real_time_ai_call_audit.Prelude.{
  ℕ, ◌≤◌, ◌<◌, ◌≡◌, refl, String, Bool, true, false, none, some, List, [], ◌∷◌, leb, length, select,
  arith, ◌=?◌, text_len, one_of, is_blank,
}
use real_time_ai_call_audit.Transcription.{
  Times, RawSegment, Segment, Utterance, Redacted, redacted, identity_of, new_segment,
  normalise_from, normalise_segments, prepare_segment, prepare_from, prepare_utterances,
  max_stt_segments,
}
use real_time_ai_call_audit.Transcription.Live.{
  Limits, Decoded, new_state, discard_during, find_match, match_segment, match_segments,
  provisional, nth, mark_emitted, is_new_text, emit_candidate, emit_all, emit, emit_window,
  match_normalised, decode_normalised, decode_segments, decode_window, advance, decode_windows,
  frame_error, buffer_pcm, push, LiveStep, push_step, run_step, run_steps,
}
use real_time_ai_call_audit.Transcription.Prepared.{ArePrepared, prepare_utterances-ok}
use real_time_ai_call_audit.Transcription.Buffer.{IsBuffered, received, run_steps-IsBuffered}

abbrev times : Times ℕ
times = record { is_span = λ s e. leb s e; to_ms = λ t. t; is_confidence = λ c. leb c 1 }

abbrev redact : String → Redacted
redact text = redacted "[REDACTED]"

abbrev digest : String → String
digest id = id

abbrev accepts : Utterance ℕ → Bool
accepts utterance = leb utterance.start_ms utterance.end_ms

abbrev one_digit : ℕ → String
one_digit n = "1"

abbrev small : Limits
small = record {
  window_ms = 2;
  overlap_ms = 1;
  max_input_chunk_bytes = 100;
  max_window_segments = 2;
  max_window_text_chars = 10;
  max_pending_segments = 2;
  max_duration_ms = 10;
}

abbrev word : RawSegment ℕ
word = record { id = none; text = some "word"; start = some 0; end = some 2; confidence = none }

abbrev hears : List ℕ → Decoded ℕ
hears pcm = record { segments = ok (word ∷ []); discarded = false }

abbrev one_ms : List ℕ
one_ms = 0 ∷ 0 ∷ 0 ∷ 0 ∷ 0 ∷ 0 ∷ 0 ∷ 0 ∷ 0 ∷ 0 ∷ 0 ∷ 0 ∷ 0 ∷ 0 ∷ 0 ∷ 0 ∷ []

abbrev steps : List LiveStep
steps = push_step one_ms 0 ∷ push_step one_ms 1 ∷ []

-- After two milliseconds one window is decoded, and its second half is kept.
decoded :
    (length (run_steps redact digest accepts one_digit small times hears steps new_state).pcm ≡ 16)
    × ((run_steps redact digest accepts one_digit small times hears steps new_state).buffer_start_ms
        ≡ 1)
unfolding run_steps run_step push frame_error buffer_pcm decode_windows decode_window discard_during
    decode_segments decode_normalised normalise_segments normalise_from is_blank new_segment
    identity_of match_normalised text_len match_segments match_segment find_match emit_window emit
    emit_all provisional nth is_new_text emit_candidate select mark_emitted advance
decoded = (refl, refl)

run_steps-IsBuffered_example :
    IsBuffered small
      (received small redact digest accepts one_digit times hears steps new_state)
      (run_steps redact digest accepts one_digit small times hears steps new_state)
run_steps-IsBuffered_example =
    run_steps-IsBuffered small redact digest accepts one_digit times hears steps
      (let lt : 1 < 2 = omega arith in lt)

abbrev segment : String → String → Segment ℕ
segment id text = record {
  segment_id = id;
  speaker_id = "mono-unknown";
  role = "UNKNOWN";
  start_ms = 0;
  end_ms = 2;
  text = text;
  confidence = none;
}

abbrev utterance : Utterance ℕ
utterance = record {
  id = "b";
  role = "UNKNOWN";
  start_ms = 0;
  end_ms = 2;
  text_redacted = "[REDACTED]";
  is_final = true;
  segment_id = "b";
  speaker_id = "mono-unknown";
  confidence = none;
}

abbrev batch : List (Segment ℕ)
batch = segment "a" " " ∷ segment "b" "call me" ∷ []

prepares : prepare_utterances redact digest accepts batch ≡ ok (utterance ∷ [])
unfolding prepare_utterances prepare_from text_len one_of ◌=?◌ is_blank prepare_segment
prepares = refl

prepare_utterances-ok_example :
    ArePrepared redact digest accepts batch (utterance ∷ [])
    × (length (utterance ∷ []) ≤ max_stt_segments)
prepare_utterances-ok_example =
    prepare_utterances-ok redact digest accepts batch (utterance ∷ []) prepares
