-- ===== src/Transcription.antt =====
-- app/transcription.py: the segments of the local speech model, as utterances of redacted text.
-- The model, the redactor, the digest of an id and the validation of an utterance's fields are
-- parameters; so are the floating-point numbers, of which the code uses what `Times` has.
pub mod Live
pub mod Prepared
pub mod Buffer
mod Examples
use real_time_ai_call_audit.Store.{Outcome, ok, raise, ◌>>=◌, ◌>>◌, raise_if}
use real_time_ai_call_audit.Prelude.{
  ℕ, suc, ◌+◌, ◌*◌, String, Bool, true, false, not, ◌&&◌, ◌||◌, Option, none, some, List, [], ◌∷◌,
  if◌then◌else◌, ltb, leb, ◌=?◌, one_of, text_len, is_blank, join_text,
}

-- TranscriptionError, by its message.
pub data TranscriptionError : Type 0 where
  resource_bounds segment_timing segment_ids transcript_bounds redactor_output preparation_failed :
      TranscriptionError
  invalid_frame oversized_or_out_of_order duration_limit live_failed capacity_busy
        too_many_segments :
      TranscriptionError
  unsupported_language timing_outside_window too_much_text candidate_limit redaction_failed :
      TranscriptionError

abbrev pub max_stt_segments : ℕ
max_stt_segments = 50000

abbrev pub max_stt_text_chars : ℕ
max_stt_text_chars = 1000000

-- Seconds and confidences. `is_span s e` is that both are finite, 0 <= s <= e, and e * 1000 is at most
-- MAX_DURATION_MS; `to_ms` is round(t * 1000); `is_confidence` that it is finite and within 0 and 1.
pub record Times (T : Type 0) : Type 0 where
  pub is_span : T → T → Bool
  pub to_ms : T → ℕ
  pub is_confidence : T → Bool

-- A segment of the model. A text that is no text, and a number that `float` refuses, are `none`.
pub record RawSegment (T : Type 0) : Type 0 where
  pub id : Option String
  pub text : Option String
  pub start : Option T
  pub end : Option T
  pub confidence : Option T

pub record Segment (T : Type 0) : Type 0 where
  pub segment_id : String
  pub speaker_id : String
  pub role : String
  pub start_ms : ℕ
  pub end_ms : ℕ
  pub text : String
  pub confidence : Option T

-- PreparedUtterance
pub record Utterance (T : Type 0) : Type 0 where
  pub id : String
  pub role : String
  pub start_ms : ℕ
  pub end_ms : ℕ
  pub text_redacted : String
  pub is_final : Bool
  pub segment_id : String
  pub speaker_id : String
  pub confidence : Option T

-- What a redactor does: return a text, return something else, or raise.
pub data Redacted : Type 0 where
  redacted : String → Redacted
  no_text raises : Redacted

-- Where a segment's channel, role and default id come from: channel_roles and channel_index, and
-- f"segment-{index}".
pub record Channel : Type 0 where
  pub role_of : ℕ → Option String
  pub index : Option ℕ
  pub decimal : ℕ → String

abbrev known_role : String → String
known_role role = if one_of role ("AGENT" ∷ "CUSTOMER" ∷ "IVR" ∷ []) then role else "UNKNOWN"

abbrev or_unknown : Option String → String
or_unknown none = "UNKNOWN"
or_unknown (some role) = role

abbrev id_or : Option String → String → String
id_or none default = default
id_or (some id) default = id

-- Segment id, speaker id and role; a speaker id is shorter than the 128 characters that are kept.
unfoldable pub identity_of : Channel → ℕ → Option String → String × String × String
identity_of channel n id =
    let source = id_or id (join_text "segment-" (channel.decimal n)) in
    elim channel.index [
      | none ↦ (source, "mono-unknown", "UNKNOWN")
      | some k ↦
          (let name = join_text "channel-" (channel.decimal k) in
            (
              join_text name (join_text ":" source),
              name,
              known_role (or_unknown (channel.role_of k)),
            ))
    ]

module _ {T : Type 0} (times : Times T) where
  abbrev confidence_of : Option T → Option T
  confidence_of none = none
  confidence_of (some c) = if times.is_confidence c then some c else none

  abbrev span_of : Option T → Option T → Option (ℕ × ℕ)
  span_of (some s) (some e) =
      if times.is_span s e then some (times.to_ms s, times.to_ms e) else none
  span_of _ _ = none

  abbrev span_or_raise : Option (ℕ × ℕ) → Outcome TranscriptionError (ℕ × ℕ)
  span_or_raise none = raise segment_timing
  span_or_raise (some span) = ok span

  abbrev text_or_none : Option String → Option String
  text_or_none none = none
  text_or_none (some text) = if is_blank text then none else some text

  unfoldable pub new_segment :
      Channel → ℕ → RawSegment T → String → Outcome TranscriptionError (Segment T)
  new_segment channel n raw text = span_or_raise (span_of raw.start raw.end) >>= λ span.
      (let identity = identity_of channel n raw.id in
        ok (record {
          segment_id = identity.0;
          speaker_id = identity.1;
          role = identity.2;
          start_ms = span.0;
          end_ms = span.1;
          text = text;
          confidence = confidence_of raw.confidence;
        }))

  -- The loop: the index of the segment, how many there are, and how many characters they have.
  unfoldable pub normalise_from :
      Channel → ℕ → ℕ → ℕ → List (RawSegment T) → Outcome TranscriptionError (List (Segment T))
  normalise_from channel n count total_chars [] = ok []
  normalise_from channel n count total_chars (raw ∷ source) = elim (text_or_none raw.text) [
    | none ↦ normalise_from channel (suc n) count total_chars source
    | some text ↦
        raise_if
          (leb max_stt_segments count || ltb max_stt_text_chars (total_chars + text_len text))
          resource_bounds
        >> new_segment channel n raw text
        >>= λ segment.
            normalise_from channel (suc n) (suc count) (total_chars + text_len text) source
            >>= λ segments. ok (segment ∷ segments)
  ]

  unfoldable pub normalise_segments :
      List (RawSegment T) → Channel → Outcome TranscriptionError (List (Segment T))
  normalise_segments source channel = normalise_from channel 0 0 0 source

abbrev pub redacted_or_raise :
    TranscriptionError → TranscriptionError → Redacted → Outcome TranscriptionError String
redacted_or_raise other failed (redacted text) = ok text
redacted_or_raise other failed no_text = raise other
redacted_or_raise other failed raises = raise failed

-- `accepts` is the validation of PreparedUtterance.
module _ {T : Type 0} (redact : String → Redacted) (digest : String → String)
    (accepts : Utterance T → Bool) where
  abbrev pub new_utterance : Segment T → String → Utterance T
  new_utterance segment text = record {
    id = digest segment.segment_id;
    role = segment.role;
    start_ms = segment.start_ms;
    end_ms = segment.end_ms;
    text_redacted = text;
    is_final = true;
    segment_id = segment.segment_id;
    speaker_id = segment.speaker_id;
    confidence = segment.confidence;
  }

  unfoldable pub prepare_segment : Segment T → Outcome TranscriptionError (Utterance T)
  prepare_segment segment =
      redacted_or_raise redactor_output preparation_failed (redact segment.text) >>= λ text.
      raise_if (not (accepts (new_utterance segment text))) preparation_failed
      >> ok (new_utterance segment text)

  abbrev pub is_bad_id : String → List String → Bool
  is_bad_id id seen = leb (text_len id) 0 || ltb 128 (text_len id) || one_of id seen

  unfoldable pub prepare_from :
      List String → ℕ → ℕ → List (Segment T) → Outcome TranscriptionError (List (Utterance T))
  prepare_from seen count total_chars [] = ok []
  prepare_from seen count total_chars (segment ∷ segments) =
      raise_if (is_bad_id segment.segment_id seen) segment_ids >> (elim (is_blank segment.text) [
        | true ↦ prepare_from (segment.segment_id ∷ seen) count total_chars segments
        | false ↦
            raise_if
              (leb max_stt_segments count
                || ltb max_stt_text_chars (total_chars + text_len segment.text))
              transcript_bounds
            >> prepare_segment segment
            >>= λ utterance.
                prepare_from (segment.segment_id ∷ seen) (suc count)
                  (total_chars + text_len segment.text) segments
                >>= λ utterances. ok (utterance ∷ utterances)
      ])

  unfoldable pub prepare_utterances :
      List (Segment T) → Outcome TranscriptionError (List (Utterance T))
  prepare_utterances segments = prepare_from [] 0 0 segments
