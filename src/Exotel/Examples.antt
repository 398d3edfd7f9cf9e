-- ===== src/Exotel/Examples.antt =====
-- A stream that connects, starts at number 1, and sends one frame at number 4.
use real_time_ai_call_audit.Prelude.{
  ℕ, zero, suc, ◌≡◌, refl, Bool, true, false, Option, none, some, List, [], ◌∷◌, ◌==◌, arith, ◌=?◌,
  one_of, text_len,
}
use real_time_ai_call_audit.Store.{ok}
use real_time_ai_call_audit.Exotel.{
  Decoders, Raw, Session, MediaFrame, nothing, lifecycle, media, new_session, accept,
  accept_connected, accept_numbered, accept_start, accept_started, accept_media, start_sid,
  media_fields, read_event, as_object, identity, sequence, sequence_value, read_chunk,
  read_timestamp, read_payload,
}
use real_time_ai_call_audit.Exotel.Values.{
  Json, Fields, no_fields, field, int, text, object, get_or, has_key, keys_within, has_keys,
  count_fields, fields_size, only_texts,
}
use real_time_ai_call_audit.Exotel.Steps.{Step, accept-Step}
use real_time_ai_call_audit.Exotel.Ledger.{
  deliver, Balanced, SessionValid, deliver-Balanced, deliver-SessionValid,
}

abbrev connected_event : Fields
connected_event = field "event" (text "connected") no_fields

abbrev start_event : Fields
start_event = field "event" (text "start") (
    field "sequence_number" (int 1) (
      field "stream_sid" (text "s") (
        field "start"
          (object (
            field "stream_sid" (text "s") (
              field "call_sid" (text "c") (
                field "account_sid" (text "a") (
                  field "media_format"
                    (object
                      (field "encoding" (text "raw") (field "sample_rate" (int 8000) no_fields)))
                    no_fields)))))
          no_fields)))

abbrev media_event : Fields
media_event = field "event" (text "media") (
    field "sequence_number" (int 4) (
      field "stream_sid" (text "s") (
        field "media"
          (object (
            field "chunk" (int 2)
              (field "timestamp" (int 20) (field "payload" (text "AAA=") no_fields))))
          no_fields)))

-- The first byte names the event.
abbrev load : List ℕ → Option Json
load (zero ∷ bytes) = some (object connected_event)
load (suc zero ∷ bytes) = some (object start_event)
load (suc (suc zero) ∷ bytes) = some (object media_event)
load _ = none

abbrev decoders : Decoders
decoders = record { loads = load; b64decode = λ t. if_padded (t =? "AAA=") }
  where
    if_padded : Bool → Option (List ℕ)
    if_padded true = some (0 ∷ 0 ∷ [])
    if_padded false = none

abbrev raw : ℕ → Raw
raw n = record { size = 100; encoded = some (n ∷ []) }

abbrev fresh : Session
fresh = new_session "a" "c" 7

abbrev open_stream : Session
open_stream = record fresh {
  connected = true;
  started = true;
  stream_sid = some "s";
  last_sequence = some 1;
}

abbrev frame : MediaFrame
frame = record {
  sequence_number = 4;
  chunk = 2;
  stream_offset_ms = 20;
  pcm = 0 ∷ 0 ∷ [];
  missing_sequences = record { start = 2; end = 4 };
  missing_chunks = record { start = 1; end = 2 };
}

abbrev after_frame : Session
after_frame = record open_stream {
  last_sequence = some 4;
  last_chunk = 2;
  last_timestamp = some 20;
  total_bytes = 2;
}

accepts_frame : accept decoders (raw 2) 7 open_stream ≡ ok (media frame, after_frame)
unfolding accept accept_numbered accept_started accept_media media_fields read_event as_object
    sequence sequence_value read_chunk read_timestamp read_payload get_or has_key keys_within
    has_keys one_of ◌=?◌ text_len
accepts_frame = refl

accept-Step_example :
    ((7 == 7) ≡ true) × (open_stream.stopped ≡ false) × Step open_stream (media frame) after_frame
accept-Step_example =
    accept-Step decoders (raw 2) 7 open_stream after_frame (media frame) accepts_frame

abbrev deliveries : List (Raw × ℕ)
deliveries = (raw 0, 7) ∷ (raw 1, 7) ∷ (raw 1, 7) ∷ (raw 2, 6) ∷ (raw 2, 7) ∷ []

-- The second start and the frame of another generation are refused.
delivered : deliver decoders fresh deliveries ≡ (
  nothing ∷ lifecycle "start" (some "s") 1 (record { start = 1; end = 1 }) ∷ media frame ∷ [],
  after_frame,
)
unfolding deliver accept accept_connected accept_numbered accept_start start_sid accept_started
    accept_media media_fields read_event as_object identity sequence sequence_value read_chunk
    read_timestamp read_payload get_or has_key keys_within has_keys one_of ◌=?◌ text_len
    count_fields fields_size only_texts
delivered = refl

deliver-Balanced_example : Balanced fresh (deliver decoders fresh deliveries)
deliver-Balanced_example = deliver-Balanced decoders fresh deliveries

fresh-SessionValid : SessionValid fresh
fresh-SessionValid = record {
  within = omega arith;
  numbered = omega arith;
  ordered = λ e. cc e;
  bound = refl;
  ended = λ e. cc e;
}

deliver-SessionValid_example : SessionValid (deliver decoders fresh deliveries).1
deliver-SessionValid_example = deliver-SessionValid decoders fresh deliveries fresh-SessionValid
