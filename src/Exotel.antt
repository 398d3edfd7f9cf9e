-- ===== src/Exotel.antt =====
-- app/exotel.py: the parser of a telephony stream's events, bound to one generation of a call.
-- `json.loads` and `base64.b64decode` are parameters. Every check of `accept` comes before its first
-- assignment, so a call that raises leaves the session as it was. The tests of the arguments' Python
-- types (`raw`, `generation`) are left to the types here.
pub mod Values
pub mod Steps
pub mod Ledger
mod Examples
use real_time_ai_call_audit.Prelude.{
  ℕ, suc, ◌+◌, ◌*◌, ◌%◌, String, Bool, true, false, not, ◌&&◌, ◌||◌, Option, none, some, List, [],
  ◌∷◌, ◌==◌, ltb, leb, if◌then◌else◌, length, text_len, ◌=?◌, one_of, codes,
}
use real_time_ai_call_audit.Store.{Outcome, ok, raise, ◌>>=◌, ◌>>◌, raise_if}
use real_time_ai_call_audit.Events.{is_decimal, decimal}
use real_time_ai_call_audit.Intervals.{Interval}
use real_time_ai_call_audit.Exotel.Values.{
  Json, Fields, null, negative, array, boolean, int, float, text, object, get, get_or, has_key,
  keys_within, has_keys, equals_text, equals_nat, is_unhashable, count_fields, fields_size,
  only_texts, no_fields,
}

abbrev pub max_envelope_bytes : ℕ
max_envelope_bytes = 150000

abbrev pub max_frame_bytes : ℕ
max_frame_bytes = 100000

abbrev pub max_stream_bytes : ℕ
max_stream_bytes = 100000000

abbrev pub max_duration_ms : ℕ
max_duration_ms = 7200000

abbrev pub max_sequence_number : ℕ
max_sequence_number = 2147483647

-- ExotelProtocolError by its message, and the TypeError of an unhashable kind.
pub data ProtocolError : Type 0 where
  stale_generation event_after_stop envelope_limit malformed_json not_an_object : ProtocolError
  invalid_identity invalid_sequence out_of_order_sequence invalid_connected : ProtocolError
  connected_required unsupported_event invalid_start identity_mismatch : ProtocolError
  unexpected_fields invalid_party invalid_custom unsupported_format start_required : ProtocolError
  stream_mismatch invalid_stop invalid_media out_of_order_chunk invalid_timestamp : ProtocolError
  invalid_payload duration_limit byte_limit type_error : ProtocolError

-- An event as received: its length, and its bytes, `none` where it has no UTF-8.
pub record Raw : Type 0 where
  pub size : ℕ
  pub encoded : Option (List ℕ)

-- `none` where the library raises.
pub record Decoders : Type 0 where
  pub loads : List ℕ → Option Json
  pub b64decode : String → Option (List ℕ)

-- `last_timestamp` is `none` for the source's -1.
pub record Session : Type 0 where
  pub account_sid : String
  pub call_sid : String
  pub generation : ℕ
  pub connected : Bool
  pub started : Bool
  pub stopped : Bool
  pub stream_sid : Option String
  pub last_sequence : Option ℕ
  pub last_chunk : ℕ
  pub last_timestamp : Option ℕ
  pub total_bytes : ℕ

-- ExotelSession(…), less its test of the arguments.
abbrev pub new_session : String → String → ℕ → Session
new_session account call generation = record {
  account_sid = account;
  call_sid = call;
  generation = generation;
  connected = false;
  started = false;
  stopped = false;
  stream_sid = none;
  last_sequence = none;
  last_chunk = 0;
  last_timestamp = none;
  total_bytes = 0;
}

-- A range of missing numbers is an interval.
pub record MediaFrame : Type 0 where
  pub sequence_number : ℕ
  pub chunk : ℕ
  pub stream_offset_ms : ℕ
  pub pcm : List ℕ
  pub missing_sequences : Interval
  pub missing_chunks : Interval

pub data Accepted : Type 0 where
  nothing : Accepted
  lifecycle : String → Option String → ℕ → Interval → Accepted
  media : MediaFrame → Accepted

abbrev pub Result : Type 0 → Type 0
Result = Outcome ProtocolError

unfoldable pub as_object : Json → Result Fields
as_object (object f) = ok f
as_object _ = raise not_an_object

unfoldable pub identity : Json → Result String
identity (text s) = do raise_if (text_len s == 0 || ltb 256 (text_len s)) invalid_identity; ok s
identity _ = raise invalid_identity

unfoldable pub read_event : Decoders → Raw → Result Fields
read_event d raw = do
  raise_if (ltb max_envelope_bytes raw.size) envelope_limit
  elim raw.encoded [
    | none ↦ raise malformed_json
    | some bytes ↦ (do
      raise_if (ltb max_envelope_bytes (length bytes)) envelope_limit
      elim (d.loads bytes) [ none ↦ raise malformed_json | some v ↦ as_object v ])
  ]

-- `s.isascii() and s.isdigit() and len(s) <= n`
unfoldable pub is_digits : ℕ → String → Bool
is_digits n s = not (text_len s == 0) && leb (text_len s) n && is_decimal (codes s)

unfoldable pub sequence_value : Json → Result ℕ
sequence_value (int n) = ok n
sequence_value (text s) = do
  raise_if (not (is_digits 10 s)) invalid_sequence
  ok (decimal 0 (codes s))
sequence_value _ = raise invalid_sequence

abbrev pub last_or_zero : Option ℕ → ℕ
last_or_zero none = 0
last_or_zero (some n) = n

abbrev pub repeats : Option ℕ → ℕ → Bool
repeats none value = false
repeats (some l) value = leb value l

-- The number, and the range of those missed since the last one (since 1 for the first).
unfoldable pub sequence : Session → Fields → Result (ℕ × Interval)
sequence s event = do
  value ← sequence_value (get "sequence_number" event)
  raise_if (value == 0 || ltb max_sequence_number value) invalid_sequence
  raise_if (repeats s.last_sequence value) out_of_order_sequence
  ok (value, record { start = last_or_zero s.last_sequence + 1; end = value })

abbrev bad_party : String → Fields → Bool
bad_party key start =
    has_key key start && elim (get key start) [ text t ↦ ltb 256 (text_len t) | _ ↦ true ]

abbrev bad_custom : Json → Bool
bad_custom (object f) = ltb 3 (count_fields f) || not (only_texts f) || ltb 256 (fields_size f)
bad_custom _ = true

abbrev is_rate : Json → Bool
is_rate (text t) = is_digits 5 t && (decimal 0 (codes t) == 8000)
is_rate v = equals_nat 8000 v

abbrev pub any_text : List String → Json → Bool
any_text names (text t) = one_of t names
any_text names _ = false

abbrev pub is_format : Fields → Bool
is_format f =
    any_text ("raw" ∷ "slin" ∷ "base64" ∷ []) (get "encoding" f)
    && is_rate (get "sample_rate" f)
    && (equals_nat 1 (get_or (int 1) "channels" f) || equals_text "1" (get_or (int 1) "channels" f))
    && (equals_nat 16 (get_or (int 16) "bit_rate" f)
        || any_text ("16" ∷ "128kbps" ∷ []) (get_or (int 16) "bit_rate" f))

-- The checks of the branch of "start", which end in the stream's SID.
unfoldable pub start_sid : Session → Fields → Result String
start_sid s event = do
  raise_if (not (has_keys ("event" ∷ "sequence_number" ∷ "stream_sid" ∷ "start" ∷ []) event))
      invalid_start
  outer_sid ← identity (get "stream_sid" event)
  start ← as_object (get "start" event)
  stream_sid ← identity (get "stream_sid" start)
  raise_if
      (not (stream_sid =? outer_sid)
        || not (equals_text s.call_sid (get "call_sid" start))
        || not (equals_text s.account_sid (get "account_sid" start)))
      identity_mismatch
  raise_if
      (not (
        keys_within
          ("stream_sid" ∷ "call_sid" ∷ "account_sid" ∷ "media_format" ∷ "from" ∷ "to"
            ∷ "custom_parameters" ∷ [])
          start))
      unexpected_fields
  raise_if (bad_party "from" start || bad_party "to" start) invalid_party
  raise_if (bad_custom (get_or (object no_fields) "custom_parameters" start)) invalid_custom
  fmt ← as_object (get "media_format" start)
  raise_if (not (keys_within ("encoding" ∷ "sample_rate" ∷ "bit_rate" ∷ "channels" ∷ []) fmt))
      unexpected_fields
  raise_if (not (is_format fmt)) unsupported_format
  ok stream_sid

unfoldable pub accept_start : Session → Fields → ℕ → Interval → Result (Accepted × Session)
accept_start s event n gaps = do
  raise_if s.started invalid_start
  stream_sid ← start_sid s event
  ok (
    lifecycle "start" (some stream_sid) n gaps,
    record s { stream_sid = some stream_sid; started = true; last_sequence = some n },
  )

-- The checks of the branch of "stop".
unfoldable pub check_stop : Session → Fields → Result (Unit {0})
check_stop s event = do
  raise_if (not (has_keys ("event" ∷ "sequence_number" ∷ "stream_sid" ∷ "stop" ∷ []) event))
      invalid_stop
  stop ← as_object (get "stop" event)
  raise_if
      (not (equals_text s.call_sid (get "call_sid" stop))
        || not (equals_text s.account_sid (get "account_sid" stop)))
      identity_mismatch
  ok tt

unfoldable pub accept_stop : Session → Fields → ℕ → Interval → Result (Accepted × Session)
accept_stop s event n gaps = do
  check_stop s event
  ok (lifecycle "stop" s.stream_sid n gaps, record s { last_sequence = some n; stopped = true })

unfoldable pub read_chunk : Session → Json → Result ℕ
read_chunk s (int n) = do
  raise_if (n == 0 || ltb max_sequence_number n || leb n s.last_chunk) out_of_order_chunk
  ok n
read_chunk s _ = raise out_of_order_chunk

-- A number is of at most seven digits when it is below ten million.
unfoldable pub read_timestamp : Json → Result ℕ
read_timestamp (int n) = do raise_if (ltb 9999999 n) invalid_timestamp; ok n
read_timestamp (text t) = do
  raise_if (not (is_digits 7 t)) invalid_timestamp
  ok (decimal 0 (codes t))
read_timestamp _ = raise invalid_timestamp

unfoldable pub read_payload : Decoders → Json → Result (List ℕ)
read_payload d (text t) = do
  raise_if (ltb 133336 (text_len t)) invalid_payload
  elim (d.b64decode t) [ none ↦ raise invalid_payload | some pcm ↦ ok pcm ]
read_payload d _ = raise invalid_payload

unfoldable pub media_fields : Fields → Result Fields
media_fields event = do
  raise_if (not (has_keys ("event" ∷ "sequence_number" ∷ "stream_sid" ∷ "media" ∷ []) event))
      invalid_media
  fields ← as_object (get "media" event)
  raise_if (not (has_keys ("chunk" ∷ "timestamp" ∷ "payload" ∷ []) fields)) invalid_media
  ok fields

-- The branch of "media".
unfoldable pub accept_media :
    Decoders → Session → Fields → ℕ → Interval → Result (Accepted × Session)
accept_media d s event n gaps = do
  fields ← media_fields event
  chunk ← read_chunk s (get "chunk" fields)
  offset ← read_timestamp (get "timestamp" fields)
  raise_if (ltb offset (last_or_zero s.last_timestamp) || ltb max_duration_ms offset)
      invalid_timestamp
  pcm ← read_payload d (get "payload" fields)
  raise_if (length pcm == 0 || ltb max_frame_bytes (length pcm) || not (length pcm % 2 == 0))
      invalid_payload
  raise_if (ltb (max_duration_ms * 16) (offset * 16 + length pcm)) duration_limit
  raise_if (ltb max_stream_bytes (s.total_bytes + length pcm)) byte_limit
  ok (
    media (record {
      sequence_number = n;
      chunk = chunk;
      stream_offset_ms = offset;
      pcm = pcm;
      missing_sequences = gaps;
      missing_chunks = record { start = s.last_chunk + 1; end = chunk };
    }),
    record s {
      last_sequence = some n;
      last_chunk = chunk;
      last_timestamp = some offset;
      total_bytes = s.total_bytes + length pcm;
    },
  )

abbrev pub is_stream : Option String → Json → Bool
is_stream none v = elim v [ null ↦ true | _ ↦ false ]
is_stream (some sid) v = equals_text sid v

unfoldable pub accept_started :
    Decoders → Session → Fields → Bool → ℕ → Interval → Result (Accepted × Session)
accept_started d s event is_stop n gaps = do
  raise_if (not s.started) start_required
  raise_if (not (is_stream s.stream_sid (get "stream_sid" event))) stream_mismatch
  (if is_stop then accept_stop s event n gaps else accept_media d s event n gaps)

-- An event of another kind than "connected".
unfoldable pub accept_numbered : Decoders → Session → Fields → Result (Accepted × Session)
accept_numbered d s event = do
  raise_if (not s.connected) connected_required
  raise_if (is_unhashable (get "event" event)) type_error
  raise_if (not (any_text ("start" ∷ "media" ∷ "stop" ∷ []) (get "event" event))) unsupported_event
  numbered ← sequence s event
  (if equals_text "start" (get "event" event)
      then accept_start s event numbered.0 numbered.1
      else accept_started d s event (equals_text "stop" (get "event" event)) numbered.0 numbered.1)

unfoldable pub accept_connected : Session → Fields → Result (Accepted × Session)
accept_connected s event = do
  raise_if (s.connected || s.started || not (has_keys ("event" ∷ []) event)) invalid_connected
  ok (nothing, record s { connected = true })

unfoldable pub accept : Decoders → Raw → ℕ → Session → Result (Accepted × Session)
accept d raw generation s = do
  raise_if (not (generation == s.generation)) stale_generation
  raise_if s.stopped event_after_stop
  event ← read_event d raw
  (if equals_text "connected" (get "event" event)
      then accept_connected s event
      else accept_numbered d s event)
