-- ===== src/Exotel/Steps.antt =====
-- What the stream parser accepts, as the transitions of a state machine.
use real_time_ai_call_audit.Prelude.{
  ℕ, ◌+◌, ◌*◌, ◌%◌, ◌≤◌, ◌<◌, ◌≡◌, refl, sym, subst, String, Bool, true, false, not, ◌||◌, Option,
  none, some, [], ◌∷◌, ◌==◌, ltb, leb, arith, length, Bool-cases, inl, inr,
}
use real_time_ai_call_audit.Store.{ok, raise_if-ok, >>=-ok, ok-injective}
use real_time_ai_call_audit.Intervals.{Interval}
use real_time_ai_call_audit.Exotel.{
  Decoders, Raw, Session, MediaFrame, Accepted, nothing, lifecycle, media, accept, last_or_zero,
  max_sequence_number, max_stream_bytes, max_frame_bytes, max_duration_ms, sequence, accept_start,
  accept_stop, accept_media, accept_started, accept_numbered, accept_connected, read_event,
  start_sid, check_stop, media_fields, is_stream, any_text, stream_mismatch, type_error,
  unsupported_event, repeats, read_chunk, sequence_value, read_timestamp, read_payload,
  invalid_sequence, out_of_order_sequence, invalid_connected, invalid_start, out_of_order_chunk,
  invalid_timestamp, invalid_payload, duration_limit, byte_limit, start_required,
  connected_required, stale_generation, event_after_stop,
}
use real_time_ai_call_audit.Exotel.Values.{
  Fields, Json, null, negative, array, boolean, int, float, text, object, get, has_keys,
  is_unhashable, equals_text,
}

-- The number is behind the last one and in range.
abbrev pub IsNext : Session → ℕ → Type 0
IsNext s n = (last_or_zero s.last_sequence < n) × (n ≤ max_sequence_number)

abbrev pub missed : Session → ℕ → Interval
missed s n = record { start = last_or_zero s.last_sequence + 1; end = n }

-- A frame that may follow in the session.
abbrev pub IsFrame : Session → MediaFrame → Type 0
IsFrame s f =
    (s.last_chunk < f.chunk)
    × (f.missing_chunks ≡ record { start = s.last_chunk + 1; end = f.chunk })
    × (f.missing_sequences ≡ missed s f.sequence_number)
    × (last_or_zero s.last_timestamp ≤ f.stream_offset_ms)
    × (0 < length f.pcm)
    × (length f.pcm % 2 ≡ 0)
    × (length f.pcm ≤ max_frame_bytes)
    × (f.stream_offset_ms * 16 + length f.pcm ≤ max_duration_ms * 16)
    × (s.total_bytes + length f.pcm ≤ max_stream_bytes)

-- The transitions of a session.
pub data Step (s : Session) : Accepted → Session → Type 0 where
  connects :
      s.connected ≡ false → s.started ≡ false → Step s nothing (record s { connected = true })
  starts :
      (sid : String) (n : ℕ)
      → s.connected ≡ true
      → s.started ≡ false
      → IsNext s n
      → Step s
          (lifecycle "start" (some sid) n (missed s n))
          (record s { stream_sid = some sid; started = true; last_sequence = some n })
  streams :
      (f : MediaFrame)
      → s.connected ≡ true
      → s.started ≡ true
      → IsNext s f.sequence_number
      → IsFrame s f
      → Step s (media f) (record s {
        last_sequence = some f.sequence_number;
        last_chunk = f.chunk;
        last_timestamp = some f.stream_offset_ms;
        total_bytes = s.total_bytes + length f.pcm;
      })
  stops :
      (n : ℕ)
      → s.connected ≡ true
      → s.started ≡ true
      → IsNext s n
      → Step s
          (lifecycle "stop" s.stream_sid n (missed s n))
          (record s { last_sequence = some n; stopped = true })

abbrev Steps : Session → Accepted × Session → Type 0
Steps s r = Step s r.0 r.1

behind : (o : Option ℕ) (n : ℕ) → repeats o n ≡ false → (n == 0) ≡ false → last_or_zero o < n
behind none n h z = ground arith
behind (some l) n h z = ground arith

sequence-IsNext :
    (s : Session) (event : Fields) (r : ℕ × Interval)
    → sequence s event ≡ ok r
    → IsNext s r.0 × (missed s r.0 ≡ r.1)
unfolding sequence
sequence-IsNext s event r e =
    let (n, _, e1) = >>=-ok (sequence_value (get "sequence_number" event)) _ e in
    let (bounded, e2) = raise_if-ok (n == 0 || ltb max_sequence_number n) invalid_sequence _ e1 in
    let (fresh, e3) = raise_if-ok (repeats s.last_sequence n) out_of_order_sequence _ e2 in
    subst (λ (q : ℕ × Interval). IsNext s q.0 × (missed s q.0 ≡ q.1)) (ok-injective e3)
      ((behind s.last_sequence n fresh (ground arith), ground arith), refl)

connected-Step :
    (s : Session) (event : Fields) {r : Accepted × Session}
    → accept_connected s event ≡ ok r
    → Steps s r
unfolding accept_connected
connected-Step s event e =
    let (fresh, e1) =
      raise_if-ok (s.connected || s.started || not (has_keys ("event" ∷ []) event))
        invalid_connected _ e in
    subst (Steps s) (ok-injective e1) (connects (ground arith) (ground arith))

start-Step :
    (s : Session) (event : Fields) (n : ℕ) {r : Accepted × Session}
    → s.connected ≡ true
    → IsNext s n
    → accept_start s event n (missed s n) ≡ ok r
    → Steps s r
unfolding accept_start
start-Step s event n c next e =
    let (fresh, e1) = raise_if-ok s.started invalid_start _ e in
    let (sid, _, e2) = >>=-ok (start_sid s event) _ e1 in
    subst (Steps s) (ok-injective e2) (starts sid n c fresh next)

stop-Step :
    (s : Session) (event : Fields) (n : ℕ) {r : Accepted × Session}
    → s.connected ≡ true
    → s.started ≡ true
    → IsNext s n
    → accept_stop s event n (missed s n) ≡ ok r
    → Steps s r
unfolding accept_stop
stop-Step s event n c started next e =
    let (_, _, e1) = >>=-ok (check_stop s event) _ e in
    subst (Steps s) (ok-injective e1) (stops n c started next)

read_chunk_lem :
    (s : Session) (v : Json) (chunk : ℕ) → read_chunk s v ≡ ok chunk → s.last_chunk < chunk
unfolding read_chunk
read_chunk_lem s (int n) chunk e =
    let (bounded, e1) =
      raise_if-ok (n == 0 || ltb max_sequence_number n || leb n s.last_chunk) out_of_order_chunk _
        e in
    subst (λ k. s.last_chunk < k) (ok-injective e1) (ground arith)
read_chunk_lem s null chunk e = cc
read_chunk_lem s negative chunk e = cc
read_chunk_lem s array chunk e = cc
read_chunk_lem s (boolean b) chunk e = cc
read_chunk_lem s (float f) chunk e = cc
read_chunk_lem s (text x) chunk e = cc
read_chunk_lem s (object f) chunk e = cc

media-Step :
    (d : Decoders) (s : Session) (event : Fields) (n : ℕ) {r : Accepted × Session}
    → s.connected ≡ true
    → s.started ≡ true
    → IsNext s n
    → accept_media d s event n (missed s n) ≡ ok r
    → Steps s r
unfolding accept_media
media-Step d s event n c started next e =
    let (fields, _, e3) = >>=-ok (media_fields event) _ e in
    let (chunk, chunked, e4) = >>=-ok (read_chunk s (get "chunk" fields)) _ e3 in
    let (offset, _, e5) = >>=-ok (read_timestamp (get "timestamp" fields)) _ e4 in
    let (timely, e6) =
      raise_if-ok (ltb offset (last_or_zero s.last_timestamp) || ltb max_duration_ms offset)
        invalid_timestamp _ e5 in
    let (pcm, _, e7) = >>=-ok (read_payload d (get "payload" fields)) _ e6 in
    let (sized, e8) =
      raise_if-ok (length pcm == 0 || ltb max_frame_bytes (length pcm) || not (length pcm % 2 == 0))
        invalid_payload _ e7 in
    let (within, e9) =
      raise_if-ok (ltb (max_duration_ms * 16) (offset * 16 + length pcm)) duration_limit _ e8 in
    let (room, e10) =
      raise_if-ok (ltb max_stream_bytes (s.total_bytes + length pcm)) byte_limit _ e9 in
    let later = read_chunk_lem s (get "chunk" fields) chunk chunked in
    subst (Steps s) (ok-injective e10) (
      streams _ c started next (
        later,
        refl,
        refl,
        ground arith,
        ground arith,
        ground arith,
        ground arith,
        ground arith,
        ground arith,
      ))

started-Step :
    (d : Decoders) (s : Session) (event : Fields) (is_stop : Bool) (n : ℕ) {r : Accepted × Session}
    → s.connected ≡ true
    → IsNext s n
    → accept_started d s event is_stop n (missed s n) ≡ ok r
    → Steps s r
unfolding accept_started
started-Step d s event is_stop n c next e =
    let (on, e1) = raise_if-ok (not s.started) start_required _ e in
    let (_, e2) =
      raise_if-ok (not (is_stream s.stream_sid (get "stream_sid" event))) stream_mismatch _ e1 in
    let started : s.started ≡ true = ground arith in
    elim (Bool-cases is_stop) [
      | inl hit ↦ stop-Step s event n c started next (rw hit at e2)
      | inr miss ↦ media-Step d s event n c started next (rw miss at e2)
    ]

numbered-Step :
    (d : Decoders) (s : Session) (event : Fields) {r : Accepted × Session}
    → accept_numbered d s event ≡ ok r
    → Steps s r
unfolding accept_numbered
numbered-Step d s event e =
    let (on, e1) = raise_if-ok (not s.connected) connected_required _ e in
    let (_, e2) = raise_if-ok (is_unhashable (get "event" event)) type_error _ e1 in
    let (_, e3) =
      raise_if-ok (not (any_text ("start" ∷ "media" ∷ "stop" ∷ []) (get "event" event)))
        unsupported_event _ e2 in
    let (q, found, e4) = >>=-ok (sequence s event) _ e3 in
    let (next, gaps) = sequence-IsNext s event q found in
    let c : s.connected ≡ true = ground arith in
    elim (Bool-cases (equals_text "start" (get "event" event))) [
      | inl hit ↦ start-Step s event q.0 c next (rw (hit, sym gaps) at e4)
      | inr miss ↦ started-Step d s event _ q.0 c next (rw (miss, sym gaps) at e4)
    ]

-- Whatever `accept` accepts is a transition of the session's state machine: the generation is the
-- session's, which has not stopped, and the event connects first, starts once, or, once started,
-- streams a frame or stops. Sequence numbers, chunks and times go forward, the ranges reported as
-- missing are exactly those between the last number and the new one, and a frame is of whole
-- samples and within the limits of its size, of the stream's duration and of its bytes.
pub accept-Step :
    (d : Decoders) (raw : Raw) (generation : ℕ) (s s' : Session) (a : Accepted)
    → accept d raw generation s ≡ ok (a, s')
    → ((generation == s.generation) ≡ true) × (s.stopped ≡ false) × Step s a s'
unfolding accept
accept-Step d raw generation s s' a e =
    let (fresh, e1) = raise_if-ok (not (generation == s.generation)) stale_generation _ e in
    let (open_yet, e2) = raise_if-ok s.stopped event_after_stop _ e1 in
    let (event, _, e3) = >>=-ok (read_event d raw) _ e2 in
    (
      ground arith,
      open_yet,
      elim (Bool-cases (equals_text "connected" (get "event" event))) [
        | inl hit ↦ connected-Step s event (rw hit at e3)
        | inr miss ↦ numbered-Step d s event (rw miss at e3)
      ],
    )
