-- ===== src/Transcription/Live.antt =====
-- `LiveWindowTranscriber`: PCM of 16 bytes per millisecond, decoded in overlapping windows. The lock is
-- held by `push` and `finish`; a `discard` from another thread during a decode comes with the model's
-- answer. A call returns the new state with what it returns or raises.
use real_time_ai_call_audit.Store.{Outcome, ok, raise, ◌>>=◌, ◌>>◌, raise_if}
use real_time_ai_call_audit.Prelude.{
  ℕ, zero, suc, ◌+◌, ◌-◌, ◌*◌, ◌/◌, ◌%◌, String, Bool, true, false, not, ◌&&◌, ◌||◌, Option, none,
  some, List, [], ◌∷◌, ◌++◌, map, if◌then◌else◌, ltb, leb, ◌==◌, length, take, drop, any, select,
  sum, text_len, ◌=?◌, join_text,
}
use real_time_ai_call_audit.Transcription.{
  TranscriptionError, unsupported_language, invalid_frame, oversized_or_out_of_order,
  duration_limit, too_many_segments, timing_outside_window, too_much_text, candidate_limit,
  redaction_failed, Times, RawSegment, Segment, Utterance, Redacted, Channel, redacted_or_raise,
  normalise_segments,
}

-- The constants of the class, and MAX_DURATION_MS.
pub record Limits : Type 0 where
  pub window_ms : ℕ
  pub overlap_ms : ℕ
  pub max_input_chunk_bytes : ℕ
  pub max_window_segments : ℕ
  pub max_window_text_chars : ℕ
  pub max_pending_segments : ℕ
  pub max_duration_ms : ℕ

abbrev pub standard : Limits
standard = record {
  window_ms = 4000;
  overlap_ms = 1000;
  max_input_chunk_bytes = 100000;
  max_window_segments = 100;
  max_window_text_chars = 20000;
  max_pending_segments = 200;
  max_duration_ms = 7200000;
}

-- A candidate; its id is f"live-{number}".
pub record Candidate (T : Type 0) : Type 0 where
  pub number : ℕ
  pub start_ms : ℕ
  pub end_ms : ℕ
  pub text : String
  pub confidence : Option T
  pub emitted_text : Option String

pub record Live (T : Type 0) : Type 0 where
  pub pcm : List ℕ
  pub buffer_start_ms : ℕ
  pub next_input_ms : ℕ
  pub next_id : ℕ
  pub pending : List (Candidate T)
  pub closed : Bool
  pub discard_requested : Bool

-- The model's answer: the segments, or a failure, and whether a discard came meanwhile.
pub record Decoded (T : Type 0) : Type 0 where
  pub segments : Outcome TranscriptionError (List (RawSegment T))
  pub discarded : Bool

-- The candidates, the last number, and the observed indices in their order.
pub record Matching (T : Type 0) : Type 0 where
  pub candidates : List (Candidate T)
  pub last_number : ℕ
  pub observed : List ℕ

-- abs(a - b) <= 1000
abbrev is_near : ℕ → ℕ → Bool
is_near a b = leb (a - b) 1000 && leb (b - a) 1000

-- What the stream's handler does with a transcriber.
pub data LiveStep : Type 0 where
  push_step : List ℕ → ℕ → LiveStep
  finish_step discard_step : LiveStep

abbrev pub Reply : Type 0 → Type 0
Reply T = Outcome TranscriptionError (List (Utterance T))

abbrev pub new_state : {T : Type 0} → Live T
new_state = record {
  pcm = [];
  buffer_start_ms = 0;
  next_input_ms = 0;
  next_id = 0;
  pending = [];
  closed = false;
  discard_requested = false;
}

unfoldable pub new_transcriber : {T : Type 0} → String → Outcome TranscriptionError (Live T)
new_transcriber language =
    raise_if (leb (text_len language) 0 || ltb 32 (text_len language)) unsupported_language
    >> ok new_state

module _ {T : Type 0} where
  -- `_clear_state`; `_pending.clear()` and `_pcm.clear()` after an error are the same with `closed`.
  unfoldable pub clear_state : Live T → Live T
  clear_state live = record live { closed = true; pcm = []; pending = [] }

  abbrev pub clear_when : Bool → Live T → Live T
  clear_when true live = clear_state live
  clear_when false live = live

  -- `discard` while no call holds the lock.
  unfoldable pub discard : Live T → Live T
  discard live = record live { discard_requested = true; closed = true; pcm = []; pending = [] }

  -- `discard` while a call holds it: the candidates stay.
  unfoldable pub discard_during : Bool → Live T → Live T
  discard_during false live = live
  discard_during true live = record live { discard_requested = true; closed = true; pcm = [] }

  abbrev overlaps : ℕ → ℕ → Candidate T → Bool
  overlaps start_ms end_ms c =
      is_near c.start_ms start_ms && ltb c.start_ms end_ms && ltb start_ms c.end_ms

  -- The first candidate that the segment continues; `index` counts, `observed` has the taken ones.
  unfoldable pub find_match : ℕ → List ℕ → ℕ → ℕ → List (Candidate T) → Option ℕ
  find_match index observed start_ms end_ms [] = none
  find_match index observed start_ms end_ms (c ∷ pending) =
      let rest = find_match (suc index) observed start_ms end_ms pending in
      if not (any (λ i. i == index) observed) && overlaps start_ms end_ms c
      then some index
      else rest

  unfoldable pub update_at :
      ℕ → (Candidate T → Candidate T) → List (Candidate T) → List (Candidate T)
  update_at n f [] = []
  update_at zero f (c ∷ pending) = f c ∷ pending
  update_at (suc n) f (c ∷ pending) = c ∷ update_at n f pending

  abbrev new_candidate : ℕ → ℕ → ℕ → Segment T → Candidate T
  new_candidate number start_ms end_ms segment = record {
    number = number;
    start_ms = start_ms;
    end_ms = end_ms;
    text = segment.text;
    confidence = segment.confidence;
    emitted_text = none;
  }

  abbrev moved : ℕ → ℕ → Segment T → Candidate T → Candidate T
  moved start_ms end_ms segment c = record c {
    start_ms = start_ms;
    end_ms = end_ms;
    text = segment.text;
  }

  -- The body of the loop over the window's segments.
  unfoldable pub match_segment :
      Limits → ℕ → Segment T → Matching T → Outcome TranscriptionError (Matching T)
  match_segment limits window_start segment m =
      let start_ms = window_start + segment.start_ms in
      let end_ms = window_start + segment.end_ms in
      elim (find_match 0 m.observed start_ms end_ms m.candidates) [
        | none ↦
            raise_if (leb limits.max_pending_segments (length m.candidates)) candidate_limit
            >> ok (record {
              candidates =
                  m.candidates ++ new_candidate (suc m.last_number) start_ms end_ms segment ∷ [];
              last_number = suc m.last_number;
              observed = m.observed ++ length m.candidates ∷ [];
            })
        | some index ↦ ok (record {
          candidates = update_at index (moved start_ms end_ms segment) m.candidates;
          last_number = m.last_number;
          observed = m.observed ++ index ∷ [];
        })
      ]

  unfoldable pub match_segments :
      Limits → ℕ → List (Segment T) → Matching T → Outcome TranscriptionError (Matching T)
  match_segments limits window_start [] m = ok m
  match_segments limits window_start (segment ∷ segments) m =
      match_segment limits window_start segment m >>= match_segments limits window_start segments

  abbrev pub is_stable : Bool → ℕ → Candidate T → Bool
  is_stable final next_start c = final || leb c.end_ms next_start

  -- The observed candidates that are not stable, in the order of their observation.
  unfoldable pub nth : ℕ → List (Candidate T) → Option (Candidate T)
  nth n [] = none
  nth zero (c ∷ cs) = some c
  nth (suc n) (c ∷ cs) = nth n cs

  unfoldable pub provisional :
      (Candidate T → Bool) → List (Candidate T) → List ℕ → List (Candidate T)
  provisional stable candidates [] = []
  provisional stable candidates (i ∷ observed) =
      let rest = provisional stable candidates observed in
      elim (nth i candidates) [ none ↦ rest | some c ↦ if stable c then rest else c ∷ rest ]

  -- What an emission leaves in an observed candidate: its text is the emitted one.
  unfoldable pub mark_emitted : ℕ → List ℕ → List (Candidate T) → List (Candidate T)
  mark_emitted index observed [] = []
  mark_emitted index observed (c ∷ candidates) =
      (if any (λ i. i == index) observed then record c { emitted_text = some c.text } else c)
      ∷ mark_emitted (suc index) observed candidates

  unfoldable pub is_new_text : Candidate T → Bool
  is_new_text c = elim c.emitted_text [ none ↦ true | some text ↦ not (text =? c.text) ]

  module _ (redact : String → Redacted) (digest : String → String) (accepts : Utterance T → Bool)
      (decimal : ℕ → String) where
    unfoldable pub emit_candidate : Bool → Candidate T → Outcome TranscriptionError (Utterance T)
    emit_candidate final c =
        redacted_or_raise redaction_failed redaction_failed (redact c.text) >>= λ text.
        (let segment_id = join_text "live-" (decimal c.number) in
          let utterance : Utterance T = record {
            id = digest segment_id;
            role = "UNKNOWN";
            start_ms = c.start_ms;
            end_ms = c.end_ms;
            text_redacted = text;
            is_final = final;
            segment_id = segment_id;
            speaker_id = "mono-unknown";
            confidence = c.confidence;
          } in
          raise_if (not (accepts utterance)) redaction_failed >> ok utterance)

    unfoldable pub emit_all : Bool → List (Candidate T) → Reply T
    emit_all final [] = ok []
    emit_all final (c ∷ candidates) = emit_candidate final c >>= λ utterance.
        emit_all final candidates >>= λ utterances. ok (utterance ∷ utterances)

    -- `_emit`. A candidate that was emitted as final is kept no more, so `_emitted_final` is no field.
    unfoldable pub emit : Bool → List (Candidate T) → Reply T
    emit true candidates = emit_all true candidates
    emit false candidates = emit_all false (select is_new_text candidates)

    module _ (limits : Limits) (times : Times T) (transcribe : List ℕ → Decoded T) where
      abbrev pub mono : Channel
      mono = record { role_of = λ _. none; index = none; decimal = decimal }

      abbrev pub stride_ms : ℕ
      stride_ms = limits.window_ms - limits.overlap_ms

      -- The end of `_decode_window`, with the candidates matched.
      unfoldable pub emit_window :
          Bool → Live T → Matching T → Outcome TranscriptionError (Live T × List (Utterance T))
      emit_window final live m =
          let stable =
            is_stable final (live.buffer_start_ms + limits.window_ms - limits.overlap_ms) in
          emit false (provisional stable m.candidates m.observed) >>= λ updates.
          emit true (select stable m.candidates) >>= λ finals. ok (
            record live {
              pending = select (λ c. not (stable c)) (mark_emitted 0 m.observed m.candidates);
              next_id = m.last_number;
            },
            updates ++ finals,
          )

      abbrev outside : ℕ → Segment T → Bool
      outside duration_ms segment =
          ltb duration_ms segment.start_ms || ltb duration_ms segment.end_ms

      -- The tests of the normalised segments, and the matching.
      unfoldable pub match_normalised :
          ℕ → Live T → List (Segment T) → Outcome TranscriptionError (Matching T)
      match_normalised duration_ms live segments =
          raise_if (any (outside duration_ms) segments) timing_outside_window
          >> raise_if (ltb limits.max_window_text_chars (sum (map (λ s. text_len s.text) segments)))
              too_much_text
          >> match_segments limits live.buffer_start_ms segments
              (record { candidates = live.pending; last_number = live.next_id; observed = [] })

      -- `_decode_window` from the normalised segments on.
      unfoldable pub decode_normalised :
          Bool
          → ℕ
          → Live T
          → List (RawSegment T)
          → Outcome TranscriptionError (Live T × List (Utterance T))
      decode_normalised final duration_ms live raw =
          (normalise_segments times raw mono >>= match_normalised duration_ms live)
          >>= emit_window final live

      -- `_decode_window` after the model's answer.
      unfoldable pub decode_segments :
          Bool
          → ℕ
          → Live T
          → List (RawSegment T)
          → Outcome TranscriptionError (Live T × List (Utterance T))
      decode_segments final duration_ms live raw =
          raise_if (ltb limits.max_window_segments (length raw)) too_many_segments
          >> (elim live.discard_requested [
            | true ↦ ok (clear_state live, [])
            | false ↦ decode_normalised final duration_ms live raw
          ])

      abbrev pub settle :
          Live T → Outcome TranscriptionError (Live T × List (Utterance T)) → Live T × Reply T
      settle asked (raise error) = (clear_state asked, raise error)
      settle asked (ok (decoded, updates)) = (decoded, ok updates)

      -- `_decode_window`. The state after an error is cleared here, as every caller does.
      unfoldable pub decode_window : Bool → List ℕ → Live T → Live T × Reply T
      decode_window final pcm live =
          let answer = transcribe pcm in
          let asked = discard_during answer.discarded live in
          settle asked (answer.segments >>= decode_segments final (length pcm / 16) asked)

      abbrev pub window_bytes : ℕ
      window_bytes = limits.window_ms * 16

      abbrev pub stride_bytes : ℕ
      stride_bytes = stride_ms * 16

      -- `del self._pcm[:stride_bytes]` with the start of what is left.
      unfoldable pub advance : Live T → Live T
      advance live = record live {
        pcm = drop stride_bytes live.pcm;
        buffer_start_ms = live.buffer_start_ms + stride_ms;
      }

      abbrev pub prepend : List (Utterance T) → Live T × Reply T → Live T × Reply T
      prepend updates (live, raise error) = (live, raise error)
      prepend updates (live, ok later) = (live, ok (updates ++ later))

      abbrev pub go_on : Live T × Reply T → (Live T → Live T × Reply T) → Live T × Reply T
      go_on (decoded, raise error) next = (clear_state decoded, raise error)
      go_on (decoded, ok updates) next = prepend updates (next (advance decoded))

      -- The loop, on fuel: each turn takes a stride, so the number of buffered bytes is enough.
      unfoldable pub decode_windows : ℕ → Live T → Live T × Reply T
      decode_windows zero live = (live, ok [])
      decode_windows (suc fuel) live = elim (ltb (length live.pcm) window_bytes) [
        | true ↦ (live, ok [])
        | false ↦
            go_on (decode_window false (take window_bytes live.pcm) live) (decode_windows fuel)
      ]

      -- The `finally` of `push` and `finish`.
      abbrev pub clear_if_discarded : Live T × Reply T → Live T × Reply T
      clear_if_discarded (live, reply) = (clear_when live.discard_requested live, reply)

      -- What makes `push` refuse its bytes.
      unfoldable pub frame_error : List ℕ → ℕ → Live T → Option TranscriptionError
      frame_error pcm start_ms live =
          if live.closed || leb (length pcm) 0 || not (length pcm % 16 == 0)
          then some invalid_frame
          else if ltb limits.max_input_chunk_bytes (length pcm)
              || not (start_ms == live.next_input_ms)
          then some oversized_or_out_of_order
          else if ltb limits.max_duration_ms (live.next_input_ms + length pcm / 16)
          then some duration_limit
          else none

      unfoldable pub buffer_pcm : List ℕ → Live T → Live T
      buffer_pcm pcm live = record live {
        next_input_ms = live.next_input_ms + length pcm / 16;
        pcm = live.pcm ++ pcm;
      }

      -- By whether a discard was requested, and by what is wrong with the frame.
      abbrev pub push_after : Bool → Option TranscriptionError → List ℕ → Live T → Live T × Reply T
      push_after true error pcm live = (clear_state live, ok [])
      push_after false (some error) pcm live = (live, raise error)
      push_after false none pcm live =
          clear_if_discarded
            (decode_windows (length (buffer_pcm pcm live).pcm) (buffer_pcm pcm live))

      unfoldable pub push : List ℕ → ℕ → Live T → Live T × Reply T
      push pcm start_ms live =
          push_after live.discard_requested (frame_error pcm start_ms live) pcm live

      abbrev is_empty : List (Candidate T) → Bool
      is_empty [] = true
      is_empty (c ∷ cs) = false

      -- A tail shorter than 100 ms is ignored.
      unfoldable pub finish_reply : Live T → Live T × Reply T
      finish_reply live =
          if leb 1600 (length live.pcm)
          then decode_window true live.pcm live
          else if is_empty live.pending
          then (live, ok [])
          else (live, emit true live.pending)

      abbrev pub finish_after : Bool → Live T → Live T × Reply T
      finish_after true live = (clear_when live.discard_requested live, ok [])
      finish_after false live =
          let done = finish_reply (record live { closed = true }) in (clear_state done.0, done.1)

      unfoldable pub finish : Live T → Live T × Reply T
      finish live = finish_after live.closed live

      unfoldable pub run_step : LiveStep → Live T → Live T × Reply T
      run_step (push_step pcm start_ms) live = push pcm start_ms live
      run_step finish_step live = finish live
      run_step discard_step live = (discard live, ok [])

      unfoldable pub run_steps : List LiveStep → Live T → Live T
      run_steps [] live = live
      run_steps (step ∷ steps) live = run_steps steps (run_step step live).0
