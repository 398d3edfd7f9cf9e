-- ===== src/Transcription/Buffer.antt =====
-- The buffer of a live transcriber, over any run of pushes, finishes and discards.
use mathlib.Core.List.{append_assoc, append-nil}
use real_time_ai_call_audit.Store.{Outcome, ok, raise, ◌>>=◌, >>=-ok, raise_if-ok, ok-injective}
use real_time_ai_call_audit.Prelude.{
  ℕ, zero, suc, ◌+◌, ◌-◌, ◌*◌, ◌/◌, ◌%◌, ◌≤◌, ◌<◌, ◌≡◌, refl, sym, ap, subst, ◌∙◌, ◌⊎◌, inl, inr,
  String, Bool, true, false, not, ◌||◌, Option, none, some, List, [], ◌∷◌, ltb, leb, ◌==◌, length,
  length-append, length-drop, drop-drop, drop-append, drop, ◌++◌, take, select, Bool-cases, arith,
}
use real_time_ai_call_audit.Transcription.{
  TranscriptionError, Times, RawSegment, Utterance, Redacted, normalise_segments, too_many_segments,
}
use real_time_ai_call_audit.Transcription.Live.{
  Limits, Live, Decoded, Matching, Reply, new_state, clear_state, discard, discard_during,
  is_stable, provisional, emit, emit_window, mono, match_normalised, decode_normalised,
  decode_segments, settle, decode_window, advance, prepend, go_on, decode_windows,
  clear_if_discarded, frame_error, buffer_pcm, clear_when, push, push_after, finish_after, finish,
  LiveStep, push_step, finish_step, discard_step, run_step, run_steps,
}

frame_fits :
    (closed empty : Bool) (n : ℕ)
    → (closed || empty || not (n == 0)) ≡ false
    → (closed ≡ false) × (n ≡ 0)
frame_fits true empty n h = cc
frame_fits false true n h = cc
frame_fits false false n h = (refl, ground arith)

nil_of_length : (xs : List ℕ) → length xs ≡ 0 → xs ≡ []
nil_of_length [] e = refl
nil_of_length (x ∷ xs) e = absurd (omega (arith, e))

-- The start of the window after `k` strides.
abbrev pub start_of : Limits → ℕ → ℕ
start_of limits zero = 0
start_of limits (suc k) = start_of limits k + (limits.window_ms - limits.overlap_ms)

module _ {T : Type 0} (limits : Limits) where
  -- The buffer of an open transcriber holds the bytes of the input from the start of its window on,
  -- which is some strides in; after the first window it holds the overlap at least.
  abbrev pub HoldsInput : List ℕ → Live T → Type 0
  HoldsInput input live =
      (live.closed ≡ false)
      × (live.discard_requested ≡ false)
      × (length input ≡ 16 * live.next_input_ms)
      × (16 * live.buffer_start_ms ≤ length input)
      × (live.pcm ≡ drop (16 * live.buffer_start_ms) input)
      × ((live.buffer_start_ms ≡ 0) ⊎ (limits.overlap_ms * 16 ≤ length live.pcm))
      × ((k : ℕ) × (live.buffer_start_ms ≡ start_of limits k))

  -- A closed transcriber buffers nothing, an open one less than a window.
  abbrev pub IsBuffered : List ℕ → Live T → Type 0
  IsBuffered input live =
      ((live.closed ≡ true) × (live.pcm ≡ []))
      ⊎ (HoldsInput input live × (length live.pcm < limits.window_ms * 16))

  -- What a decode leaves of the buffer: nothing, or all of it.
  abbrev Keeps : Live T → Live T → Type 0
  Keeps live decoded =
      ((decoded.closed ≡ true) × (decoded.pcm ≡ []))
      ⊎ ((decoded.closed ≡ live.closed)
          × (decoded.discard_requested ≡ live.discard_requested)
          × (decoded.pcm ≡ live.pcm)
          × (decoded.buffer_start_ms ≡ live.buffer_start_ms)
          × (decoded.next_input_ms ≡ live.next_input_ms))

  module _ (redact : String → Redacted) (digest : String → String) (accepts : Utterance T → Bool)
      (decimal : ℕ → String) (times : Times T) (transcribe : List ℕ → Decoded T) where
    emit_window-Keeps :
        (final : Bool) (live : Live T) (m : Matching T) (result : Live T × List (Utterance T))
        → emit_window redact digest accepts decimal limits times transcribe final live m ≡ ok result
        → Keeps live result.0
    unfolding emit_window
    emit_window-Keeps final live m result e =
        let stable =
          is_stable final (live.buffer_start_ms + limits.window_ms - limits.overlap_ms) in
        let (updates, _, e1) =
          >>=-ok
            (emit redact digest accepts decimal false (provisional stable m.candidates m.observed))
            _ e in
        let (finals, _, e2) =
          >>=-ok (emit redact digest accepts decimal true (select stable m.candidates)) _ e1 in
        subst (λ r. Keeps live r.0) (ok-injective e2) (inr (refl, refl, refl, refl, refl))

    decode_normalised-Keeps :
        (final : Bool) (ms : ℕ) (live : Live T) (raw : List (RawSegment T))
        (result : Live T × List (Utterance T))
        → decode_normalised redact digest accepts decimal limits times transcribe final ms live raw
          ≡ ok result
        → Keeps live result.0
    unfolding decode_normalised
    decode_normalised-Keeps final ms live raw result e =
        let (m, _, e1) =
          >>=-ok
            (normalise_segments times raw
                (mono redact digest accepts decimal limits times transcribe)
              >>= match_normalised redact digest accepts decimal limits times transcribe ms live)
            (emit_window redact digest accepts decimal limits times transcribe final live) e in
        emit_window-Keeps final live m result e1

    decode_segments-Keeps :
        (final : Bool) (ms : ℕ) (live : Live T) (raw : List (RawSegment T))
        (result : Live T × List (Utterance T))
        → decode_segments redact digest accepts decimal limits times transcribe final ms live raw
          ≡ ok result
        → Keeps live result.0
    unfolding decode_segments clear_state
    decode_segments-Keeps final ms live raw result e =
        let (_, e1) =
          raise_if-ok (ltb limits.max_window_segments (length raw)) too_many_segments
            (elim live.discard_requested [
              | true ↦ ok (clear_state live, [])
              | false ↦
                  decode_normalised redact digest accepts decimal limits times transcribe final ms
                    live raw
            ])
            e in
        elim (Bool-cases live.discard_requested) [
          | inl asked ↦
              subst (λ r. Keeps live r.0) (ok-injective (rw asked at e1)) (inl (refl, refl))
          | inr going ↦ decode_normalised-Keeps final ms live raw result (rw going at e1)
        ]

    settle-Keeps :
        (live asked : Live T)
        → Keeps live asked
        → (r : Outcome TranscriptionError (Live T × List (Utterance T)))
        → ((result : Live T × List (Utterance T)) → r ≡ ok result → Keeps asked result.0)
        → Keeps live (settle redact digest accepts decimal limits times transcribe asked r).0
    unfolding clear_state
    settle-Keeps live asked h (raise error) k = inl (refl, refl)
    settle-Keeps live asked h (ok result) k = elim (k result refl) [
      | inl shut ↦ inl shut
      | inr (a, b, c, d, f) ↦ elim h [
        | inl (shut, nothing) ↦ inl (a ∙ shut, c ∙ nothing)
        | inr (a', b', c', d', f') ↦ inr (a ∙ a', b ∙ b', c ∙ c', d ∙ d', f ∙ f')
      ]
    ]

    discard_during-Keeps : (b : Bool) (live : Live T) → Keeps live (discard_during b live)
    unfolding discard_during
    discard_during-Keeps false live = inr (refl, refl, refl, refl, refl)
    discard_during-Keeps true live = inl (refl, refl)

    decode_window-Keeps :
        (final : Bool) (pcm : List ℕ) (live : Live T)
        → Keeps live
            (decode_window redact digest accepts decimal limits times transcribe final pcm live).0
    unfolding decode_window
    decode_window-Keeps final pcm live =
        let asked = discard_during (transcribe pcm).discarded live in
        settle-Keeps live asked (discard_during-Keeps (transcribe pcm).discarded live) _
          (λ result e.
            let (raw, _, e1) =
              >>=-ok (transcribe pcm).segments
                (decode_segments redact digest accepts decimal limits times transcribe final
                  (length pcm / 16) asked)
                e in
            decode_segments-Keeps final (length pcm / 16) asked raw result e1)

    -- Between two turns of the loop.
    abbrev Buffers : List ℕ → Live T → Type 0
    Buffers input live = ((live.closed ≡ true) × (live.pcm ≡ [])) ⊎ HoldsInput input live

    advance-Buffers :
        (input : List ℕ) (live decoded : Live T) (fuel : ℕ)
        → limits.overlap_ms < limits.window_ms
        → limits.window_ms * 16 ≤ length live.pcm
        → length live.pcm ≤ suc fuel
        → Buffers input live
        → Keeps live decoded
        → (length (advance redact digest accepts decimal limits times transcribe decoded).pcm
            ≤ fuel)
          × Buffers input (advance redact digest accepts decimal limits times transcribe decoded)
    unfolding advance
    advance-Buffers input live decoded fuel lt long enough h (inl (shut, nothing)) =
        let cut = length-drop ((limits.window_ms - limits.overlap_ms) * 16) decoded.pcm in
        let none_left = ap length nothing in
        (
          omega (arith, cut, none_left, lt, long, enough),
          inl (shut, nil_of_length _ (omega (arith, cut, none_left))),
        )
    advance-Buffers input live decoded fuel lt long enough (inl (shut, nothing))
          (inr (a, b, c, d, f)) =
        absurd (omega (arith, lt, long, ap length nothing))
    advance-Buffers input live decoded fuel lt long enough
          (inr (x, y, z, low, same_pcm, lap, (k, at))) (inr (a, b, c, d, f)) =
        let stride = limits.window_ms - limits.overlap_ms in
        let cut = length-drop (stride * 16) decoded.pcm in
        let same = ap length c in
        let held = ap length same_pcm ∙ length-drop (16 * live.buffer_start_ms) input in
        let offset : 16 * live.buffer_start_ms + stride * 16
            ≡ 16 * (decoded.buffer_start_ms + stride) =
          omega (arith, d) in
        (
          omega (arith, cut, same, lt, long, enough),
          inr (
            a ∙ x,
            b ∙ y,
            omega (arith, z, f),
            omega (arith, offset, held, long, lt, low),
            ap (drop (stride * 16)) (c ∙ same_pcm)
                ∙ drop-drop (stride * 16) (16 * live.buffer_start_ms) input
                ∙ ap (λ n. drop n input) offset,
            inr (omega (arith, cut, same, lt, long)),
            (suc k, ap (λ n. n + stride) (d ∙ at)),
          ),
        )

    prepend_state :
        (updates : List (Utterance T)) (r : Live T × Reply T)
        → (prepend redact digest accepts decimal limits times transcribe updates r).0 ≡ r.0
    prepend_state updates (live, raise error) = refl
    prepend_state updates (live, ok later) = refl

    go_on-IsBuffered :
        (input : List ℕ) (r : Live T × Reply T) (next : Live T → Live T × Reply T)
        → IsBuffered input
            (next (advance redact digest accepts decimal limits times transcribe r.0)).0
        → IsBuffered input (go_on redact digest accepts decimal limits times transcribe r next).0
    unfolding clear_state
    go_on-IsBuffered input (decoded, raise error) next h = inl (refl, refl)
    go_on-IsBuffered input (decoded, ok updates) next h =
        subst (IsBuffered input) (sym (prepend_state updates (next _))) h

    decode_windows-IsBuffered :
        (input : List ℕ) (fuel : ℕ) (live : Live T)
        → limits.overlap_ms < limits.window_ms
        → length live.pcm ≤ fuel
        → Buffers input live
        → IsBuffered input
            (decode_windows redact digest accepts decimal limits times transcribe fuel live).0
    unfolding decode_windows
    decode_windows-IsBuffered input zero live lt enough (inl h) = inl h
    decode_windows-IsBuffered input zero live lt enough (inr held) =
        inr (held, omega (arith, lt, enough))
    decode_windows-IsBuffered input (suc fuel) live lt enough h =
        elim (Bool-cases (ltb (length live.pcm) (limits.window_ms * 16))) [
          | inl short ↦
              (let low : length live.pcm < limits.window_ms * 16 = ground arith in
                rw (short, decode_windows)
                  (elim h [ inl closed ↦ inl closed | inr held ↦ inr (held, low) ]))
          | inr full ↦
              (let long : limits.window_ms * 16 ≤ length live.pcm = ground arith in
                let r =
                  decode_window redact digest accepts decimal limits times transcribe false
                    (take (limits.window_ms * 16) live.pcm) live in
                let (less, kept) =
                  advance-Buffers input live r.0 fuel lt long enough h
                    (decode_window-Keeps false _ live) in
                rw (full, decode_windows)
                  (go_on-IsBuffered input r
                    (decode_windows redact digest accepts decimal limits times transcribe fuel)
                    (decode_windows-IsBuffered input fuel _ lt less kept)))
        ]

    clear_when-IsBuffered :
        (input : List ℕ) (b : Bool) (live : Live T)
        → IsBuffered input live
        → IsBuffered input (clear_when b live)
    unfolding clear_state
    clear_when-IsBuffered input true live h = inl (refl, refl)
    clear_when-IsBuffered input false live h = h

    clear-IsBuffered :
        (input : List ℕ) (r : Live T × Reply T)
        → IsBuffered input r.0
        → IsBuffered input
            (clear_if_discarded redact digest accepts decimal limits times transcribe r).0
    clear-IsBuffered input (live, reply) h =
        clear_when-IsBuffered input live.discard_requested live h

    -- What `push` accepts is a number of whole milliseconds, into an open transcriber.
    frame_error-none :
        (pcm : List ℕ) (start_ms : ℕ) (live : Live T)
        → frame_error redact digest accepts decimal limits times transcribe pcm start_ms live ≡ none
        → (live.closed ≡ false) × (length pcm % 16 ≡ 0)
    unfolding frame_error
    frame_error-none pcm start_ms live e =
        elim (Bool-cases (live.closed || leb (length pcm) 0 || not (length pcm % 16 == 0))) [
          | inl bad ↦ cc (rw (bad, frame_error) at e)
          | inr fine ↦ frame_fits live.closed (leb (length pcm) 0) (length pcm % 16) fine
        ]

    buffer_pcm-Buffers :
        (input pcm : List ℕ) (live : Live T)
        → length pcm % 16 ≡ 0
        → live.closed ≡ false
        → IsBuffered input live
        → Buffers
            (input ++ pcm)
            (buffer_pcm redact digest accepts decimal limits times transcribe pcm live)
    unfolding buffer_pcm
    buffer_pcm-Buffers input pcm live whole going (inl (shut, nothing)) = cc
    buffer_pcm-Buffers input pcm live whole going (inr ((x, y, z, low, same_pcm, lap, at), w)) =
        let total = length-append input pcm in
        inr (
          x,
          y,
          omega (arith, total, z, whole),
          omega (arith, total, low),
          ap (λ r. r ++ pcm) same_pcm ∙ sym (drop-append (16 * live.buffer_start_ms) input pcm low),
          elim lap [
            | inl first ↦ inl first
            | inr held ↦ inr (omega (arith, held, length-append live.pcm pcm))
          ],
          at,
        )

    -- What a push takes in: its bytes, if it is not refused and no discard was requested.
    abbrev pub input_after : Bool → Option TranscriptionError → List ℕ → List ℕ
    input_after true o pcm = []
    input_after false (some error) pcm = []
    input_after false none pcm = pcm

    abbrev pub input_of : LiveStep → Live T → List ℕ
    input_of (push_step pcm start_ms) live =
        input_after live.discard_requested
          (frame_error redact digest accepts decimal limits times transcribe pcm start_ms live) pcm
    input_of finish_step live = []
    input_of discard_step live = []

    -- The bytes that came in, over all the steps.
    abbrev pub received : List LiveStep → Live T → List ℕ
    received [] live = []
    received (step ∷ steps) live =
        input_of step live
        ++ received steps
            (run_step redact digest accepts decimal limits times transcribe step live).0

    push_after-IsBuffered :
        (b : Bool) (o : Option TranscriptionError) (input pcm : List ℕ) (start_ms : ℕ)
        (live : Live T)
        → limits.overlap_ms < limits.window_ms
        → frame_error redact digest accepts decimal limits times transcribe pcm start_ms live ≡ o
        → IsBuffered input live
        → IsBuffered
            (input ++ input_after b o pcm)
            (push_after redact digest accepts decimal limits times transcribe b o pcm live).0
    unfolding clear_state
    push_after-IsBuffered true o input pcm start_ms live lt e h = inl (refl, refl)
    push_after-IsBuffered false (some error) input pcm start_ms live lt e h =
        rw (append-nil input) h
    push_after-IsBuffered false none input pcm start_ms live lt e h =
        let (going, whole) = frame_error-none pcm start_ms live e in
        clear-IsBuffered (input ++ pcm)
          (decode_windows redact digest accepts decimal limits times transcribe _ _)
          (decode_windows-IsBuffered (input ++ pcm) _ _ lt (omega arith)
            (buffer_pcm-Buffers input pcm live whole going h))

    finish_after-IsBuffered :
        (input : List ℕ) (b : Bool) (live : Live T)
        → IsBuffered input live
        → IsBuffered input
            (finish_after redact digest accepts decimal limits times transcribe b live).0
    unfolding clear_state
    finish_after-IsBuffered input true live h =
        clear_when-IsBuffered input live.discard_requested live h
    finish_after-IsBuffered input false live h = inl (refl, refl)

    run_step-IsBuffered :
        (input : List ℕ) (step : LiveStep) (live : Live T)
        → limits.overlap_ms < limits.window_ms
        → IsBuffered input live
        → IsBuffered
            (input ++ input_of step live)
            (run_step redact digest accepts decimal limits times transcribe step live).0
    unfolding run_step push finish discard
    run_step-IsBuffered input (push_step pcm start_ms) live lt h =
        push_after-IsBuffered _ _ input pcm start_ms live lt refl h
    run_step-IsBuffered input finish_step live lt h =
        rw (append-nil input) (finish_after-IsBuffered input live.closed live h)
    run_step-IsBuffered input discard_step live lt h = inl (refl, refl)

    run_steps_from :
        (input : List ℕ) (steps : List LiveStep) (live : Live T)
        → limits.overlap_ms < limits.window_ms
        → IsBuffered input live
        → IsBuffered
            (input ++ received steps live)
            (run_steps redact digest accepts decimal limits times transcribe steps live)
    unfolding run_steps
    run_steps_from input [] live lt h = rw (append-nil input) h
    run_steps_from input (step ∷ steps) live lt h =
        let next = (run_step redact digest accepts decimal limits times transcribe step live).0 in
        subst
          (λ all_input.
            IsBuffered all_input
              (run_steps redact digest accepts decimal limits times transcribe steps next))
          (append_assoc input (input_of step live) (received steps next))
          (run_steps_from (input ++ input_of step live) steps next lt
            (run_step-IsBuffered input step live lt h))

    -- After any pushes, finishes and discards of a new transcriber whose windows overlap in less than a
    -- window: it is closed and buffers nothing, or it is open, and its buffer holds exactly the bytes of
    -- all accepted pushes, in their order, less those before the start of its window (16 a
    -- millisecond); the start is a whole number of strides, and the buffer has less than a window, and
    -- at least the overlap if the start is not 0. The loop of `push` thus ends by its own test,
    -- whatever the model answers.
    pub run_steps-IsBuffered :
        (steps : List LiveStep)
        → limits.overlap_ms < limits.window_ms
        → IsBuffered
            (received steps new_state)
            (run_steps redact digest accepts decimal limits times transcribe steps new_state)
    run_steps-IsBuffered steps lt =
        run_steps_from [] steps new_state lt (
          inr
            ((refl, refl, omega arith, omega arith, refl, inl refl, (0, refl)), omega (arith, lt)))
