-- ===== src/Disposition/Grounded.antt =====
-- The evidence of a classification: every id that a signal names is that of an utterance of the call.
use real_time_ai_call_audit.Store.{ok, ok-injective, >>=-ok}
use real_time_ai_call_audit.Prelude.{
  String, true, ◌≡◌, refl, sym, ap, subst, ◌∙◌, inl, inr, Option, none, some, List, [], ◌∷◌, ◌++◌,
  map, All, one_of, eq_iff, sort_by, All-sort_by, Bool-cases, Option-cases, some_eq, arith,
}
use real_time_ai_call_audit.Disposition.{
  Floats, Signal, SignalType, Dict, Config, DispositionResult,
}
use real_time_ai_call_audit.Disposition.Rules.{
  resolve_disposition, review_result, serialize_signals, same_keys,
}
use real_time_ai_call_audit.Disposition.Turns.{Utterance, Turn, group_speaker_turns, make_windows}
use real_time_ai_call_audit.Disposition.Classify.{
  Adapter, traverse, flatten, validated_signal, validated_signals, item_before, sorted_items,
  is_front_gate, ask, conclude, conclude_combined, combine_outputs, classify_windows,
  classify_transcript, classify_disposition, transcript_reason,
}
use real_time_ai_call_audit.Disposition.Evidence.{
  traverse_lem, IsGrounded, AreGrounded, validated_signal-IsGrounded, All-flatten,
  aggregate-IsGrounded, resolve_disposition-AreGrounded,
}
use real_time_ai_call_audit.Disposition.Windows.{All-make_windows}
use real_time_ai_call_audit.Disposition.Grouping.{ids_of, ids_of-group_speaker_turns}

module _ (Q : String → Type 0) where
  All-left : (xs ys : List String) → All Q (xs ++ ys) → All Q xs
  All-left [] ys h = tt
  All-left (x ∷ xs) ys h = (h.0, All-left xs ys h.1)

  All-right : (xs ys : List String) → All Q (xs ++ ys) → All Q ys
  All-right [] ys h = h
  All-right (x ∷ xs) ys h = All-right xs ys h.1

  -- The property of a turn: its utterances' ids have the property.
  abbrev IsOwn : Turn → Type 0
  IsOwn turn = All Q turn.utterance_ids

  All-ids_of : (turns : List Turn) → All Q (ids_of turns) → All IsOwn turns
  All-ids_of [] h = tt
  All-ids_of (turn ∷ turns) h = (
    All-left turn.utterance_ids (ids_of turns) h,
    All-ids_of turns (All-right turn.utterance_ids (ids_of turns) h),
  )

  All-ids : (items : List Utterance) → All (λ i. Q i.id) items → All Q (map (λ i. i.id) items)
  All-ids [] h = tt
  All-ids (i ∷ items) h = (h.0, All-ids items h.1)

  group_speaker_turns-IsOwn :
      (items : List Utterance)
      → All (λ i. Q i.id) items
      → All IsOwn (group_speaker_turns (sorted_items items))
  group_speaker_turns-IsOwn items h = All-ids_of (group_speaker_turns (sorted_items items)) (
      subst (All Q) (sym (ids_of-group_speaker_turns (sorted_items items)))
        (All-ids (sorted_items items) (All-sort_by item_before (λ i. Q i.id) items h)))

  no_condition {ℓ} : {A : Type ℓ} (xs : List A) → All (λ _. Unit {0}) xs
  no_condition [] = tt
  no_condition (x ∷ xs) = (tt, no_condition xs)

  module _ {F : Type 0} (fl : Floats F) {Answer : Type 0}
      (validate : SignalType → Answer → Option (Signal F)) (adapter : Adapter Answer)
      (config : Config F) where
    ask-AreGrounded :
        (window : List Turn) (signals : Dict (Signal F))
        → All IsOwn window
        → ask fl validate adapter config window ≡ some signals
        → (AreGrounded Q) signals
    unfolding ask validated_signals
    ask-AreGrounded window signals h e =
        elim (Option-cases (adapter.evaluate config.questions window)) [
          | inl stop ↦ cc (rw (stop, ask) at e)
          | inr (raw, go) ↦ elim (Bool-cases (same_keys raw config.questions)) [
            | inr differ ↦ cc (rw (go, differ, ask) at e)
            | inl same ↦
                traverse_lem (λ _. Unit {0}) (λ f. (IsGrounded Q) f.1)
                  (validated_signal fl validate config.questions
                    (flatten (map (λ t. t.utterance_ids) window)))
                  ((validated_signal-IsGrounded Q) fl validate config.questions
                    (flatten (map (λ t. t.utterance_ids) window))
                    ((All-flatten Q) (λ t. t.utterance_ids) window h))
                  raw signals (no_condition raw) (rw (go, same, ask) at e)
          ]
        ]

    combine_outputs-AreGrounded :
        (outputs : List (Dict (Signal F))) (signals : Dict (Signal F))
        → All (AreGrounded Q) outputs
        → combine_outputs fl validate adapter config outputs ≡ ok (some signals)
        → (AreGrounded Q) signals
    unfolding combine_outputs
    combine_outputs-AreGrounded [] signals h e = cc
    combine_outputs-AreGrounded (output ∷ []) signals h e =
        subst (AreGrounded Q) (some_eq (ok-injective e)) h.0
    combine_outputs-AreGrounded (output ∷ next ∷ outputs) signals h e =
        (aggregate-IsGrounded Q) fl config.review_threshold (output ∷ next ∷ outputs)
          config.questions signals h e

    -- What follows the combination.
    conclude-AreGrounded :
        (turns : List Turn) (windows : List (List Turn)) (combined : Option (Dict (Signal F)))
        (result : DispositionResult F)
        → ((signals : Dict (Signal F)) → combined ≡ some signals → (AreGrounded Q) signals)
        → conclude_combined fl validate adapter config turns windows combined ≡ result
        → (AreGrounded Q) result.signals
    unfolding conclude_combined conclude review_result serialize_signals sort_by
    conclude-AreGrounded turns windows none result h e = subst (λ r. (AreGrounded Q) r.signals) e tt
    conclude-AreGrounded turns windows (some signals) result h e =
        subst (λ r. (AreGrounded Q) r.signals) e
          ((resolve_disposition-AreGrounded Q) fl config signals [] (h signals refl))

    classify_windows-AreGrounded :
        (turns : List Turn) (windows : List (List Turn)) (result : DispositionResult F)
        → All (All IsOwn) windows
        → classify_windows fl validate adapter config turns windows ≡ ok result
        → (AreGrounded Q) result.signals
    unfolding classify_windows conclude review_result serialize_signals sort_by
    classify_windows-AreGrounded turns windows result h e =
        elim (Option-cases (traverse (ask fl validate adapter config) windows)) [
          | inl stop ↦
              subst (λ r. (AreGrounded Q) r.signals)
                (ok-injective (rw (stop, classify_windows) at e)) tt
          | inr (outputs, go) ↦
              (let h' =
                  traverse_lem (All IsOwn) (AreGrounded Q) (ask fl validate adapter config)
                    ask-AreGrounded windows outputs h go in
                let (combined, go', e') =
                  >>=-ok (combine_outputs fl validate adapter config outputs) _
                    (rw (go, classify_windows) at e) in
                conclude-AreGrounded turns windows combined result
                  (λ signals same.
                    combine_outputs-AreGrounded outputs signals h' (go' ∙ ap ok same))
                  (ok-injective e'))
        ]

    classify_transcript-AreGrounded :
        (transcript : List Utterance) (result : DispositionResult F)
        → All (λ i. Q i.id) transcript
        → classify_transcript fl validate adapter config transcript ≡ ok result
        → (AreGrounded Q) result.signals
    unfolding classify_transcript review_result serialize_signals sort_by
    classify_transcript-AreGrounded transcript result h e =
        let turns = group_speaker_turns (sorted_items transcript) in
        elim (Option-cases (transcript_reason transcript)) [
          | inr (reason, stop) ↦
              subst (λ r. (AreGrounded Q) r.signals)
                (ok-injective (rw (stop, classify_transcript) at e)) tt
          | inl go ↦
              elim (Option-cases (
                make_windows turns config.context_limit_chars config.window_chars
                  config.overlap_turns config.max_chunks)) [
                    | inl stop ↦
                        subst (λ r. (AreGrounded Q) r.signals)
                          (ok-injective (rw (go, stop, classify_transcript) at e)) tt
                    | inr (windows, go') ↦
                        classify_windows-AreGrounded turns windows result
                          (All-make_windows IsOwn turns config.context_limit_chars
                            config.window_chars config.overlap_turns config.max_chunks windows
                            (group_speaker_turns-IsOwn transcript h) go')
                          (rw (go, go', classify_transcript) at e)
                  ]
        ]

more_ids :
    (id : String) (ids : List String) (items : List Utterance)
    → All (λ i. one_of i.id ids ≡ true) items
    → All (λ i. one_of i.id (id ∷ ids) ≡ true) items
unfolding one_of
more_ids id ids [] h = tt
more_ids id ids (item ∷ items) h = (rw h.0 (ground arith), more_ids id ids items h.1)

own_ids : (items : List Utterance) → All (λ i. one_of i.id (map (λ j. j.id) items) ≡ true) items
unfolding one_of
own_ids [] = tt
own_ids (item ∷ items) = (
  rw ((eq_iff item.id item.id).1 refl) refl,
  more_ids item.id (map (λ j. j.id) items) items (own_ids items),
)

-- Whatever the model answers, every utterance id that a signal of the result names as its evidence is
-- the id of an utterance of the transcript that was classified.
pub classify_disposition-IsGrounded :
    {F : Type 0} (fl : Floats F) {Answer : Type 0}
    (validate : SignalType → Answer → Option (Signal F)) (adapter : Adapter Answer)
    (config : Config F) (transcript : List Utterance) (facts : Dict String)
    (result : DispositionResult F)
    → classify_disposition fl validate adapter config transcript facts ≡ ok result
    → AreGrounded (λ ref. one_of ref (map (λ i. i.id) transcript) ≡ true) result.signals
unfolding classify_disposition
classify_disposition-IsGrounded fl validate adapter config transcript facts result e =
    elim (Bool-cases (is_front_gate (resolve_disposition fl config [] facts).processing_path)) [
      | inl gate ↦
          subst (λ r. AreGrounded (λ ref. one_of ref (map (λ i. i.id) transcript) ≡ true) r.signals)
            (ok-injective (rw (gate, classify_disposition) at e))
            (resolve_disposition-AreGrounded _ fl config [] facts tt)
      | inr go ↦
          classify_transcript-AreGrounded _ fl validate adapter config transcript result
            (own_ids transcript) (rw (go, classify_disposition) at e)
    ]
