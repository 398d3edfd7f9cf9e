-- ===== src/Disposition/Classify.antt =====
-- `classify_disposition`: the windows go to the local model, whose answers are checked and combined.
-- The model and the validation of one answer by the signal classes are parameters.
use real_time_ai_call_audit.Store.{Outcome, ok, raise, ◌>>=◌, ◌>>◌, raise_if}
use real_time_ai_call_audit.Prelude.{
  sorted_set, without_repeats, ℕ, String, Bool, true, false, not, ◌&&◌, ◌||◌, Option, none, some,
  List, [], ◌∷◌, ◌++◌, map, if◌then◌else◌, all, any, is_some, ltb, leb, length, one_of, sort_by,
  text_le, is_blank, text_len, select, ◌==◌,
}
use real_time_ai_call_audit.Disposition.{
  Floats, Signal, noul, choice, score, SignalType, Dict, lookup, Question, Config, Status, resolved,
  needs_review, Reason, incomplete_transcript, uncertain_speaker_role, empty_transcript_turn,
  context_limit, invalid_model_output, conflicting_chunk_signals, ProcessingPath,
  authoritative_front_gate, single_pass, turn_aware_map_aggregate, abstain, DispositionResult,
  confidence_of, evidence_of,
}
use real_time_ai_call_audit.Disposition.Rules.{
  lt, least, same_keys, review_result, resolve_disposition,
}
use real_time_ai_call_audit.Disposition.Turns.{
  Utterance, Turn, is_empty, group_speaker_turns, count_chars, make_windows,
}

-- What the code raises here: outside the `try`, a signal or a maximum of nothing is refused.
pub data ClassifyError : Type 0 where
  validation_error value_error key_error : ClassifyError

-- `classify_disposition`'s adapter. `none` is a ValueError, TypeError or KeyError, or no mapping.
pub record Adapter (Answer : Type 0) : Type 0 where
  pub artifact_version : String
  pub adapter_version : String
  pub evaluate : Dict Question → List Turn → Option (Dict Answer)

unfoldable pub traverse {ℓ κ} :
    {A : Type ℓ} {B : Type κ} → (A → Option B) → List A → Option (List B)
traverse f [] = some []
traverse f (x ∷ xs) = elim (f x) [
  | none ↦ none
  | some b ↦ elim (traverse f xs) [ none ↦ none | some bs ↦ some (b ∷ bs) ]
]

unfoldable pub flatten : List (List String) → List String
flatten [] = []
flatten (xs ∷ xss) = xs ++ flatten xss

-- A value per key in its order, with a None or an error of one for all.
unfoldable pub values_for : {A : Type 0} → List (Dict A) → String → Option (List A)
values_for chunks key = traverse (λ chunk. lookup key chunk) chunks

module _ {F : Type 0} (fl : Floats F) where
  abbrev pub sum_from : F → List F → F
  sum_from total [] = total
  sum_from total (x ∷ xs) = sum_from (fl.add total x) xs

  -- sum(…) / n
  abbrev pub total : List F → F
  total xs = sum_from (fl.of_ratio 0 1) xs

  unfoldable pub greatest : F → List F → F
  greatest m [] = m
  greatest m (x ∷ xs) = greatest (if lt fl m x then x else m) xs

  -- abs(a - b) > c
  abbrev differ_by : F → F → F → Bool
  differ_by a b c = lt fl c (fl.sub a b) || lt fl c (fl.sub b a)

  abbrev margin : F
  margin = fl.of_ratio 2 100

  unfoldable pub choice_agrees : List String → String → Dict F → F → Bool
  choice_agrees options value probabilities confidence =
      let chances = map (λ e. e.1) probabilities in
      elim (lookup value probabilities) [
        | none ↦ false
        | some selected ↦
            one_of value options
            && all (λ e. one_of e.0 options) probabilities
            && all (λ o. is_some (lookup o probabilities)) options
            && all (λ p. fl.le (fl.of_ratio 0 1) p && fl.le p (fl.of_ratio 1 1)) chances
            && not (differ_by (total chances) (fl.of_ratio 1 1) margin)
            && not (lt fl (fl.add selected margin) (greatest selected chances))
            && not (differ_by selected confidence margin)
      ]

  module _ {Answer : Type 0} (validate : SignalType → Answer → Option (Signal F)) where
    unfoldable pub is_valid_signal : Question → List String → Signal F → Bool
    is_valid_signal question allowed signal =
        all (λ ref. one_of ref allowed) (evidence_of signal) && (elim signal [
          | choice value probabilities confidence evidence ↦
              choice_agrees question.criteria value probabilities confidence
          | _ ↦ true
        ])

    -- The body of the loop of `_validated_signals`.
    unfoldable pub validated_signal :
        Dict Question → List String → String × Answer → Option (String × Signal F)
    validated_signal questions allowed (key, answer) = elim (lookup key questions) [
      | none ↦ none
      | some question ↦ elim (validate question.type_of answer) [
        | none ↦ none
        | some signal ↦ if is_valid_signal question allowed signal then some (key, signal) else none
      ]
    ]

    unfoldable pub validated_signals :
        Dict Question → List String → Dict Answer → Option (Dict (Signal F))
    validated_signals questions allowed raw =
        if same_keys raw questions then traverse (validated_signal questions allowed) raw else none

  -- The first of the largest, for `max(…, key=…)`.
  unfoldable pub best_of : String × F → Dict F → String
  best_of best [] = best.0
  best_of best (e ∷ entries) = best_of (if lt fl best.1 e.1 then e else best) entries

  abbrev chances_of_noul : List (Signal F) → List F
  chances_of_noul [] = []
  chances_of_noul (noul p c e ∷ vals) = p ∷ chances_of_noul vals
  chances_of_noul (_ ∷ vals) = chances_of_noul vals

  abbrev scores_of : List (Signal F) → List F
  scores_of [] = []
  scores_of (score v c e ∷ vals) = v ∷ scores_of vals
  scores_of (_ ∷ vals) = scores_of vals

  -- The choices: value, probabilities and confidence.
  abbrev choices_of : List (Signal F) → List (String × Dict F × F)
  choices_of [] = []
  choices_of (choice v ps c e ∷ vals) = (v, ps, c) ∷ choices_of vals
  choices_of (_ ∷ vals) = choices_of vals

  abbrev in_unit : F → Bool
  in_unit x = fl.le (fl.of_ratio 0 1) x && fl.le x (fl.of_ratio 1 1)

  abbrev max_evidence : ℕ
  max_evidence = 64

  -- The constructor of a signal validates its fields.
  unfoldable pub build_signal :
      Bool → List String → Signal F → Outcome ClassifyError (Option (Signal F))
  build_signal fields evidence signal =
      raise_if (not (fields && leb 1 (length evidence) && leb (length evidence) max_evidence))
        validation_error
      >> ok (some signal)

  abbrev mean : List F → F
  mean xs = fl.div (total xs) (length xs)

  -- max(xs) - min(xs) > 0.25
  abbrev spread_out : F → List F → Bool
  spread_out x xs = lt fl (fl.of_ratio 25 100) (fl.sub (greatest x xs) (least fl x xs))

  abbrev chance_of : String → Dict F → F
  chance_of option probabilities = elim (lookup option probabilities) [
    | none ↦ fl.of_ratio 0 1
    | some p ↦ p
  ]

  abbrev mean_chances : List (String × Dict F × F) → List String → Dict F
  mean_chances choices options = map (λ o. (o, mean (map (λ c. chance_of o c.1) choices))) options

  -- The value's length is at most 128 and not 0.
  abbrev is_code : String → Bool
  is_code s = leb 1 (text_len s) && leb (text_len s) 128

  -- The choice of the most likely option.
  unfoldable pub choose_signal :
      Dict F → F → List String → Outcome ClassifyError (Option (Signal F))
  choose_signal [] confidence evidence = raise value_error
  choose_signal (best ∷ others) confidence evidence =
      let chosen = best_of best others in
      build_signal (is_code chosen && in_unit confidence) evidence
        (choice chosen (best ∷ others) confidence evidence)

  unfoldable pub combine_choices :
      F
      → List String
      → List (String × Dict F × F)
      → F
      → List String
      → Outcome ClassifyError (Option (Signal F))
  combine_choices review_threshold criteria choices confidence evidence =
      let sure = select (λ c. fl.le review_threshold c.2) choices in
      let top_codes = without_repeats (map (λ c. c.0) sure) in
      if ltb 1 (length top_codes)
      then ok none
      else choose_signal (mean_chances choices (sorted_set criteria)) confidence evidence

  -- The body of the loop of `_aggregate`, for the values of one question; `ok none` is a conflict.
  unfoldable pub combine_values :
      F → Question → Signal F → List (Signal F) → Outcome ClassifyError (Option (Signal F))
  combine_values review_threshold question first vals =
      let evidence = sorted_set (flatten (map evidence_of (first ∷ vals))) in
      let confidence = least fl (confidence_of first) (map confidence_of vals) in
      elim first [
        | noul p c e ↦
            (let probs = p ∷ chances_of_noul vals in
              if spread_out p probs
              then ok none
              else build_signal (in_unit (mean probs) && in_unit confidence) evidence
                  (noul (mean probs) confidence evidence))
        | choice v ps c e ↦
            combine_choices review_threshold question.criteria ((v, ps, c) ∷ choices_of vals)
              confidence evidence
        | score v c e ↦
            (let scores = v ∷ scores_of vals in
              if spread_out v scores
              then ok none
              else build_signal (in_unit (mean scores) && in_unit confidence) evidence
                  (score (mean scores) confidence evidence))
      ]

  unfoldable pub combine_question :
      F → List (Dict (Signal F)) → String × Question → Outcome ClassifyError (Option (Signal F))
  combine_question review_threshold chunks (key, question) = elim (values_for chunks key) [
    | none ↦ raise key_error
    | some [] ↦ raise key_error
    | some (first ∷ vals) ↦ combine_values review_threshold question first vals
  ]

  unfoldable pub aggregate :
      F → List (Dict (Signal F)) → Dict Question → Outcome ClassifyError (Option (Dict (Signal F)))
  aggregate review_threshold chunks [] = ok (some [])
  aggregate review_threshold chunks ((key, question) ∷ questions) =
      combine_question review_threshold chunks (key, question) >>= λ combined. elim combined [
        | none ↦ ok none
        | some signal ↦ aggregate review_threshold chunks questions >>= λ rest. elim rest [
          | none ↦ ok none
          | some signals ↦ ok (some ((key, signal) ∷ signals))
        ]
      ]

-- The order of the items: start, end and id.
abbrev pub item_before : Utterance → Utterance → Bool
item_before a b =
    ltb a.start_ms b.start_ms
    || a.start_ms == b.start_ms
      && (ltb a.end_ms b.end_ms || a.end_ms == b.end_ms && text_le a.id b.id)

abbrev known_role : Utterance → Bool
known_role item = one_of item.role ("AGENT" ∷ "CUSTOMER" ∷ [])

-- What makes the code abstain before it forms turns.
unfoldable pub transcript_reason : List Utterance → Option Reason
transcript_reason transcript =
    if is_empty transcript || any (λ i. not i.is_final) transcript
    then some incomplete_transcript
    else if any (λ i. not (known_role i)) transcript
    then some uncertain_speaker_role
    else if any (λ i. is_blank i.text_redacted) transcript
    then some empty_transcript_turn
    else none

abbrev pub sorted_items : List Utterance → List Utterance
sorted_items transcript = sort_by item_before transcript

abbrev pub is_front_gate : ProcessingPath → Bool
is_front_gate authoritative_front_gate = true
is_front_gate _ = false

module _ {F : Type 0} (fl : Floats F) {Answer : Type 0}
    (validate : SignalType → Answer → Option (Signal F)) (adapter : Adapter Answer)
    (config : Config F) where
  abbrev review : Reason → ℕ → DispositionResult F
  review reason chunks =
      review_result fl config [] reason abstain adapter.artifact_version adapter.adapter_version
        chunks

  -- One window: the ids that its evidence may name are those of its own turns.
  unfoldable pub ask : List Turn → Option (Dict (Signal F))
  ask window = elim (adapter.evaluate config.questions window) [
    | none ↦ none
    | some raw ↦
        validated_signals fl validate config.questions (flatten (map (λ t. t.utterance_ids) window))
          raw
  ]

  abbrev path_for : List (List Turn) → ProcessingPath
  path_for windows = if ltb 1 (length windows) then turn_aware_map_aggregate else single_pass

  abbrev is_resolved : Status → Bool
  is_resolved resolved = true
  is_resolved needs_review = false

  -- From the combined signals to the result.
  unfoldable pub conclude : List Turn → List (List Turn) → Dict (Signal F) → DispositionResult F
  conclude turns windows signals =
      let result = resolve_disposition fl config signals [] in
      record result {
        processing_path =
            if is_resolved result.status then path_for windows else result.processing_path;
        model_artifact = adapter.artifact_version;
        adapter_version = adapter.adapter_version;
        usage = record { chunks = length windows; input = some (count_chars turns, length turns) };
      }

  unfoldable pub conclude_combined :
      List Turn → List (List Turn) → Option (Dict (Signal F)) → DispositionResult F
  conclude_combined turns windows none = review conflicting_chunk_signals (length windows)
  conclude_combined turns windows (some signals) = conclude turns windows signals

  unfoldable pub combine_outputs :
      List (Dict (Signal F)) → Outcome ClassifyError (Option (Dict (Signal F)))
  combine_outputs [] = raise key_error
  combine_outputs (output ∷ []) = ok (some output)
  combine_outputs (output ∷ next ∷ outputs) =
      aggregate fl config.review_threshold (output ∷ next ∷ outputs) config.questions

  unfoldable pub classify_windows :
      List Turn → List (List Turn) → Outcome ClassifyError (DispositionResult F)
  classify_windows turns windows = elim (traverse ask windows) [
    | none ↦ ok (review invalid_model_output (length windows))
    | some outputs ↦
        combine_outputs outputs >>= λ combined. ok (conclude_combined turns windows combined)
  ]

  abbrev turns_of : List Utterance → List Turn
  turns_of transcript = group_speaker_turns (sorted_items transcript)

  unfoldable pub classify_transcript : List Utterance → Outcome ClassifyError (DispositionResult F)
  classify_transcript transcript = elim (transcript_reason transcript) [
    | some reason ↦ ok (review reason 0)
    | none ↦
        elim (make_windows (turns_of transcript) config.context_limit_chars config.window_chars
          config.overlap_turns config.max_chunks) [
            | none ↦ ok (review context_limit 0)
            | some windows ↦ classify_windows (turns_of transcript) windows
          ]
  ]

  unfoldable pub classify_disposition :
      List Utterance → Dict String → Outcome ClassifyError (DispositionResult F)
  classify_disposition transcript facts =
      let front = resolve_disposition fl config [] facts in
      if is_front_gate front.processing_path then ok front else classify_transcript transcript
