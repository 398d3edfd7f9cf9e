-- ===== src/Policy/Phrases.antt =====
-- `_normalise_phrase` and `_phrase_evidence`: the utterances of the agent that say a phrase.
-- `str.casefold` and the classes of characters are Unicode's, and parameters.
use real_time_ai_call_audit.WordAlignment.Words.{Characters, find_tokens}
use real_time_ai_call_audit.Prelude.{
  ℕ, suc, ◌+◌, String, Bool, true, false, ◌&&◌, ◌||◌, Option, none, some, List, [], ◌∷◌, ◌++◌, map,
  if◌then◌else◌, ltb, ◌==◌, length, ◌=?◌, one_of, join_text, select,
}

-- An utterance; a time that is no integer is `none`.
pub record PolicyUtterance : Type 0 where
  pub id : String
  pub role : String
  pub is_final : Bool
  pub start_ms : Option ℕ
  pub end_ms : Option ℕ
  pub text_redacted : String

abbrev pub join_words : List (List ℕ) → List ℕ
join_words [] = []
join_words (w ∷ []) = w
join_words (w ∷ v ∷ ws) = w ++ 32 ∷ join_words (v ∷ ws)

abbrev pub join_texts : List String → String
join_texts [] = ""
join_texts (s ∷ []) = s
join_texts (s ∷ t ∷ ss) = join_text s (join_text " " (join_texts (t ∷ ss)))

unfoldable pub is_prefix : List ℕ → List ℕ → Bool
is_prefix [] text = true
is_prefix (c ∷ cs) [] = false
is_prefix (c ∷ cs) (d ∷ ds) = c == d && is_prefix cs ds

-- `text.find(phrase)`, which is -1 where this is `none`.
unfoldable pub find : List ℕ → List ℕ → Option ℕ
find phrase [] = if is_prefix phrase [] then some 0 else none
find phrase (c ∷ cs) =
    let rest = find phrase cs in
    if is_prefix phrase (c ∷ cs) then some 0 else elim rest [ none ↦ none | some n ↦ some (suc n) ]

-- Where the first of the phrases that occurs starts and ends.
unfoldable pub find_phrase : List (List ℕ) → List ℕ → Option (ℕ × ℕ)
find_phrase [] text = none
find_phrase (phrase ∷ phrases) text = elim (find phrase text) [
  | none ↦ find_phrase phrases text
  | some start ↦ some (start, start + length phrase)
]

abbrev pub is_nonempty : List ℕ → Bool
is_nonempty [] = false
is_nonempty (c ∷ cs) = true

-- `allowed_ids is None or utterance_id in allowed_ids`
abbrev pub is_allowed : Option (List String) → String → Bool
is_allowed none id = true
is_allowed (some ids) id = one_of id ids

abbrev pub is_agent : PolicyUtterance → Bool
is_agent item = item.is_final && item.role =? "AGENT"

abbrev pub continues_run : Option (List String) → PolicyUtterance → Bool
continues_run allowed item = is_agent item && is_allowed allowed item.id

module _ (u : Characters) (casefold : String → List ℕ) where
  abbrev pub spaced : ℕ → ℕ
  spaced c = if u.is_word c || u.is_space c then c else 32

  unfoldable pub normalise_phrase : String → List ℕ
  normalise_phrase text = join_words (find_tokens u [] (map spaced (casefold text)))

  -- The ids of the run's utterances whose part of the text meets the span.
  unfoldable pub ids_in : ℕ → ℕ → ℕ → List PolicyUtterance → List String
  ids_in start end offset [] = []
  ids_in start end offset (item ∷ run) =
      let text = normalise_phrase item.text_redacted in
      let item_end = offset + length text in
      let rest = ids_in start end (suc item_end) run in
      if is_nonempty text && ltb start item_end && ltb offset end then item.id ∷ rest else rest

  -- What the code does when a run of the agent's utterances ends; `none` goes on.
  unfoldable pub run_evidence : List (List ℕ) → List PolicyUtterance → Option (List String)
  run_evidence phrases run =
      let text = normalise_phrase (join_texts (map (λ item. item.text_redacted) run)) in
      if is_nonempty text
      then (elim (find_phrase phrases text) [
        | none ↦ none
        | some span ↦ some (ids_in span.0 span.1 0 run)
      ])
      else none

  abbrev pub evidence_or : Option (List String) → List String → List String
  evidence_or none later = later
  evidence_or (some ids) later = ids

  unfoldable pub scan_runs :
      List (List ℕ)
      → Option (List String)
      → List PolicyUtterance
      → List PolicyUtterance
      → List String
  scan_runs phrases allowed run [] = evidence_or (run_evidence phrases run) []
  scan_runs phrases allowed run (item ∷ items) = elim (continues_run allowed item) [
    | true ↦ scan_runs phrases allowed (run ++ item ∷ []) items
    | false ↦ evidence_or (run_evidence phrases run) (scan_runs phrases allowed [] items)
  ]

  unfoldable pub phrase_evidence :
      List PolicyUtterance → List String → Option (List String) → List String
  phrase_evidence utterances variants allowed =
      scan_runs (select is_nonempty (map normalise_phrase variants)) allowed [] utterances
