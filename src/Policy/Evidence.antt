-- ===== src/Policy/Evidence.antt =====
-- The evidence of a finding: final utterances of the agent, within the rule's window, outside every
-- hold.
use real_time_ai_call_audit.WordAlignment.Words.{Characters}
use real_time_ai_call_audit.Prelude.{
  ℕ, suc, ◌+◌, ◌-◌, String, Bool, true, ◌&&◌, ◌≡◌, refl, sym, ◌∙◌, inl, inr, Option, none, some,
  List, [], ◌∷◌, ◌++◌, map, min, ltb, length, All, All-append, any, ◌=?◌, eq_iff, one_of, select,
  sorted_set, without_repeats, sort_by, All-sorted_set, Bool-cases, Option-cases, arith,
}
use real_time_ai_call_audit.Intervals.{Interval}
use real_time_ai_call_audit.Policy.{opening_deadline}
use real_time_ai_call_audit.Policy.Phrases.{
  PolicyUtterance, is_agent, continues_run, normalise_phrase, ids_in, run_evidence, find_phrase,
  scan_runs, phrase_evidence, evidence_or, join_texts, is_nonempty,
}
use real_time_ai_call_audit.Policy.Rules.{
  PolicyContext, PolicyRule, Ruleset, RuleKind, DisclosureState, opening_disclosure, closing_phrase,
  sensitive_number_advisory, safe_holds, is_within, opening_end, opening_evidence, opening_finding,
  opening_for, closing_for, closing_evidence, closing_finding, findings_of, findings_of_kind,
  new_finding, satisfied, potential_violation, unknown, pending, evidence_if, applies,
}

-- Some utterance has the id and passes the test.
abbrev pub has_one : (PolicyUtterance → Bool) → List PolicyUtterance → String → Bool
has_one p utterances id = any (λ item. id =? item.id && p item) utterances

one_of-ids-select :
    (p : PolicyUtterance → Bool) (utterances : List PolicyUtterance) (id : String)
    → one_of id (map (λ i. i.id) (select p utterances)) ≡ has_one p utterances id
unfolding one_of select
one_of-ids-select p [] id = refl
one_of-ids-select p (item ∷ items) id =
    let rest = one_of-ids-select p items id in
    elim (Bool-cases (p item)) [
      | inl e ↦ rw (e, rest) (ground arith)
      | inr e ↦ rw (e, rest) (ground arith)
    ]

Owns : (PolicyUtterance → Bool) → List PolicyUtterance → PolicyUtterance → Type 0
Owns p utterances item = p item ≡ true → has_one p utterances item.id ≡ true

Owns-cons :
    (p : PolicyUtterance → Bool) (first : PolicyUtterance) (utterances items : List PolicyUtterance)
    → All (Owns p utterances) items
    → All (Owns p (first ∷ utterances)) items
unfolding Owns
Owns-cons p first utterances [] h = tt
Owns-cons p first utterances (item ∷ items) h =
    (λ e. rw (h.0 e) (ground arith), Owns-cons p first utterances items h.1)

All-Owns :
    (p : PolicyUtterance → Bool) (utterances : List PolicyUtterance)
    → All (Owns p utterances) utterances
unfolding Owns
All-Owns p [] = tt
All-Owns p (item ∷ items) = (
  λ e. rw ((eq_iff item.id item.id).1 refl, e) refl,
  Owns-cons p item items items (All-Owns p items),
)

-- What the scan collects, for a property of the ids of the utterances that it may collect.
module _ (u : Characters) (casefold : String → List ℕ) (Q : String → Type 0)
    (allowed : Option (List String)) where
  All-ids_in :
      (start end offset : ℕ) (run : List PolicyUtterance)
      → All (λ i. Q i.id) run
      → All Q (ids_in u casefold start end offset run)
  unfolding ids_in
  All-ids_in start end offset [] h = tt
  All-ids_in start end offset (item ∷ run) h =
      let text = normalise_phrase u casefold item.text_redacted in
      let rest = All-ids_in start end (suc (offset + length text)) run h.1 in
      elim (Bool-cases (is_nonempty text && ltb start (offset + length text) && ltb offset end)) [
        | inl meets ↦ rw meets (h.0, rest)
        | inr misses ↦ rw misses rest
      ]

  All-run_evidence :
      (phrases : List (List ℕ)) (run : List PolicyUtterance) (later : List String)
      → All (λ i. Q i.id) run
      → All Q later
      → All Q (evidence_or u casefold (run_evidence u casefold phrases run) later)
  unfolding run_evidence
  All-run_evidence phrases run later h hl =
      let text = normalise_phrase u casefold (join_texts (map (λ item. item.text_redacted) run)) in
      elim (Bool-cases (is_nonempty text)) [
        | inr empty ↦ rw empty hl
        | inl full ↦ elim (Option-cases (find_phrase phrases text)) [
          | inl e ↦ rw (full, e) hl
          | inr (span, e) ↦ rw (full, e) (All-ids_in span.0 span.1 0 run h)
        ]
      ]

  All-scan_runs :
      (phrases : List (List ℕ)) (run items : List PolicyUtterance)
      → All (λ i. Q i.id) run
      → All (λ i. continues_run allowed i ≡ true → Q i.id) items
      → All Q (scan_runs u casefold phrases allowed run items)
  unfolding scan_runs
  All-scan_runs phrases run [] h hs = All-run_evidence phrases run [] h tt
  All-scan_runs phrases run (item ∷ items) h hs = elim (Bool-cases (continues_run allowed item)) [
    | inl e ↦
        rw (e, scan_runs)
          (All-scan_runs phrases (run ++ item ∷ []) items
            (All-append (λ i. Q i.id) run (item ∷ []) h (hs.0 e, tt)) hs.1)
    | inr e ↦
        rw (e, scan_runs)
          (All-run_evidence phrases run (scan_runs u casefold phrases allowed [] items) h
            (All-scan_runs phrases [] items tt hs.1))
  ]

  All-phrase_evidence :
      (utterances : List PolicyUtterance) (variants : List String)
      → All (λ i. continues_run allowed i ≡ true → Q i.id) utterances
      → All Q (phrase_evidence u casefold utterances variants allowed)
  unfolding phrase_evidence
  All-phrase_evidence utterances variants h = All-scan_runs _ [] utterances tt h

-- An id is that of a final utterance of the agent, and of an utterance in the window and not on hold.
abbrev pub IsEvidence : List PolicyUtterance → ℕ → ℕ → List Interval → String → Type 0
IsEvidence utterances start end holds id =
    (has_one is_agent utterances id ≡ true)
    × (has_one (is_within start end holds) utterances id ≡ true)

All-imp :
    (P Q : String → Type 0) → ((s : String) → P s → Q s) → (xs : List String) → All P xs → All Q xs
All-imp P Q f [] h = tt
All-imp P Q f (x ∷ xs) h = (f x h.0, All-imp P Q f xs h.1)

never_allowed :
    (A : PolicyUtterance → Type 0) (items : List PolicyUtterance)
    → All (λ i. continues_run (some []) i ≡ true → A i) items
unfolding one_of
never_allowed A [] = tt
never_allowed A (item ∷ items) = (λ e. ground (arith, e), never_allowed A items)

module _ (u : Characters) (casefold : String → List ℕ) where
  and-split : (a b : Bool) → (a && b) ≡ true → (a ≡ true) × (b ≡ true)
  and-split a b h = ground arith

  allowed-IsEvidence :
      (utterances : List PolicyUtterance) (start end : ℕ) (holds : List Interval)
      (items : List PolicyUtterance)
      → All (Owns is_agent utterances) items
      → All
          (λ i.
            continues_run (some (map (λ j. j.id) (select (is_within start end holds) utterances))) i
              ≡ true
            → IsEvidence utterances start end holds i.id)
          items
  unfolding Owns
  allowed-IsEvidence utterances start end holds [] h = tt
  allowed-IsEvidence utterances start end holds (item ∷ items) h = (
    λ e.
        let (agent, within) = and-split (is_agent item) _ e in
        (
          h.0 agent,
          sym (one_of-ids-select (is_within start end holds) utterances item.id) ∙ within,
        ),
    allowed-IsEvidence utterances start end holds items h.1,
  )

  phrase_evidence-IsEvidence :
      (utterances : List PolicyUtterance) (variants : List String) (start end : ℕ)
      (holds : List Interval)
      → All (IsEvidence utterances start end holds) (
          phrase_evidence u casefold utterances variants
            (some (map (λ j. j.id) (select (is_within start end holds) utterances))))
  phrase_evidence-IsEvidence utterances variants start end holds =
      All-phrase_evidence u casefold (IsEvidence utterances start end holds) _ utterances variants
        (allowed-IsEvidence utterances start end holds utterances (All-Owns is_agent utterances))

  module _ (fingerprint : List String → String) where
    -- Evidence of a rule: the call's times are known, and give the rule's window.
    pub SupportsRule : PolicyContext → List PolicyUtterance → RuleKind → String → Type 0
    SupportsRule context utterances (opening_disclosure variants opportunity) id =
        (connected : ℕ) × (duration : ℕ) × (context.agent_connected_ms ≡ some connected)
        × (context.call_duration_ms ≡ some duration)
        × IsEvidence utterances connected
            (min duration (opening_deadline connected opportunity (safe_holds context)))
            (safe_holds context) id
    SupportsRule context utterances (closing_phrase variants window) id =
        (duration : ℕ) × (context.call_duration_ms ≡ some duration)
        × IsEvidence utterances (duration - window) duration (safe_holds context) id
    SupportsRule context utterances sensitive_number_advisory id = ⊥

    All-evidence_if :
        (Q : String → Type 0) (state : DisclosureState) (evidence : List String)
        → All Q evidence
        → All Q (sorted_set (evidence_if u casefold fingerprint state evidence))
    All-evidence_if Q state evidence h =
        All-sorted_set Q (evidence_if u casefold fingerprint state evidence) (kept state)
      where
        kept : (s : DisclosureState) → All Q (evidence_if u casefold fingerprint s evidence)
        kept satisfied = h
        kept potential_violation = tt
        kept unknown = tt
        kept pending = tt

    opening-Supported :
        (context : PolicyContext) (compiled : Ruleset) (utterances : List PolicyUtterance)
        (rule : PolicyRule) (variants : List String) (opportunity : ℕ)
        (connected duration : Option ℕ)
        → context.agent_connected_ms ≡ connected
        → context.call_duration_ms ≡ duration
        → All
            (SupportsRule context utterances (opening_disclosure variants opportunity))
            (opening_for u casefold fingerprint context compiled utterances rule variants
              opportunity connected duration).evidence_ids
    unfolding opening_for new_finding SupportsRule sorted_set opening_evidence opening_end
        without_repeats sort_by
    opening-Supported context compiled utterances rule variants opportunity none duration e e' = tt
    opening-Supported context compiled utterances rule variants opportunity (some connected) none e
          e' =
        tt
    opening-Supported context compiled utterances rule variants opportunity (some connected)
          (some duration) e e' =
        let P = SupportsRule context utterances (opening_disclosure variants opportunity) in
        let end = min duration (opening_deadline connected opportunity (safe_holds context)) in
        let evidence =
          opening_evidence u casefold fingerprint context utterances variants opportunity connected
            duration in
        All-evidence_if P _ evidence (
          All-imp (IsEvidence utterances connected end (safe_holds context)) P
            (λ id h. (connected, duration, e, e', h)) evidence
            (phrase_evidence-IsEvidence utterances variants connected end (safe_holds context)))

    closing_evidence-Supported :
        (context : PolicyContext) (utterances : List PolicyUtterance) (variants : List String)
        (window : ℕ) (connected : Option ℕ) (duration : ℕ)
        → All (IsEvidence utterances (duration - window) duration (safe_holds context)) (
            closing_evidence u casefold fingerprint context utterances variants window connected
              duration)
    unfolding closing_evidence
    closing_evidence-Supported context utterances variants window none duration =
        All-phrase_evidence u casefold _ (some []) utterances variants (never_allowed _ utterances)
    closing_evidence-Supported context utterances variants window (some connected) duration =
        phrase_evidence-IsEvidence utterances variants (duration - window) duration
          (safe_holds context)

    closing-Supported :
        (context : PolicyContext) (compiled : Ruleset) (utterances : List PolicyUtterance)
        (rule : PolicyRule) (variants : List String) (window : ℕ) (duration : Option ℕ)
        → context.call_duration_ms ≡ duration
        → All
            (SupportsRule context utterances (closing_phrase variants window))
            (closing_for u casefold fingerprint context compiled utterances rule variants window
              duration).evidence_ids
    unfolding closing_for new_finding SupportsRule sorted_set without_repeats sort_by
    closing-Supported context compiled utterances rule variants window none e = tt
    closing-Supported context compiled utterances rule variants window (some duration) e =
        let P = SupportsRule context utterances (closing_phrase variants window) in
        let evidence =
          closing_evidence u casefold fingerprint context utterances variants window
            context.agent_connected_ms duration in
        All-evidence_if P _ evidence (
          All-imp (IsEvidence utterances (duration - window) duration (safe_holds context)) P
            (λ id h. (duration, e, h)) evidence
            (closing_evidence-Supported context utterances variants window
              context.agent_connected_ms duration))

    kind-Supported :
        (context : PolicyContext) (compiled : Ruleset) (utterances : List PolicyUtterance)
        (rule : PolicyRule) (kind : RuleKind)
        → All
            (λ f. All (SupportsRule context utterances kind) f.evidence_ids)
            (findings_of_kind u casefold fingerprint context compiled utterances rule kind)
    unfolding findings_of_kind opening_finding closing_finding
    kind-Supported context compiled utterances rule (opening_disclosure variants opportunity) =
        (opening-Supported context compiled utterances rule variants opportunity _ _ refl refl, tt)
    kind-Supported context compiled utterances rule (closing_phrase variants window) =
        (closing-Supported context compiled utterances rule variants window _ refl, tt)
    kind-Supported context compiled utterances rule sensitive_number_advisory = tt

    -- Each evidence id of a finding is that of a final utterance of the agent, and of an utterance that
    -- lies within the rule's window and outside every hold; the call's duration is known, and for an
    -- opening disclosure the connection of the agent is too.
    pub findings_of-Supported :
        (context : PolicyContext) (compiled : Ruleset) (utterances : List PolicyUtterance)
        (rule : PolicyRule)
        → All
            (λ f. All (SupportsRule context utterances rule.kind) f.evidence_ids)
            (findings_of u casefold fingerprint context compiled utterances rule)
    unfolding findings_of
    findings_of-Supported context compiled utterances rule =
        elim (Bool-cases (applies u casefold fingerprint context rule)) [
          | inr e ↦ rw (e, findings_of) tt
          | inl e ↦ rw (e, findings_of) (kind-Supported context compiled utterances rule rule.kind)
        ]
