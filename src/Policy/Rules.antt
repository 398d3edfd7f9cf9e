-- ===== src/Policy/Rules.antt =====
-- `evaluate_rules` and `disclosure_state`: the findings of a compiled ruleset over a call.
-- The digest of the evidence ids is a parameter.
use real_time_ai_call_audit.WordAlignment.Words.{Characters}
use real_time_ai_call_audit.Intervals.{Interval}
use real_time_ai_call_audit.Prelude.{
  ℕ, ◌-◌, min, max, String, Bool, true, false, not, ◌&&◌, ◌||◌, Option, none, some, List, [], ◌∷◌,
  ◌++◌, map, if◌then◌else◌, ltb, leb, all, any, is_some, ◌=?◌, one_of, text_len, select, sorted_set,
}
use real_time_ai_call_audit.Policy.{HoldItem, normalise_holds, hold_overlap, opening_deadline}
use real_time_ai_call_audit.Policy.Phrases.{PolicyUtterance, phrase_evidence}

-- What a type of rule has beside the fields of every rule.
pub data RuleKind : Type 0 where
  opening_disclosure closing_phrase : List String → ℕ → RuleKind
  sensitive_number_advisory : RuleKind

pub record PolicyRule : Type 0 where
  pub id : String
  pub kind : RuleKind
  pub severity : String
  pub remediation : String
  pub call_types : List String
  pub policy_text_version : String

pub record Ruleset : Type 0 where
  pub ruleset_version : String
  pub ruleset_hash : String
  pub rules : List PolicyRule

-- The context; an integer that is none, and holds that are no list, are `none`.
pub record PolicyContext : Type 0 where
  pub organisation_id : String
  pub call_id : String
  pub transcript_revision : ℕ
  pub call_type : String
  pub agent_connected_ms : Option ℕ
  pub call_duration_ms : Option ℕ
  pub holds : Option (List HoldItem)
  pub complete : Bool
  pub timing_reliable : Bool

pub data DisclosureState : Type 0 where
  satisfied potential_violation unknown pending : DisclosureState

pub record Finding : Type 0 where
  pub organisation_id : String
  pub call_id : String
  pub transcript_revision : ℕ
  pub rule_id : String
  pub ruleset_version : String
  pub ruleset_hash : String
  pub policy_text_version : String
  pub status : DisclosureState
  pub severity : String
  pub evidence_ids : List String
  pub evidence_fingerprint : String
  pub deadline_ms : Option ℕ
  pub remediation : String

abbrev pub max_integer : ℕ
max_integer = 2147483647

abbrev pub is_unknown_role : PolicyUtterance → Bool
is_unknown_role item = item.role =? "UNKNOWN"

-- The utterance's overlap with the window that the holds leave is not empty.
abbrev pub overlaps_window : ℕ → ℕ → List Interval → PolicyUtterance → Bool
overlaps_window start_ms end_ms holds item = elim item.start_ms [
  | none ↦ false
  | some s ↦ elim item.end_ms [
    | none ↦ false
    | some e ↦
        ltb (hold_overlap holds (max s start_ms) (min e end_ms)) (min e end_ms - max s start_ms)
  ]
]

unfoldable pub has_unknown_overlap : List PolicyUtterance → ℕ → ℕ → List Interval → Bool
has_unknown_overlap utterances start_ms end_ms holds =
    any (λ item. is_unknown_role item && overlaps_window start_ms end_ms holds item) utterances

-- An utterance within the window, and outside every hold.
unfoldable pub is_within : ℕ → ℕ → List Interval → PolicyUtterance → Bool
is_within start_ms end_ms holds item = elim item.start_ms [
  | none ↦ false
  | some s ↦ elim item.end_ms [
    | none ↦ false
    | some e ↦ leb start_ms s && leb s e && leb e end_ms && leb (hold_overlap holds s e) 0
  ]
]

abbrev pub is_empty : List String → Bool
is_empty [] = true
is_empty (x ∷ xs) = false

abbrev pub has_identifier : String → Bool
has_identifier s = leb 1 (text_len s) && leb (text_len s) 128

-- The holds of a call whose duration is known.
unfoldable pub holds_for : Option ℕ → Option (List HoldItem) → Option (List Interval)
holds_for none items = none
holds_for (some duration) none = none
holds_for (some duration) (some items) = normalise_holds items duration

unfoldable pub holds_of : PolicyContext → Option (List Interval)
holds_of context = holds_for context.call_duration_ms context.holds

-- `holds or []`
abbrev pub or_empty : Option (List Interval) → List Interval
or_empty none = []
or_empty (some holds) = holds

unfoldable pub safe_holds : PolicyContext → List Interval
safe_holds context = or_empty (holds_of context)

abbrev pub within_call : PolicyContext → Bool
within_call context = elim context.call_duration_ms [
  | none ↦ false
  | some duration ↦ leb duration max_integer && (elim context.agent_connected_ms [
    | none ↦ false
    | some connected ↦ leb connected duration
  ])
]

unfoldable pub is_reliable : PolicyContext → List PolicyUtterance → Bool
is_reliable context utterances =
    has_identifier context.organisation_id
    && has_identifier context.call_id
    && has_identifier context.call_type
    && leb 1 context.transcript_revision
    && leb context.transcript_revision max_integer
    && within_call context
    && context.complete
    && context.timing_reliable
    && is_some (holds_of context)
    && all (λ item. item.is_final) utterances

module _ (u : Characters) (casefold : String → List ℕ) where
  abbrev pub says : List PolicyUtterance → List String → Option Bool → Bool
  says utterances variants none =
      not (is_empty (phrase_evidence u casefold utterances variants none))
  says utterances variants (some b) = b

  unfoldable pub disclosure_state :
      List PolicyUtterance → ℕ → Bool → Bool → List String → ℕ → Option Bool → DisclosureState
  disclosure_state utterances opportunity_ms ended reliable variants required phrase_satisfied =
      if not reliable || any (λ item. not item.is_final || is_unknown_role item) utterances
      then unknown
      else if says utterances variants phrase_satisfied
      then satisfied
      else if leb required opportunity_ms
      then potential_violation
      else if ended
      then unknown
      else pending

  module _ (fingerprint : List String → String) where
    unfoldable pub new_finding :
        PolicyContext → Ruleset → PolicyRule → DisclosureState → List String → Option ℕ → Finding
    new_finding context compiled rule status evidence deadline_ms = record {
      organisation_id = context.organisation_id;
      call_id = context.call_id;
      transcript_revision = context.transcript_revision;
      rule_id = rule.id;
      ruleset_version = compiled.ruleset_version;
      ruleset_hash = compiled.ruleset_hash;
      policy_text_version = rule.policy_text_version;
      status = status;
      severity = rule.severity;
      evidence_ids = sorted_set evidence;
      evidence_fingerprint = fingerprint (sorted_set evidence);
      deadline_ms = deadline_ms;
      remediation = rule.remediation;
    }

    abbrev pub evidence_if : DisclosureState → List String → List String
    evidence_if satisfied evidence = evidence
    evidence_if _ evidence = []

    abbrev pub ids : List PolicyUtterance → List String
    ids utterances = map (λ item. item.id) utterances

    -- The window of an opening disclosure, of a call whose times are known.
    unfoldable pub opening_end : PolicyContext → ℕ → ℕ → ℕ → ℕ
    opening_end context opportunity connected duration =
        min duration (opening_deadline connected opportunity (safe_holds context))

    -- The time that passed in it without a hold.
    unfoldable pub opening_elapsed : PolicyContext → ℕ → ℕ → ℕ → ℕ
    opening_elapsed context opportunity connected duration =
        let end = opening_end context opportunity connected duration in
        end - connected - hold_overlap (safe_holds context) connected end

    unfoldable pub opening_state :
        PolicyContext
        → List PolicyUtterance
        → List String
        → ℕ
        → ℕ
        → ℕ
        → List String
        → DisclosureState
    opening_state context utterances variants opportunity connected duration evidence =
        let holds = safe_holds context in
        let end = opening_end context opportunity connected duration in
        disclosure_state (select (is_within connected end holds) utterances)
          (opening_elapsed context opportunity connected duration) context.complete
          (is_reliable context utterances
            && not (has_unknown_overlap utterances connected end holds))
          variants opportunity (some (not (is_empty evidence)))

    unfoldable pub opening_evidence :
        PolicyContext → List PolicyUtterance → List String → ℕ → ℕ → ℕ → List String
    opening_evidence context utterances variants opportunity connected duration =
        let holds = safe_holds context in
        let end = opening_end context opportunity connected duration in
        phrase_evidence u casefold utterances variants
          (some (ids (select (is_within connected end holds) utterances)))

    -- By the connection and the duration; where one is unknown, the call is not reliable.
    unfoldable pub opening_for :
        PolicyContext
        → Ruleset
        → List PolicyUtterance
        → PolicyRule
        → List String
        → ℕ
        → Option ℕ
        → Option ℕ
        → Finding
    opening_for context compiled utterances rule variants opportunity none duration =
        new_finding context compiled rule unknown [] none
    opening_for context compiled utterances rule variants opportunity (some connected) none =
        new_finding context compiled rule unknown []
          (some (opening_deadline connected opportunity (safe_holds context)))
    opening_for context compiled utterances rule variants opportunity (some connected)
          (some duration) =
        let evidence =
          opening_evidence context utterances variants opportunity connected duration in
        let state =
          opening_state context utterances variants opportunity connected duration evidence in
        new_finding context compiled rule state (evidence_if state evidence)
          (some (opening_deadline connected opportunity (safe_holds context)))

    unfoldable pub opening_finding :
        PolicyContext → Ruleset → List PolicyUtterance → PolicyRule → List String → ℕ → Finding
    opening_finding context compiled utterances rule variants opportunity =
        opening_for context compiled utterances rule variants opportunity context.agent_connected_ms
          context.call_duration_ms

    unfoldable pub closing_evidence :
        PolicyContext → List PolicyUtterance → List String → ℕ → Option ℕ → ℕ → List String
    closing_evidence context utterances variants window none duration =
        phrase_evidence u casefold utterances variants (some [])
    closing_evidence context utterances variants window (some connected) duration =
        phrase_evidence u casefold utterances variants (
          some
            (ids (select (is_within (duration - window) duration (safe_holds context)) utterances)))

    unfoldable pub closing_state :
        PolicyContext → List PolicyUtterance → ℕ → ℕ → List String → DisclosureState
    closing_state context utterances window duration evidence =
        if not (is_reliable context utterances)
          || has_unknown_overlap utterances (duration - window) duration (safe_holds context)
        then unknown
        else if is_empty evidence
        then potential_violation
        else satisfied

    unfoldable pub closing_for :
        PolicyContext
        → Ruleset
        → List PolicyUtterance
        → PolicyRule
        → List String
        → ℕ
        → Option ℕ
        → Finding
    closing_for context compiled utterances rule variants window none =
        new_finding context compiled rule unknown [] none
    closing_for context compiled utterances rule variants window (some duration) =
        let evidence =
          closing_evidence context utterances variants window context.agent_connected_ms duration in
        let state = closing_state context utterances window duration evidence in
        new_finding context compiled rule state (evidence_if state evidence)
          (some (duration - window))

    unfoldable pub closing_finding :
        PolicyContext → Ruleset → List PolicyUtterance → PolicyRule → List String → ℕ → Finding
    closing_finding context compiled utterances rule variants window =
        closing_for context compiled utterances rule variants window context.call_duration_ms

    abbrev pub applies : PolicyContext → PolicyRule → Bool
    applies context rule = one_of "*" rule.call_types || one_of context.call_type rule.call_types

    unfoldable pub findings_of_kind :
        PolicyContext → Ruleset → List PolicyUtterance → PolicyRule → RuleKind → List Finding
    findings_of_kind context compiled utterances rule (opening_disclosure variants opportunity) =
        opening_finding context compiled utterances rule variants opportunity ∷ []
    findings_of_kind context compiled utterances rule (closing_phrase variants window) =
        closing_finding context compiled utterances rule variants window ∷ []
    findings_of_kind context compiled utterances rule sensitive_number_advisory = []

    -- The body of the loop over the rules.
    unfoldable pub findings_of :
        PolicyContext → Ruleset → List PolicyUtterance → PolicyRule → List Finding
    findings_of context compiled utterances rule =
        let findings = findings_of_kind context compiled utterances rule rule.kind in
        if applies context rule then findings else []

    unfoldable pub evaluate_each :
        PolicyContext → Ruleset → List PolicyUtterance → List PolicyRule → List Finding
    evaluate_each context compiled utterances [] = []
    evaluate_each context compiled utterances (rule ∷ rules) =
        findings_of context compiled utterances rule
        ++ evaluate_each context compiled utterances rules

    unfoldable pub evaluate_rules : List PolicyUtterance → PolicyContext → Ruleset → List Finding
    evaluate_rules utterances context compiled =
        evaluate_each context compiled utterances compiled.rules
