-- ===== src/Policy/Advisory.antt =====
-- `scan_sensitive_numbers`: advisories on segments with a likely number. The regular expressions'
-- searches and the digest are parameters.
use real_time_ai_call_audit.Prelude.{
  ℕ, String, Bool, Option, none, some, List, [], ◌∷◌, if◌then◌else◌, ◌||◌,
}
use real_time_ai_call_audit.Policy.Rules.{PolicyRule, Ruleset}
use real_time_ai_call_audit.Policy.Compile.{is_advisory}

-- A text or an id that is no text is `none`.
pub record Segment : Type 0 where
  pub text : Option String
  pub segment_id : Option String
  pub end_ms : Option ℕ

-- The safe fields of an advisory; the status is always ADVISORY.
pub record Advisory : Type 0 where
  pub rule_id : String
  pub ruleset_version : String
  pub ruleset_hash : String
  pub severity : String
  pub policy_text_version : String
  pub evidence_ids : List String
  pub deadline_ms : Option ℕ
  pub remediation : String

unfoldable pub advisory_rule : List PolicyRule → Option PolicyRule
advisory_rule [] = none
advisory_rule (rule ∷ others) =
    let rest = advisory_rule others in if is_advisory rule.kind then some rule else rest

module _ (finds_phone finds_account : String → Bool) (digest : String → String) where
  abbrev pub new_advisory : Ruleset → PolicyRule → String → Option ℕ → Advisory
  new_advisory compiled rule segment_id end_ms = record {
    rule_id = rule.id;
    ruleset_version = compiled.ruleset_version;
    ruleset_hash = compiled.ruleset_hash;
    severity = rule.severity;
    policy_text_version = rule.policy_text_version;
    evidence_ids = digest segment_id ∷ [];
    deadline_ms = end_ms;
    remediation = rule.remediation;
  }

  -- The body of the loop.
  unfoldable pub add_advisory : Ruleset → PolicyRule → Segment → List Advisory → List Advisory
  add_advisory compiled rule segment output = elim segment.text [
    | none ↦ output
    | some text ↦ elim segment.segment_id [
      | none ↦ output
      | some id ↦
          if finds_phone text || finds_account text
          then new_advisory compiled rule id segment.end_ms ∷ output
          else output
    ]
  ]

  unfoldable pub scan_segments : Ruleset → PolicyRule → List Segment → List Advisory
  scan_segments compiled rule [] = []
  scan_segments compiled rule (segment ∷ segments) =
      add_advisory compiled rule segment (scan_segments compiled rule segments)

  unfoldable pub scan_sensitive_numbers : List Segment → Option Ruleset → List Advisory
  scan_sensitive_numbers segments none = []
  scan_sensitive_numbers segments (some compiled) = elim (advisory_rule compiled.rules) [
    | none ↦ []
    | some rule ↦ scan_segments compiled rule segments
  ]
