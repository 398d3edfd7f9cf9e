-- ===== src/Policy/RuleExamples.antt =====
-- A ruleset with an opening disclosure, and two calls: one has the phrase, one does not.
use real_time_ai_call_audit.WordAlignment.Words.{Characters, find_tokens}
use real_time_ai_call_audit.Store.{ok}
use real_time_ai_call_audit.Prelude.{
  ℕ, ◌≤◌, ◌≡◌, refl, String, true, false, ◌&&◌, none, some, List, [], ◌∷◌, leb, All, codes, ◌=?◌,
  ◌==◌, one_of, select, sort_by, insert_by, text_len, is_blank, Dict, lookup, arith,
}
use real_time_ai_call_audit.Intervals.{merge, merge_from, merge_sorted, pair_before}
use real_time_ai_call_audit.Policy.{
  hold, hold_overlap, opening_deadline, shift_deadline, normalise_holds, read_holds,
}
use real_time_ai_call_audit.Policy.Phrases.{
  PolicyUtterance, is_prefix, find, find_phrase, normalise_phrase, ids_in, run_evidence, scan_runs,
  phrase_evidence,
}
use real_time_ai_call_audit.Policy.Rules.{
  PolicyContext, PolicyRule, Ruleset, opening_disclosure, potential_violation, has_unknown_overlap,
  is_within, holds_for, holds_of, safe_holds, is_reliable, disclosure_state, new_finding,
  opening_end, opening_elapsed, opening_state, opening_evidence, opening_for, opening_finding,
  findings_of,
}
use real_time_ai_call_audit.Policy.Compile.{
  text, integer, list, RawRule, TopValue, value, rules, is_identifier, texts_if, bounded_texts,
  compile_phrases, compile_kind, type_of_rule, compile_rule, compile_rules, count_advisories,
  compile_header, compile_ruleset,
}
use real_time_ai_call_audit.Policy.Evidence.{SupportsRule, findings_of-Supported}
use real_time_ai_call_audit.Policy.Verdicts.{opening_finding_lem}
use real_time_ai_call_audit.Policy.WellFormed.{IsWellFormed, compile_ruleset-IsWellFormed}

abbrev ascii : Characters
ascii = record { is_space = λ c. c == 32; is_word = λ c. leb 97 c && leb c 122; lower = λ cs. cs }

abbrev digest : List String → String
digest ids = "digest"

abbrev rule : PolicyRule
rule = record {
  id = "r1";
  kind = opening_disclosure ("may be recorded" ∷ []) 20;
  severity = "HIGH";
  remediation = "say it";
  call_types = "*" ∷ [];
  policy_text_version = "p1";
}

abbrev compiled : Ruleset
compiled = record { ruleset_version = "1"; ruleset_hash = "h"; rules = rule ∷ [] }

abbrev context : PolicyContext
context = record {
  organisation_id = "o";
  call_id = "c";
  transcript_revision = 1;
  call_type = "sales";
  agent_connected_ms = some 0;
  call_duration_ms = some 100;
  holds = some (hold "HOLD" 5 15 ∷ []);
  complete = true;
  timing_reliable = true;
}

abbrev agent : String → ℕ → ℕ → String → PolicyUtterance
agent id start end words = record {
  id = id;
  role = "AGENT";
  is_final = true;
  start_ms = some start;
  end_ms = some end;
  text_redacted = words;
}

abbrev silent : List PolicyUtterance
silent = agent "u1" 0 4 "hello" ∷ agent "u2" 16 20 "how are you" ∷ []

violates :
    (opening_finding ascii codes digest context compiled silent rule
      ("may be recorded" ∷ [])
      20).status
    ≡ potential_violation
unfolding opening_finding opening_for opening_state opening_elapsed opening_end opening_evidence
    opening_deadline shift_deadline safe_holds holds_of holds_for normalise_holds read_holds merge
    merge_sorted merge_from sort_by insert_by pair_before one_of ◌=?◌ is_within hold_overlap select
    disclosure_state is_reliable has_unknown_overlap text_len phrase_evidence scan_runs run_evidence
    find_phrase find is_prefix normalise_phrase find_tokens ids_in new_finding
violates = refl

opening_finding_lem_example :
    (is_reliable context silent ≡ true)
    × (has_unknown_overlap silent 0
          (opening_end ascii codes digest context 20 0 100)
          (safe_holds context)
        ≡ false)
    × (opening_evidence ascii codes digest context silent ("may be recorded" ∷ []) 20 0 100 ≡ [])
    × (opening_deadline 0 20 (safe_holds context) ≤ 100)
opening_finding_lem_example =
    opening_finding_lem ascii codes digest context compiled silent rule ("may be recorded" ∷ []) 20
      0 100 (let le : 1 ≤ 20 = omega arith in le) refl refl violates

abbrev said : List PolicyUtterance
said = agent "u1" 0 4 "this call may" ∷ agent "u2" 16 20 "be recorded" ∷ []

found :
    opening_evidence ascii codes digest context said ("may be recorded" ∷ []) 20 0 100
    ≡ "u1" ∷ "u2" ∷ []
unfolding opening_end opening_evidence opening_deadline shift_deadline safe_holds holds_of holds_for
    normalise_holds read_holds merge merge_sorted merge_from sort_by insert_by pair_before one_of
    ◌=?◌ is_within hold_overlap select phrase_evidence scan_runs run_evidence find_phrase find
    is_prefix normalise_phrase find_tokens ids_in
found = refl

findings_of-Supported_example :
    All
      (λ f.
        All
          (SupportsRule ascii codes digest context said
            (opening_disclosure ("may be recorded" ∷ []) 20))
          f.evidence_ids)
      (findings_of ascii codes digest context compiled said rule)
findings_of-Supported_example = findings_of-Supported ascii codes digest context compiled said rule

-- Two utterances without words before the phrase shift the places of the later ones past its span.
shifted :
    phrase_evidence ascii codes
      (agent "u1" 0 1 "..." ∷ agent "u2" 1 2 "..." ∷ agent "u3" 2 3 "ok" ∷ [])
      ("ok" ∷ [])
      none
    ≡ []
unfolding phrase_evidence scan_runs run_evidence find_phrase find is_prefix normalise_phrase
    find_tokens ids_in select ◌=?◌ one_of
shifted = refl

abbrev raw_rule : RawRule
raw_rule =
    ("id", text "r1")
    ∷ ("type", text "OPENING_DISCLOSURE")
    ∷ ("severity", text "HIGH")
    ∷ ("remediation", text "say it")
    ∷ ("call_types", list (some "*" ∷ []))
    ∷ ("phrase_variants", list (some "may be recorded" ∷ []))
    ∷ ("opportunity_ms", integer 20)
    ∷ []

abbrev raw : Dict TopValue
raw =
    ("schema_version", value (text "1.0.0"))
    ∷ ("ruleset_id", value (text "rs"))
    ∷ ("version", value (integer 1))
    ∷ ("policy_text_version", value (text "p1"))
    ∷ ("rules", rules (some raw_rule ∷ []))
    ∷ []

compiles : compile_ruleset (λ _. some 300) (λ _. "h") (λ _. "1") raw ≡ ok compiled
unfolding compile_ruleset compile_header lookup ◌=?◌ one_of is_identifier compile_rules compile_rule
    type_of_rule text_len bounded_texts texts_if is_blank compile_kind compile_phrases
    count_advisories
compiles = refl

compile_ruleset-IsWellFormed_example : IsWellFormed compiled
compile_ruleset-IsWellFormed_example =
    compile_ruleset-IsWellFormed (λ _. some 300) (λ _. "h") (λ _. "1") raw compiled compiles
