-- ===== src/Disposition/Examples.antt =====
-- A configuration with one question and one rule, and a call of three utterances in two windows.
-- Floating-point numbers are hundredths here.
use real_time_ai_call_audit.Store.{ok}
use real_time_ai_call_audit.Prelude.{
  sorted_set, without_repeats, ℕ, ◌+◌, ◌-◌, ◌*◌, ◌/◌, ◌≤◌, ◌≡◌, refl, ◌⊎◌, String, true, false,
  Option, none, some, List, [], ◌∷◌, max, leb, length, All, one_of, ◌=?◌, text_le, text_len,
  sort_by, insert_by, is_blank,
}
use real_time_ai_call_audit.Disposition.{
  Floats, Signal, noul, SignalType, noul_type, Dict, lookup, noul_gte, Node, all_of, not_of, any_of,
  test_of, no_nodes, node, Config, resolved, turn_aware_map_aggregate, DispositionResult,
}
use real_time_ai_call_audit.Disposition.Rules.{
  is_true, all_truth, same_keys, least, test_signal, condition, conditions, predicate,
  rule_confidence, first_gate, parent_of, serialize_signals, review_result, resolved_result,
  threshold_of, resolve_rule, resolve_rules, has_question_type, resolve_disposition,
}
use real_time_ai_call_audit.Disposition.Turns.{
  Utterance, Turn, speaker_of, add_utterance, group_from, group_speaker_turns, count_chars,
  last_turns, trim_overlap, pack_turn, pack_turns, last_windows, make_windows,
}
use real_time_ai_call_audit.Disposition.Classify.{
  Adapter, traverse, flatten, values_for, greatest, is_valid_signal, validated_signal,
  validated_signals, build_signal, combine_values, combine_question, aggregate, transcript_reason,
  ask, conclude, conclude_combined, combine_outputs, classify_windows, classify_transcript,
  classify_disposition,
}
use real_time_ai_call_audit.Disposition.Deciding.{
  FromGate, FromRule, FromDefault, resolve_disposition_lem,
}
use real_time_ai_call_audit.Disposition.Kleene.{evaluate, predicate-eq-evaluate, predicate-nested}
use real_time_ai_call_audit.Disposition.Grouping.{AreTurns, group_speaker_turns-AreTurns}
use real_time_ai_call_audit.Disposition.Packed.{IsCover}
use real_time_ai_call_audit.Disposition.Covering.{make_windows_lem}
use real_time_ai_call_audit.Disposition.Evidence.{AreGrounded}
use real_time_ai_call_audit.Disposition.Grounded.{classify_disposition-IsGrounded}

abbrev hundredths : Floats ℕ
hundredths = record {
  le = leb;
  of_ratio = λ a b. a * 100 / b;
  add = λ a b. a + b;
  sub = λ a b. a - b;
  div = λ a n. a / n;
}

abbrev paid : Node ℕ
paid = all_of (node (test_of "paid" (noul_gte 80)) no_nodes)

abbrev config : Config ℕ
config = record {
  config_id = "billing";
  version = 3;
  content_hash = "h";
  schema_version = "1";
  questions = ("paid", record { type_of = noul_type; criteria = [] }) ∷ [];
  taxonomy = ("PAID", none) ∷ ("REVIEW", none) ∷ [];
  front_gates = [];
  rules = record { id = "r1"; when = paid; emit = "PAID" } ∷ [];
  default_emit = "REVIEW";
  commit_threshold = 70;
  review_threshold = 60;
  per_code_threshold = ("PAID", 75) ∷ [];
  context_limit_chars = 100;
  window_chars = 10;
  overlap_turns = 1;
  max_chunks = 4;
}

abbrev signals : Dict (Signal ℕ)
signals = ("paid", noul 90 85 ("u1" ∷ [])) ∷ []

resolves : (resolve_disposition hundredths config signals []).status ≡ resolved
unfolding resolve_disposition first_gate same_keys lookup ◌=?◌ has_question_type resolve_rules
    predicate conditions condition test_signal all_truth resolve_rule rule_confidence least
    threshold_of resolved_result
resolves = refl

resolve_disposition_lem_example :
    FromGate hundredths config signals [] [] (resolve_disposition hundredths config signals [])
    ⊎ ((first_gate [] [] ≡ none)
        × (FromRule hundredths config signals config.rules
              (resolve_disposition hundredths config signals [])
            ⊎ FromDefault hundredths config signals config.rules
                (resolve_disposition hundredths config signals [])))
resolve_disposition_lem_example = resolve_disposition_lem hundredths config signals [] resolves

predicate-eq-evaluate_example : predicate hundredths signals paid ≡ evaluate hundredths signals paid
predicate-eq-evaluate_example = predicate-eq-evaluate hundredths signals paid refl

predicate-nested_example :
    (is_true (predicate hundredths signals (all_of (node (any_of (node paid no_nodes)) no_nodes)))
      ≡ false)
    × (predicate hundredths signals (not_of paid) ≡ none)
predicate-nested_example =
    predicate-nested hundredths signals (node (any_of (node paid no_nodes)) no_nodes) paid refl refl

abbrev said_by : String → String → ℕ → String → Utterance
said_by id role start text = record {
  id = id;
  speaker_id = role;
  role = role;
  is_final = true;
  start_ms = start;
  end_ms = start + 5;
  text_redacted = text;
}

abbrev transcript : List Utterance
transcript =
    said_by "u1" "AGENT" 0 "hello"
    ∷ said_by "u2" "CUSTOMER" 10 "I"
    ∷ said_by "u3" "CUSTOMER" 20 "paid"
    ∷ []

group_speaker_turns-AreTurns_example : AreTurns transcript (group_speaker_turns transcript)
group_speaker_turns-AreTurns_example = group_speaker_turns-AreTurns transcript

abbrev agent_turn : Turn
agent_turn = record {
  id = "u1";
  utterance_ids = "u1" ∷ [];
  speaker_id = "AGENT";
  role = "AGENT";
  start_ms = 0;
  end_ms = 5;
  text_redacted = "hello";
}

abbrev customer_turn : Turn
customer_turn = record {
  id = "u2";
  utterance_ids = "u2" ∷ "u3" ∷ [];
  speaker_id = "CUSTOMER";
  role = "CUSTOMER";
  start_ms = 10;
  end_ms = 25;
  text_redacted = "I\npaid";
}

abbrev windows : List (List Turn)
windows = (agent_turn ∷ []) ∷ (customer_turn ∷ []) ∷ []

two_windows : make_windows (agent_turn ∷ customer_turn ∷ []) 100 10 1 4 ≡ some windows
unfolding make_windows count_chars text_len pack_turns pack_turn last_turns trim_overlap
    last_windows
two_windows = refl

make_windows_lem_example :
    IsCover 1 windows (agent_turn ∷ customer_turn ∷ [])
    × All (λ w. count_chars w ≤ 10) windows
    × (length windows ≤ max 1 4)
make_windows_lem_example =
    make_windows_lem (agent_turn ∷ customer_turn ∷ []) 100 10 1 4 windows two_windows

abbrev model : Adapter (Signal ℕ)
model = record {
  artifact_version = "m1";
  adapter_version = "a1";
  evaluate = λ questions turns.
      some (("paid", noul 90 85 (elim turns [ [] ↦ [] | turn ∷ _ ↦ turn.utterance_ids ])) ∷ []);
}

abbrev accept_any : SignalType → Signal ℕ → Option (Signal ℕ)
accept_any type signal = some signal

abbrev result : DispositionResult ℕ
result = record {
  status = resolved;
  code = some "PAID";
  parent_code = none;
  confidence = some 85;
  review_reason = none;
  matched_rule_id = some "r1";
  signals = ("paid", noul 90 85 ("u1" ∷ "u2" ∷ "u3" ∷ [])) ∷ [];
  processing_path = turn_aware_map_aggregate;
  config_id = "billing";
  config_version = 3;
  config_hash = "h";
  schema_version = "1";
  model_artifact = "m1";
  adapter_version = "a1";
  usage = record { chunks = 2; input = some (11, 2) };
}

classified : classify_disposition hundredths accept_any model config transcript [] ≡ ok result
unfolding classify_disposition resolve_disposition first_gate same_keys lookup ◌=?◌ review_result
    serialize_signals sort_by insert_by classify_transcript transcript_reason is_blank one_of
    text_le text_len group_speaker_turns group_from add_utterance speaker_of make_windows
    count_chars pack_turns pack_turn last_turns trim_overlap last_windows classify_windows traverse
    ask validated_signals validated_signal is_valid_signal flatten combine_outputs aggregate
    combine_question values_for combine_values sorted_set without_repeats greatest least
    build_signal conclude_combined conclude has_question_type resolve_rules predicate conditions
    condition test_signal all_truth resolve_rule rule_confidence threshold_of resolved_result
    parent_of
classified = refl

classify_disposition-IsGrounded_example :
    AreGrounded (λ ref. one_of ref ("u1" ∷ "u2" ∷ "u3" ∷ []) ≡ true) result.signals
classify_disposition-IsGrounded_example =
    classify_disposition-IsGrounded hundredths accept_any model config transcript [] result
      classified
