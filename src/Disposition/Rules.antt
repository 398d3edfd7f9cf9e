-- ===== src/Disposition/Rules.antt =====
-- The resolver: the three truth values of a rule's condition, front gates, and the first rule that
-- matches. A compiled configuration's taxonomy has every code that a gate or a rule emits.
use real_time_ai_call_audit.Prelude.{
  ℕ, String, Bool, true, false, not, ◌&&◌, ◌||◌, Option, none, some, List, [], ◌∷◌, map,
  if◌then◌else◌, all, any, is_some, ◌=?◌, one_of, sort_by, text_le,
}
use real_time_ai_call_audit.Disposition.{
  Floats, Signal, noul, choice, score, SignalType, noul_type, choice_type, score_type, Dict, lookup,
  Test, exists, noul_gte, noul_lte, choice_confidence_gte, score_gte, score_lte, choice_eq,
  choice_in, Node, all_of, any_of, not_of, test_of, Nodes, no_nodes, node, Rule, FactTest, fact_eq,
  fact_ne, fact_in, fact_not_in, fact_exists, FrontGate, Config, resolved, needs_review, Reason,
  missing_or_extra_signal, signal_type_mismatch, low_confidence, uncertain_rule_evidence,
  no_rule_matched, ProcessingPath, authoritative_front_gate, single_pass, abstain,
  DispositionResult, confidence_of, type_of_signal,
}

-- `None` is the third truth value.
abbrev pub Truth : Type 0
Truth = Option Bool

abbrev pub is_true : Truth → Bool
is_true (some true) = true
is_true _ = false

abbrev pub is_false : Truth → Bool
is_false (some false) = true
is_false _ = false

abbrev pub is_unknown : Truth → Bool
is_unknown none = true
is_unknown (some b) = false

-- `False in values`, then `None in values`.
unfoldable pub all_truth : List Truth → Truth
all_truth values =
    if any is_false values then some false else if any is_unknown values then none else some true

unfoldable pub any_truth : List Truth → Truth
any_truth values =
    if any is_true values then some true else if any is_unknown values then none else some false

abbrev pub not_truth : Truth → Truth
not_truth none = none
not_truth (some b) = some (not b)

abbrev pub same_type : SignalType → SignalType → Bool
same_type noul_type noul_type = true
same_type choice_type choice_type = true
same_type score_type score_type = true
same_type _ _ = false

abbrev has_key {ℓ} : {A : Type ℓ} → String → List (String × A) → Bool
has_key key d = is_some (lookup key d)

-- `set(d) == set(e)`
unfoldable pub same_keys {ℓ κ} :
    {A : Type ℓ} {B : Type κ} → List (String × A) → List (String × B) → Bool
same_keys d e = all (λ x. is_some (lookup x.0 e)) d && all (λ x. is_some (lookup x.0 d)) e

module _ {F : Type 0} (fl : Floats F) where
  -- a < b
  abbrev pub lt : F → F → Bool
  lt a b = not (fl.le b a)

  -- min(…) of a nonempty sequence: the first of the least.
  unfoldable pub least : F → List F → F
  least m [] = m
  least m (x ∷ xs) = least (if lt x m then x else m) xs

  unfoldable pub test_signal : Test F → Signal F → Truth
  test_signal exists signal = some true
  test_signal (noul_gte v) (noul p c e) = some (fl.le v p)
  test_signal (noul_lte v) (noul p c e) = some (fl.le p v)
  test_signal (choice_eq v) (choice x ps c e) = some (x =? v)
  test_signal (choice_in vs) (choice x ps c e) = some (one_of x vs)
  test_signal (choice_confidence_gte v) (choice x ps c e) = some (fl.le v c)
  test_signal (score_gte v) (score x c e) = some (fl.le v x)
  test_signal (score_lte v) (score x c e) = some (fl.le x v)
  test_signal _ _ = none

  -- `signals.get(node.get("signal"))`: a node that is no test names no signal.
  unfoldable pub condition : Dict (Signal F) → Node F → Truth
  condition signals (test_of name test) = elim (lookup name signals) [
    | none ↦ none
    | some signal ↦ test_signal test signal
  ]
  condition signals _ = none

  unfoldable pub conditions : Dict (Signal F) → Nodes F → List Truth
  conditions signals no_nodes = []
  conditions signals (node n ns) = condition signals n ∷ conditions signals ns

  unfoldable pub predicate : Dict (Signal F) → Node F → Truth
  predicate signals (all_of ns) = all_truth (conditions signals ns)
  predicate signals (any_of ns) = any_truth (conditions signals ns)
  predicate signals (not_of n) = not_truth (condition signals n)
  predicate signals (test_of name test) = condition signals (test_of name test)

  abbrev pub least_of : List F → Option F
  least_of [] = none
  least_of (x ∷ xs) = some (least x xs)

  abbrev keep : Option F → List F → List F
  keep none xs = xs
  keep (some x) xs = x ∷ xs

unfoldable mutual
  pub rule_confidence : {F : Type 0} → Floats F → Dict (Signal F) → Node F → Option F
  rule_confidence fl signals (all_of ns) = least_of fl (rule_confidences fl signals ns)
  rule_confidence fl signals (any_of ns) = least_of fl (rule_confidences fl signals ns)
  rule_confidence fl signals (not_of n) = rule_confidence fl signals n
  rule_confidence fl signals (test_of name test) = elim (lookup name signals) [
    | none ↦ none
    | some signal ↦ some (confidence_of signal)
  ]

  -- The children's confidences that are not None.
  pub rule_confidences : {F : Type 0} → Floats F → Dict (Signal F) → Nodes F → List F
  rule_confidences fl signals no_nodes = []
  rule_confidences fl signals (node n ns) =
      keep fl (rule_confidence fl signals n) (rule_confidences fl signals ns)

unfoldable pub fact_matches : FactTest → Option String → Bool
fact_matches test none = false
fact_matches (fact_eq v) (some actual) = actual =? v
fact_matches (fact_ne v) (some actual) = not (actual =? v)
fact_matches (fact_in vs) (some actual) = one_of actual vs
fact_matches (fact_not_in vs) (some actual) = not (one_of actual vs)
fact_matches fact_exists (some actual) = true

unfoldable pub gate_matches : Dict String → FrontGate → Bool
gate_matches facts g = g.enabled && fact_matches g.condition (lookup g.source facts)

unfoldable pub first_gate : Dict String → List FrontGate → Option FrontGate
first_gate facts [] = none
first_gate facts (g ∷ gs) =
    let rest = first_gate facts gs in if gate_matches facts g then some g else rest

module _ {F : Type 0} (fl : Floats F) (config : Config F) where
  unfoldable pub parent_of : String → Option String
  parent_of code = elim (lookup code config.taxonomy) [ none ↦ none | some parent ↦ parent ]

  -- `_serialize_signals`: the entries in the order of their keys.
  unfoldable pub serialize_signals : Dict (Signal F) → Dict (Signal F)
  serialize_signals signals = sort_by (λ a b. text_le a.0 b.0) signals

  -- `_review_result`
  unfoldable pub review_result :
      Dict (Signal F) → Reason → ProcessingPath → String → String → ℕ → DispositionResult F
  review_result signals reason path artifact adapter chunks = record {
    status = needs_review;
    code = none;
    parent_code = none;
    confidence = none;
    review_reason = some reason;
    matched_rule_id = none;
    signals = serialize_signals signals;
    processing_path = path;
    config_id = config.config_id;
    config_version = config.version;
    config_hash = config.content_hash;
    schema_version = config.schema_version;
    model_artifact = artifact;
    adapter_version = adapter;
    usage = record { chunks = chunks; input = none };
  }

  -- The resolved results: of a gate, of a rule, and of the default.
  unfoldable pub resolved_result :
      String → F → Option String → Dict (Signal F) → ProcessingPath → DispositionResult F
  resolved_result code confidence rule signals path = record {
    status = resolved;
    code = some code;
    parent_code = parent_of code;
    confidence = some confidence;
    review_reason = none;
    matched_rule_id = rule;
    signals = signals;
    processing_path = path;
    config_id = config.config_id;
    config_version = config.version;
    config_hash = config.content_hash;
    schema_version = config.schema_version;
    model_artifact = "none";
    adapter_version = "none";
    usage = record { chunks = 0; input = none };
  }

  abbrev pub abstained : Dict (Signal F) → Reason → DispositionResult F
  abstained signals reason = review_result signals reason abstain "none" "none" 0

  unfoldable pub threshold_of : String → F
  threshold_of code = elim (lookup code config.per_code_threshold) [
    | none ↦ config.commit_threshold
    | some t ↦ t
  ]

  -- The branch of a rule whose condition is true.
  unfoldable pub resolve_rule : Dict (Signal F) → Rule F → DispositionResult F
  resolve_rule signals rule = elim (rule_confidence fl signals rule.when) [
    | none ↦ abstained signals low_confidence
    | some s ↦
        if lt fl s (threshold_of rule.emit) || lt fl s config.review_threshold
        then abstained signals low_confidence
        else resolved_result rule.emit s (some rule.id) (serialize_signals signals) single_pass
  ]

  abbrev pub least_confidence : Dict (Signal F) → F
  least_confidence [] = fl.of_ratio 0 1
  least_confidence (x ∷ xs) = least fl (confidence_of x.1) (map (λ y. confidence_of y.1) xs)

  -- What follows the loop.
  unfoldable pub resolve_default : Dict (Signal F) → Bool → DispositionResult F
  resolve_default signals maybe_rule =
      if maybe_rule
      then abstained signals uncertain_rule_evidence
      else if not (is_some (lookup config.default_emit config.taxonomy))
          || config.default_emit =? "REVIEW"
      then abstained signals no_rule_matched
      else if lt fl (least_confidence signals) config.commit_threshold
      then abstained signals low_confidence
      else resolved_result config.default_emit (least_confidence signals) none
          (serialize_signals signals) single_pass

  -- The loop over the rules.
  unfoldable pub resolve_rules : Dict (Signal F) → Bool → List (Rule F) → DispositionResult F
  resolve_rules signals maybe_rule [] = resolve_default signals maybe_rule
  resolve_rules signals maybe_rule (rule ∷ rules) = elim (predicate fl signals rule.when) [
    | none ↦ resolve_rules signals true rules
    | some b ↦
        (let next = resolve_rules signals maybe_rule rules in
          if b then resolve_rule signals rule else next)
  ]

  unfoldable pub has_question_type : String × Signal F → Bool
  has_question_type (name, signal) = elim (lookup name config.questions) [
    | none ↦ false
    | some q ↦ same_type (type_of_signal signal) q.type_of
  ]

  unfoldable pub resolve_disposition : Dict (Signal F) → Dict String → DispositionResult F
  resolve_disposition signals facts = elim (first_gate facts config.front_gates) [
    | some g ↦ resolved_result g.emit (fl.of_ratio 1 1) (some g.id) [] authoritative_front_gate
    | none ↦
        if not (same_keys signals config.questions)
        then abstained signals missing_or_extra_signal
        else if not (all has_question_type signals)
        then abstained signals signal_type_mismatch
        else resolve_rules signals false config.rules
  ]
