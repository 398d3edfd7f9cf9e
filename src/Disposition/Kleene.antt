-- ===== src/Disposition/Kleene.antt =====
-- `_predicate` and the strong three-valued logic of Kleene: the two agree on a condition of one level,
-- and a condition inside a condition is unknown to `_predicate`.
use real_time_ai_call_audit.Prelude.{
  Bool, true, false, ◌&&◌, ◌||◌, ◌≡◌, refl, ap, ◌∙◌, none, some, List, ◌∷◌, any, Bool-cases, inl,
  inr, arith,
}
use real_time_ai_call_audit.Disposition.{
  Floats, Signal, Dict, Node, all_of, any_of, not_of, test_of, Nodes, no_nodes, node,
}
use real_time_ai_call_audit.Disposition.Rules.{
  Truth, is_true, is_unknown, all_truth, any_truth, not_truth, condition, conditions, predicate,
}

-- The least and the greatest in the order false, unknown, true.
abbrev both : Truth → Truth → Truth
both (some false) w = some false
both v (some false) = some false
both none w = none
both (some true) w = w

abbrev either : Truth → Truth → Truth
either (some true) w = some true
either v (some true) = some true
either none w = none
either (some false) w = w

mutual
  pub evaluate : {F : Type 0} → Floats F → Dict (Signal F) → Node F → Truth
  evaluate fl signals (all_of ns) = evaluate_all fl signals ns
  evaluate fl signals (any_of ns) = evaluate_any fl signals ns
  evaluate fl signals (not_of n) = not_truth (evaluate fl signals n)
  evaluate fl signals (test_of name test) = condition fl signals (test_of name test)

  pub evaluate_all : {F : Type 0} → Floats F → Dict (Signal F) → Nodes F → Truth
  evaluate_all fl signals no_nodes = some true
  evaluate_all fl signals (node n ns) = both (evaluate fl signals n) (evaluate_all fl signals ns)

  pub evaluate_any : {F : Type 0} → Floats F → Dict (Signal F) → Nodes F → Truth
  evaluate_any fl signals no_nodes = some false
  evaluate_any fl signals (node n ns) = either (evaluate fl signals n) (evaluate_any fl signals ns)

abbrev pub is_test : {F : Type 0} → Node F → Bool
is_test (test_of name test) = true
is_test _ = false

abbrev pub are_tests : {F : Type 0} → Nodes F → Bool
are_tests no_nodes = true
are_tests (node n ns) = is_test n && are_tests ns

-- A condition whose children are tests.
abbrev pub is_flat : {F : Type 0} → Node F → Bool
is_flat (all_of ns) = are_tests ns
is_flat (any_of ns) = are_tests ns
is_flat (not_of n) = is_test n
is_flat (test_of name test) = true

all_truth-cons : (v : Truth) (vs : List Truth) → all_truth (v ∷ vs) ≡ both v (all_truth vs)
unfolding all_truth
all_truth-cons v vs = ground arith

any_truth-cons : (v : Truth) (vs : List Truth) → any_truth (v ∷ vs) ≡ either v (any_truth vs)
unfolding any_truth
any_truth-cons v vs = ground arith

or_true : (b : Bool) → (b || true) ≡ true
or_true true = refl
or_true false = refl

never_true : (vs : List Truth) → any is_unknown vs ≡ true → is_true (all_truth vs) ≡ false
unfolding all_truth
never_true vs h = rw h (ground arith)

module _ {F : Type 0} (fl : Floats F) (signals : Dict (Signal F)) where
  evaluate-test : (n : Node F) → is_test n ≡ true → condition fl signals n ≡ evaluate fl signals n
  unfolding evaluate
  evaluate-test (all_of ns) h = cc
  evaluate-test (any_of ns) h = cc
  evaluate-test (not_of n) h = cc
  evaluate-test (test_of name test) h = refl

  all_truth-evaluate :
      (ns : Nodes F)
      → are_tests ns ≡ true
      → all_truth (conditions fl signals ns) ≡ evaluate_all fl signals ns
  unfolding evaluate conditions all_truth
  all_truth-evaluate no_nodes h = refl
  all_truth-evaluate (node n ns) h = elim (Bool-cases (is_test n)) [
    | inl e ↦
        all_truth-cons (condition fl signals n) (conditions fl signals ns)
        ∙ rw (evaluate-test n e, all_truth-evaluate ns (rw e at h)) refl
    | inr e ↦ cc (rw e at h)
  ]

  any_truth-evaluate :
      (ns : Nodes F)
      → are_tests ns ≡ true
      → any_truth (conditions fl signals ns) ≡ evaluate_any fl signals ns
  unfolding evaluate conditions any_truth
  any_truth-evaluate no_nodes h = refl
  any_truth-evaluate (node n ns) h = elim (Bool-cases (is_test n)) [
    | inl e ↦
        any_truth-cons (condition fl signals n) (conditions fl signals ns)
        ∙ rw (evaluate-test n e, any_truth-evaluate ns (rw e at h)) refl
    | inr e ↦ cc (rw e at h)
  ]

  -- On a condition whose children are tests, `_predicate` is the evaluation in Kleene's strong logic.
  pub predicate-eq-evaluate :
      (n : Node F) → is_flat n ≡ true → predicate fl signals n ≡ evaluate fl signals n
  unfolding predicate evaluate
  predicate-eq-evaluate (all_of ns) h = all_truth-evaluate ns h
  predicate-eq-evaluate (any_of ns) h = any_truth-evaluate ns h
  predicate-eq-evaluate (not_of n) h = ap not_truth (evaluate-test n h)
  predicate-eq-evaluate (test_of name test) h = refl

  unknown-nested :
      (ns : Nodes F) → are_tests ns ≡ false → any is_unknown (conditions fl signals ns) ≡ true
  unfolding conditions condition
  unknown-nested no_nodes h = cc
  unknown-nested (node (test_of name test) ns) h =
      rw (unknown-nested ns h) (or_true (is_unknown (condition fl signals (test_of name test))))
  unknown-nested (node (all_of ms) ns) h = refl
  unknown-nested (node (any_of ms) ns) h = refl
  unknown-nested (node (not_of m) ns) h = refl

  -- A conjunction or a negation with a condition that is no test among its children never holds.
  pub predicate-nested :
      (ns : Nodes F) (n : Node F)
      → are_tests ns ≡ false
      → is_test n ≡ false
      → (is_true (predicate fl signals (all_of ns)) ≡ false)
        × (predicate fl signals (not_of n) ≡ none)
  unfolding predicate condition
  predicate-nested ns (test_of name test) h h' = cc
  predicate-nested ns (all_of ms) h h' =
      (never_true (conditions fl signals ns) (unknown-nested ns h), refl)
  predicate-nested ns (any_of ms) h h' =
      (never_true (conditions fl signals ns) (unknown-nested ns h), refl)
  predicate-nested ns (not_of m) h h' =
      (never_true (conditions fl signals ns) (unknown-nested ns h), refl)
