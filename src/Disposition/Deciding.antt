-- ===== src/Disposition/Deciding.antt =====
-- What a resolved disposition rests on: a front gate, the first rule that holds, or the default.
use real_time_ai_call_audit.Prelude.{
  String, Bool, true, false, ◌≡◌, refl, sym, ap, subst, ◌⊎◌, inl, inr, none, some, List, [], ◌∷◌,
  ◌++◌, All, all, is_some, ◌=?◌, Bool-cases, Option-cases, some_eq, arith,
}
use real_time_ai_call_audit.Disposition.{
  Floats, Signal, Dict, lookup, Rule, Config, resolved, DispositionResult, FrontGate, single_pass,
}
use real_time_ai_call_audit.Disposition.Rules.{
  is_true, lt, predicate, rule_confidence, threshold_of, least_confidence, resolve_rule,
  resolve_default, resolve_rules, resolve_disposition, review_result, resolved_result,
  serialize_signals, gate_matches, first_gate, has_question_type, same_keys,
}

module _ {F : Type 0} (fl : Floats F) (config : Config F) (signals : Dict (Signal F)) where
  -- The first of the rules that is true, with a confidence that reaches both thresholds.
  pub FromRule : List (Rule F) → DispositionResult F → Type 0
  FromRule rules result =
      (before after : List (Rule F)) × (rule : Rule F) × (confidence : F) × (rules
        ≡ before ++ rule ∷ after)
      × All (λ r. is_true (predicate fl signals r.when) ≡ false) before
      × (predicate fl signals rule.when ≡ some true)
      × (rule_confidence fl signals rule.when ≡ some confidence)
      × (fl.le (threshold_of fl config rule.emit) confidence ≡ true)
      × (fl.le config.review_threshold confidence ≡ true)
      × (result.code ≡ some rule.emit)
      × (result.matched_rule_id ≡ some rule.id)
      × (result.confidence ≡ some confidence)

  -- The default code, when every rule is false.
  pub FromDefault : List (Rule F) → DispositionResult F → Type 0
  FromDefault rules result =
      All (λ r. predicate fl signals r.when ≡ some false) rules
      × (is_some (lookup config.default_emit config.taxonomy) ≡ true)
      × ((config.default_emit =? "REVIEW") ≡ false)
      × (fl.le config.commit_threshold (least_confidence fl config signals) ≡ true)
      × (result.code ≡ some config.default_emit)
      × (result.matched_rule_id ≡ none)

  -- A front gate that matches the facts, and none before it does.
  pub FromGate : Dict String → List FrontGate → DispositionResult F → Type 0
  FromGate facts gates result =
      (before after : List FrontGate) × (gate : FrontGate) × (gates ≡ before ++ gate ∷ after)
      × All (λ g. gate_matches facts g ≡ false) before
      × (gate_matches facts gate ≡ true)
      × (result.code ≡ some gate.emit)
      × (result.matched_rule_id ≡ some gate.id)

  at_least : (a b : F) → lt fl a b ≡ false → fl.le b a ≡ true
  at_least a b h = ground arith

  resolve_rule_lem :
      (rule : Rule F)
      → (resolve_rule fl config signals rule).status ≡ resolved
      → predicate fl signals rule.when ≡ some true
      → (before after : List (Rule F))
      → All (λ r. is_true (predicate fl signals r.when) ≡ false) before
      → FromRule (before ++ rule ∷ after) (resolve_rule fl config signals rule)
  unfolding resolve_rule review_result resolved_result FromRule
  resolve_rule_lem rule h holds before after h_before =
      elim (Option-cases (rule_confidence fl signals rule.when)) [
        | inl e ↦ cc (rw (e, resolve_rule) at h)
        | inr (s, e) ↦ elim (Bool-cases (lt fl s (threshold_of fl config rule.emit))) [
          | inl low ↦ cc (rw (e, low, resolve_rule) at h)
          | inr high ↦ elim (Bool-cases (lt fl s config.review_threshold)) [
            | inl low ↦ cc (rw (e, high, low, resolve_rule) at h)
            | inr high2 ↦
                subst (FromRule (before ++ rule ∷ after))
                  {x = resolved_result fl config rule.emit s (some rule.id)
                    (serialize_signals fl config signals) single_pass}
                  {y = resolve_rule fl config signals rule}
                  (sym (rw (e, high, high2, resolve_rule) refl))
                  (
                    before,
                    after,
                    rule,
                    s,
                    refl,
                    h_before,
                    holds,
                    e,
                    at_least s (threshold_of fl config rule.emit) high,
                    at_least s config.review_threshold high2,
                    refl,
                    refl,
                    refl,
                  )
          ]
        ]
      ]

  resolve_default_lem :
      (maybe_rule : Bool)
      → (resolve_default fl config signals maybe_rule).status ≡ resolved
      → (maybe_rule ≡ false) × FromDefault [] (resolve_default fl config signals maybe_rule)
  unfolding resolve_default review_result resolved_result FromDefault
  resolve_default_lem true h = cc
  resolve_default_lem false h =
      elim (Bool-cases (is_some (lookup config.default_emit config.taxonomy))) [
        | inr absent ↦ cc (rw (absent, resolve_default) at h)
        | inl present ↦ elim (Bool-cases (config.default_emit =? "REVIEW")) [
          | inl review ↦ cc (rw (present, review, resolve_default) at h)
          | inr proper ↦
              elim (Bool-cases
                (lt fl (least_confidence fl config signals) config.commit_threshold)) [
                  | inl low ↦ cc (rw (present, proper, low, resolve_default) at h)
                  | inr high ↦ (
                    refl,
                    subst (FromDefault [])
                        {x = resolved_result fl config config.default_emit
                          (least_confidence fl config signals) none
                          (serialize_signals fl config signals) single_pass}
                        {y = resolve_default fl config signals false}
                        (sym (rw (present, proper, high, resolve_default) refl))
                        (
                          tt,
                          present,
                          proper,
                          at_least (least_confidence fl config signals) config.commit_threshold
                              high,
                          refl,
                          refl,
                        ),
                  )
                ]
        ]
      ]

  FromRule-cons :
      (rule : Rule F) (rules : List (Rule F)) (result : DispositionResult F)
      → is_true (predicate fl signals rule.when) ≡ false
      → FromRule rules result
      → FromRule (rule ∷ rules) result
  unfolding FromRule
  FromRule-cons rule rules result h (before, after, found, s, e, h_before, a, b, c, d, x, y, z) =
      (rule ∷ before, after, found, s, ap (λ rs. rule ∷ rs) e, (h, h_before), a, b, c, d, x, y, z)

  FromDefault-cons :
      (rule : Rule F) (rules : List (Rule F)) (result : DispositionResult F)
      → predicate fl signals rule.when ≡ some false
      → FromDefault rules result
      → FromDefault (rule ∷ rules) result
  unfolding FromDefault
  FromDefault-cons rule rules result h (hs, a, b, c, d, e) = ((h, hs), a, b, c, d, e)

  resolve_rules_lem :
      (maybe_rule : Bool) (rules : List (Rule F))
      → (resolve_rules fl config signals maybe_rule rules).status ≡ resolved
      → FromRule rules (resolve_rules fl config signals maybe_rule rules)
        ⊎ ((maybe_rule ≡ false)
            × FromDefault rules (resolve_rules fl config signals maybe_rule rules))
  unfolding resolve_rules
  resolve_rules_lem maybe_rule [] h = inr (resolve_default_lem maybe_rule h)
  resolve_rules_lem maybe_rule (rule ∷ rules) h =
      elim (Option-cases (predicate fl signals rule.when)) [
        | inl unknown ↦
            rw (unknown, resolve_rules)
              (elim (resolve_rules_lem true rules (rw (unknown, resolve_rules) at h)) [
                | inl r ↦ inl (
                    FromRule-cons rule rules (resolve_rules fl config signals true rules)
                      (rw unknown refl) r)
                | inr (e, d) ↦ cc
              ])
        | inr (true, holds) ↦
            rw (holds, resolve_rules)
              (inl (resolve_rule_lem rule (rw (holds, resolve_rules) at h) holds [] rules tt))
        | inr (false, fails) ↦
            rw (fails, resolve_rules)
              (elim (resolve_rules_lem maybe_rule rules (rw (fails, resolve_rules) at h)) [
                | inl r ↦ inl (
                    FromRule-cons rule rules (resolve_rules fl config signals maybe_rule rules)
                      (rw fails refl) r)
                | inr (e, d) ↦ inr (
                  e,
                  FromDefault-cons rule rules (resolve_rules fl config signals maybe_rule rules)
                      fails d,
                )
              ])
      ]

  first_gate_lem :
      (facts : Dict String) (gates : List FrontGate) (gate : FrontGate)
      → first_gate facts gates ≡ some gate
      → (before after : List FrontGate) × (gates ≡ before ++ gate ∷ after)
        × All (λ g. gate_matches facts g ≡ false) before
        × (gate_matches facts gate ≡ true)
  unfolding first_gate
  first_gate_lem facts [] gate e = cc
  first_gate_lem facts (g ∷ gates) gate e = elim (Bool-cases (gate_matches facts g)) [
    | inl hit ↦
        (let same = some_eq (rw (hit, first_gate) at e) in
          (
            [],
            gates,
            ap (λ x. x ∷ gates) same,
            tt,
            subst (λ x. gate_matches facts x ≡ true) same hit,
          ))
    | inr miss ↦
        (let (before, after, e', h, hit) =
            first_gate_lem facts gates gate (rw (miss, first_gate) at e) in
          (g ∷ before, after, ap (λ gs. g ∷ gs) e', (miss, h), hit))
  ]

-- A resolved disposition comes from the first front gate that the facts match; or, when no gate
-- matches, from the first rule that is true, with a confidence that reaches the code's and the review
-- threshold; or, when every rule is false and none unknown, from the default code, which the taxonomy
-- has and which is not REVIEW, with a least confidence that reaches the commit threshold.
pub resolve_disposition_lem :
    {F : Type 0} (fl : Floats F) (config : Config F) (signals : Dict (Signal F))
    (facts : Dict String)
    → (resolve_disposition fl config signals facts).status ≡ resolved
    → FromGate fl config signals facts config.front_gates
        (resolve_disposition fl config signals facts)
      ⊎ ((first_gate facts config.front_gates ≡ none)
          × (FromRule fl config signals config.rules (resolve_disposition fl config signals facts)
              ⊎ FromDefault fl config signals config.rules
                  (resolve_disposition fl config signals facts)))
unfolding resolve_disposition FromGate review_result resolved_result
resolve_disposition_lem fl config signals facts h =
    elim (Option-cases (first_gate facts config.front_gates)) [
      | inr (gate, e) ↦
          (let (before, after, e_gates, h_before, hit) =
              first_gate_lem fl config signals facts config.front_gates gate e in
            rw (e, resolve_disposition)
              (inl (before, after, gate, e_gates, h_before, hit, refl, refl)))
      | inl e ↦ elim (Bool-cases (same_keys signals config.questions)) [
        | inr differ ↦ cc (rw (e, differ, resolve_disposition) at h)
        | inl same ↦ elim (Bool-cases (all (has_question_type fl config) signals)) [
          | inr differ ↦ cc (rw (e, same, differ, resolve_disposition) at h)
          | inl typed ↦
              rw (e, same, typed, resolve_disposition)
                (inr (
                  refl,
                  elim (resolve_rules_lem fl config signals false config.rules
                      (rw (e, same, typed, resolve_disposition) at h)) [
                        | inl r ↦ inl r
                        | inr (_, d) ↦ inr d
                      ],
                ))
        ]
      ]
    ]
