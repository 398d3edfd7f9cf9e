-- ===== src/Disposition/Evidence.antt =====
-- The evidence of signals: a property of the allowed ids is one of every id in what is made of them.
use real_time_ai_call_audit.Store.{Outcome, ok, raise, ◌>>=◌, ok-injective, raise_if-ok}
use real_time_ai_call_audit.Prelude.{sorted_set, All-sorted_set}
use real_time_ai_call_audit.Prelude.{
  String, Bool, true, false, not, ◌&&◌, ◌≡◌, refl, sym, subst, inl, inr, Option, none, some, List,
  [], ◌∷◌, map, if◌then◌else◌, leb, length, All, All-append, all, one_of, ◌=?◌, eq_iff, text_le,
  All-sort_by, Bool-cases, Option-cases, some_eq, arith,
}
use real_time_ai_call_audit.Disposition.{
  Floats, Signal, noul, choice, score, SignalType, Dict, lookup, Question, Config, evidence_of,
  Rule,
}
use real_time_ai_call_audit.Disposition.Rules.{
  resolve_disposition, resolve_rules, resolve_rule, resolve_default, review_result, resolved_result,
  serialize_signals,
}
use real_time_ai_call_audit.Disposition.Classify.{
  ClassifyError, validation_error, traverse, flatten, values_for, is_valid_signal, validated_signal,
  build_signal, choose_signal, combine_choices, combine_values, combine_question, aggregate,
}

one_of_lem :
    (Q : String → Type 0) (s : String) (ws : List String) → one_of s ws ≡ true → All Q ws → Q s
unfolding one_of
one_of_lem Q s [] e h = cc
one_of_lem Q s (w ∷ ws) e h = elim (Bool-cases (s =? w)) [
  | inl hit ↦ subst Q (sym ((eq_iff s w).0 hit)) h.0
  | inr miss ↦ one_of_lem Q s ws (rw (miss, one_of) at e) h.1
]

pub traverse_lem {ℓ κ} :
    {A B : Type 0} (P : A → Type ℓ) (R : B → Type κ) (f : A → Option B)
    → ((a : A) (b : B) → P a → f a ≡ some b → R b)
    → (xs : List A) (ys : List B) → All P xs
    → traverse f xs ≡ some ys
    → All R ys
unfolding traverse
traverse_lem P R f step [] ys h e = subst (All R) (some_eq e) tt
traverse_lem P R f step (x ∷ xs) ys h e = elim (Option-cases (f x)) [
  | inl stop ↦ cc (rw (stop, traverse) at e)
  | inr (b, go) ↦ elim (Option-cases (traverse f xs)) [
    | inl stop ↦ cc (rw (go, stop, traverse) at e)
    | inr (bs, go') ↦
        subst (All R) (some_eq (rw (go, go', traverse) at e))
          (step x b h.0 go, traverse_lem P R f step xs bs h.1 go')
  ]
]

no_conflict :
    {F : Type 0} {found : Signal F} (b : Bool) (m : Outcome ClassifyError (Option (Signal F)))
    → (if b then ok none else m) ≡ ok (some found)
    → m ≡ ok (some found)
no_conflict true m e = cc
no_conflict false m e = e

both_found :
    {A B : Type 0} (m : Outcome ClassifyError (Option A)) (k : A → Outcome ClassifyError (Option B))
    {b : B}
    → (m >>= λ o. elim o [ none ↦ ok none | some a ↦ k a ]) ≡ ok (some b)
    → (a : A) × (m ≡ ok (some a)) × (k a ≡ ok (some b))
both_found (raise err) k e = cc
both_found (ok none) k e = cc
both_found (ok (some a)) k e = (a, refl, e)

module _ (Q : String → Type 0) where
  pub All-flatten :
      {A : Type 0} (f : A → List String) (xs : List A)
      → All (λ x. All Q (f x)) xs
      → All Q (flatten (map f xs))
  unfolding flatten
  All-flatten f [] h = tt
  All-flatten f (x ∷ xs) h = All-append Q (f x) (flatten (map f xs)) h.0 (All-flatten f xs h.1)

  All-all_one_of : (xs ws : List String) → all (λ x. one_of x ws) xs ≡ true → All Q ws → All Q xs
  All-all_one_of [] ws e h = tt
  All-all_one_of (x ∷ xs) ws e h = elim (Bool-cases (one_of x ws)) [
    | inl hit ↦ (one_of_lem Q x ws hit h, All-all_one_of xs ws (rw hit at e) h)
    | inr miss ↦ cc (rw miss at e)
  ]

  module _ {F : Type 0} where
    -- Each id that the signal names has the property.
    abbrev pub IsGrounded : Signal F → Type 0
    IsGrounded signal = All Q (evidence_of signal)

    abbrev pub AreGrounded : Dict (Signal F) → Type 0
    AreGrounded signals = All (λ e. IsGrounded e.1) signals

    lookup-IsGrounded :
        (key : String) (signals : Dict (Signal F)) (signal : Signal F)
        → AreGrounded signals
        → lookup key signals ≡ some signal
        → IsGrounded signal
    unfolding lookup
    lookup-IsGrounded key [] signal h e = cc
    lookup-IsGrounded key ((k, s) ∷ signals) signal h e = elim (Bool-cases (k =? key)) [
      | inl hit ↦ subst IsGrounded (some_eq (rw (hit, lookup) at e)) h.0
      | inr miss ↦ lookup-IsGrounded key signals signal h.1 (rw (miss, lookup) at e)
    ]

    module _ (fl : Floats F) where
      pub validated_signal-IsGrounded :
          {Answer : Type 0} (validate : SignalType → Answer → Option (Signal F))
          (questions : Dict Question) (allowed : List String)
          → All Q allowed
          → (entry : String × Answer) (found : String × Signal F) → Unit {0}
          → validated_signal fl validate questions allowed entry ≡ some found
          → IsGrounded found.1
      unfolding validated_signal is_valid_signal
      validated_signal-IsGrounded validate questions allowed h (key, answer) found _ e =
          elim (Option-cases (lookup key questions)) [
            | inl stop ↦ cc (rw (stop, validated_signal) at e)
            | inr (question, go) ↦ elim (Option-cases (validate question.type_of answer)) [
              | inl stop ↦ cc (rw (go, stop, validated_signal) at e)
              | inr (signal, go') ↦
                  elim (Bool-cases (all (λ ref. one_of ref allowed) (evidence_of signal))) [
                    | inr out ↦ cc (rw (go, go', out, validated_signal) at e)
                    | inl within ↦
                        elim (Bool-cases (is_valid_signal fl validate question allowed signal)) [
                          | inr bad ↦ cc (rw (go, go', bad, validated_signal) at e)
                          | inl fine ↦
                              subst (λ f. IsGrounded f.1)
                                (some_eq (rw (go, go', fine, validated_signal) at e))
                                (All-all_one_of (evidence_of signal) allowed within h)
                        ]
                  ]
            ]
          ]

      build_signal-IsGrounded :
          (fields : Bool) (evidence : List String) (signal found : Signal F)
          → IsGrounded signal
          → build_signal fl fields evidence signal ≡ ok (some found)
          → IsGrounded found
      unfolding build_signal
      build_signal-IsGrounded fields evidence signal found h e =
          subst IsGrounded
            (some_eq (
              ok-injective
                (raise_if-ok (not (fields && leb 1 (length evidence) && leb (length evidence) 64))
                  validation_error (ok (some signal)) e).1))
            h

      choose_signal-IsGrounded :
          (chances : Dict F) (confidence : F) (evidence : List String) (found : Signal F)
          → All Q evidence
          → choose_signal fl chances confidence evidence ≡ ok (some found)
          → IsGrounded found
      unfolding choose_signal
      choose_signal-IsGrounded [] confidence evidence found h e = cc
      choose_signal-IsGrounded (best ∷ others) confidence evidence found h e =
          build_signal-IsGrounded _ evidence _ found h e

      combine_choices-IsGrounded :
          (threshold : F) (criteria : List String) (choices : List (String × Dict F × F))
          (confidence : F) (evidence : List String) (found : Signal F)
          → All Q evidence
          → combine_choices fl threshold criteria choices confidence evidence ≡ ok (some found)
          → IsGrounded found
      unfolding combine_choices
      combine_choices-IsGrounded threshold criteria choices confidence evidence found h e =
          choose_signal-IsGrounded _ confidence evidence found h (no_conflict _ _ e)

      evidence-IsGrounded :
          (vals : List (Signal F))
          → All IsGrounded vals
          → All Q (sorted_set (flatten (map evidence_of vals)))
      evidence-IsGrounded vals h =
          All-sorted_set Q (flatten (map evidence_of vals)) (All-flatten evidence_of vals h)

      combine_values-IsGrounded :
          (threshold : F) (question : Question) (first : Signal F) (vals : List (Signal F))
          (found : Signal F)
          → All IsGrounded (first ∷ vals)
          → combine_values fl threshold question first vals ≡ ok (some found)
          → IsGrounded found
      unfolding combine_values
      combine_values-IsGrounded threshold question (noul p c ev) vals found h e =
          build_signal-IsGrounded _ _ _ found (evidence-IsGrounded (noul p c ev ∷ vals) h)
            (no_conflict _ _ e)
      combine_values-IsGrounded threshold question (choice v ps c ev) vals found h e =
          combine_choices-IsGrounded _ _ _ _ _ found
            (evidence-IsGrounded (choice v ps c ev ∷ vals) h) e
      combine_values-IsGrounded threshold question (score v c ev) vals found h e =
          build_signal-IsGrounded _ _ _ found (evidence-IsGrounded (score v c ev ∷ vals) h)
            (no_conflict _ _ e)

      combine_question-IsGrounded :
          (threshold : F) (chunks : List (Dict (Signal F))) (entry : String × Question)
          (found : Signal F)
          → All AreGrounded chunks
          → combine_question fl threshold chunks entry ≡ ok (some found)
          → IsGrounded found
      unfolding combine_question values_for
      combine_question-IsGrounded threshold chunks (key, question) found h e =
          elim (Option-cases (values_for chunks key)) [
            | inl stop ↦ cc (rw (stop, combine_question) at e)
            | inr ([], go) ↦ cc (rw (go, combine_question) at e)
            | inr (first ∷ vals, go) ↦
                combine_values-IsGrounded threshold question first vals found
                  (traverse_lem AreGrounded IsGrounded (λ chunk. lookup key chunk)
                    (λ chunk signal. lookup-IsGrounded key chunk signal) chunks (first ∷ vals) h go)
                  (rw (go, combine_question) at e)
          ]

      pub aggregate-IsGrounded :
          (threshold : F) (chunks : List (Dict (Signal F))) (questions : Dict Question)
          (signals : Dict (Signal F))
          → All AreGrounded chunks
          → aggregate fl threshold chunks questions ≡ ok (some signals)
          → AreGrounded signals
      unfolding aggregate
      aggregate-IsGrounded threshold chunks [] signals h e =
          subst AreGrounded (some_eq (ok-injective e)) tt
      aggregate-IsGrounded threshold chunks ((key, question) ∷ questions) signals h e =
          let (signal, go, e') =
            both_found (combine_question fl threshold chunks (key, question))
              (λ signal. aggregate fl threshold chunks questions >>= λ rest. elim rest [
                | none ↦ ok none
                | some found ↦ ok (some ((key, signal) ∷ found))
              ])
              e in
          let (rest, go', e'') =
            both_found (aggregate fl threshold chunks questions)
              (λ found. ok (some ((key, signal) ∷ found))) e' in
          subst AreGrounded (some_eq (ok-injective e'')) (
            combine_question-IsGrounded threshold chunks (key, question) signal h go,
            aggregate-IsGrounded threshold chunks questions rest h go',
          )

    module _ (fl : Floats F) (config : Config F) where
      serialize_signals-AreGrounded :
          (signals : Dict (Signal F))
          → AreGrounded signals
          → AreGrounded (serialize_signals fl config signals)
      unfolding serialize_signals
      serialize_signals-AreGrounded signals h =
          All-sort_by (λ a b. text_le a.0 b.0) (λ e. IsGrounded e.1) signals h

      resolve_rule-AreGrounded :
          (signals : Dict (Signal F)) (rule : Rule F)
          → AreGrounded signals
          → AreGrounded (resolve_rule fl config signals rule).signals
      unfolding resolve_rule review_result resolved_result
      resolve_rule-AreGrounded signals rule h =
          let h' = serialize_signals-AreGrounded signals h in ground arith

      resolve_rules-AreGrounded :
          (signals : Dict (Signal F)) (maybe_rule : Bool) (rules : List (Rule F))
          → AreGrounded signals
          → AreGrounded (resolve_rules fl config signals maybe_rule rules).signals
      unfolding resolve_rules resolve_default review_result resolved_result
      resolve_rules-AreGrounded signals maybe_rule [] h =
          let h' = serialize_signals-AreGrounded signals h in ground arith
      resolve_rules-AreGrounded signals maybe_rule (rule ∷ rules) h =
          let unknown = resolve_rules-AreGrounded signals true rules h in
          let fails = resolve_rules-AreGrounded signals maybe_rule rules h in
          let holds = resolve_rule-AreGrounded signals rule h in ground arith

      pub resolve_disposition-AreGrounded :
          (signals : Dict (Signal F)) (facts : Dict String)
          → AreGrounded signals
          → AreGrounded (resolve_disposition fl config signals facts).signals
      unfolding resolve_disposition review_result resolved_result
      resolve_disposition-AreGrounded signals facts h =
          let h' = serialize_signals-AreGrounded signals h in
          let rest = resolve_rules-AreGrounded signals false config.rules h in ground arith
