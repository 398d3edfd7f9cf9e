-- ===== src/Policy/WellFormed.antt =====
-- A ruleset that `compile_ruleset` returns is well formed.
use real_time_ai_call_audit.Store.{ok, ok-injective, >>=-ok, raise_if-ok}
use real_time_ai_call_audit.Prelude.{
  ℕ, suc, ◌≤◌, String, Bool, true, false, not, ◌&&◌, ◌||◌, ◌≡◌, refl, ap, subst, inl, inr, Option,
  none, some, List, [], ◌∷◌, ltb, leb, length, All, ◌=?◌, one_of, Dict, lookup, Bool-cases,
  Option-cases, split_and_not, some_eq, arith,
}
use real_time_ai_call_audit.Policy.Rules.{
  PolicyRule, Ruleset, RuleKind, opening_disclosure, closing_phrase, sensitive_number_advisory,
}
use real_time_ai_call_audit.Policy.Compile.{
  RawValue, text, integer, list, other, RawRule, TopValue, value, rules, RulesetError,
  advisory_count, rule_count, rule_identifier, rule_severity, rule_call_types, rule_remediation,
  phrase_variants, duration, duration_mismatch, is_identifier, texts_if, bounded_texts, or_raise,
  text_if, integer_if, is_duration, refuses_phrase, refuses_call_type, is_remediation, severities,
  compile_phrases, compile_kind, type_of_rule, compile_rule, compile_rules, count_advisories,
  compile_header, compile_ruleset, rules_of, max_rules,
}

or_raise-ok {ℓ} :
    {A : Type ℓ} (e : RulesetError) (o : Option A) (a : A) → or_raise e o ≡ ok a → o ≡ some a
or_raise-ok e none a h = cc
or_raise-ok e (some b) a h = ap some (ok-injective h)

text_if-some :
    (p : String → Bool) (v : Option RawValue) (s : String) → text_if p v ≡ some s → p s ≡ true
text_if-some p (some (text t)) s h = elim (Bool-cases (p t)) [
  | inl e ↦ subst (λ x. p x ≡ true) (some_eq (rw e at h)) e
  | inr e ↦ cc (rw e at h)
]
text_if-some p none s h = cc
text_if-some p (some (integer n)) s h = cc
text_if-some p (some (list items)) s h = cc
text_if-some p (some other) s h = cc

integer_if-some :
    (p : ℕ → Bool) (v : Option RawValue) (n : ℕ) → integer_if p v ≡ some n → p n ≡ true
integer_if-some p (some (integer m)) n h = elim (Bool-cases (p m)) [
  | inl e ↦ subst (λ x. p x ≡ true) (some_eq (rw e at h)) e
  | inr e ↦ cc (rw e at h)
]
integer_if-some p none n h = cc
integer_if-some p (some (text t)) n h = cc
integer_if-some p (some (list items)) n h = cc
integer_if-some p (some other) n h = cc

-- A nonempty list of at most `bound` texts that are not refused.
abbrev pub AreBounded : (String → Bool) → ℕ → List String → Type 0
AreBounded refused bound ss =
    (1 ≤ length ss) × (length ss ≤ bound) × All (λ s. refused s ≡ false) ss

texts_if-some :
    (refused : String → Bool) (items : List (Option String)) (ss : List String)
    → texts_if refused items ≡ some ss
    → (length ss ≡ length items) × All (λ s. refused s ≡ false) ss
unfolding texts_if
texts_if-some refused [] ss h =
    subst (λ xs. (length xs ≡ 0) × All (λ s. refused s ≡ false) xs) (some_eq h) (refl, tt)
texts_if-some refused (none ∷ items) ss h = cc
texts_if-some refused (some t ∷ items) ss h = elim (Bool-cases (refused t)) [
  | inl bad ↦ cc (rw (bad, texts_if) at h)
  | inr fine ↦ elim (Option-cases (texts_if refused items)) [
    | inl e ↦ cc (rw (fine, e, texts_if) at h)
    | inr (ts, e) ↦
        (let (same, ih) = texts_if-some refused items ts e in
          subst (λ xs. (length xs ≡ length (some t ∷ items)) × All (λ s. refused s ≡ false) xs)
            (some_eq (rw (fine, e, texts_if) at h)) (ap suc same, (fine, ih)))
  ]
]

bounded_texts-some :
    (refused : String → Bool) (bound : ℕ) (v : Option RawValue) (ss : List String)
    → bounded_texts refused bound v ≡ some ss
    → AreBounded refused bound ss
unfolding bounded_texts
bounded_texts-some refused bound (some (list items)) ss h =
    elim (Bool-cases (leb 1 (length items) && leb (length items) bound)) [
      | inr bad ↦ cc (rw bad at h)
      | inl fine ↦
          (let (same, h') = texts_if-some refused items ss (rw fine at h) in
            (ground (arith, same), ground (arith, same), h'))
    ]
bounded_texts-some refused bound none ss h = cc
bounded_texts-some refused bound (some (text t)) ss h = cc
bounded_texts-some refused bound (some (integer n)) ss h = cc
bounded_texts-some refused bound (some other) ss h = cc

abbrev pub IsWellFormedKind : RuleKind → Type 0
IsWellFormedKind (opening_disclosure phrases ms) =
    AreBounded refuses_phrase 32 phrases × (is_duration ms ≡ true)
IsWellFormedKind (closing_phrase phrases ms) =
    AreBounded refuses_phrase 32 phrases × (is_duration ms ≡ true)
IsWellFormedKind sensitive_number_advisory = Unit

abbrev pub IsWellFormedRule : PolicyRule → Type 0
IsWellFormedRule rule =
    (is_identifier rule.id ≡ true)
    × (one_of rule.severity severities ≡ true)
    × AreBounded refuses_call_type 64 rule.call_types
    × (is_remediation rule.remediation ≡ true)
    × IsWellFormedKind rule.kind

compile_phrases-ok :
    (make : List String → ℕ → RuleKind)
    → ((phrases : List String) (ms : ℕ)
        → AreBounded refuses_phrase 32 phrases
        → is_duration ms ≡ true
        → IsWellFormedKind (make phrases ms))
    → (own other_key : String) (rule : RawRule) (kind : RuleKind)
    → compile_phrases make own other_key rule ≡ ok kind
    → IsWellFormedKind kind
unfolding compile_phrases
compile_phrases-ok make fits own other_key rule kind h =
    let (phrases, e, h1) =
      >>=-ok
        (or_raise phrase_variants (bounded_texts refuses_phrase 32 (lookup "phrase_variants" rule)))
        _ h in
    let (ms, e', h2) = >>=-ok (or_raise duration (integer_if is_duration (lookup own rule))) _ h1 in
    let (absent, h3) = raise_if-ok _ duration_mismatch (ok (make phrases ms)) h2 in
    subst IsWellFormedKind (ok-injective h3) (
      fits phrases ms
        (bounded_texts-some refuses_phrase 32 (lookup "phrase_variants" rule) phrases
          (or_raise-ok _ _ phrases e))
        (integer_if-some is_duration (lookup own rule) ms (or_raise-ok _ _ ms e')))

compile_kind-ok :
    (name : String) (rule : RawRule) (kind : RuleKind)
    → compile_kind name rule ≡ ok kind
    → IsWellFormedKind kind
unfolding compile_kind
compile_kind-ok name rule kind h = elim (Bool-cases (name =? "OPENING_DISCLOSURE")) [
  | inl e ↦
      compile_phrases-ok opening_disclosure (λ phrases ms a b. (a, b)) _ _ rule kind (rw e at h)
  | inr e ↦ elim (Bool-cases (name =? "CLOSING_PHRASE")) [
    | inl e' ↦
        compile_phrases-ok closing_phrase (λ phrases ms a b. (a, b)) _ _ rule kind (rw (e, e') at h)
    | inr e' ↦ subst IsWellFormedKind (ok-injective (rw (e, e') at h)) tt
  ]
]

compile_rule-ok :
    (policy : String) (seen : List String) (raw : RawRule) (rule : PolicyRule)
    → compile_rule policy seen raw ≡ ok rule
    → IsWellFormedRule rule × (one_of rule.id seen ≡ false) × (rule.policy_text_version ≡ policy)
unfolding compile_rule
compile_rule-ok policy seen raw rule h =
    let (name, e0, h0) = >>=-ok (type_of_rule raw) _ h in
    let (id, e1, h1) =
      >>=-ok
        (or_raise rule_identifier
          (text_if (λ s. is_identifier s && not (one_of s seen)) (lookup "id" raw)))
        _ h0 in
    let (severity, e2, h2) =
      >>=-ok (or_raise rule_severity (text_if (λ s. one_of s severities) (lookup "severity" raw))) _
        h1 in
    let (types, e3, h3) =
      >>=-ok
        (or_raise rule_call_types (bounded_texts refuses_call_type 64 (lookup "call_types" raw))) _
        h2 in
    let (remediation, e4, h4) =
      >>=-ok (or_raise rule_remediation (text_if is_remediation (lookup "remediation" raw))) _ h3 in
    let (kind, e5, h5) = >>=-ok (compile_kind name raw) _ h4 in
    let named = text_if-some _ (lookup "id" raw) id (or_raise-ok _ _ id e1) in
    let (proper, fresh) = split_and_not (is_identifier id) (one_of id seen) named in
    subst (λ r. IsWellFormedRule r × (one_of r.id seen ≡ false) × (r.policy_text_version ≡ policy))
      (ok-injective h5)
      (
        (
          proper,
          text_if-some _ (lookup "severity" raw) severity (or_raise-ok _ _ severity e2),
          bounded_texts-some _ _ (lookup "call_types" raw) types (or_raise-ok _ _ types e3),
          text_if-some _ (lookup "remediation" raw) remediation (or_raise-ok _ _ remediation e4),
          compile_kind-ok name raw kind e5,
        ),
        fresh,
        refl,
      )

-- No two rules have one identifier.
abbrev pub HaveDistinctIds : List PolicyRule → Type 0
HaveDistinctIds [] = Unit {0}
HaveDistinctIds (rule ∷ others) =
    All (λ r. (r.id =? rule.id) ≡ false) others × HaveDistinctIds others

split_or : (a b : Bool) → (a || b) ≡ false → (a ≡ false) × (b ≡ false)
split_or true b h = cc
split_or false b h = (refl, h)

fresh_split :
    (id : String) (seen : List String) (found : List PolicyRule)
    → All (λ r. one_of r.id (id ∷ seen) ≡ false) found
    → All (λ r. (r.id =? id) ≡ false) found × All (λ r. one_of r.id seen ≡ false) found
unfolding one_of
fresh_split id seen [] h = (tt, tt)
fresh_split id seen (r ∷ rs) h =
    let (apart, unseen) = fresh_split id seen rs h.1 in
    let (here, there) = split_or (r.id =? id) (one_of r.id seen) h.0 in
    ((here, apart), (there, unseen))

compile_rules-ok :
    (policy : String) (seen : List String) (items : List (Option RawRule)) (found : List PolicyRule)
    → compile_rules policy seen items ≡ ok found
    → (length found ≡ length items)
      × All IsWellFormedRule found
      × All (λ r. r.policy_text_version ≡ policy) found
      × All (λ r. one_of r.id seen ≡ false) found
      × HaveDistinctIds found
unfolding compile_rules
compile_rules-ok policy seen [] found h =
    subst
      (λ rs.
        (length rs ≡ 0)
        × All IsWellFormedRule rs
        × All (λ r. r.policy_text_version ≡ policy) rs
        × All (λ r. one_of r.id seen ≡ false) rs
        × HaveDistinctIds rs)
      (ok-injective h) (refl, tt, tt, tt, tt)
compile_rules-ok policy seen (none ∷ items) found h = cc
compile_rules-ok policy seen (some raw ∷ items) found h =
    let (rule, e, h0) = >>=-ok (compile_rule policy seen raw) _ h in
    let (others, e', h1) = >>=-ok (compile_rules policy (rule.id ∷ seen) items) _ h0 in
    let (fine, fresh, same) = compile_rule-ok policy seen raw rule e in
    let (count, all_fine, all_same, all_fresh, distinct) =
      compile_rules-ok policy (rule.id ∷ seen) items others e' in
    let (apart, unseen) = fresh_split rule.id seen others all_fresh in
    subst
      (λ rs.
        (length rs ≡ length (some raw ∷ items))
        × All IsWellFormedRule rs
        × All (λ r. r.policy_text_version ≡ policy) rs
        × All (λ r. one_of r.id seen ≡ false) rs
        × HaveDistinctIds rs)
      (ok-injective h1)
      (ap suc count, (fine, all_fine), (same, all_same), (fresh, unseen), (apart, distinct))

-- What `compile_ruleset` promises of its result.
abbrev pub IsWellFormed : Ruleset → Type 0
IsWellFormed compiled =
    (1 ≤ length compiled.rules)
    × (length compiled.rules ≤ max_rules)
    × All IsWellFormedRule compiled.rules
    × HaveDistinctIds compiled.rules
    × (count_advisories compiled.rules ≤ 1)

rules_of-some :
    (top : Option TopValue) (items : List (Option RawRule))
    → rules_of top ≡ some items
    → (1 ≤ length items) × (length items ≤ max_rules)
rules_of-some none items h = cc
rules_of-some (some (value v)) items h = cc
rules_of-some (some (rules xs)) items h =
    elim (Bool-cases (leb 1 (length xs) && leb (length xs) max_rules)) [
      | inr bad ↦ cc (rw bad at h)
      | inl fine ↦
          subst (λ ys. (1 ≤ length ys) × (length ys ≤ max_rules)) (some_eq (rw fine at h))
            (ground arith, ground arith)
    ]

-- A ruleset that compiles has 1 to 64 rules with different identifiers, of which at most one is the
-- advisory on sensitive numbers; every identifier, severity, list of call types and remediation is
-- within its bounds, and a rule with phrases has 1 to 32 of them and a duration of 1 to 600,000 ms.
pub compile_ruleset-IsWellFormed :
    (encoded_size : Dict TopValue → Option ℕ) (digest : Dict TopValue → String)
    (decimal : ℕ → String) (raw : Dict TopValue) (compiled : Ruleset)
    → compile_ruleset encoded_size digest decimal raw ≡ ok compiled
    → IsWellFormed compiled
unfolding compile_ruleset
compile_ruleset-IsWellFormed encoded_size digest decimal raw compiled h =
    let (header, e0, h0) = >>=-ok (compile_header encoded_size digest decimal raw) _ h in
    let (items, e1, h1) = >>=-ok (or_raise rule_count (rules_of (lookup "rules" raw))) _ h0 in
    let (found, e2, h2) = >>=-ok (compile_rules header.1 [] items) _ h1 in
    let (few, h3) = raise_if-ok (ltb 1 (count_advisories found)) advisory_count _ h2 in
    let (low, high) =
      rules_of-some (lookup "rules" raw) items (or_raise-ok rule_count _ items e1) in
    let (same, fine, _, _, distinct) = compile_rules-ok header.1 [] items found e2 in
    subst IsWellFormed (ok-injective h3) (
      omega (arith, low, same),
      omega (arith, high, same),
      fine,
      distinct,
      (let le : count_advisories found ≤ 1 = ground arith in le),
    )
