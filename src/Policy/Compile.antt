-- ===== src/Policy/Compile.antt =====
-- `compile_ruleset`: the validation of a ruleset. The encoded size of the data, and the digest of its
-- canonical encoding, are parameters, as is the decimal text of a number.
use real_time_ai_call_audit.Store.{Outcome, ok, raise, ◌>>=◌, ◌>>◌, raise_if}
use real_time_ai_call_audit.Prelude.{
  ℕ, ◌+◌, ◌*◌, String, Bool, true, false, not, ◌&&◌, ◌||◌, Option, none, some, List, [], ◌∷◌, ◌++◌,
  if◌then◌else◌, ltb, leb, ◌==◌, length, all, is_some, ◌=?◌, one_of, text_len, codes, is_blank,
  Dict, lookup,
}
use real_time_ai_call_audit.Policy.Rules.{
  PolicyRule, Ruleset, RuleKind, opening_disclosure, closing_phrase, sensitive_number_advisory,
  max_integer,
}

-- A JSON value, as far as the rules read it: a list has texts and (`none`) other members.
pub data RawValue : Type 0 where
  text : String → RawValue
  integer : ℕ → RawValue
  list : List (Option String) → RawValue
  other : RawValue

abbrev pub RawRule : Type 0
RawRule = Dict RawValue

-- A value of the ruleset: `rules` is a list of objects and (`none`) other members.
pub data TopValue : Type 0 where
  value : RawValue → TopValue
  rules : List (Option RawRule) → TopValue

-- RulesetError, by its message.
pub data RulesetError : Type 0 where
  not_bounded_json too_large incomplete_fields schema_version ruleset_identifier ruleset_version :
      RulesetError
  policy_version rule_count rule_not_object type_not_string rule_type rule_fields rule_identifier :
      RulesetError
  rule_severity rule_call_types rule_remediation phrase_variants duration duration_mismatch
        advisory_count :
      RulesetError

abbrev pub max_ruleset_bytes : ℕ
max_ruleset_bytes = 64 * 1024

abbrev pub max_rules : ℕ
max_rules = 64

abbrev pub is_alphanumeric : ℕ → Bool
is_alphanumeric c = leb 48 c && leb c 57 || leb 65 c && leb c 90 || leb 97 c && leb c 122

abbrev pub is_identifier_code : ℕ → Bool
is_identifier_code c = is_alphanumeric c || c == 95 || c == 46 || c == 45

-- `_IDENTIFIER.fullmatch`
unfoldable pub is_identifier : String → Bool
is_identifier s = elim (codes s) [
  | [] ↦ false
  | c ∷ cs ↦
      is_alphanumeric c && leb 1 (length cs) && leb (length cs) 127 && all is_identifier_code cs
]

-- The texts of a list that has between 1 and `bound` members, each a text that is not refused.
unfoldable pub texts_if : (String → Bool) → List (Option String) → Option (List String)
texts_if refused [] = some []
texts_if refused (none ∷ items) = none
texts_if refused (some s ∷ items) =
    let rest = texts_if refused items in
    if refused s then none else elim rest [ none ↦ none | some ss ↦ some (s ∷ ss) ]

unfoldable pub bounded_texts : (String → Bool) → ℕ → Option RawValue → Option (List String)
bounded_texts refused bound (some (list items)) =
    if leb 1 (length items) && leb (length items) bound then texts_if refused items else none
bounded_texts refused bound _ = none

abbrev pub or_raise {ℓ} : {A : Type ℓ} → RulesetError → Option A → Outcome RulesetError A
or_raise e none = raise e
or_raise e (some a) = ok a

abbrev pub text_of : Option RawValue → Option String
text_of (some (text s)) = some s
text_of _ = none

abbrev pub text_if : (String → Bool) → Option RawValue → Option String
text_if p (some (text s)) = if p s then some s else none
text_if p _ = none

abbrev pub integer_if : (ℕ → Bool) → Option RawValue → Option ℕ
integer_if p (some (integer n)) = if p n then some n else none
integer_if p _ = none

abbrev pub is_phrase_type : String → Bool
is_phrase_type kind = one_of kind ("OPENING_DISCLOSURE" ∷ "CLOSING_PHRASE" ∷ [])

abbrev pub required_keys : String → List String
required_keys kind =
    let every = "id" ∷ "type" ∷ "severity" ∷ "remediation" ∷ "call_types" ∷ [] in
    if is_phrase_type kind then "phrase_variants" ∷ every else every

abbrev pub optional_keys : String → List String
optional_keys kind = if is_phrase_type kind then "opportunity_ms" ∷ "window_ms" ∷ [] else []

abbrev pub keys_fit : List String → List String → RawRule → Bool
keys_fit required optional rule =
    all (λ e. one_of e.0 (required ++ optional)) rule
    && all (λ key. is_some (lookup key rule)) required

abbrev pub is_duration : ℕ → Bool
is_duration n = leb 1 n && leb n 600000

abbrev pub refuses_phrase : String → Bool
refuses_phrase s = is_blank s || ltb 200 (text_len s)

abbrev pub refuses_call_type : String → Bool
refuses_call_type s = leb (text_len s) 0 || ltb 128 (text_len s)

abbrev pub is_remediation : String → Bool
is_remediation s = not (is_blank s) && leb (text_len s) 500

abbrev pub severities : List String
severities = "LOW" ∷ "MEDIUM" ∷ "HIGH" ∷ []

-- The phrases and the duration of a rule with phrases.
unfoldable pub compile_phrases :
    (List String → ℕ → RuleKind) → String → String → RawRule → Outcome RulesetError RuleKind
compile_phrases kind own_key other_key rule =
    or_raise phrase_variants (bounded_texts refuses_phrase 32 (lookup "phrase_variants" rule))
    >>= λ phrases. or_raise duration (integer_if is_duration (lookup own_key rule)) >>= λ ms.
        raise_if (is_some (lookup other_key rule)) duration_mismatch >> ok (kind phrases ms)

unfoldable pub compile_kind : String → RawRule → Outcome RulesetError RuleKind
compile_kind kind rule =
    if kind =? "OPENING_DISCLOSURE"
    then compile_phrases opening_disclosure "opportunity_ms" "window_ms" rule
    else if kind =? "CLOSING_PHRASE"
    then compile_phrases closing_phrase "window_ms" "opportunity_ms" rule
    else ok sensitive_number_advisory

-- The tests before the rule's own fields.
unfoldable pub type_of_rule : RawRule → Outcome RulesetError String
type_of_rule rule = or_raise type_not_string (text_of (lookup "type" rule)) >>= λ kind.
    raise_if (not (is_phrase_type kind || kind =? "SENSITIVE_NUMBER_ADVISORY")) rule_type
    >> raise_if (not (keys_fit (required_keys kind) (optional_keys kind) rule)) rule_fields
    >> ok kind

-- The body of the loop.
unfoldable pub compile_rule : String → List String → RawRule → Outcome RulesetError PolicyRule
compile_rule policy seen rule = type_of_rule rule >>= λ kind.
    or_raise rule_identifier
      (text_if (λ s. is_identifier s && not (one_of s seen)) (lookup "id" rule))
    >>= λ id.
        or_raise rule_severity (text_if (λ s. one_of s severities) (lookup "severity" rule))
        >>= λ severity.
            or_raise rule_call_types (bounded_texts refuses_call_type 64 (lookup "call_types" rule))
            >>= λ call_types.
                or_raise rule_remediation (text_if is_remediation (lookup "remediation" rule))
                >>= λ remediation. compile_kind kind rule >>= λ compiled_kind. ok (record {
                  id = id;
                  kind = compiled_kind;
                  severity = severity;
                  remediation = remediation;
                  call_types = call_types;
                  policy_text_version = policy;
                })

unfoldable pub compile_rules :
    String → List String → List (Option RawRule) → Outcome RulesetError (List PolicyRule)
compile_rules policy seen [] = ok []
compile_rules policy seen (none ∷ items) = raise rule_not_object
compile_rules policy seen (some rule ∷ items) = compile_rule policy seen rule >>= λ compiled.
    compile_rules policy (compiled.id ∷ seen) items >>= λ others. ok (compiled ∷ others)

abbrev pub is_advisory : RuleKind → Bool
is_advisory sensitive_number_advisory = true
is_advisory _ = false

unfoldable pub count_advisories : List PolicyRule → ℕ
count_advisories [] = 0
count_advisories (rule ∷ others) =
    let rest = count_advisories others in if is_advisory rule.kind then 1 + rest else rest

abbrev pub value_of : Option TopValue → Option RawValue
value_of (some (value v)) = some v
value_of _ = none

abbrev pub rules_of : Option TopValue → Option (List (Option RawRule))
rules_of (some (rules items)) =
    if leb 1 (length items) && leb (length items) max_rules then some items else none
rules_of _ = none

abbrev pub top_keys : List String
top_keys = "schema_version" ∷ "ruleset_id" ∷ "version" ∷ "policy_text_version" ∷ "rules" ∷ []

module _ (encoded_size : Dict TopValue → Option ℕ) (digest : Dict TopValue → String)
    (decimal : ℕ → String) where
  -- The tests of the ruleset's own fields, up to its rules.
  unfoldable pub compile_header : Dict TopValue → Outcome RulesetError (ℕ × String)
  compile_header raw = or_raise not_bounded_json (encoded_size raw) >>= λ size.
      raise_if (ltb max_ruleset_bytes size) too_large
      >> raise_if
          (not
            (all (λ e. one_of e.0 top_keys) raw && all (λ key. is_some (lookup key raw)) top_keys))
          incomplete_fields
      >> or_raise schema_version
          (text_if (λ s. s =? "1.0.0") (value_of (lookup "schema_version" raw)))
      >>= λ _.
          or_raise ruleset_identifier (text_if is_identifier (value_of (lookup "ruleset_id" raw)))
          >>= λ _.
              or_raise ruleset_version
                (integer_if (λ n. leb 1 n && leb n max_integer) (value_of (lookup "version" raw)))
              >>= λ version.
                  or_raise policy_version
                    (text_if is_identifier (value_of (lookup "policy_text_version" raw)))
                  >>= λ policy. ok (version, policy)

  unfoldable pub compile_ruleset : Dict TopValue → Outcome RulesetError Ruleset
  compile_ruleset raw = compile_header raw >>= λ header.
      or_raise rule_count (rules_of (lookup "rules" raw)) >>= λ items.
      compile_rules header.1 [] items >>= λ compiled.
      raise_if (ltb 1 (count_advisories compiled)) advisory_count
      >> ok (record {
        ruleset_version = decimal header.0;
        ruleset_hash = digest raw;
        rules = compiled;
      })
