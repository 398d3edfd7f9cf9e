-- ===== src/Policy/Verdicts.antt =====
-- When an opening disclosure is reported as a potential violation.
use real_time_ai_call_audit.WordAlignment.Words.{Characters}
use real_time_ai_call_audit.Prelude.{
  ℕ, ◌+◌, ◌-◌, ◌≤◌, ◌<◌, min, max, String, Bool, true, false, not, ◌||◌, ◌≡◌, refl, sym, ap, subst,
  ◌∙◌, inl, inr, Option, none, some, List, [], ◌∷◌, ltb, leb, All, any, Bool-cases, Option-cases,
  split_and_not, arith,
}
use real_time_ai_call_audit.Intervals.{Interval, Separated}
use real_time_ai_call_audit.Policy.{
  HoldItem, hold_overlap, shift_deadline, opening_deadline, normalise_holds,
}
use real_time_ai_call_audit.Policy.Holds.{no_overlap, later, normalise_holds_lem}
use real_time_ai_call_audit.Policy.Phrases.{PolicyUtterance}
use real_time_ai_call_audit.Policy.Rules.{
  PolicyContext, PolicyRule, Ruleset, potential_violation, is_unknown_role, has_unknown_overlap,
  is_empty, holds_for, holds_of, or_empty, safe_holds, is_reliable, disclosure_state, new_finding,
  opening_end, opening_elapsed, opening_state, opening_evidence, opening_for, opening_finding,
}

abbrev Proper : List Interval → Type 0
Proper hs = All (λ h. h.start ≤ h.end) hs

-- Before the deadline, less than the opportunity has passed without a hold.
shift_deadline-least :
    (start d e : ℕ) (hs : List Interval)
    → start < d
    → Separated hs
    → Proper hs
    → e < shift_deadline start d hs
    → e < d + hold_overlap hs start e
unfolding shift_deadline hold_overlap
shift_deadline-least start d e [] lt apart proper before = omega (arith, before)
shift_deadline-least start d e (h ∷ hs) lt apart proper before = elim (Bool-cases (leb d h.start)) [
  | inl late ↦ (let low : e < d = rw (late, shift_deadline) at before in omega (arith, low))
  | inr early ↦ elim (Bool-cases (ltb start h.end)) [
    | inl counts ↦
        (let began : h.start < d = ground arith in
          let ih =
            shift_deadline-least start (d + (h.end - max h.start start)) e hs (omega (arith, lt))
              apart.1 proper.1 (rw (early, counts, shift_deadline) at before) in
          elim (Bool-cases (leb h.end e)) [
            | inl over ↦ (let past : h.end ≤ e = ground arith in omega (arith, ih, past))
            | inr within ↦
                (let inside : e < h.end = ground arith in
                  let none_later =
                    no_overlap start e hs (later e h.end hs (omega (arith, inside)) apart.0) in
                  omega (arith, ih, inside, none_later, began, lt))
          ])
    | inr over ↦
        (let ih =
            shift_deadline-least start d e hs lt apart.1 proper.1
              (rw (early, over, shift_deadline) at before) in
          omega (arith, ih))
  ]
]

min_left : (a b : ℕ) → a < b → min a b ≡ a
min_left a b h = omega (arith, h)

reliable_of : (reliable b : Bool) → (not reliable || b) ≡ false → reliable ≡ true
reliable_of true b h = refl
reliable_of false b h = cc

empty_of : (xs : List String) → not (is_empty xs) ≡ false → xs ≡ []
empty_of [] h = refl
empty_of (x ∷ xs) h = cc

ordered_times :
    (duration : ℕ) (hs : List Interval)
    → All (λ h. (h.start ≤ h.end) × (h.end ≤ duration)) hs
    → Proper hs
ordered_times duration [] h = tt
ordered_times duration (x ∷ hs) h = (h.0.0, ordered_times duration hs h.1)

holds_for-Separated :
    (duration : Option ℕ) (items : Option (List HoldItem))
    → Separated (or_empty (holds_for duration items)) × Proper (or_empty (holds_for duration items))
unfolding holds_for
holds_for-Separated none items = (tt, tt)
holds_for-Separated (some duration) none = (tt, tt)
holds_for-Separated (some duration) (some items) =
    elim (Option-cases (normalise_holds items duration)) [
      | inl e ↦ rw e (tt, tt)
      | inr (holds, e) ↦
          (let (apart, (within, same)) = normalise_holds_lem items duration holds e in
            rw e (apart, ordered_times duration holds within))
    ]

module _ (u : Characters) (casefold : String → List ℕ) (fingerprint : List String → String) where
  -- What a verdict of a violation says of the state's inputs.
  disclosure_state_lem :
      (utterances : List PolicyUtterance) (elapsed : ℕ) (ended reliable : Bool)
      (variants : List String) (required : ℕ) (said : Bool)
      → disclosure_state u casefold utterances elapsed ended reliable variants required (some said)
        ≡ potential_violation
      → (reliable ≡ true) × (said ≡ false) × (required ≤ elapsed)
  unfolding disclosure_state
  disclosure_state_lem utterances elapsed ended reliable variants required said e =
      elim (Bool-cases
        (not reliable || any (λ item. not item.is_final || is_unknown_role item) utterances)) [
          | inl bad ↦ cc (rw bad at e)
          | inr fine ↦ elim (Bool-cases said) [
            | inl yes_said ↦ cc (rw (fine, yes_said) at e)
            | inr not_said ↦ elim (Bool-cases (leb required elapsed)) [
              | inl enough ↦ (reliable_of reliable _ fine, not_said, ground arith)
              | inr short ↦ elim (Bool-cases ended) [
                | inl over ↦ cc (rw (fine, not_said, short, over) at e)
                | inr going ↦ cc (rw (fine, not_said, short, going) at e)
              ]
            ]
          ]
        ]

  -- Enough time: the deadline is not after the end of the call.
  deadline_passed :
      (context : PolicyContext) (opportunity connected duration : ℕ)
      → 1 ≤ opportunity
      → opportunity ≤ opening_elapsed u casefold fingerprint context opportunity connected duration
      → opening_deadline connected opportunity (safe_holds context) ≤ duration
  unfolding opening_elapsed opening_end opening_deadline safe_holds holds_of
  deadline_passed context opportunity connected duration positive enough =
      let (apart, proper) = holds_for-Separated context.call_duration_ms context.holds in
      let hs = or_empty (holds_for context.call_duration_ms context.holds) in
      let deadline = shift_deadline connected (connected + opportunity) hs in
      elim (Bool-cases (ltb duration deadline)) [
        | inr e ↦ (let le : deadline ≤ duration = ground arith in le)
        | inl e ↦
            (let lt : duration < deadline = ground arith in
              let least =
                shift_deadline-least connected (connected + opportunity) duration hs
                  (omega (arith, positive)) apart proper lt in
              let elapsed : opportunity
                  ≤ duration - connected - hold_overlap hs connected duration =
                subst (λ end. opportunity ≤ end - connected - hold_overlap hs connected end)
                  (min_left duration deadline lt) enough in
              omega (arith, least, elapsed, positive))
      ]

  opening_for_lem :
      (context : PolicyContext) (compiled : Ruleset) (utterances : List PolicyUtterance)
      (rule : PolicyRule) (variants : List String) (opportunity connected duration : ℕ)
      → 1 ≤ opportunity
      → (opening_for u casefold fingerprint context compiled utterances rule variants opportunity
          (some connected)
          (some duration)).status
        ≡ potential_violation
      → (is_reliable context utterances ≡ true)
        × (has_unknown_overlap utterances connected
              (opening_end u casefold fingerprint context opportunity connected duration)
              (safe_holds context)
            ≡ false)
        × (opening_evidence u casefold fingerprint context utterances variants opportunity connected
              duration
            ≡ [])
        × (opening_deadline connected opportunity (safe_holds context) ≤ duration)
  unfolding opening_for opening_state new_finding
  opening_for_lem context compiled utterances rule variants opportunity connected duration positive
        e =
      let evidence =
        opening_evidence u casefold fingerprint context utterances variants opportunity connected
          duration in
      let (reliable, unsaid, enough) = disclosure_state_lem _ _ _ _ variants opportunity _ e in
      let (sure, known) = split_and_not (is_reliable context utterances) _ reliable in
      (
        sure,
        known,
        empty_of evidence unsaid,
        deadline_passed context opportunity connected duration positive enough,
      )

  -- When the opening disclosure of a call with known times is reported as a potential violation, the
  -- call is reliable (complete, with reliable timing, valid holds and only final utterances), nobody of
  -- unknown role speaks in the opening outside a hold, the search for the rule's phrases there
  -- (`opening_evidence`) finds none, and the call lasted until the deadline, at which the whole
  -- opportunity has passed without holds.
  pub opening_finding_lem :
      (context : PolicyContext) (compiled : Ruleset) (utterances : List PolicyUtterance)
      (rule : PolicyRule) (variants : List String) (opportunity connected duration : ℕ)
      → 1 ≤ opportunity
      → context.agent_connected_ms ≡ some connected
      → context.call_duration_ms ≡ some duration
      → (opening_finding u casefold fingerprint context compiled utterances rule variants
          opportunity).status
        ≡ potential_violation
      → (is_reliable context utterances ≡ true)
        × (has_unknown_overlap utterances connected
              (opening_end u casefold fingerprint context opportunity connected duration)
              (safe_holds context)
            ≡ false)
        × (opening_evidence u casefold fingerprint context utterances variants opportunity connected
              duration
            ≡ [])
        × (opening_deadline connected opportunity (safe_holds context) ≤ duration)
  unfolding opening_finding
  opening_finding_lem context compiled utterances rule variants opportunity connected duration
        positive e e' h =
      let known =
        ap
          (λ o.
            (opening_for u casefold fingerprint context compiled utterances rule variants
              opportunity o context.call_duration_ms).status)
          e
        ∙ ap
            (λ o.
              (opening_for u casefold fingerprint context compiled utterances rule variants
                opportunity (some connected) o).status)
            e' in
      opening_for_lem context compiled utterances rule variants opportunity connected duration
        positive (sym known ∙ h)
