-- ===== src/Policy/Examples.antt =====
-- The holds of one call: two that touch, and an IVR passage before them.
use real_time_ai_call_audit.Prelude.{
  ℕ, ◌+◌, ◌≡◌, refl, not, some, List, [], ◌∷◌, sort_by, insert_by, one_of, ◌=?◌,
}
use real_time_ai_call_audit.Intervals.{
  Interval, Separated, merge, merge_from, merge_sorted, pair_before,
}
use real_time_ai_call_audit.Policy.{
  HoldItem, hold, opening_deadline, normalise_holds, read_holds, shift_deadline,
}
use real_time_ai_call_audit.Policy.Holds.{
  Reads, count_ms, is_held, normalise_holds_lem, opening_deadline_exact,
}

abbrev items : List HoldItem
items = hold "HOLD" 40 50 ∷ hold "IVR" 0 10 ∷ hold "HOLD" 30 40 ∷ []

abbrev holds : List Interval
holds = record { start = 0; end = 10 } ∷ record { start = 30; end = 50 } ∷ []

normalised : normalise_holds items 100 ≡ some holds
unfolding normalise_holds read_holds merge merge_from merge_sorted pair_before sort_by insert_by
    one_of ◌=?◌
normalised = refl

normalise_holds_lem_example : Separated holds × Reads 100 items holds
normalise_holds_lem_example = normalise_holds_lem items 100 holds normalised

deadline : opening_deadline 5 30 holds ≡ 60
unfolding opening_deadline shift_deadline
deadline = refl

opening_deadline_exact_example :
    (n : ℕ) × (opening_deadline 5 30 holds ≡ 5 + n)
    × (count_ms (λ i. not (is_held items i)) 5 n ≡ 30)
opening_deadline_exact_example = opening_deadline_exact items 100 5 30 holds normalised
