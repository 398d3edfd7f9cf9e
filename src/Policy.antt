-- ===== src/Policy.antt =====
-- app/compliance.py: the holds of a call, the deadline of its opening disclosure, and the state of a
-- disclosure rule. Times are milliseconds.
pub mod Holds
pub mod Phrases
pub mod Rules
pub mod Evidence
pub mod Verdicts
pub mod Compile
pub mod WellFormed
pub mod Advisory
mod RuleExamples
mod Examples
use real_time_ai_call_audit.Prelude.{
  ℕ, suc, ◌+◌, ◌-◌, min, max, Bool, true, false, not, ◌&&◌, ◌||◌, Option, none, some, String, List,
  [], ◌∷◌, map, ltb, leb, ◌==◌, if◌then◌else◌, length, any, ◌=?◌, one_of,
}
use real_time_ai_call_audit.Intervals.{Interval, merge}

abbrev pub max_holds : ℕ
max_holds = 10000

-- An entry of the list of holds, as JSON delivers it: `other` is one that is no object, that has
-- no text as its tag, or of which a time is no integer or is negative.
pub data HoldItem : Type 0 where
  hold : String → ℕ → ℕ → HoldItem
  other : HoldItem

-- The loop that validates the entries.
unfoldable pub read_holds : ℕ → List HoldItem → Option (List Interval)
read_holds duration [] = some []
read_holds duration (other ∷ items) = none
read_holds duration (hold tag s e ∷ items) =
    let rest = read_holds duration items in
    if one_of tag ("HOLD" ∷ "IVR" ∷ []) && leb s e && leb e duration
    then elim rest [ none ↦ none | some hs ↦ some (record { start = s; end = e } ∷ hs) ]
    else none

unfoldable pub normalise_holds : List HoldItem → ℕ → Option (List Interval)
normalise_holds items duration =
    if ltb max_holds (length items)
    then none
    else elim (read_holds duration items) [ none ↦ none | some hs ↦ some (merge hs) ]

unfoldable pub hold_overlap : List Interval → ℕ → ℕ → ℕ
hold_overlap [] s e = 0
hold_overlap (h ∷ hs) s e = (min e h.end - max s h.start) + hold_overlap hs s e

-- The loop of `_opening_deadline`, with its `break`.
unfoldable pub shift_deadline : ℕ → ℕ → List Interval → ℕ
shift_deadline start deadline [] = deadline
shift_deadline start deadline (h ∷ hs) =
    let shifted = shift_deadline start (deadline + (h.end - max h.start start)) hs in
    let same = shift_deadline start deadline hs in
    if leb deadline h.start then deadline else if ltb start h.end then shifted else same

unfoldable pub opening_deadline : ℕ → ℕ → List Interval → ℕ
opening_deadline start opportunity holds = shift_deadline start (start + opportunity) holds
