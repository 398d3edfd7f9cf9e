-- ===== src/Prelude/Sets.antt =====
-- Python's sets of texts, as far as their members are read in order.
use mathlib.Core.List.{List, [], ◌∷◌}
use Prim.Native.String.{String}
use native.Mathlib.Omega.{arith}
use real_time_ai_call_audit.Prelude.Tests.{if◌then◌else◌}
use real_time_ai_call_audit.Prelude.Lists.{All}
use real_time_ai_call_audit.Prelude.Sort.{sort_by, All-sort_by}
use real_time_ai_call_audit.Prelude.Texts.{one_of, text_le}

unfoldable pub without_repeats : List String → List String
without_repeats [] = []
without_repeats (x ∷ xs) = let rest = without_repeats xs in if one_of x xs then rest else x ∷ rest

-- `sorted(set(xs))`
unfoldable pub sorted_set : List String → List String
sorted_set xs = sort_by text_le (without_repeats xs)

module _ (Q : String → Type 0) where
  All-without_repeats : (xs : List String) → All Q xs → All Q (without_repeats xs)
  unfolding without_repeats
  All-without_repeats [] h = tt
  All-without_repeats (x ∷ xs) h = ground (arith, All-without_repeats xs h.1)

  pub All-sorted_set : (xs : List String) → All Q xs → All Q (sorted_set xs)
  unfolding sorted_set
  All-sorted_set xs h = All-sort_by text_le Q (without_repeats xs) (All-without_repeats xs h)
