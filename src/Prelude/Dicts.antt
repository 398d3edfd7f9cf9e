-- ===== src/Prelude/Dicts.antt =====
-- Python's mappings with keys that are texts.
use mathlib.Core.Option.{Option, none, some}
use mathlib.Core.List.{List, [], ◌∷◌}
use Prim.Native.String.{String}
use real_time_ai_call_audit.Prelude.Tests.{if◌then◌else◌}
use real_time_ai_call_audit.Prelude.Texts.{◌=?◌}

-- A mapping, with its keys in order.
abbrev pub Dict : Type 0 → Type 0
Dict A = List (String × A)

unfoldable pub lookup {ℓ} : {A : Type ℓ} → String → List (String × A) → Option A
lookup key [] = none
lookup key ((k, a) ∷ entries) = let rest = lookup key entries in if k =? key then some a else rest
