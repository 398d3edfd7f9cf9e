-- ===== src/Prelude/Texts.antt =====
-- Python's `str` as native text: equality, length in characters, membership in a set of words.
use Prim.Native.Nat.{ℕ, suc}
use Prim.Native.Char.{code}
use Prim.Native.String.{String, ◌++◌}
use mathlib.Core.Path.{◌≡◌}
use mathlib.Core.Bool.{Bool, true, false, ◌||◌, ◌&&◌}
use mathlib.Core.List.{List, [], ◌∷◌}
use text.Mathlib.Text.{◌==◌}
use real_time_ai_call_audit.Prelude.Tests.{ltb, leb}
use text.Mathlib.TextEquality
use mathlib.Core.Logic.{◌↔◌}

infix 50 ◌=?◌
unfoldable pub ◌=?◌ : String → String → Bool
s =? t = s == t

pub eq_iff : (s t : String) → ((s =? t) ≡ true) ↔ (s ≡ t)
unfolding ◌=?◌
eq_iff s t = TextEquality.eq_iff s t

-- The code points of a text.
abbrev pub codes : String → List ℕ
codes String.[] = []
codes (String.◌∷◌ c s) = code c ∷ codes s

count_codes : List ℕ → ℕ
count_codes [] = 0
count_codes (c ∷ cs) = suc (count_codes cs)

-- `len(s)`, in characters.
unfoldable pub text_len : String → ℕ
unfolding count_codes
text_len s = count_codes (codes s)

-- `s in {…}` over a set of words.
unfoldable pub one_of : String → List String → Bool
one_of s [] = false
one_of s (w ∷ ws) = (s =? w) || one_of s ws

-- SQL's `s || t` on texts.
abbrev pub join_text : String → String → String
join_text s t = s ++ t

codes_le : List ℕ → List ℕ → Bool
codes_le [] ds = true
codes_le (c ∷ cs) [] = false
codes_le (c ∷ cs) (d ∷ ds) = ltb c d || leb c d && codes_le cs ds

-- Python's order of texts, by their code points.
unfoldable pub text_le : String → String → Bool
unfolding codes_le
text_le s t = codes_le (codes s) (codes t)

abbrev one_code : ℕ → List ℕ → Bool
one_code c [] = false
one_code c (d ∷ ds) = leb c d && leb d c || one_code c ds

-- The white space that `str.strip` removes.
abbrev is_space : ℕ → Bool
is_space c =
    leb 9 c && leb c 13
    || leb 28 c && leb c 32
    || one_code c (133 ∷ 160 ∷ 5760 ∷ [])
    || leb 8192 c && leb c 8202
    || one_code c (8232 ∷ 8233 ∷ 8239 ∷ 8287 ∷ 12288 ∷ [])

only_spaces : List ℕ → Bool
only_spaces [] = true
only_spaces (c ∷ cs) = is_space c && only_spaces cs

-- `not s.strip()`
unfoldable pub is_blank : String → Bool
unfolding only_spaces
is_blank s = only_spaces (codes s)
