-- ===== src/Exotel/Values.antt =====
-- The values that `json.loads` returns, as far as the stream's parser tells them apart, and Python's
-- accesses of them.
use real_time_ai_call_audit.Prelude.{
  ℕ, suc, ◌+◌, String, Bool, true, false, ◌&&◌, ◌||◌, Option, some, List, ◌==◌, if◌then◌else◌,
  text_len, ◌=?◌, one_of, all,
}

mutual
  -- `negative` is an integer below 0; `float` has the natural number that it equals, if any; the
  -- members of an array are never read.
  pub data Json : Type 0 where
    null negative array : Json
    boolean : Bool → Json
    int : ℕ → Json
    float : Option ℕ → Json
    text : String → Json
    object : Fields → Json

  -- The entries of an object, whose keys are different.
  pub data Fields : Type 0 where
    no_fields : Fields
    field : String → Json → Fields → Fields

-- `f.get(key, default)`; without a default it is None, as JSON's null is.
unfoldable pub get_or : Json → String → Fields → Json
get_or d key no_fields = d
get_or d key (field k v f) = let rest = get_or d key f in if k =? key then v else rest

abbrev pub get : String → Fields → Json
get = get_or null

unfoldable pub has_key : String → Fields → Bool
has_key key no_fields = false
has_key key (field k v f) = (k =? key) || has_key key f

-- `f.keys() <= names`
unfoldable pub keys_within : List String → Fields → Bool
keys_within names no_fields = true
keys_within names (field k v f) = one_of k names && keys_within names f

-- `set(f) == names`
unfoldable pub has_keys : List String → Fields → Bool
has_keys names f = keys_within names f && all (λ key. has_key key f) names

-- `v == s` for a text, and `v == n` for a natural number: True is 1 and False is 0.
abbrev pub equals_text : String → Json → Bool
equals_text s (text t) = t =? s
equals_text s _ = false

abbrev pub equals_nat : ℕ → Json → Bool
equals_nat n (int m) = m == n
equals_nat n (float (some m)) = m == n
equals_nat n (boolean true) = 1 == n
equals_nat n (boolean false) = 0 == n
equals_nat n _ = false

-- What a set refuses to hash.
abbrev pub is_unhashable : Json → Bool
is_unhashable array = true
is_unhashable (object f) = true
is_unhashable _ = false

-- len(custom), and `sum(len(key) + len(value) …)`, a value that is no text counting nothing.
unfoldable pub count_fields : Fields → ℕ
count_fields no_fields = 0
count_fields (field k v f) = suc (count_fields f)

abbrev text_size : Json → ℕ
text_size (text t) = text_len t
text_size _ = 0

abbrev is_text : Json → Bool
is_text (text t) = true
is_text _ = false

unfoldable pub fields_size : Fields → ℕ
fields_size no_fields = 0
fields_size (field k v f) = text_len k + text_size v + fields_size f

unfoldable pub only_texts : Fields → Bool
only_texts no_fields = true
only_texts (field k v f) = is_text v && only_texts f
