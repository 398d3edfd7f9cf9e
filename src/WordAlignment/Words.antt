-- ===== src/WordAlignment/Words.antt =====
-- normalise_words: the words of a text. What `\s` and `\w` match, and what `str.lower` does to a
-- word, is Unicode's, and a parameter.
use mathlib.Core.List.{reverse, append_assoc, append-nil}
use real_time_ai_call_audit.Prelude.{
  ℕ, ◌≡◌, refl, ap, sym, ◌∙◌, Bool, true, false, not, ◌||◌, List, [], ◌∷◌, ◌++◌, map, ◌==◌,
  if◌then◌else◌, arith, select, Bool-cases, inl, inr,
}

pub record Characters : Type 0 where
  pub is_space : ℕ → Bool
  pub is_word : ℕ → Bool
  pub lower : List ℕ → List ℕ

module _ (u : Characters) where
  -- `[^\w']`
  abbrev is_punctuation : ℕ → Bool
  is_punctuation c = not (u.is_word c || c == 39)

  unfoldable pub strip_left : List ℕ → List ℕ
  strip_left [] = []
  strip_left (c ∷ cs) = let rest = strip_left cs in if is_punctuation c then rest else c ∷ cs

  -- _STRIP_PUNCTUATION.sub("", token)
  unfoldable pub strip_punctuation : List ℕ → List ℕ
  strip_punctuation token = reverse (strip_left (reverse (strip_left token)))

  abbrev flush : List ℕ → List (List ℕ)
  flush [] = []
  flush (c ∷ cs) = (c ∷ cs) ∷ []

  -- _WORD.findall(text): the runs of characters that are no spaces; `token` is the open one.
  unfoldable pub find_tokens : List ℕ → List ℕ → List (List ℕ)
  find_tokens token [] = flush token
  find_tokens token (c ∷ cs) =
      let ended = flush token ++ find_tokens [] cs in
      let longer = find_tokens (token ++ c ∷ []) cs in if u.is_space c then ended else longer

  abbrev nonempty : List ℕ → Bool
  nonempty [] = false
  nonempty (c ∷ cs) = true

  unfoldable pub normalise_words : List ℕ → List (List ℕ)
  normalise_words text =
      select nonempty (map (λ token. u.lower (strip_punctuation token)) (find_tokens [] text))

  select-append :
      (xs ys : List (List ℕ))
      → select nonempty (xs ++ ys) ≡ select nonempty xs ++ select nonempty ys
  unfolding select
  select-append [] ys = refl
  select-append (x ∷ xs) ys = ground (arith, select-append xs ys)

  map-join : {A B : Type 0} (f : A → B) (xs ys : List A) → map f (xs ++ ys) ≡ map f xs ++ map f ys
  map-join f [] ys = refl
  map-join f (x ∷ xs) ys = ap (λ zs. f x ∷ zs) (map-join f xs ys)

  find_tokens-space :
      (token xs ys : List ℕ)
      → u.is_space 32 ≡ true
      → find_tokens token (xs ++ 32 ∷ ys) ≡ find_tokens token xs ++ find_tokens [] ys
  unfolding find_tokens
  find_tokens-space token [] ys space = rw space
  find_tokens-space token (x ∷ xs) ys space = elim (Bool-cases (u.is_space x)) [
    | inl here ↦ rw here (
        ap (λ ts. flush token ++ ts) (find_tokens-space [] xs ys space)
        ∙ sym (append_assoc (flush token) (find_tokens [] xs) (find_tokens [] ys)))
    | inr not_here ↦ rw not_here (find_tokens-space (token ++ x ∷ []) xs ys space)
  ]

  -- " ".join(texts)
  unfoldable pub join_texts : List (List ℕ) → List ℕ
  join_texts [] = []
  join_texts (x ∷ []) = x
  join_texts (x ∷ y ∷ ys) = x ++ 32 ∷ join_texts (y ∷ ys)

  unfoldable pub words_of_texts : List (List ℕ) → List (List ℕ)
  words_of_texts [] = []
  words_of_texts (x ∷ xs) = normalise_words x ++ words_of_texts xs

  -- The words of the joined text are those of the texts, one after the other.
  pub normalise_words-join :
      (texts : List (List ℕ))
      → u.is_space 32 ≡ true
      → normalise_words (join_texts texts) ≡ words_of_texts texts
  unfolding join_texts normalise_words words_of_texts find_tokens select
  normalise_words-join [] space = refl
  normalise_words-join (x ∷ []) space = sym (append-nil _)
  normalise_words-join (x ∷ y ∷ ys) space =
      rw (find_tokens-space [] x (join_texts (y ∷ ys)) space) (
        rw
          (
            map-join (λ token. u.lower (strip_punctuation token)) (find_tokens [] x)
                (find_tokens [] (join_texts (y ∷ ys))),
            select-append _ _,
          )
          (ap (λ ws. normalise_words x ++ ws) (normalise_words-join (y ∷ ys) space)))
