-- ===== src/WordAlignment/Optimal.antt =====
-- `align_words` returns a least costly alignment of the two transcripts.
use mathlib.Core.List.{reverse, reverse-cons, reverse-append, reverse-reverse, append-nil}
use real_time_ai_call_audit.Prelude.{
  ◌+◌, ◌≤◌, ◌≡◌, refl, ap, sym, ◌∙◌, ◌↔◌, Bool, true, false, ◌||◌, List, [], ◌∷◌, ◌++◌, ltb, arith,
  length, length-append,
}
use real_time_ai_call_audit.WordAlignment.{
  AlignmentOp, same, substitute, delete, insert, Aligned, ok, reference_of, hypothesis_of, errors,
  IsHonest, align_words, fill_table, cell_at, max_words,
}
use real_time_ai_call_audit.WordAlignment.Table.{distance, distance-nil, cell_at-fill_table}
use real_time_ai_call_audit.WordAlignment.Backtrack.{backtrack-Finds}

module _ {W : Type 0} where
  reference_of-append :
      (a b : List (AlignmentOp W)) → reference_of (a ++ b) ≡ reference_of a ++ reference_of b
  reference_of-append [] b = refl
  reference_of-append (same r h ∷ a) b = ap (λ x. r ∷ x) (reference_of-append a b)
  reference_of-append (substitute r h ∷ a) b = ap (λ x. r ∷ x) (reference_of-append a b)
  reference_of-append (delete r ∷ a) b = ap (λ x. r ∷ x) (reference_of-append a b)
  reference_of-append (insert h ∷ a) b = reference_of-append a b

  hypothesis_of-append :
      (a b : List (AlignmentOp W)) → hypothesis_of (a ++ b) ≡ hypothesis_of a ++ hypothesis_of b
  hypothesis_of-append [] b = refl
  hypothesis_of-append (same r h ∷ a) b = ap (λ x. h ∷ x) (hypothesis_of-append a b)
  hypothesis_of-append (substitute r h ∷ a) b = ap (λ x. h ∷ x) (hypothesis_of-append a b)
  hypothesis_of-append (delete r ∷ a) b = hypothesis_of-append a b
  hypothesis_of-append (insert h ∷ a) b = ap (λ x. h ∷ x) (hypothesis_of-append a b)

  errors-append : (a b : List (AlignmentOp W)) → errors (a ++ b) ≡ errors a + errors b
  errors-append [] b = omega arith
  errors-append (same r h ∷ a) b = omega (arith, errors-append a b)
  errors-append (substitute r h ∷ a) b = omega (arith, errors-append a b)
  errors-append (delete r ∷ a) b = omega (arith, errors-append a b)
  errors-append (insert h ∷ a) b = omega (arith, errors-append a b)

  IsHonest-append : (a b : List (AlignmentOp W)) → IsHonest a → IsHonest b → IsHonest (a ++ b)
  IsHonest-append [] b x y = y
  IsHonest-append (same r h ∷ a) b x y = (x.0, IsHonest-append a b x.1 y)
  IsHonest-append (substitute r h ∷ a) b x y = IsHonest-append a b x y
  IsHonest-append (delete r ∷ a) b x y = IsHonest-append a b x y
  IsHonest-append (insert h ∷ a) b x y = IsHonest-append a b x y

  single : AlignmentOp W → List (AlignmentOp W)
  single op = op ∷ []

  -- Of one operation, put in front or behind.
  Mirrors : List (AlignmentOp W) → List (AlignmentOp W) → Type 0
  Mirrors a b =
      (reference_of b ≡ reverse (reference_of a))
      × (hypothesis_of b ≡ reverse (hypothesis_of a))
      × (errors b ≡ errors a)
      × (IsHonest a → IsHonest b)

  one-Mirrors :
      (op : AlignmentOp W) (ops b : List (AlignmentOp W))
      → Mirrors ops b
      → Mirrors (op ∷ ops) (b ++ op ∷ [])
  unfolding Mirrors
  one-Mirrors (same r h) ops b m = (
    reference_of-append b (same r h ∷ [])
        ∙ ap (λ x. x ++ r ∷ []) m.0
        ∙ sym (reverse-cons r (reference_of ops)),
    hypothesis_of-append b (same r h ∷ [])
        ∙ ap (λ x. x ++ h ∷ []) m.1
        ∙ sym (reverse-cons h (hypothesis_of ops)),
    omega (arith, errors-append b (same r h ∷ []), m.2),
    λ o. IsHonest-append b (same r h ∷ []) (m.3 o.1) (o.0, tt),
  )
  one-Mirrors (substitute r h) ops b m = (
    reference_of-append b (substitute r h ∷ [])
        ∙ ap (λ x. x ++ r ∷ []) m.0
        ∙ sym (reverse-cons r (reference_of ops)),
    hypothesis_of-append b (substitute r h ∷ [])
        ∙ ap (λ x. x ++ h ∷ []) m.1
        ∙ sym (reverse-cons h (hypothesis_of ops)),
    omega (arith, errors-append b (substitute r h ∷ []), m.2),
    λ o. IsHonest-append b (substitute r h ∷ []) (m.3 o) tt,
  )
  one-Mirrors (delete r) ops b m = (
    reference_of-append b (delete r ∷ [])
        ∙ ap (λ x. x ++ r ∷ []) m.0
        ∙ sym (reverse-cons r (reference_of ops)),
    hypothesis_of-append b (delete r ∷ []) ∙ append-nil (hypothesis_of b) ∙ m.1,
    omega (arith, errors-append b (delete r ∷ []), m.2),
    λ o. IsHonest-append b (delete r ∷ []) (m.3 o) tt,
  )
  one-Mirrors (insert h) ops b m = (
    reference_of-append b (insert h ∷ []) ∙ append-nil (reference_of b) ∙ m.0,
    hypothesis_of-append b (insert h ∷ [])
        ∙ ap (λ x. x ++ h ∷ []) m.1
        ∙ sym (reverse-cons h (hypothesis_of ops)),
    omega (arith, errors-append b (insert h ∷ []), m.2),
    λ o. IsHonest-append b (insert h ∷ []) (m.3 o) tt,
  )

  reverse-Mirrors : (ops : List (AlignmentOp W)) → Mirrors ops (reverse ops)
  unfolding Mirrors
  reverse-Mirrors [] = (refl, refl, refl, λ o. tt)
  reverse-Mirrors (op ∷ ops) =
      rw (reverse-cons op ops) (one-Mirrors op ops (reverse ops) (reverse-Mirrors ops))

module _ {W : Type 0} (eq : W → W → Bool) (eq_iff : (a b : W) → (eq a b ≡ true) ↔ (a ≡ b)) where
  -- One more word on either side changes the distance by at most 1.
  less_reference : (r : W) (rs hs : List W) → distance eq rs hs ≤ distance eq (r ∷ rs) hs + 1
  unfolding distance
  less_reference r [] [] = omega arith
  less_reference r [] (h ∷ hs) = ground (arith, less_reference r [] hs)
  less_reference r (s ∷ rs) [] = omega arith
  less_reference r (s ∷ rs) (h ∷ hs) =
      ground (arith, less_reference r (s ∷ rs) hs, less_reference s rs hs)

  less_hypothesis :
      (rs : List W) (h : W) (hs : List W) → distance eq rs hs ≤ distance eq rs (h ∷ hs) + 1
  unfolding distance
  less_hypothesis [] h hs = omega arith
  less_hypothesis (r ∷ rs) h [] = ground (arith, less_hypothesis rs h [], distance-nil eq rs)
  less_hypothesis (r ∷ rs) h (g ∷ hs) =
      ground (arith, less_hypothesis rs h (g ∷ hs), less_hypothesis rs g hs)

  more_reference : (r : W) (rs hs : List W) → distance eq (r ∷ rs) hs ≤ distance eq rs hs + 1
  unfolding distance
  more_reference r rs [] = omega (arith, distance-nil eq rs)
  more_reference r rs (h ∷ hs) = ground (arith, less_hypothesis rs h hs)

  more_hypothesis :
      (rs : List W) (h : W) (hs : List W) → distance eq rs (h ∷ hs) ≤ distance eq rs hs + 1
  unfolding distance
  more_hypothesis [] h hs = omega arith
  more_hypothesis (r ∷ rs) h hs = ground (arith, less_reference r rs hs)

  -- No alignment has fewer errors than the edit distance.
  distance-le-errors :
      (ops : List (AlignmentOp W))
      → IsHonest ops
      → distance eq (reference_of ops) (hypothesis_of ops) ≤ errors ops
  unfolding distance
  distance-le-errors [] o = omega arith
  distance-le-errors (same r h ∷ ops) o = ground (arith, distance-le-errors ops o.1, eq_iff r h)
  distance-le-errors (substitute r h ∷ ops) o = ground (arith, distance-le-errors ops o)
  distance-le-errors (delete r ∷ ops) o =
      omega
        (arith, distance-le-errors ops o, more_reference r (reference_of ops) (hypothesis_of ops))
  distance-le-errors (insert h ∷ ops) o =
      omega
        (arith, distance-le-errors ops o, more_hypothesis (reference_of ops) h (hypothesis_of ops))

  length-reverse : (xs : List W) → length (reverse xs) ≡ length xs
  length-reverse [] = refl
  length-reverse (x ∷ xs) =
      omega (
        arith,
        ap length (reverse-cons x xs),
        length-append (reverse xs) (x ∷ []),
        length-reverse xs,
      )

  unmirror : (k rs xs : List W) → k ++ rs ≡ reverse xs → xs ≡ reverse rs ++ reverse k
  unmirror k rs xs e = sym (reverse-reverse xs) ∙ ap reverse (sym e) ∙ reverse-append k rs

  -- What the table holds, at the prefixes of the two transcripts.
  table_agrees :
      (reference hypothesis k l rs hs : List W)
      → k ++ rs ≡ reverse reference
      → l ++ hs ≡ reverse hypothesis
      → cell_at (fill_table eq reference hypothesis) (length rs) (length hs) ≡ distance eq rs hs
  table_agrees reference hypothesis k l rs hs e f =
      rw
        (
          unmirror k rs reference e,
          unmirror l hs hypothesis f,
          ← length-reverse rs,
          ← length-reverse hs,
        )
        (cell_at-fill_table eq (reverse rs) (reverse k) (reverse hs) (reverse l)
          ∙ rw (reverse-reverse rs, reverse-reverse hs) refl)

  accepted :
      (reference hypothesis : List W) (ops : List (AlignmentOp W))
      → align_words eq reference hypothesis ≡ ok ops
      → (length reference ≤ max_words) × (length hypothesis ≤ max_words)
  unfolding align_words
  accepted reference hypothesis ops e = ground arith

  ok_inj : {A : Type 0} {a b : A} → Aligned.ok a ≡ Aligned.ok b → a ≡ b
  ok_inj e = cc

  -- Where the Boolean equality of words decides their equality, and for transcripts of at most
  -- 20,000 words, `align_words` returns an alignment (it never reads past a list): its operations
  -- spell the reference and the hypothesis, word for word and in order, every match pairs equal
  -- words, and its errors are the edit distance.
  pub align_words_total :
      (reference hypothesis : List W)
      → length reference ≤ max_words
      → length hypothesis ≤ max_words
      → (ops : List (AlignmentOp W)) × (align_words eq reference hypothesis ≡ ok ops)
        × (reference_of ops ≡ reference)
        × (hypothesis_of ops ≡ hypothesis)
        × IsHonest ops
        × (errors ops ≡ distance eq (reverse reference) (reverse hypothesis))
  unfolding align_words Mirrors
  align_words_total reference hypothesis small small' =
      let (ops, found, r, h, e, o) =
        backtrack-Finds eq eq_iff (cell_at (fill_table eq reference hypothesis)) (reverse reference)
          (reverse hypothesis) (table_agrees reference hypothesis) in
      let (r', h', e', o') = reverse-Mirrors ops in
      let fits : (ltb max_words (length reference) || ltb max_words (length hypothesis)) ≡ false =
        ground arith in
      (
        reverse ops,
        rw (fits, found) refl,
        r' ∙ ap reverse r ∙ reverse-reverse reference,
        h' ∙ ap reverse h ∙ reverse-reverse hypothesis,
        o' o,
        e' ∙ e,
      )

  -- An alignment that `align_words` returns has the fewest errors of all alignments of the same
  -- two transcripts in which matches pair equal words.
  pub align_words_least :
      (reference hypothesis : List W) (ops other : List (AlignmentOp W))
      → align_words eq reference hypothesis ≡ ok ops
      → reference_of other ≡ reference
      → hypothesis_of other ≡ hypothesis
      → IsHonest other
      → errors ops ≤ errors other
  unfolding Mirrors
  align_words_least reference hypothesis ops other found r h o =
      let (small, small') = accepted reference hypothesis ops found in
      let (best, again, _, _, _, least) = align_words_total reference hypothesis small small' in
      let (r', h', e', o') = reverse-Mirrors other in
      let same_ops : best ≡ ops = ok_inj (sym again ∙ found) in
      let bound = rw (r', h', r, h) at (distance-le-errors (reverse other) (o' o)) in
      omega (arith, ap errors same_ops, least, bound, e')
