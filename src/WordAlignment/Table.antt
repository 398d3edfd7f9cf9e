-- ===== src/WordAlignment/Table.antt =====
-- The table of the dynamic program holds the edit distances of the prefixes.
use mathlib.Core.List.{reverse, reverse-cons, append_assoc, append-nil}
use mathlib.Core.Path.{ap₂}
use real_time_ai_call_audit.Prelude.{
  ℕ, suc, ◌+◌, min, ◌≡◌, refl, ap, Bool, List, [], ◌∷◌, ◌++◌, ◌∙◌, if◌then◌else◌, length,
}
use real_time_ai_call_audit.WordAlignment.{fill_row, fill_rows, first_row, fill_table, nth, cell_at}

module _ {W : Type 0} (eq : W → W → Bool) where
  -- The edit distance of two reversed prefixes, by its recurrence.
  unfoldable pub distance : List W → List W → ℕ
  distance [] hs = length hs
  distance (r ∷ rs) [] = suc (length rs)
  distance (r ∷ rs) (h ∷ hs) =
      if eq r h
      then distance rs hs
      else 1 + min (min (distance rs hs) (distance rs (h ∷ hs))) (distance (r ∷ rs) hs)

  pub distance-nil : (rs : List W) → distance rs [] ≡ length rs
  unfolding distance
  distance-nil [] = refl
  distance-nil (r ∷ rs) = refl

  -- The cells of a row to the right of the prefix `before`.
  cells_after : List W → List W → List W → List ℕ
  cells_after rs before [] = []
  cells_after rs before (h ∷ hs) = distance rs (h ∷ before) ∷ cells_after rs (h ∷ before) hs

  fill_row_lem :
      (r : W) (rs before hs : List W)
      → fill_row eq r (distance (r ∷ rs) before) (distance rs before ∷ cells_after rs before hs) hs
        ≡ cells_after (r ∷ rs) before hs
  unfolding fill_row cells_after distance
  fill_row_lem r rs before [] = refl
  fill_row_lem r rs before (h ∷ hs) =
      ap (λ cs. distance (r ∷ rs) (h ∷ before) ∷ cs) (fill_row_lem r rs (h ∷ before) hs)

  -- The rows below the prefix `above` of the reference.
  rows_after : List W → List W → List W → List (List ℕ)
  rows_after above [] hs = []
  rows_after above (r ∷ rs) hs =
      (distance (r ∷ above) [] ∷ cells_after (r ∷ above) [] hs) ∷ rows_after (r ∷ above) rs hs

  fill_rows_lem :
      (above rs hs : List W)
      → fill_rows eq (suc (length above)) (distance above [] ∷ cells_after above [] hs) rs hs
        ≡ rows_after above rs hs
  unfolding fill_rows rows_after distance
  fill_rows_lem above [] hs = refl
  fill_rows_lem above (r ∷ rs) hs = rw (fill_row_lem r above [] hs) (
      ap (λ rows. (suc (length above) ∷ cells_after (r ∷ above) [] hs) ∷ rows)
        (fill_rows_lem (r ∷ above) rs hs))

  first_row_lem :
      (before hs : List W)
      → first_row eq (length before) hs ≡ length before ∷ cells_after [] before hs
  unfolding first_row cells_after distance
  first_row_lem before [] = refl
  first_row_lem before (h ∷ hs) = ap (λ cs. length before ∷ cs) (first_row_lem (h ∷ before) hs)

  fill_table_lem :
      (rs hs : List W) → fill_table eq rs hs ≡ (0 ∷ cells_after [] [] hs) ∷ rows_after [] rs hs
  unfolding fill_table distance
  fill_table_lem rs hs =
      rw (first_row_lem [] hs)
        (ap (λ rows. (0 ∷ cells_after [] [] hs) ∷ rows) (fill_rows_lem [] rs hs))

  -- The words of `p` pushed on `above`, one by one.
  onto : List W → List W → List W
  onto [] above = above
  onto (x ∷ p) above = onto p (x ∷ above)

  onto-eq-reverse : (p above : List W) → onto p above ≡ reverse p ++ above
  unfolding onto
  onto-eq-reverse [] above = refl
  onto-eq-reverse (x ∷ p) above =
      rw (reverse-cons x p, append_assoc (reverse p) (x ∷ []) above) (onto-eq-reverse p (x ∷ above))

  nth_rows :
      (above p rest hs : List W)
      → nth []
          ((distance above [] ∷ cells_after above [] hs) ∷ rows_after above (p ++ rest) hs)
          (length p)
        ≡ distance (onto p above) [] ∷ cells_after (onto p above) [] hs
  unfolding rows_after onto
  nth_rows above [] rest hs = refl
  nth_rows above (x ∷ p) rest hs = nth_rows (x ∷ above) p rest hs

  nth_cells :
      (rs before q rest : List W)
      → nth 0 (distance rs before ∷ cells_after rs before (q ++ rest)) (length q)
        ≡ distance rs (onto q before)
  unfolding cells_after onto
  nth_cells rs before [] rest = refl
  nth_cells rs before (x ∷ q) rest = nth_cells rs (x ∷ before) q rest

  -- table[i][j] is the edit distance of the first i and the first j words.
  pub cell_at-fill_table :
      (p rest q rest' : List W)
      → cell_at (fill_table eq (p ++ rest) (q ++ rest')) (length p) (length q)
        ≡ distance (reverse p) (reverse q)
  unfolding cell_at distance
  cell_at-fill_table p rest q rest' = rw (fill_table_lem (p ++ rest) (q ++ rest')) (
      ap (λ row. nth 0 row (length q)) (nth_rows [] p rest (q ++ rest'))
      ∙ nth_cells (onto p []) [] q rest'
      ∙ ap₂ distance (onto-eq-reverse p [] ∙ append-nil (reverse p))
          (onto-eq-reverse q [] ∙ append-nil (reverse q)))
