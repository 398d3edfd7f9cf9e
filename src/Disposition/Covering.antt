-- ===== src/Disposition/Covering.antt =====
-- The windows that the turns of a transcript are packed into.
use mathlib.Core.List.{append-nil}
use real_time_ai_call_audit.Prelude.{
  ℕ, ◌≤◌, ◌≡◌, refl, sym, ◌∙◌, inl, inr, subst, true, some, List, [], ◌∷◌, ◌++◌, ltb, leb, length,
  All, All-append, arith, Bool-cases, Option-cases, some_eq, max,
}
use real_time_ai_call_audit.Disposition.Turns.{
  Turn, count_chars, Packing, is_empty, pack_turns, last_windows, make_windows,
}
use real_time_ai_call_audit.Disposition.Packed.{
  IsCover, IsCover-snoc, IsPacked, pack_turns-IsPacked, start, start-IsPacked,
}

nil_of_append : (xs ys : List Turn) → [] ≡ xs ++ ys → ys ≡ []
nil_of_append [] ys e = sym e
nil_of_append (x ∷ xs) ys e = cc

nil_of_is_empty : (xs : List Turn) → is_empty xs ≡ true → xs ≡ []
nil_of_is_empty [] e = refl
nil_of_is_empty (x ∷ xs) e = cc

last_windows_lem :
    (limit overlap : ℕ) (p : Packing) (turns : List Turn)
    → IsPacked limit overlap p turns
    → IsCover overlap (last_windows p) turns × All (λ w. count_chars w ≤ limit) (last_windows p)
unfolding IsPacked last_windows IsCover
last_windows_lem limit overlap p turns
      (closed, kept, fresh, c, e_current, e_done, h_kept, e_chars, h_chars, h_all) =
    let added = IsCover-snoc overlap p.windows closed kept fresh c h_kept in
    elim (Bool-cases (is_empty p.current)) [
      | inl e ↦
          rw (e, last_windows)
            (
              rw
                  (
                    e_done,
                    nil_of_append kept fresh (sym (nil_of_is_empty p.current e) ∙ e_current),
                    append-nil closed,
                  )
                  c,
              h_all,
            )
      | inr e ↦
          rw (e, last_windows)
            (
              rw (e_current, e_done) added,
              All-append (λ w. count_chars w ≤ limit) p.windows (p.current ∷ []) h_all
                  (omega (arith, e_chars, h_chars), tt),
            )
    ]

one_window :
    (overlap limit : ℕ) (turns : List Turn)
    → count_chars turns ≤ limit
    → IsCover overlap (turns ∷ []) turns × All (λ w. count_chars w ≤ limit) (turns ∷ [])
unfolding IsCover
one_window overlap limit turns h =
    ((([], turns) ∷ [], refl, append-nil turns, (omega arith, tt)), (h, tt))

-- When windows are returned, they hold every turn of the call once and in order, apart from at most
-- `overlap` turns that a window repeats; no window is larger than the limit of a request, and there
-- are no more windows than the limit of chunks, or one.
pub make_windows_lem :
    (turns : List Turn) (context limit overlap max_chunks : ℕ) (windows : List (List Turn))
    → make_windows turns context limit overlap max_chunks ≡ some windows
    → IsCover overlap windows turns
      × All (λ w. count_chars w ≤ limit) windows
      × (length windows ≤ max 1 max_chunks)
unfolding make_windows start
make_windows_lem turns context limit overlap max_chunks windows e =
    elim (Bool-cases (ltb context (count_chars turns))) [
      | inl large ↦ cc (rw (large, make_windows) at e)
      | inr fits ↦ elim (Bool-cases (leb (count_chars turns) limit)) [
        | inl small ↦
            (let w = some_eq (rw (fits, small, make_windows) at e) in
              let (c, h) = one_window overlap limit turns (ground arith) in
              subst
                (λ ws.
                  IsCover overlap ws turns
                  × All (λ x. count_chars x ≤ limit) ws
                  × (length ws ≤ max 1 max_chunks))
                w (c, h, omega arith))
        | inr long ↦ elim (Option-cases (pack_turns limit overlap max_chunks start turns)) [
          | inl e_none ↦ cc (rw (fits, long, e_none, make_windows) at e)
          | inr (p, e_some) ↦ elim (Bool-cases (ltb max_chunks (length (last_windows p)))) [
            | inl many ↦ cc (rw (fits, long, e_some, many, make_windows) at e)
            | inr few ↦
                (let w = some_eq (rw (fits, long, e_some, few, make_windows) at e) in
                  let (c, h) = last_windows_lem limit overlap p turns (
                    pack_turns-IsPacked limit overlap max_chunks start p turns [] e_some
                      (start-IsPacked limit overlap)) in
                  subst
                    (λ ws.
                      IsCover overlap ws turns
                      × All (λ x. count_chars x ≤ limit) ws
                      × (length ws ≤ max 1 max_chunks))
                    w (c, h, ground arith))
          ]
        ]
      ]
    ]
