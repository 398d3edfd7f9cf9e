-- ===== src/Disposition/Windows.antt =====
-- What holds of every turn holds of every turn in the windows.
use real_time_ai_call_audit.Prelude.{
  ℕ, zero, suc, ◌+◌, ◌-◌, not, ◌&&◌, ◌≡◌, subst, inl, inr, some, List, [], ◌∷◌, ◌++◌, ltb, leb,
  length, drop, All, All-append, text_len, Bool-cases, Option-cases, some_eq, arith,
}
use real_time_ai_call_audit.Disposition.Turns.{
  Turn, count_chars, Packing, is_empty, last_turns, trim_overlap, pack_turn, pack_turns,
  last_windows, make_windows,
}

module _ (P : Turn → Type 0) where
  All-drop : (n : ℕ) (xs : List Turn) → All P xs → All P (drop n xs)
  All-drop zero xs h = h
  All-drop (suc n) [] h = tt
  All-drop (suc n) (x ∷ xs) h = All-drop n xs h.1

  All-trim_overlap :
      (limit size : ℕ) (xs : List Turn) → All P xs → All P (trim_overlap limit size xs)
  unfolding trim_overlap
  All-trim_overlap limit size [] h = tt
  All-trim_overlap limit size (x ∷ xs) h = ground (arith, All-trim_overlap limit size xs h.1)

  Kept : Packing → Type 0
  Kept p = All (All P) p.windows × All P p.current

  pack_turn-Kept :
      (limit overlap max_chunks : ℕ) (p q : Packing) (turn : Turn)
      → P turn
      → Kept p
      → pack_turn limit overlap max_chunks p turn ≡ some q
      → Kept q
  unfolding pack_turn Kept last_turns
  pack_turn-Kept limit overlap max_chunks p q turn h (hw, hc) e =
      let size = text_len turn.text_redacted in
      let kept = trim_overlap limit size (last_turns overlap p.current) in
      let h_closed = All-append (All P) p.windows (p.current ∷ []) hw (hc, tt) in
      let h_kept =
        All-trim_overlap limit size (last_turns overlap p.current)
          (All-drop (length p.current - overlap) p.current hc) in
      elim (Bool-cases (ltb limit size)) [
        | inl large ↦ cc (rw (large, pack_turn) at e)
        | inr fits ↦ elim (Bool-cases (not (is_empty p.current) && ltb limit (p.chars + size))) [
          | inl full ↦ elim (Bool-cases (leb max_chunks (length (p.windows ++ p.current ∷ [])))) [
            | inl many ↦ cc (rw (fits, full, many) at e)
            | inr few ↦
                subst Kept (some_eq (rw (fits, full, few) at e))
                  (h_closed, All-append P kept (turn ∷ []) h_kept (h, tt))
          ]
          | inr room ↦
              subst Kept (some_eq (rw (fits, room) at e))
                (hw, All-append P p.current (turn ∷ []) hc (h, tt))
        ]
      ]

  pack_turns-Kept :
      (limit overlap max_chunks : ℕ) (p q : Packing) (turns : List Turn)
      → All P turns
      → Kept p
      → pack_turns limit overlap max_chunks p turns ≡ some q
      → Kept q
  unfolding pack_turns
  pack_turns-Kept limit overlap max_chunks p q [] h k e = subst Kept (some_eq e) k
  pack_turns-Kept limit overlap max_chunks p q (turn ∷ turns) h k e =
      elim (Option-cases (pack_turn limit overlap max_chunks p turn)) [
        | inl stop ↦ cc (rw (stop, pack_turns) at e)
        | inr (r, go) ↦
            pack_turns-Kept limit overlap max_chunks r q turns h.1
              (pack_turn-Kept limit overlap max_chunks p r turn h.0 k go) (rw (go, pack_turns) at e)
      ]

  All-last_windows : (p : Packing) → Kept p → All (All P) (last_windows p)
  unfolding last_windows Kept
  All-last_windows p (hw, hc) = elim (Bool-cases (is_empty p.current)) [
    | inl e ↦ rw e hw
    | inr e ↦ rw e (All-append (All P) p.windows (p.current ∷ []) hw (hc, tt))
  ]

  pub All-make_windows :
      (turns : List Turn) (context limit overlap max_chunks : ℕ) (windows : List (List Turn))
      → All P turns
      → make_windows turns context limit overlap max_chunks ≡ some windows
      → All (All P) windows
  unfolding make_windows Kept
  All-make_windows turns context limit overlap max_chunks windows h e =
      let start : Packing = record { windows = []; current = []; chars = 0 } in
      elim (Bool-cases (ltb context (count_chars turns))) [
        | inl large ↦ cc (rw (large, make_windows) at e)
        | inr fits ↦ elim (Bool-cases (leb (count_chars turns) limit)) [
          | inl small ↦ subst (All (All P)) (some_eq (rw (fits, small, make_windows) at e)) (h, tt)
          | inr long ↦ elim (Option-cases (pack_turns limit overlap max_chunks start turns)) [
            | inl stop ↦ cc (rw (fits, long, stop, make_windows) at e)
            | inr (p, go) ↦ elim (Bool-cases (ltb max_chunks (length (last_windows p)))) [
              | inl many ↦ cc (rw (fits, long, go, many, make_windows) at e)
              | inr few ↦
                  subst (All (All P)) (some_eq (rw (fits, long, go, few, make_windows) at e)) (
                    All-last_windows p
                      (pack_turns-Kept limit overlap max_chunks start p turns h (tt, tt) go))
            ]
          ]
        ]
      ]
