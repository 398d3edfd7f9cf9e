-- ===== src/Disposition/Packed.antt =====
-- The windows of a transcript while its turns are packed.
use mathlib.Core.List.{append_assoc, append-nil}
use real_time_ai_call_audit.Prelude.{
  length-drop, ℕ, ◌+◌, ◌-◌, ◌≤◌, ◌≡◌, refl, sym, ap, ◌∙◌, inl, inr, subst, false, some, List, [],
  ◌∷◌, ◌++◌, map, ltb, leb, length, All, All-append, text_len, arith, Bool-cases, Option-cases,
  some_eq, not, ◌&&◌,
}
use real_time_ai_call_audit.Disposition.Turns.{
  Turn, count_chars, Packing, last_turns, trim_overlap, pack_turn, append_turn, is_empty,
  pack_turns,
}

count_chars-append : (xs ys : List Turn) → count_chars (xs ++ ys) ≡ count_chars xs + count_chars ys
unfolding count_chars
count_chars-append [] ys = omega arith
count_chars-append (x ∷ xs) ys = omega (arith, count_chars-append xs ys)

count_chars-snoc :
    (xs : List Turn) (turn : Turn)
    → count_chars (xs ++ turn ∷ []) ≡ count_chars xs + text_len turn.text_redacted
unfolding count_chars
count_chars-snoc xs turn = omega (arith, count_chars-append xs (turn ∷ []))

-- A window is the turns that it repeats from the window before, then its own.
abbrev pub Part : Type 0
Part = List Turn × List Turn

abbrev pub fresh_turns : List Part → List Turn
fresh_turns [] = []
fresh_turns (p ∷ ps) = p.1 ++ fresh_turns ps

-- The windows' own turns are the given turns, in order and each once, and no window repeats more
-- than `overlap` turns.
unfoldable pub IsCover : ℕ → List (List Turn) → List Turn → Type 0
IsCover overlap windows turns =
    (parts : List Part) × (map (λ p. p.0 ++ p.1) parts ≡ windows)
    × (fresh_turns parts ≡ turns)
    × All (λ p. length p.0 ≤ overlap) parts

fresh_turns-append : (ps qs : List Part) → fresh_turns (ps ++ qs) ≡ fresh_turns ps ++ fresh_turns qs
fresh_turns-append [] qs = refl
fresh_turns-append (p ∷ ps) qs =
    rw (fresh_turns-append ps qs) (sym (append_assoc p.1 (fresh_turns ps) (fresh_turns qs)))

abbrev whole : Part → List Turn
whole p = p.0 ++ p.1

map-append-whole : (ps qs : List Part) → map whole (ps ++ qs) ≡ map whole ps ++ map whole qs
map-append-whole [] qs = refl
map-append-whole (p ∷ ps) qs = rw (map-append-whole ps qs) refl

pub IsCover-snoc :
    (overlap : ℕ) (windows : List (List Turn)) (turns kept fresh : List Turn)
    → IsCover overlap windows turns
    → length kept ≤ overlap
    → IsCover overlap (windows ++ (kept ++ fresh) ∷ []) (turns ++ fresh)
unfolding IsCover
IsCover-snoc overlap windows turns kept fresh c h = (
  c.0 ++ (kept, fresh) ∷ [],
  map-append-whole c.0 ((kept, fresh) ∷ []) ∙ rw c.1 refl,
  fresh_turns-append c.0 ((kept, fresh) ∷ []) ∙ rw (append-nil fresh, c.2) refl,
  All-append (λ p. length p.0 ≤ overlap) c.0 ((kept, fresh) ∷ []) c.3 (h, tt),
)

-- Between two turns: the closed windows, and the current one with what it repeats.
unfoldable pub IsPacked : ℕ → ℕ → Packing → List Turn → Type 0
IsPacked limit overlap p done =
    (closed kept fresh : List Turn) × IsCover overlap p.windows closed
    × (p.current ≡ kept ++ fresh)
    × (done ≡ closed ++ fresh)
    × (length kept ≤ overlap)
    × (count_chars p.current ≡ p.chars)
    × (p.chars ≤ limit)
    × All (λ w. count_chars w ≤ limit) p.windows

length-last_turns : (overlap : ℕ) (xs : List Turn) → length (last_turns overlap xs) ≤ overlap
unfolding last_turns
length-last_turns overlap xs = omega (arith, length-drop (length xs - overlap) xs)

trim_overlap_lem :
    (limit size : ℕ) (xs : List Turn)
    → size ≤ limit
    → (length (trim_overlap limit size xs) ≤ length xs)
      × (count_chars (trim_overlap limit size xs) + size ≤ limit)
unfolding trim_overlap count_chars
trim_overlap_lem limit size [] h = (omega arith, omega arith)
trim_overlap_lem limit size (x ∷ xs) h =
    elim (Bool-cases (ltb limit (count_chars (x ∷ xs) + size))) [
      | inl e ↦ (let ih = trim_overlap_lem limit size xs h in rw e (omega (arith, ih.0), ih.1))
      | inr e ↦ rw e (omega arith, ground arith)
    ]

grow-IsPacked :
    (limit overlap : ℕ) (p : Packing) (turn : Turn) (done : List Turn)
    → p.chars + text_len turn.text_redacted ≤ limit
    → IsPacked limit overlap p done
    → IsPacked limit overlap (append_turn p.windows p.current p.chars turn) (done ++ turn ∷ [])
unfolding IsPacked
grow-IsPacked limit overlap p turn done h
      (closed, kept, fresh, c, e_current, e_done, h_kept, e_chars, _, h_all) =
    (
      closed,
      kept,
      fresh ++ turn ∷ [],
      c,
      ap (λ xs. xs ++ turn ∷ []) e_current ∙ append_assoc kept fresh (turn ∷ []),
      ap (λ xs. xs ++ turn ∷ []) e_done ∙ append_assoc closed fresh (turn ∷ []),
      h_kept,
      count_chars-snoc p.current turn ∙ ap (λ n. n + text_len turn.text_redacted) e_chars,
      h,
      h_all,
    )

close-IsPacked :
    (limit overlap : ℕ) (p : Packing) (turn : Turn) (done kept : List Turn)
    → length kept ≤ overlap
    → count_chars kept + text_len turn.text_redacted ≤ limit
    → IsPacked limit overlap p done
    → IsPacked limit overlap
        (append_turn (p.windows ++ p.current ∷ []) kept (count_chars kept) turn)
        (done ++ turn ∷ [])
unfolding IsPacked
close-IsPacked limit overlap p turn done kept h_kept h_size
      (closed, kept', fresh, c, e_current, e_done, h_kept', e_chars, h_chars, h_all) =
    (
      closed ++ fresh,
      kept,
      turn ∷ [],
      rw e_current (IsCover-snoc overlap p.windows closed kept' fresh c h_kept'),
      refl,
      ap (λ xs. xs ++ turn ∷ []) e_done,
      h_kept,
      count_chars-snoc kept turn,
      h_size,
      All-append (λ w. count_chars w ≤ limit) p.windows (p.current ∷ []) h_all
          (omega (arith, e_chars, h_chars), tt),
    )

room :
    (limit size chars : ℕ) (xs : List Turn)
    → count_chars xs ≡ chars
    → size ≤ limit
    → (not (is_empty xs) && ltb limit (chars + size)) ≡ false
    → chars + size ≤ limit
unfolding count_chars
room limit size chars [] e h full = omega arith
room limit size chars (x ∷ xs) e h full = ground arith

pack_turn-IsPacked :
    (limit overlap max_chunks : ℕ) (p q : Packing) (turn : Turn) (done : List Turn)
    → pack_turn limit overlap max_chunks p turn ≡ some q
    → IsPacked limit overlap p done
    → IsPacked limit overlap q (done ++ turn ∷ [])
unfolding pack_turn IsPacked
pack_turn-IsPacked limit overlap max_chunks p q turn done e h =
    let size = text_len turn.text_redacted in
    let kept = trim_overlap limit size (last_turns overlap p.current) in
    elim (Bool-cases (ltb limit size)) [
      | inl e_size ↦ cc (rw (e_size, pack_turn) at e)
      | inr e_size ↦
          (let low : size ≤ limit = ground arith in
            let trimmed = trim_overlap_lem limit size (last_turns overlap p.current) low in
            elim (Bool-cases (not (is_empty p.current) && ltb limit (p.chars + size))) [
              | inl e_full ↦
                  elim (Bool-cases (leb max_chunks (length (p.windows ++ p.current ∷ [])))) [
                    | inl e_max ↦ cc (rw (e_size, e_full, e_max) at e)
                    | inr e_max ↦
                        subst (λ r. IsPacked limit overlap r (done ++ turn ∷ []))
                          (some_eq (rw (e_size, e_full, e_max) at e))
                          (close-IsPacked limit overlap p turn done kept
                            (omega (arith, trimmed.0, length-last_turns overlap p.current))
                            trimmed.1 h)
                  ]
              | inr e_room ↦
                  subst (λ r. IsPacked limit overlap r (done ++ turn ∷ []))
                    (some_eq (rw (e_size, e_room) at e))
                    (grow-IsPacked limit overlap p turn done
                      (room limit size p.chars p.current h.7 low e_room) h)
            ])
    ]

pub pack_turns-IsPacked :
    (limit overlap max_chunks : ℕ) (p q : Packing) (turns done : List Turn)
    → pack_turns limit overlap max_chunks p turns ≡ some q
    → IsPacked limit overlap p done
    → IsPacked limit overlap q (done ++ turns)
unfolding pack_turns
pack_turns-IsPacked limit overlap max_chunks p q [] done e h =
    subst (λ r. IsPacked limit overlap r (done ++ [])) (some_eq e) (rw (append-nil done) h)
pack_turns-IsPacked limit overlap max_chunks p q (turn ∷ turns) done e h =
    elim (Option-cases (pack_turn limit overlap max_chunks p turn)) [
      | inl e_none ↦ cc (rw (e_none, pack_turns) at e)
      | inr (r, e_some) ↦ rw (sym (append_assoc done (turn ∷ []) turns)) (
          pack_turns-IsPacked limit overlap max_chunks r q turns (done ++ turn ∷ [])
            (rw (e_some, pack_turns) at e)
            (pack_turn-IsPacked limit overlap max_chunks p r turn done e_some h))
    ]

unfoldable pub start : Packing
start = record { windows = []; current = []; chars = 0 }

pub start-IsPacked : (limit overlap : ℕ) → IsPacked limit overlap start []
unfolding IsPacked IsCover start count_chars
start-IsPacked limit overlap =
    ([], [], [], ([], refl, refl, tt), refl, refl, omega arith, refl, omega arith, tt)
