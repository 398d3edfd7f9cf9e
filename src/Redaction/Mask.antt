-- ===== src/Redaction/Mask.antt =====
-- An independent description of a redacted text, character by character, and that the slices between
-- merged spans spell it.
use real_time_ai_call_audit.Prelude.{
  ℕ, zero, suc, ◌+◌, ◌-◌, ◌≤◌, ◌<◌, ◌≡◌, refl, ap, subst, ◌∙◌, Bool, true, false, List, [], ◌∷◌,
  ◌++◌, map, ltb, if◌then◌else◌, arith, length, take, drop, All, select, Bool-cases, inl, inr,
}
use real_time_ai_call_audit.Intervals.{
  Interval, covers, Separated, merge, All-merge, merge-Separated, covers-merge,
}
use real_time_ai_call_audit.Redaction.{redaction, redact_from, clamp, is_proper, merge_spans}

-- A character whose position is marked is left out, and each run of marked positions is shown as one
-- redaction; `inside` is true after a marked position.
unfoldable pub mask : (ℕ → Bool) → ℕ → Bool → List ℕ → List ℕ
mask p i inside [] = []
mask p i inside (c ∷ cs) =
    let hidden = mask p (suc i) true cs in
    let shown = mask p (suc i) false cs in
    if p i then (if inside then hidden else redaction ++ hidden) else c ∷ shown

mask-ext :
    (p q : ℕ → Bool) (i : ℕ) (inside : Bool) (cs : List ℕ)
    → ((j : ℕ) → i ≤ j → p j ≡ q j)
    → mask p i inside cs ≡ mask q i inside cs
unfolding mask
mask-ext p q i inside [] same = refl
mask-ext p q i inside (c ∷ cs) same =
    rw
      (
        same i (omega arith),
        mask-ext p q (suc i) true cs (λ j h. same j (omega (arith, h))),
        mask-ext p q (suc i) false cs (λ j h. same j (omega (arith, h))),
      )
      refl

-- Spans from position `i` on, none empty, none touching the next, none past `n`.
abbrev Fits : ℕ → ℕ → List Interval → Type 0
Fits i n [] = Unit {0}
Fits i n (s ∷ ss) = (i ≤ s.start) × (s.start < s.end) × (s.end ≤ n) × Fits (suc s.end) n ss

weaken : (i j n : ℕ) (ss : List Interval) → i ≤ j → Fits j n ss → Fits i n ss
weaken i j n [] h f = tt
weaken i j n (s ∷ ss) h f = (omega (arith, f.0), f.1, f.2, f.3)

not_before : (i j n : ℕ) (ss : List Interval) → Fits i n ss → j < i → covers ss j ≡ false
not_before i j n [] f h = refl
not_before i j n (s ∷ ss) f h =
    let rest = not_before (suc s.end) j n ss f.3 (omega (arith, f.0, f.1)) in
    let low = f.0 in rw rest (ground arith)

-- The output of the loop, from position `i` of the text on.
unfoldable out : ℕ → List Interval → List ℕ → List ℕ
out i [] xs = xs
out i (s ∷ ss) xs = take (s.start - i) xs ++ redaction ++ out s.end ss (drop (s.end - i) xs)

out-step :
    (i n c : ℕ) (ss : List Interval) (cs : List ℕ)
    → Fits (suc i) n ss
    → out i ss (c ∷ cs) ≡ c ∷ out (suc i) ss cs
unfolding out
out-step i n c [] cs f = refl
out-step i n c (s ∷ ss) cs f =
    let a : s.start - i ≡ suc (s.start - suc i) = omega (arith, f.0) in
    let b : s.end - i ≡ suc (s.end - suc i) = omega (arith, f.0, f.1) in rw (a, b) refl

abbrev Shown : List ℕ → Type 0
Shown cs =
    (i : ℕ) (ss : List Interval)
    → Fits i (i + length cs) ss
    → out i ss cs ≡ mask (covers ss) i false cs

-- Within the span `s`.
abbrev Hidden : List ℕ → Type 0
Hidden cs =
    (i : ℕ) (s : Interval) (ss : List Interval)
    → s.start ≤ i
    → i ≤ s.end
    → s.end ≤ i + length cs
    → Fits (suc s.end) (i + length cs) ss
    → out s.end ss (drop (s.end - i) cs) ≡ mask (covers (s ∷ ss)) i true cs

refit : (i n m : ℕ) (ss : List Interval) → n ≡ m → Fits i n ss → Fits i m ss
refit i n m ss e f = subst (λ k. Fits i k ss) e f

Shown-step : (c : ℕ) (cs : List ℕ) → Shown cs → Hidden cs → Shown (c ∷ cs)
unfolding out mask
Shown-step c cs shown hidden i [] f = ap (λ ys. c ∷ ys) (shown (suc i) [] tt)
Shown-step c cs shown hidden i (s ∷ ss) f = elim (Bool-cases (ltb i s.start)) [
  | inl outside ↦
      let later : Fits (suc i) (suc i + length cs) (s ∷ ss) =
        (ground arith, f.1, omega (arith, f.2), refit _ _ _ ss (omega arith) f.3) in
      let clear = not_before (suc i) i (suc i + length cs) (s ∷ ss) later (omega arith) in
      rw clear (
        out-step i (suc i + length cs) c (s ∷ ss) cs later
        ∙ ap (λ ys. c ∷ ys) (shown (suc i) (s ∷ ss) later))
  | inr inside ↦
      let here : s.start ≡ i = (let low = f.0 in ground arith) in
      let covered : covers (s ∷ ss) i ≡ true = (let high = f.1 in ground arith) in
      let zero_left : s.start - i ≡ 0 = omega (arith, here) in
      let more : s.end - i ≡ suc (s.end - suc i) = omega (arith, here, f.1) in
      rw (covered, zero_left, more)
        (ap (λ ys. redaction ++ ys)
          (hidden (suc i) s ss (omega (arith, here)) (omega (arith, here, f.1)) (omega (arith, f.2))
            (refit _ _ _ ss (omega arith) f.3)))
]

Hidden-step : (c : ℕ) (cs : List ℕ) → Shown cs → Hidden cs → Hidden (c ∷ cs)
unfolding out mask
Hidden-step c cs shown hidden i s ss low high end f = elim (Bool-cases (ltb i s.end)) [
  | inl inside ↦
      let covered : covers (s ∷ ss) i ≡ true = ground arith in
      let more : s.end - i ≡ suc (s.end - suc i) = ground arith in
      rw (covered, more)
        (hidden (suc i) s ss (omega arith) (ground arith) (omega arith)
          (refit _ _ _ ss (omega arith) f))
  | inr over ↦
      let here : s.end ≡ i = ground arith in
      let none_left : s.end - i ≡ 0 = omega (arith, here) in
      let f' : Fits (suc i) (suc i + length cs) ss =
        subst (λ k. Fits (suc k) (suc i + length cs) ss) here (refit _ _ _ ss (omega arith) f) in
      let past = not_before (suc i) i (suc i + length cs) ss f' (omega arith) in
      let clear : covers (s ∷ ss) i ≡ false = rw past (ground arith) in
      let same : (j : ℕ) → suc i ≤ j → covers ss j ≡ covers (s ∷ ss) j = λ j h. ground arith in
      rw (clear, none_left, here)
        (out-step i (suc i + length cs) c ss cs f'
          ∙ ap (λ ys. c ∷ ys)
              (shown (suc i) ss f' ∙ mask-ext (covers ss) (covers (s ∷ ss)) (suc i) false cs same))
]

Shown-empty : Shown []
unfolding out mask
Shown-empty i [] f = refl
Shown-empty i (s ∷ ss) f = let no : 1 ≤ 0 = omega (arith, f.0, f.1, f.2) in ground (arith, no)

Hidden-empty : Hidden []
unfolding out mask
Hidden-empty i s [] low high end f = let z : s.end - i ≡ 0 = omega arith in rw z refl
Hidden-empty i s (t ∷ ss) low high end f =
    let no : 1 ≤ 0 = omega (arith, f.0, f.1, f.2) in ground (arith, no)

out-mask : (cs : List ℕ) → Shown cs × Hidden cs
out-mask [] = (Shown-empty, Hidden-empty)
out-mask (c ∷ cs) =
    let (shown, hidden) = out-mask cs in
    (Shown-step c cs shown hidden, Hidden-step c cs shown hidden)

drop-drop : (a b : ℕ) (xs : List ℕ) → drop a (drop b xs) ≡ drop (b + a) xs
drop-drop a zero xs = let e : 0 + a ≡ a = omega arith in rw e refl
drop-drop zero (suc b) [] = let e : suc b + 0 ≡ suc b = omega arith in rw e refl
drop-drop (suc a) (suc b) [] = let e : suc b + suc a ≡ suc (b + suc a) = omega arith in rw e refl
drop-drop a (suc b) (x ∷ xs) =
    let e : suc b + a ≡ suc (b + a) = omega arith in rw e (drop-drop a b xs)

redact_from-out :
    (i n : ℕ) (ss : List Interval) (text : List ℕ)
    → Fits i n ss
    → redact_from i ss text ≡ out i ss (drop i text)
unfolding out redact_from
redact_from-out i n [] text f = refl
redact_from-out i n (s ∷ ss) text f =
    let rest = redact_from-out s.end n ss text (weaken s.end (suc s.end) n ss (omega arith) f.3) in
    let sum : i + (s.end - i) ≡ s.end = omega (arith, f.0, f.1) in
    rw (rest, drop-drop (s.end - i) i text, sum) refl

-- Proper spans within the text, sorted and merged, fit.
abbrev IsWithin : ℕ → Interval → Type 0
IsWithin n s = (s.start < s.end) × (s.end ≤ n)

fits :
    (i n : ℕ) (ss : List Interval)
    → All (λ s. i ≤ s.start) ss
    → Separated ss
    → All (IsWithin n) ss
    → Fits i n ss
fits i n [] low apart within = tt
fits i n (s ∷ ss) low apart within =
    (low.0, within.0.0, within.0.1, fits (suc s.end) n ss apart.0 apart.1 within.1)

proper-IsWithin :
    (n : ℕ) (spans : List Interval)
    → All (λ s. s.end ≤ n) spans
    → All (IsWithin n) (map (clamp n) (select is_proper spans))
unfolding select
proper-IsWithin n [] all = tt
proper-IsWithin n (s ∷ ss) all = elim (Bool-cases (is_proper s)) [
  | inl proper ↦ rw proper ((ground arith, ground arith), proper-IsWithin n ss all.1)
  | inr empty ↦ rw empty (proper-IsWithin n ss all.1)
]

covers-clamp :
    (n i : ℕ) (spans : List Interval)
    → All (λ s. s.end ≤ n) spans
    → covers (map (clamp n) (select is_proper spans)) i ≡ covers spans i
unfolding select
covers-clamp n i [] all = refl
covers-clamp n i (s ∷ ss) all = elim (Bool-cases (is_proper s)) [
  | inl proper ↦ let within = all.0 in rw (proper, covers-clamp n i ss all.1) (ground arith)
  | inr empty ↦ rw (empty, covers-clamp n i ss all.1) (ground arith)
]

-- The loop over the merged spans masks what the spans cover.
pub redact_from-mask :
    (spans : List Interval) (text : List ℕ)
    → All (λ s. s.end ≤ length text) spans
    → redact_from 0 (merge_spans spans (length text)) text ≡ mask (covers spans) 0 false text
unfolding merge_spans
redact_from-mask spans text all =
    let proper = map (clamp (length text)) (select is_proper spans) in
    let within =
      All-merge (IsWithin (length text)) proper
        (λ a b ha hb. (omega (arith, ha.0), ground (arith, ha.1, hb.1)))
        (proper-IsWithin (length text) spans all) in
    let f =
      fits 0 (length text) (merge proper) (any_start (merge proper)) (merge-Separated proper)
        within in
    redact_from-out 0 (length text) (merge proper) text f
    ∙ (out-mask text).0 0 (merge proper) (refit _ _ _ (merge proper) (omega arith) f)
    ∙ mask-ext (covers (merge proper)) (covers spans) 0 false text
        (λ j h. covers-merge proper j ∙ covers-clamp (length text) j spans all)
  where
    any_start : (ss : List Interval) → All (λ s. 0 ≤ s.start) ss
    any_start [] = tt
    any_start (s ∷ ss) = (omega arith, any_start ss)
