-- ===== src/Policy/Holds.antt =====
-- Holds pause the clock of the opening disclosure.
use real_time_ai_call_audit.Prelude.{
  ℕ, zero, suc, not, ◌||◌, ap, ◌∙◌, subst, one_of, ◌+◌, ◌-◌, ◌≤◌, ◌<◌, min, max, ◌≡◌, refl, Bool,
  false, ◌&&◌, some, List, [], ◌∷◌, ltb, leb, if◌then◌else◌, arith, All, length, Option-cases,
  Bool-cases, inl, inr,
}
use real_time_ai_call_audit.Intervals.{
  Interval, Separated, contains, covers, merge, merge-Separated, All-merge, covers-merge,
}
use real_time_ai_call_audit.Policy.{
  max_holds, HoldItem, hold, other, hold_overlap, shift_deadline, opening_deadline, normalise_holds,
  read_holds,
}

pub no_overlap :
    (start d : ℕ) (hs : List Interval) → All (λ h. d ≤ h.start) hs → hold_overlap hs start d ≡ 0
unfolding hold_overlap
no_overlap start d [] late = refl
no_overlap start d (h ∷ hs) late = omega (arith, late.0, no_overlap start d hs late.1)

pub later :
    (a b : ℕ) (hs : List Interval) → a ≤ b → All (λ h. b < h.start) hs → All (λ h. a ≤ h.start) hs
later a b [] le all = tt
later a b (h ∷ hs) le all = (omega (arith, all.0), later a b hs le all.1)

pub shift_deadline-exact :
    (start d : ℕ) (hs : List Interval)
    → start ≤ d
    → Separated hs
    → All (λ h. h.start ≤ h.end) hs
    → (d ≤ shift_deadline start d hs)
      × (shift_deadline start d hs ≡ d + hold_overlap hs start (shift_deadline start d hs))
unfolding shift_deadline hold_overlap
shift_deadline-exact start d [] le apart proper = (omega arith, omega arith)
shift_deadline-exact start d (h ∷ hs) le apart proper = elim (Bool-cases (leb d h.start)) [
  | inl late ↦
      let after : d ≤ h.start = ground arith in
      let rest = no_overlap start d hs (later d h.end hs (omega (arith, proper.0)) apart.0) in
      rw late (omega arith, omega (arith, rest))
  | inr early ↦ elim (Bool-cases (ltb start h.end)) [
    | inl counts ↦
        let (up, exact) =
          shift_deadline-exact start (d + (h.end - max h.start start)) hs (omega arith) apart.1
            proper.1 in
        let held : start < h.end = ground arith in
        let began : h.start < d = ground arith in
        rw (early, counts) (omega (arith, up), omega (arith, up, exact, proper.0))
    | inr over ↦
        let (up, exact) = shift_deadline-exact start d hs le apart.1 proper.1 in
        let passed : h.end ≤ start = ground arith in rw (early, over) (up, omega (arith, up, exact))
  ]
]

-- How many of the `n` milliseconds from `a` on pass the test.
unfoldable pub count_ms : (ℕ → Bool) → ℕ → ℕ → ℕ
count_ms p a zero = 0
count_ms p a (suc n) = let rest = count_ms p a n in if p (a + n) then suc rest else rest

-- A hold or an IVR entry contains the millisecond.
unfoldable pub is_held : List HoldItem → ℕ → Bool
is_held [] i = false
is_held (other ∷ items) i = is_held items i
is_held (hold tag s e ∷ items) i = leb s i && ltb i e || is_held items i

uncovered : (i : ℕ) (hs : List Interval) → All (λ h. i < h.start) hs → covers hs i ≡ false
uncovered i [] all = refl
uncovered i (h ∷ hs) all = let low = all.0 in rw (uncovered i hs all.1) (ground arith)

overlap-step :
    (s e : ℕ) (hs : List Interval)
    → s ≤ e
    → Separated hs
    → hold_overlap hs s (suc e)
      ≡ (if covers hs e then suc (hold_overlap hs s e) else hold_overlap hs s e)
unfolding hold_overlap
overlap-step s e [] le apart = refl
overlap-step s e (h ∷ hs) le apart = elim (Bool-cases (contains e h)) [
  | inl inside ↦
      let rest = overlap-step s e hs le apart.1 in
      let clear = uncovered e hs (later' e h.end hs (ground arith) apart.0) in
      let same : hold_overlap hs s (suc e) ≡ hold_overlap hs s e = rw clear at rest in
      rw (inside, same) (ground arith)
  | inr outside ↦
      let rest = overlap-step s e hs le apart.1 in
      let same : (min (suc e) h.end - max s h.start) ≡ (min e h.end - max s h.start) =
        ground arith in
      rw (outside, same, rest) (ground arith)
]
  where
    later' :
        (a b : ℕ) (ts : List Interval)
        → a < b
        → All (λ t. b < t.start) ts
        → All (λ t. a < t.start) ts
    later' a b [] lt all = tt
    later' a b (t ∷ ts) lt all = (omega (arith, all.0), later' a b ts lt all.1)

no_time : (s : ℕ) (hs : List Interval) → hold_overlap hs s s ≡ 0
unfolding hold_overlap
no_time s [] = refl
no_time s (h ∷ hs) = omega (arith, no_time s hs)

-- The overlap with merged holds counts the held milliseconds.
overlap-count :
    (hs : List Interval) (s n : ℕ)
    → Separated hs
    → hold_overlap hs s (s + n) ≡ count_ms (covers hs) s n
unfolding count_ms
overlap-count hs s zero apart = let e : s + 0 ≡ s = omega arith in rw e (no_time s hs)
overlap-count hs s (suc n) apart =
    let e : s + suc n ≡ suc (s + n) = omega arith in
    rw (e, overlap-step s (s + n) hs (omega arith) apart, overlap-count hs s n apart) refl

count-not : (p : ℕ → Bool) (s n : ℕ) → count_ms (λ i. not (p i)) s n + count_ms p s n ≡ n
unfolding count_ms
count-not p s zero = refl
count-not p s (suc n) = ground (arith, count-not p s n)

count-ext : (p q : ℕ → Bool) (s n : ℕ) → ((i : ℕ) → p i ≡ q i) → count_ms p s n ≡ count_ms q s n
unfolding count_ms
count-ext p q s zero same = refl
count-ext p q s (suc n) same = rw (same (s + n), count-ext p q s n same) refl

-- What the validated entries say: proper times within the call, and the held milliseconds.
abbrev pub Reads : ℕ → List HoldItem → List Interval → Type 0
Reads duration items hs =
    All (λ h. (h.start ≤ h.end) × (h.end ≤ duration)) hs × ((i : ℕ) → covers hs i ≡ is_held items i)

read_holds-Reads :
    (duration : ℕ) (items : List HoldItem) (hs : List Interval)
    → read_holds duration items ≡ some hs
    → Reads duration items hs
unfolding read_holds is_held
read_holds-Reads duration [] hs e =
    let same : [] ≡ hs = cc e in subst (Reads duration []) same (tt, λ i. refl)
read_holds-Reads duration (other ∷ items) hs e = cc
read_holds-Reads duration (hold tag s t ∷ items) hs e =
    elim (Bool-cases (one_of tag ("HOLD" ∷ "IVR" ∷ []) && leb s t && leb t duration)) [
      | inl good ↦ elim (Option-cases (read_holds duration items)) [
        | inl bad ↦ cc (rw (good, bad) at e)
        | inr (rest, found) ↦
            let (proper, same) = read_holds-Reads duration items rest found in
            let whole : record { start = s; end = t } ∷ rest ≡ hs = cc (rw (good, found) at e) in
            subst (Reads duration (hold tag s t ∷ items)) whole
              (((ground arith, ground arith), proper), λ i. rw (same i) refl)
      ]
      | inr bad ↦ cc (rw bad at e)
    ]

-- The holds that `_normalise_holds` returns are sorted, and no two of them overlap or touch; each
-- lies within the call; and together they contain exactly the milliseconds of the given entries.
pub normalise_holds_lem :
    (items : List HoldItem) (duration : ℕ) (holds : List Interval)
    → normalise_holds items duration ≡ some holds
    → Separated holds × Reads duration items holds
unfolding normalise_holds
normalise_holds_lem items duration holds e = elim (Bool-cases (ltb max_holds (length items))) [
  | inl many ↦ cc (rw many at e)
  | inr few ↦ elim (Option-cases (read_holds duration items)) [
    | inl bad ↦ cc (rw (few, bad) at e)
    | inr (hs, found) ↦
        let (proper, same) = read_holds-Reads duration items hs found in
        let merged : merge hs ≡ holds = cc (rw (few, found) at e) in
        subst (λ ks. Separated ks × Reads duration items ks) merged
          (
            merge-Separated hs,
            (
              All-merge (λ h. (h.start ≤ h.end) × (h.end ≤ duration)) hs
                  (λ a b ha hb. (omega (arith, ha.0), ground (arith, ha.1, hb.1))) proper,
              λ i. covers-merge hs i ∙ same i,
            ),
          )
  ]
]

-- The holds pause the clock of the opening disclosure: for entries that `_normalise_holds`
-- accepts, the deadline leaves exactly the opportunity, counted in milliseconds between the start
-- and the deadline that no hold or IVR entry contains.
pub opening_deadline_exact :
    (items : List HoldItem) (duration start opportunity : ℕ) (holds : List Interval)
    → normalise_holds items duration ≡ some holds
    → (n : ℕ) × (opening_deadline start opportunity holds ≡ start + n)
      × (count_ms (λ i. not (is_held items i)) start n ≡ opportunity)
unfolding opening_deadline
opening_deadline_exact items duration start opportunity holds e =
    let (apart, (proper, same)) = normalise_holds_lem items duration holds e in
    let deadline = opening_deadline start opportunity holds in
    let (up, exact) =
      shift_deadline-exact start (start + opportunity) holds (omega arith) apart
        (All-start holds proper) in
    let n = deadline - start in
    let whole : deadline ≡ start + n = omega (arith, up) in
    let held =
      overlap-count holds start n apart ∙ count-ext (covers holds) (is_held items) start n same in
    let overlap : hold_overlap holds start deadline ≡ hold_overlap holds start (start + n) =
      ap (hold_overlap holds start) whole in
    (n, whole, omega (arith, up, exact, overlap, held, count-not (is_held items) start n))
  where
    All-start :
        (hs : List Interval)
        → All (λ h. (h.start ≤ h.end) × (h.end ≤ duration)) hs
        → All (λ h. h.start ≤ h.end) hs
    All-start [] all = tt
    All-start (h ∷ hs) all = (all.0.0, All-start hs all.1)
