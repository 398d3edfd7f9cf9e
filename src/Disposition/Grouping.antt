-- ===== src/Disposition/Grouping.antt =====
-- The turns of a transcript: their utterances.
use mathlib.Core.List.{append_assoc, append-nil}
use real_time_ai_call_audit.Prelude.{
  ℕ, max, join_text, eq_iff, All, All-append, ap, true, false, arith, if◌then◌else◌, ◌≡◌, refl, sym,
  subst, ◌∙◌, inl, inr, String, List, [], ◌∷◌, ◌++◌, map, Bool-cases,
}
use real_time_ai_call_audit.Disposition.Turns.{
  Utterance, Turn, joins, extend, speaker_of, add_utterance, group_from, group_speaker_turns,
}

abbrev pub ids_of : List Turn → List String
ids_of [] = []
ids_of (turn ∷ turns) = turn.utterance_ids ++ ids_of turns

ids_of-add_utterance :
    (turns : List Turn) (item : Utterance)
    → ids_of (add_utterance turns item) ≡ ids_of turns ++ item.id ∷ []
unfolding add_utterance
ids_of-add_utterance [] item = refl
ids_of-add_utterance (turn ∷ []) item = elim (Bool-cases (joins turn item)) [
  | inl e ↦
      rw e
        (rw (append-nil (turn.utterance_ids ++ item.id ∷ []), append-nil turn.utterance_ids) refl)
  | inr e ↦ rw e (rw (append-nil turn.utterance_ids) refl)
]
ids_of-add_utterance (turn ∷ next ∷ turns) item =
    rw (ids_of-add_utterance (next ∷ turns) item)
      (sym (append_assoc turn.utterance_ids (ids_of (next ∷ turns)) (item.id ∷ [])))

ids_of-group_from :
    (turns : List Turn) (items : List Utterance)
    → ids_of (group_from turns items) ≡ ids_of turns ++ map (λ i. i.id) items
unfolding group_from
ids_of-group_from turns [] = sym (append-nil (ids_of turns))
ids_of-group_from turns (item ∷ items) =
    ids_of-group_from (add_utterance turns item) items
    ∙ rw (ids_of-add_utterance turns item)
        (append_assoc (ids_of turns) (item.id ∷ []) (map (λ i. i.id) items))

-- The ids of the turns' utterances.
pub ids_of-group_speaker_turns :
    (items : List Utterance) → ids_of (group_speaker_turns items) ≡ map (λ i. i.id) items
unfolding group_speaker_turns
ids_of-group_speaker_turns items = ids_of-group_from [] items

-- Utterances that one turn holds: the first and the later ones.
abbrev pub Group : Type 0
Group = Utterance × List Utterance

abbrev pub lines : String → List Utterance → String
lines first [] = first
lines first (item ∷ items) = lines (join_text first (join_text "\n" item.text_redacted)) items

abbrev pub latest : ℕ → List Utterance → ℕ
latest end [] = end
latest end (item ∷ items) = latest (max end item.end_ms) items

-- The turn of a group: of the first one's speaker and role, from its start to the latest end, with all
-- the ids in order and the texts joined by line ends.
abbrev pub turn_of : Group → Turn
turn_of (first, items) = record {
  id = first.id;
  utterance_ids = first.id ∷ map (λ i. i.id) items;
  speaker_id = speaker_of first;
  role = first.role;
  start_ms = first.start_ms;
  end_ms = latest first.end_ms items;
  text_redacted = lines first.text_redacted items;
}

abbrev pub SameSpeaker : Utterance → Utterance → Type 0
SameSpeaker a b = (a.role ≡ b.role) × (speaker_of a ≡ speaker_of b)

abbrev pub items_of : List Group → List Utterance
items_of [] = []
items_of ((first, items) ∷ groups) = (first ∷ items) ++ items_of groups

-- Neighbouring groups are of different speakers or roles.
abbrev pub Alternate : List Group → Type 0
Alternate [] = Unit
Alternate (g ∷ []) = Unit
Alternate (g ∷ h ∷ groups) = ¬ SameSpeaker g.0 h.0 × Alternate (h ∷ groups)

-- The turns are those of maximal groups of neighbouring utterances of one speaker and role.
pub AreTurns : List Utterance → List Turn → Type 0
AreTurns items turns =
    (groups : List Group) × (turns ≡ map turn_of groups)
    × (items_of groups ≡ items)
    × All (λ g. All (SameSpeaker g.0) g.1) groups
    × Alternate groups

lines-snoc :
    (first : String) (items : List Utterance) (item : Utterance)
    → lines first (items ++ item ∷ [])
      ≡ join_text (lines first items) (join_text "\n" item.text_redacted)
lines-snoc first [] item = refl
lines-snoc first (x ∷ xs) item =
    lines-snoc (join_text first (join_text "\n" x.text_redacted)) xs item

latest-snoc :
    (end : ℕ) (items : List Utterance) (item : Utterance)
    → latest end (items ++ item ∷ []) ≡ max (latest end items) item.end_ms
latest-snoc end [] item = refl
latest-snoc end (x ∷ xs) item = latest-snoc (max end x.end_ms) xs item

ids-snoc :
    (items : List Utterance) (item : Utterance)
    → map (λ i. i.id) (items ++ item ∷ []) ≡ map (λ i. i.id) items ++ item.id ∷ []
ids-snoc [] item = refl
ids-snoc (x ∷ xs) item = ap (λ r. x.id ∷ r) (ids-snoc xs item)

-- A turn takes one more utterance as its group does.
extend-turn_of :
    (first : Utterance) (items : List Utterance) (item : Utterance)
    → extend (turn_of (first, items)) item ≡ turn_of (first, items ++ item ∷ [])
extend-turn_of first items item =
    rw
      (
        lines-snoc first.text_redacted items item,
        latest-snoc first.end_ms items item,
        ids-snoc items item,
      )
      refl

All-snoc :
    {A : Type 0} (P : A → Type 0) (xs : List A) (x : A) → All P xs → P x → All P (xs ++ x ∷ [])
All-snoc P xs x h k = All-append P xs (x ∷ []) h (k, tt)

joins-true :
    (first : Utterance) (items : List Utterance) (item : Utterance)
    → joins (turn_of (first, items)) item ≡ true
    → SameSpeaker first item
joins-true first items item h = (
  (eq_iff first.role item.role).0 (ground (arith, h)),
  (eq_iff (speaker_of first) (speaker_of item)).0 (ground (arith, h)),
)

joins-false :
    (first : Utterance) (items : List Utterance) (item : Utterance)
    → joins (turn_of (first, items)) item ≡ false
    → ¬ SameSpeaker first item
joins-false first items item h (r, s) =
    let same_role = (eq_iff first.role item.role).1 r in
    let same_speaker = (eq_iff (speaker_of first) (speaker_of item)).1 s in
    ground (arith, h, same_role, same_speaker)

-- The groups' own loop.
add_item : List Group → Utterance → List Group
add_item [] item = (item, []) ∷ []
add_item (g ∷ []) item =
    if joins (turn_of g) item then (g.0, g.1 ++ item ∷ []) ∷ [] else g ∷ (item, []) ∷ []
add_item (g ∷ h ∷ groups) item = g ∷ add_item (h ∷ groups) item

add_utterance-eq-add_item :
    (groups : List Group) (item : Utterance)
    → add_utterance (map turn_of groups) item ≡ map turn_of (add_item groups item)
unfolding add_utterance add_item
add_utterance-eq-add_item [] item = refl
add_utterance-eq-add_item (g ∷ []) item = elim (Bool-cases (joins (turn_of g) item)) [
  | inl same ↦ rw same (ap (λ t. t ∷ []) (extend-turn_of g.0 g.1 item))
  | inr other ↦ rw other refl
]
add_utterance-eq-add_item (g ∷ h ∷ groups) item =
    ap (λ r. turn_of g ∷ r) (add_utterance-eq-add_item (h ∷ groups) item)

items_of-add_item :
    (groups : List Group) (item : Utterance)
    → items_of (add_item groups item) ≡ items_of groups ++ item ∷ []
unfolding add_item
items_of-add_item [] item = refl
items_of-add_item (g ∷ []) item = elim (Bool-cases (joins (turn_of g) item)) [
  | inl same ↦ rw same (rw (append-nil (g.1 ++ item ∷ []), append-nil g.1) refl)
  | inr other ↦ rw other (rw (append-nil g.1) refl)
]
items_of-add_item (g ∷ h ∷ groups) item =
    rw (items_of-add_item (h ∷ groups) item)
      (sym (append_assoc (g.0 ∷ g.1) (items_of (h ∷ groups)) (item ∷ [])))

abbrev IsOneSpeaker : Group → Type 0
IsOneSpeaker g = All (SameSpeaker g.0) g.1

add_item-IsOneSpeaker :
    (groups : List Group) (item : Utterance)
    → All IsOneSpeaker groups
    → All IsOneSpeaker (add_item groups item)
unfolding add_item
add_item-IsOneSpeaker [] item h = (tt, tt)
add_item-IsOneSpeaker (g ∷ []) item h = elim (Bool-cases (joins (turn_of g) item)) [
  | inl same ↦ rw same (All-snoc (SameSpeaker g.0) g.1 item h.0 (joins-true g.0 g.1 item same), tt)
  | inr other ↦ rw other (h.0, (tt, tt))
]
add_item-IsOneSpeaker (g ∷ g' ∷ groups) item h = (h.0, add_item-IsOneSpeaker (g' ∷ groups) item h.1)

add_item-Alternate :
    (groups : List Group) (item : Utterance) → Alternate groups → Alternate (add_item groups item)
unfolding add_item
add_item-Alternate [] item h = tt
add_item-Alternate (g ∷ []) item h = elim (Bool-cases (joins (turn_of g) item)) [
  | inl same ↦ rw same tt
  | inr other ↦ rw other (joins-false g.0 g.1 item other, tt)
]
add_item-Alternate (g ∷ g' ∷ []) item h = elim (Bool-cases (joins (turn_of g') item)) [
  | inl same ↦ rw same (h.0, tt)
  | inr other ↦ rw other (h.0, (joins-false g'.0 g'.1 item other, tt))
]
add_item-Alternate (g ∷ g' ∷ g'' ∷ groups) item h =
    (h.0, add_item-Alternate (g' ∷ g'' ∷ groups) item h.1)

add_utterance-AreTurns :
    (before : List Utterance) (turns : List Turn) (item : Utterance)
    → AreTurns before turns
    → AreTurns (before ++ item ∷ []) (add_utterance turns item)
unfolding AreTurns
add_utterance-AreTurns before turns item (groups, e, same, one, apart) = (
  add_item groups item,
  ap (λ ts. add_utterance ts item) e ∙ add_utterance-eq-add_item groups item,
  items_of-add_item groups item ∙ ap (λ r. r ++ item ∷ []) same,
  add_item-IsOneSpeaker groups item one,
  add_item-Alternate groups item apart,
)

group_from-AreTurns :
    (items before : List Utterance) (turns : List Turn)
    → AreTurns before turns
    → AreTurns (before ++ items) (group_from turns items)
unfolding group_from
group_from-AreTurns [] before turns h = rw (append-nil before) h
group_from-AreTurns (item ∷ items) before turns h =
    subst (λ b. AreTurns b (group_from (add_utterance turns item) items))
      (append_assoc before (item ∷ []) items)
      (group_from-AreTurns items (before ++ item ∷ []) (add_utterance turns item)
        (add_utterance-AreTurns before turns item h))

-- The turns of a transcript are those of groups of its utterances: the groups hold the utterances in
-- order and each once, each group is of one role and speaker (an unknown speaker being their own), and
-- neighbouring groups differ in the role or the speaker. The turn of a group has its first utterance's
-- id, speaker, role and start, the latest end, the ids of all in order, and all the texts in order,
-- joined by line ends.
pub group_speaker_turns-AreTurns :
    (items : List Utterance) → AreTurns items (group_speaker_turns items)
unfolding group_speaker_turns AreTurns
group_speaker_turns-AreTurns items = group_from-AreTurns items [] [] ([], refl, refl, tt, tt)
