-- ===== src/Disposition/Turns.antt =====
-- `_group_speaker_turns` and `_windows`: speaker turns, packed into windows of bounded size.
use real_time_ai_call_audit.Prelude.{
  ℕ, ◌+◌, ◌-◌, max, String, Bool, true, false, not, ◌&&◌, Option, none, some, List, [], ◌∷◌, ◌++◌,
  map, if◌then◌else◌, ltb, leb, ◌=?◌, length, drop, sum, text_len, join_text,
}

-- An item of the transcript. An absent speaker, role or text, or one that is no text, is the empty
-- text, which the code treats alike; an absent `is_final` is true.
pub record Utterance : Type 0 where
  pub id : String
  pub speaker_id : String
  pub role : String
  pub is_final : Bool
  pub start_ms : ℕ
  pub end_ms : ℕ
  pub text_redacted : String

pub record Turn : Type 0 where
  pub id : String
  pub utterance_ids : List String
  pub speaker_id : String
  pub role : String
  pub start_ms : ℕ
  pub end_ms : ℕ
  pub text_redacted : String

-- An unknown speaker is a speaker of their own.
unfoldable pub speaker_of : Utterance → String
speaker_of item =
    if item.speaker_id =? "" then join_text "unidentified:" item.id else item.speaker_id

abbrev pub new_turn : Utterance → Turn
new_turn item = record {
  id = item.id;
  utterance_ids = item.id ∷ [];
  speaker_id = speaker_of item;
  role = item.role;
  start_ms = item.start_ms;
  end_ms = item.end_ms;
  text_redacted = item.text_redacted;
}

abbrev pub joins : Turn → Utterance → Bool
joins turn item = turn.role =? item.role && turn.speaker_id =? speaker_of item

abbrev pub extend : Turn → Utterance → Turn
extend turn item = record turn {
  utterance_ids = turn.utterance_ids ++ item.id ∷ [];
  end_ms = max turn.end_ms item.end_ms;
  text_redacted = join_text turn.text_redacted (join_text "\n" item.text_redacted);
}

-- The body of the loop, on `turns[-1]`.
unfoldable pub add_utterance : List Turn → Utterance → List Turn
add_utterance [] item = new_turn item ∷ []
add_utterance (turn ∷ []) item =
    if joins turn item then extend turn item ∷ [] else turn ∷ new_turn item ∷ []
add_utterance (turn ∷ next ∷ turns) item = turn ∷ add_utterance (next ∷ turns) item

unfoldable pub group_from : List Turn → List Utterance → List Turn
group_from turns [] = turns
group_from turns (item ∷ items) = group_from (add_utterance turns item) items

unfoldable pub group_speaker_turns : List Utterance → List Turn
group_speaker_turns utterances = group_from [] utterances

unfoldable pub count_chars : List Turn → ℕ
count_chars turns = sum (map (λ t. text_len t.text_redacted) turns)

-- The variables of the loop of `_windows`.
pub record Packing : Type 0 where
  pub windows : List (List Turn)
  pub current : List Turn
  pub chars : ℕ

abbrev pub is_empty {ℓ} : {A : Type ℓ} → List A → Bool
is_empty [] = true
is_empty (x ∷ xs) = false

-- `current[-overlap:] if overlap else []`
unfoldable pub last_turns : ℕ → List Turn → List Turn
last_turns overlap current = drop (length current - overlap) current

-- The inner loop, with the characters of what it keeps.
unfoldable pub trim_overlap : ℕ → ℕ → List Turn → List Turn
trim_overlap window_limit size [] = []
trim_overlap window_limit size (turn ∷ current) =
    let rest = trim_overlap window_limit size current in
    if ltb window_limit (count_chars (turn ∷ current) + size) then rest else turn ∷ current

-- `current.append(turn); chars += size`
abbrev pub append_turn : List (List Turn) → List Turn → ℕ → Turn → Packing
append_turn windows current chars turn = record {
  windows = windows;
  current = current ++ turn ∷ [];
  chars = chars + text_len turn.text_redacted;
}

-- The body of the loop; `none` is its `return None`.
unfoldable pub pack_turn : ℕ → ℕ → ℕ → Packing → Turn → Option Packing
pack_turn window_limit overlap max_chunks p turn =
    let size = text_len turn.text_redacted in
    let closed = p.windows ++ p.current ∷ [] in
    let kept = trim_overlap window_limit size (last_turns overlap p.current) in
    if ltb window_limit size
    then none
    else if not (is_empty p.current) && ltb window_limit (p.chars + size)
    then (if leb max_chunks (length closed)
        then none
        else some (append_turn closed kept (count_chars kept) turn))
    else some (append_turn p.windows p.current p.chars turn)

unfoldable pub pack_turns : ℕ → ℕ → ℕ → Packing → List Turn → Option Packing
pack_turns window_limit overlap max_chunks p [] = some p
pack_turns window_limit overlap max_chunks p (turn ∷ turns) =
    elim (pack_turn window_limit overlap max_chunks p turn) [
      | none ↦ none
      | some q ↦ pack_turns window_limit overlap max_chunks q turns
    ]

unfoldable pub last_windows : Packing → List (List Turn)
last_windows p = if is_empty p.current then p.windows else p.windows ++ p.current ∷ []

-- `_windows`
unfoldable pub make_windows : List Turn → ℕ → ℕ → ℕ → ℕ → Option (List (List Turn))
make_windows turns context_limit window_limit overlap max_chunks =
    if ltb context_limit (count_chars turns)
    then none
    else if leb (count_chars turns) window_limit
    then some (turns ∷ [])
    else elim (pack_turns window_limit overlap max_chunks
        (record { windows = []; current = []; chars = 0 }) turns) [
          | none ↦ none
          | some p ↦
              if ltb max_chunks (length (last_windows p)) then none else some (last_windows p)
        ]
