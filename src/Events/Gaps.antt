-- ===== src/Events/Gaps.antt =====
-- A client that resumes from a cursor never misses an event silently.
use native.Mathlib.Decide.{ℕ_discrete}
use real_time_ai_call_audit.Prelude.{
  ℕ, ◌+◌, ◌≤◌, ◌<◌, max, ◌≡◌, refl, sym, delete_if, ◌⊎◌, inl, inr, String, true, Option, none, some,
  List, [], ◌∷◌, ◌++◌, leb, ltb, ◌==◌, arith, any, All, subst, select, Option-cases, Bool-cases,
  one_of,
}
use real_time_ai_call_audit.Store.{ok, raise, Counter, Event, Outbox}
use real_time_ai_call_audit.Events.{
  find_counter, stream, latest_of_call, of_call, check_cursor, cursor_expired, last_of, oldest_of,
  drop_before, insert_event, trim, append_keeping, call_states, append_call_updated,
  purge_call_events,
}
use real_time_ai_call_audit.Events.Stream.{
  find_counter-bump_counter, find_counter-bump_counter_ne, stream-append, find_counter-raise_oldest,
  stream-delete_if,
}
use real_time_ai_call_audit.Events.Retained.{StreamValid, IsValid}

abbrev pub Holds : ℕ → List ℕ → Type 0
Holds s xs = any (λ x. x == s) xs ≡ true

-- The answer of `read_events` to a cursor that points before what is kept.
abbrev pub IsExpired : ℕ → ℕ → Outbox → Type 0
IsExpired org after o =
    check_cursor (find_counter org o.counters) after
    ≡ raise (
        cursor_expired (last_of (find_counter org o.counters))
          (oldest_of (find_counter org o.counters)))

Holds-select : (m s : ℕ) (xs : List ℕ) → m ≤ s → Holds s xs → Holds s (select (leb m) xs)
unfolding select
Holds-select m s [] h e = cc
Holds-select m s (x ∷ xs) h e = ground (arith, Holds-select m s xs h)

pub le_of_Holds : (b s : ℕ) (xs : List ℕ) → All (λ x. x ≤ b) xs → Holds s xs → s ≤ b
le_of_Holds b s [] h e = cc
le_of_Holds b s (x ∷ xs) h e = ground (arith, le_of_Holds b s xs h.1)

pub ge_of_Holds : (b s : ℕ) (xs : List ℕ) → All (λ x. b ≤ x) xs → Holds s xs → b ≤ s
ge_of_Holds b s [] h e = cc
ge_of_Holds b s (x ∷ xs) h e = ground (arith, ge_of_Holds b s xs h.1)

pub Holds-append : (s : ℕ) (xs ys : List ℕ) → Holds s xs → Holds s (xs ++ ys)
Holds-append s [] ys e = cc
Holds-append s (x ∷ xs) ys e = ground (arith, Holds-append s xs ys)

-- An event of the tenant that was given out: it is still there, or it lies before the window.
abbrev pub Accounted : ℕ → ℕ → Outbox → Type 0
Accounted org s o =
    (s ≤ last_of (find_counter org o.counters))
    × (Holds s (stream org o.events) ⊎ (s < oldest_of (find_counter org o.counters)))

-- The writes to the outbox, by any tenant.
pub data Write : Type 0 where
  updated : ℕ → ℕ → String → ℕ → Write
  purged : ℕ → ℕ → Write

-- A write that raises changes nothing.
unfoldable pub write : Outbox → Write → Outbox
write o (updated org call state revision) = elim (append_call_updated org call state revision o) [
  | ok r ↦ r.1
  | raise e ↦ o
]
write o (purged org call) = (purge_call_events org call o).1

unfoldable pub run_writes : Outbox → List Write → Outbox
run_writes o [] = o
run_writes o (w ∷ ws) = run_writes (write o w) ws

last-drop_before :
    (k org m : ℕ) (o : Outbox)
    → last_of (find_counter k (drop_before org m o).counters) ≡ last_of (find_counter k o.counters)
unfolding drop_before
last-drop_before k org m o = rw (find_counter-raise_oldest org k m o.counters) (ground arith)

-- What `drop_before` takes away lies before the new window.
drop_before-Accounted :
    (org k m s : ℕ) (o : Outbox) → Accounted k s o → Accounted k s (drop_before org m o)
unfolding drop_before
drop_before-Accounted org k m s o (low, a) = (
  rw (last-drop_before k org m o) low,
  rw (find_counter-raise_oldest org k m o.counters, stream-delete_if org k m o.events)
      (ground (arith, Holds-select m s (stream k o.events))),
)

insert_event-Accounted :
    (org call : ℕ) (state : String) (revision k s : ℕ) (o : Outbox)
    → Accounted k s o
    → Accounted k s (insert_event org call state revision o)
unfolding insert_event
insert_event-Accounted org call state revision k s o (low, a) = elim (ℕ_discrete k org) [
  | yes e ↦
      let bump = find_counter-bump_counter org o.counters in
      let moved : Accounted org s o = subst (λ j. Accounted j s o) e (low, a) in
      subst (λ j. Accounted j s (insert_event org call state revision o)) (sym e)
        (rw (stream-append org o.events, bump)
          (ground (
            arith,
            moved,
            Holds-append s (stream org o.events) ((last_of (find_counter org o.counters) + 1) ∷ []),
          )))
  | no ne ↦
      rw (stream-append k o.events, find_counter-bump_counter_ne org k o.counters ne)
        (ground (arith, low))
]

delete_none :
    (org call : ℕ) (es : List Event)
    → latest_of_call org call es ≡ none
    → delete_if (of_call org call) es ≡ es
unfolding delete_if latest_of_call
delete_none org call [] e = refl
delete_none org call (x ∷ es) e = elim (Option-cases (latest_of_call org call es)) [
  | inl nothing ↦ ground (arith, delete_none org call es nothing)
  | inr (t, found) ↦ ground arith
]

-- Each removed row of the call is at most its newest.
purge_split :
    (org call k s latest : ℕ) (es : List Event)
    → latest_of_call org call es ≡ some latest
    → Holds s (stream k es)
    → Holds s (stream k (delete_if (of_call org call) es)) ⊎ ((k ≡ org) × (s ≤ latest))
unfolding stream delete_if latest_of_call
purge_split org call k s latest [] l e = cc
purge_split org call k s latest (x ∷ es) l e = elim (Option-cases (latest_of_call org call es)) [
  | inl nothing ↦ ground (arith, delete_none org call es nothing)
  | inr (t, found) ↦ ground (arith, purge_split org call k s t es)
]

gone_before :
    (org m s : ℕ) (o : Outbox) (c : Counter)
    → find_counter org o.counters ≡ some c
    → s < m
    → s < oldest_of (find_counter org (drop_before org m o).counters)
unfolding drop_before
gone_before org m s o c found lt =
    rw (find_counter-raise_oldest org org m o.counters, found) (ground arith)

module _ (org call k s : ℕ) (o : Outbox) (c : Counter) (latest : ℕ)
    (found : find_counter org o.counters ≡ some c)
    (newest : latest_of_call org call o.events ≡ some latest) where
  abbrev removed : Outbox
  removed = record o { events = delete_if (of_call org call) o.events }

  abbrev edge : ℕ
  edge = max c.oldest_sequence (latest + 1)

  purged-Accounted : Accounted k s o → Accounted k s (drop_before org edge removed)
  purged-Accounted (low, inr before) = drop_before-Accounted org k edge s removed (low, inr before)
  purged-Accounted (low, inl h) = elim (purge_split org call k s latest o.events newest h) [
    | inl held ↦ drop_before-Accounted org k edge s removed (low, inl held)
    | inr (own, le) ↦ (
      rw (last-drop_before k org edge removed) low,
      inr (rw own (gone_before org edge s removed c found (omega arith))),
    )
  ]

purge-Accounted :
    (org call k s : ℕ) (o : Outbox)
    → Accounted k s o
    → Accounted k s (purge_call_events org call o).1
unfolding purge_call_events
purge-Accounted org call k s o a = elim (Option-cases (find_counter org o.counters)) [
  | inl e ↦ rw (e, purge_call_events) a
  | inr (c, e) ↦ elim (Option-cases (latest_of_call org call o.events)) [
    | inl l ↦ rw (e, l, purge_call_events) a
    | inr (latest, l) ↦
        rw (e, l, purge_call_events) (purged-Accounted org call k s o c latest e l a)
  ]
]

write-Accounted : (o : Outbox) (w : Write) (k s : ℕ) → Accounted k s o → Accounted k s (write o w)
unfolding write append_call_updated append_keeping trim
write-Accounted o (purged org call) k s a = purge-Accounted org call k s o a
write-Accounted o (updated org call state revision) k s a =
    elim (Bool-cases (one_of state call_states)) [
      | inr bad ↦ rw (bad, write, append_call_updated) a
      | inl known ↦ elim (Bool-cases (ltb 2147483647 revision)) [
        | inl big ↦ rw (known, big, write, append_call_updated) a
        | inr fits ↦
            rw (known, fits, write, append_call_updated)
              (drop_before-Accounted org k _ s (insert_event org call state revision o)
                (insert_event-Accounted org call state revision k s o a))
      ]
    ]

run_writes-Accounted :
    (o : Outbox) (ws : List Write) (k s : ℕ) → Accounted k s o → Accounted k s (run_writes o ws)
unfolding run_writes
run_writes-Accounted o [] k s a = a
run_writes-Accounted o (w ∷ ws) k s a =
    run_writes-Accounted (write o w) ws k s (write-Accounted o w k s a)

expired_of_gone :
    (after s : ℕ) (oc : Option Counter)
    → s ≤ last_of oc
    → s < oldest_of oc
    → after < s
    → check_cursor oc after ≡ raise (cursor_expired (last_of oc) (oldest_of oc))
unfolding check_cursor
expired_of_gone after s none low gone lt = absurd (omega arith)
expired_of_gone after s (some c) low gone lt = ground arith

numbered :
    (h : ℕ) (oc : Option Counter) (xs : List ℕ) (s : ℕ)
    → StreamValid h oc xs
    → Holds s xs
    → s ≤ last_of oc
numbered h none xs s v held = let e : Holds s [] = subst (Holds s) v held in cc
numbered h (some c) xs s v held = le_of_Holds c.last_sequence s xs v.numbered held

-- From a valid stream, whatever events are appended and whatever calls are purged, by any tenant:
-- a stored event behind a client's cursor is afterwards either still stored, or the cursor is
-- answered by `cursor_expired` with the window of the stream. So no event is skipped silently.
pub no_silent_gap :
    (h : ℕ) (o : Outbox) (ws : List Write) (org s after : ℕ)
    → IsValid h o
    → Holds s (stream org o.events)
    → after < s
    → Holds s (stream org (run_writes o ws).events) ⊎ IsExpired org after (run_writes o ws)
no_silent_gap h o ws org s after v held lt =
    let (low, at) =
      run_writes-Accounted o ws org s
        (numbered h (find_counter org o.counters) (stream org o.events) s (v org) held, inl held) in
    elim at [
      | inl stays ↦ inl stays
      | inr gone ↦
          inr (expired_of_gone after s (find_counter org (run_writes o ws).counters) low gone lt)
    ]
