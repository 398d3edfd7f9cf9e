-- ===== src/Events/History.antt =====
-- Any history of writes keeps every tenant's window; an append numbers and stores its event.
use real_time_ai_call_audit.Prelude.{
  min, length, length-append, ap, ◌∙◌, subst, not, Bool, ◌&&◌, ◌==◌, Option, delete_if, select, leb,
  ℕ, ◌+◌, ◌≤◌, ◌≡◌, refl, inl, inr, String, true, false, List, [], ◌∷◌, ◌++◌, ltb, arith, All,
  Option-cases, Bool-cases, one_of,
}
use real_time_ai_call_audit.Store.{ok, ok-injective, raise_if-ok, Counter, Event, Outbox}
use real_time_ai_call_audit.Events.{
  find_counter, stream, cutoff, oldest_kept, last_of, oldest_of, drop_before, insert_event, trim,
  append_keeping, append_call_updated, max_event_history, call_states, unsupported_state,
  bad_revision,
}
use real_time_ai_call_audit.Events.Stream.{
  find_counter-raise_oldest, cutoff_le, All-snoc_le, stream-delete_if, append-Rises, All-le_lt,
}
use real_time_ai_call_audit.Events.Trimmed.{length-trimmed, All-snoc_ge, own_kept}
use real_time_ai_call_audit.Events.Retained.{
  IsValid, append_keeping-IsValid, own_bounds, inserted_counter, inserted_stream,
}
use real_time_ai_call_audit.Events.Purge.{purge_call_events-IsValid}
use real_time_ai_call_audit.Events.Gaps.{Write, updated, purged, write, run_writes}

write-IsValid :
    (o : Outbox) (w : Write) → IsValid max_event_history o → IsValid max_event_history (write o w)
unfolding write append_call_updated
write-IsValid o (purged org call) v = purge_call_events-IsValid max_event_history org call o v
write-IsValid o (updated org call state revision) v = elim (Bool-cases (one_of state call_states)) [
  | inr bad ↦ rw (bad, write, append_call_updated) v
  | inl known ↦ elim (Bool-cases (ltb 2147483647 revision)) [
    | inl big ↦ rw (known, big, write, append_call_updated) v
    | inr fits ↦
        rw (known, fits, write, append_call_updated)
          (append_keeping-IsValid 9999 org call state revision o v)
  ]
]

-- If it is so before, then after any appends and purges by any tenants each tenant's stored
-- events still number upwards without repetition, lie from its oldest to its last sequence, and
-- are at most 10,000.
pub run_writes-IsValid :
    (o : Outbox) (ws : List Write)
    → IsValid max_event_history o
    → IsValid max_event_history (run_writes o ws)
unfolding run_writes
run_writes-IsValid o [] v = v
run_writes-IsValid o (w ∷ ws) v = run_writes-IsValid (write o w) ws (write-IsValid o w v)

edge_le :
    (oldest b n : ℕ) (xs : List ℕ)
    → oldest ≤ b
    → All (λ x. x ≤ b) xs
    → oldest_kept oldest (cutoff n xs) ≤ b
edge_le oldest b n xs low all = elim (Option-cases (cutoff n xs)) [
  | inl e ↦ rw e low
  | inr (c, e) ↦ rw e (omega (arith, cutoff_le b n c xs all e))
]

delete_if-snoc :
    {A : Type 0} (p : A → Bool) (xs : List A) (x : A)
    → p x ≡ false
    → delete_if p (xs ++ x ∷ []) ≡ delete_if p xs ++ x ∷ []
unfolding delete_if
delete_if-snoc p [] x miss = rw miss refl
delete_if-snoc p (y ∷ ys) x miss = elim (Bool-cases (p y)) [
  | inl gone ↦ rw gone (delete_if-snoc p ys x miss)
  | inr stays ↦ rw stays (ap (λ r. y ∷ r) (delete_if-snoc p ys x miss))
]

-- The event that an append for a tenant stores.
abbrev pub next_event : ℕ → ℕ → String → ℕ → Outbox → Event
next_event org call state revision o = record {
  organisation_id = org;
  sequence = last_of (find_counter org o.counters) + 1;
  call_id = call;
  processing_state = state;
  transcript_revision = revision;
}

-- An append stored its event after the others, less the tenant's own before an edge.
pub Appended : ℕ → ℕ → String → ℕ → Outbox → ℕ × Outbox → Type 0
Appended org call state revision o r =
    (one_of state call_states ≡ true)
    × (revision ≤ 2147483647)
    × (r.0 ≡ last_of (find_counter org o.counters) + 1)
    × (last_of (find_counter org r.1.counters) ≡ last_of (find_counter org o.counters) + 1)
    × (length (stream org r.1.events) ≡ min 10000 (length (stream org o.events) + 1))
    × (edge : ℕ) × (edge ≤ last_of (find_counter org o.counters) + 1)
    × (r.1.events
        ≡ delete_if (λ e. e.organisation_id == org && ltb e.sequence edge) o.events
          ++ next_event org call state revision o ∷ [])

-- The rows of the tenant that the trim after an insertion leaves.
rows_left :
    (org call : ℕ) (state : String) (revision : ℕ) (o : Outbox)
    → IsValid max_event_history o
    → length (
        select
          (leb (
            oldest_kept
              (oldest_of (find_counter org (insert_event org call state revision o).counters))
              (cutoff 9999 (stream org (insert_event org call state revision o).events))))
          (stream org (insert_event org call state revision o).events))
      ≡ min 10000 (length (stream org o.events) + 1)
rows_left org call state revision o v =
    let last = last_of (find_counter org o.counters) in
    let bounds = own_bounds 9999 org call state revision o v in
    let rising =
      append-Rises (stream org o.events) (last + 1) bounds.2
        (All-le_lt last (stream org o.events) bounds.3) in
    let late =
      All-snoc_ge (oldest_of (find_counter org o.counters)) (last + 1) (stream org o.events)
        bounds.1 (own_kept 9999 org o v) in
    rw
      (
        inserted_counter 9999 org call state revision o v,
        inserted_stream 9999 org call state revision o v,
      )
      (length-trimmed 9999 (oldest_of (find_counter org o.counters))
          (stream org o.events ++ (last + 1) ∷ []) rising late
        ∙ ap (min 10000) (length-append (stream org o.events) ((last + 1) ∷ [])))

append_keeping-Appended :
    (org call : ℕ) (state : String) (revision : ℕ) (o : Outbox)
    → IsValid max_event_history o
    → one_of state call_states ≡ true
    → revision ≤ 2147483647
    → Appended org call state revision o (append_keeping 9999 org call state revision o)
unfolding append_keeping trim drop_before Appended insert_event
append_keeping-Appended org call state revision o v known fits =
    let inserted = insert_event org call state revision o in
    let next = last_of (find_counter org o.counters) + 1 in
    let counter = inserted_counter 9999 org call state revision o v in
    let rows = inserted_stream 9999 org call state revision o v in
    let edge =
      oldest_kept (oldest_of (find_counter org inserted.counters))
        (cutoff 9999 (stream org inserted.events)) in
    let bounds = own_bounds 9999 org call state revision o v in
    let kept : edge ≤ next =
      edge_le (oldest_of (find_counter org inserted.counters)) next 9999
        (stream org inserted.events) (rw counter bounds.1)
        (rw rows
          (All-snoc_le (last_of (find_counter org o.counters)) (stream org o.events) bounds.3)) in
    let event : inserted.events ≡ o.events ++ next_event org call state revision o ∷ [] =
      ap
        (λ (found : Option Counter).
          o.events
          ++ record (next_event org call state revision o) { sequence = last_of found } ∷ [])
        counter in
    (
      known,
      fits,
      rw counter refl,
      rw (find_counter-raise_oldest org org edge inserted.counters, counter) (ground arith),
      rw (stream-delete_if org org edge inserted.events)
          (ground (arith, rows_left org call state revision o v)),
      edge,
      kept,
      ap (delete_if (λ e. e.organisation_id == org && ltb e.sequence edge)) event
          ∙ delete_if-snoc (λ e. e.organisation_id == org && ltb e.sequence edge) o.events
              (next_event org call state revision o) (ground (arith, kept)),
    )

-- Where an append for a tenant with a valid stream returns, the state is known, the revision is at
-- most 2147483647, and what it returns is the next sequence of the tenant (1 for its first), which is
-- then the tenant's last. The stored events are the ones before, without those of this tenant that are
-- before some edge, which is at most the new sequence, followed by the event of this call, state and
-- revision under that sequence; the tenant has one stored event more than before, or 10,000 if that is
-- less.
pub append_call_updated-ok :
    (org call : ℕ) (state : String) (revision : ℕ) (o : Outbox) (result : ℕ × Outbox)
    → IsValid max_event_history o
    → append_call_updated org call state revision o ≡ ok result
    → Appended org call state revision o result
unfolding append_call_updated
append_call_updated-ok org call state revision o result v e =
    let (known, e1) = raise_if-ok (not (one_of state call_states)) unsupported_state _ e in
    let (fits, e2) = raise_if-ok (ltb 2147483647 revision) bad_revision _ e1 in
    subst (Appended org call state revision o) (ok-injective e2) (
      append_keeping-Appended org call state revision o v (ground (arith, known))
        (ground (arith, fits)))
