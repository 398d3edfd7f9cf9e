-- ===== src/Events/Examples.antt =====
-- The stream of one tenant: two events, a purge and a reader.
use real_time_ai_call_audit.Prelude.{
  ℕ, zero, suc, ◌≤◌, ◌≡◌, refl, ◌⊎◌, none, List, [], ◌∷◌, arith, ◌=?◌, one_of, All, length, select,
  sort_by, insert_by, delete_if,
}
use real_time_ai_call_audit.Store.{ok, Call, Event, Outbox, find_call}
use real_time_ai_call_audit.Auth.{Scope, can_access}
use real_time_ai_call_audit.Events.{
  find_counter, stream, append_call_updated, read_events, max_event_history, max_event_batch,
  access_predicate, joins, event_rows, check_cursor, append_keeping, insert_event, bump_counter,
  trim, drop_before, cutoff, raise_oldest,
}
use real_time_ai_call_audit.Events.Retained.{IsValid, StreamValid}
use real_time_ai_call_audit.Events.Gaps.{
  Holds, IsExpired, Write, updated, purged, run_writes, no_silent_gap,
}
use real_time_ai_call_audit.Events.History.{
  run_writes-IsValid, Appended, next_event, append_call_updated-ok,
}
use real_time_ai_call_audit.Events.Reading.{read_events-IsReadable, IsReadable}

abbrev first_event : Event
first_event = record {
  organisation_id = 1;
  sequence = 1;
  call_id = 10;
  processing_state = "QUEUED";
  transcript_revision = 0;
}

abbrev outbox : Outbox
outbox = record {
  counters = record { organisation_id = 1; last_sequence = 1; oldest_sequence = 1 } ∷ [];
  events = first_event ∷ [];
}

-- Of any tenant: the first has one event, all others none.
stream_of :
    (k : ℕ)
    → StreamValid max_event_history (find_counter k outbox.counters) (stream k outbox.events)
unfolding find_counter stream
stream_of zero = refl
stream_of (suc zero) = record {
  started = omega arith;
  bounded = omega arith;
  rises = (tt, tt);
  kept = (omega arith, tt);
  numbered = (omega arith, tt);
  short = omega arith;
}
stream_of (suc (suc k)) = ground arith

outbox-IsValid : IsValid max_event_history outbox
outbox-IsValid k = stream_of k

abbrev writes : List Write
writes = updated 1 11 "FAILED" 2 ∷ purged 1 10 ∷ []

Holds-first : Holds 1 (stream 1 outbox.events)
unfolding stream
Holds-first = refl

no_silent_gap_example :
    Holds 1 (stream 1 (run_writes outbox writes).events) ⊎ IsExpired 1 0 (run_writes outbox writes)
no_silent_gap_example =
    no_silent_gap max_event_history outbox writes 1 1 0 outbox-IsValid Holds-first (omega arith)

run_writes-IsValid_example : IsValid max_event_history (run_writes outbox writes)
run_writes-IsValid_example = run_writes-IsValid outbox writes outbox-IsValid

abbrev appended : Outbox
appended = record {
  counters = record { organisation_id = 1; last_sequence = 2; oldest_sequence = 1 } ∷ [];
  events = first_event ∷ next_event 1 11 "FAILED" 2 outbox ∷ [];
}

appends : append_call_updated 1 11 "FAILED" 2 outbox ≡ ok (2, appended)
unfolding append_call_updated append_keeping insert_event bump_counter find_counter trim drop_before
    cutoff stream raise_oldest delete_if sort_by insert_by one_of ◌=?◌
appends = refl

append_call_updated-ok_example : Appended 1 11 "FAILED" 2 outbox (2, appended)
append_call_updated-ok_example =
    append_call_updated-ok 1 11 "FAILED" 2 outbox (2, appended) outbox-IsValid appends

abbrev first_call : Call
first_call = record {
  organisation_id = 1;
  id = 10;
  external_ref = "ref";
  idempotency_key = "key";
  payload_sha256 = "sha";
  agent_id = "agent";
  team_id = "team";
  language = "en";
  processing_state = "QUEUED";
  transcript_revision = 0;
  tombstoned_at = none;
}

abbrev agent : Scope
agent = record { organisation_id = 1; user_id = "agent"; role = "AGENT"; team_ids = "team" ∷ [] }

one_read : read_events (first_call ∷ []) outbox agent 0 100 ≡ ok (first_event ∷ [])
unfolding read_events one_of ◌=?◌ check_cursor find_counter event_rows select sort_by insert_by
    joins find_call access_predicate can_access
one_read = refl

read_events-IsReadable_example :
    All (IsReadable (first_call ∷ []) agent 0) (first_event ∷ [])
    × (length (first_event ∷ []) ≤ 100)
    × (100 ≤ max_event_batch)
read_events-IsReadable_example =
    read_events-IsReadable (first_call ∷ []) agent 0 outbox 100 (first_event ∷ []) one_read
