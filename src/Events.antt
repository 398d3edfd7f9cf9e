-- ===== src/Events.antt =====
-- app/events.py: the tenant-local stream of durable events that a client resumes from a cursor.
-- Each organisation numbers its events from 1; the newest 10,000 are kept, and a cursor that
-- points before them is answered by an error, never by a gap. The two SSE encoders and the time
-- stamp of an envelope are left out. So are two checks of migrations/015_event_outbox.sql: the foreign
-- key of an event to its call and the range of bigint. Where these would raise, the model goes on.
pub mod Stream
pub mod Retained
pub mod Purge
pub mod Gaps
pub mod Trimmed
pub mod History
pub mod Reading
mod Examples
use real_time_ai_call_audit.Prelude.{
  ℕ, suc, ◌+◌, ◌-◌, ◌*◌, max, String, Bool, true, false, not, ◌&&◌, ◌||◌, Option, none, some, List,
  [], ◌∷◌, ◌++◌, ◌==◌, ltb, leb, if◌then◌else◌, is_some, ◌=?◌, one_of, codes, text_len, all, take,
  drop, select, sort_by, delete_if,
}
use real_time_ai_call_audit.Store.{
  Outcome, ok, ◌>>=◌, ◌>>◌, raise_if, Call, Counter, Event, Outbox, find_call,
}
use real_time_ai_call_audit.Auth.{Scope, can_access}

abbrev pub max_event_sequence : ℕ
max_event_sequence = 9223372036854775807

abbrev pub max_event_batch : ℕ
max_event_batch = 100

abbrev pub max_event_history : ℕ
max_event_history = 10000

abbrev pub call_states : List String
call_states =
    "QUEUED" ∷ "TRANSCRIBING" ∷ "ANALYSING" ∷ "AUDITING" ∷ "READY" ∷ "RETRY_WAIT" ∷ "NEEDS_REVIEW"
    ∷ "FAILED" ∷ "DELETING" ∷ "DELETED" ∷ []

abbrev pub read_roles : List String
read_roles = "AGENT" ∷ "TEAM_LEADER" ∷ "QA_ANALYST" ∷ "COMPLIANCE_OFFICER" ∷ "ADMIN" ∷ []

-- The exceptions, `cursor_expired` with its latest and oldest sequence.
pub data EventError : Type 0 where
  cursor_error bad_batch_limit event_forbidden unsupported_state bad_revision : EventError
  cursor_expired : ℕ → ℕ → EventError

-- `value.isascii() and value.isdecimal()`, less the emptiness that is tested before.
unfoldable pub is_decimal : List ℕ → Bool
is_decimal = all (λ c. leb b'0' c && leb c b'9')

-- `int(value)` of a text of digits.
unfoldable pub decimal : ℕ → List ℕ → ℕ
decimal acc [] = acc
decimal acc (c ∷ cs) = decimal (acc * 10 + (c - b'0')) cs

unfoldable pub parse_last_event_id : Option String → Outcome EventError ℕ
parse_last_event_id none = ok 0
parse_last_event_id (some value) = do
  raise_if (text_len value == 0 || ltb 19 (text_len value) || not (is_decimal (codes value)))
      cursor_error
  raise_if (ltb max_event_sequence (decimal 0 (codes value))) cursor_error
  ok (decimal 0 (codes value))

-- event_counters by their primary key.
unfoldable pub find_counter : ℕ → List Counter → Option Counter
find_counter org [] = none
find_counter org (c ∷ cs) =
    let rest = find_counter org cs in if c.organisation_id == org then some c else rest

-- INSERT INTO event_counters … VALUES (org,1,1) ON CONFLICT DO UPDATE SET last_sequence + 1.
unfoldable pub bump_counter : ℕ → List Counter → List Counter
bump_counter org [] = record { organisation_id = org; last_sequence = 1; oldest_sequence = 1 } ∷ []
bump_counter org (c ∷ cs) =
    let rest = bump_counter org cs in
    if c.organisation_id == org
    then record c { last_sequence = c.last_sequence + 1 } ∷ cs
    else c ∷ rest

-- UPDATE event_counters SET oldest_sequence=oldest WHERE … AND oldest_sequence<oldest.
unfoldable pub raise_oldest : ℕ → ℕ → List Counter → List Counter
raise_oldest org oldest [] = []
raise_oldest org oldest (c ∷ cs) =
    (if c.organisation_id == org && ltb c.oldest_sequence oldest
      then record c { oldest_sequence = oldest }
      else c)
    ∷ raise_oldest org oldest cs

-- SELECT sequence FROM events WHERE organisation_id=org.
unfoldable pub stream : ℕ → List Event → List ℕ
stream org [] = []
stream org (e ∷ es) =
    let rest = stream org es in if e.organisation_id == org then e.sequence ∷ rest else rest

abbrev pub newest_first : ℕ → ℕ → Bool
newest_first a b = leb b a

abbrev pub first_of_rows : List ℕ → Option ℕ
first_of_rows [] = none
first_of_rows (x ∷ xs) = some x

-- … ORDER BY sequence DESC OFFSET n LIMIT 1.
unfoldable pub cutoff : ℕ → List ℕ → Option ℕ
cutoff n sequences = first_of_rows (drop n (sort_by newest_first sequences))

abbrev pub oldest_kept : ℕ → Option ℕ → ℕ
oldest_kept oldest none = oldest
oldest_kept oldest (some c) = max oldest c

abbrev pub last_of : Option Counter → ℕ
last_of none = 0
last_of (some c) = c.last_sequence

abbrev pub oldest_of : Option Counter → ℕ
oldest_of none = 1
oldest_of (some c) = c.oldest_sequence

-- DELETE FROM events WHERE organisation_id=org AND sequence<oldest, then the counter's UPDATE.
unfoldable pub drop_before : ℕ → ℕ → Outbox → Outbox
drop_before org oldest o = record {
  counters = raise_oldest org oldest o.counters;
  events = delete_if (λ e. e.organisation_id == org && ltb e.sequence oldest) o.events;
}

-- The two INSERTs: the counter's, which numbers the event, and the event's.
unfoldable pub insert_event : ℕ → ℕ → String → ℕ → Outbox → Outbox
insert_event org call state revision o =
    let counters = bump_counter org o.counters in
    let event : Event = record {
      organisation_id = org;
      sequence = last_of (find_counter org counters);
      call_id = call;
      processing_state = state;
      transcript_revision = revision;
    } in
    record { counters = counters; events = o.events ++ event ∷ [] }

-- The rest of `append_call_updated`, for a history of `suc n` events.
unfoldable pub trim : ℕ → ℕ → Outbox → Outbox
trim n org o =
    drop_before org
      (oldest_kept (oldest_of (find_counter org o.counters)) (cutoff n (stream org o.events))) o

unfoldable pub append_keeping : ℕ → ℕ → ℕ → String → ℕ → Outbox → ℕ × Outbox
append_keeping n org call state revision o =
    let inserted = insert_event org call state revision o in
    (last_of (find_counter org inserted.counters), trim n org inserted)

unfoldable pub append_call_updated : ℕ → ℕ → String → ℕ → Outbox → Outcome EventError (ℕ × Outbox)
append_call_updated org call state revision o = do
  raise_if (not (one_of state call_states)) unsupported_state
  raise_if (ltb 2147483647 revision) bad_revision
  ok (append_keeping (max_event_history - 1) org call state revision o)

-- SELECT max(sequence) FROM events WHERE organisation_id=org AND call_id=call.
unfoldable pub latest_of_call : ℕ → ℕ → List Event → Option ℕ
latest_of_call org call [] = none
latest_of_call org call (e ∷ es) =
    let rest = latest_of_call org call es in
    if e.organisation_id == org && e.call_id == call
    then elim rest [ none ↦ some e.sequence | some s ↦ some (max e.sequence s) ]
    else rest

abbrev pub of_call : ℕ → ℕ → Event → Bool
of_call org call e = e.organisation_id == org && e.call_id == call

unfoldable pub count_rows : List Event → ℕ
count_rows [] = 0
count_rows (e ∷ es) = suc (count_rows es)

unfoldable pub purge_call_events : ℕ → ℕ → Outbox → ℕ × Outbox
purge_call_events org call o = elim (find_counter org o.counters) [
  | none ↦ (0, o)
  | some c ↦ elim (latest_of_call org call o.events) [
    | none ↦ (0, o)
    | some latest ↦
        let removed = record o { events = delete_if (of_call org call) o.events } in
        (
          count_rows (select (of_call org call) o.events),
          drop_before org (max c.oldest_sequence (latest + 1)) removed,
        )
  ]
]

-- The cursor tests of `read_events`: `true` when the stream has a counter.
unfoldable pub check_cursor : Option Counter → ℕ → Outcome EventError Bool
check_cursor none after = do raise_if (ltb 0 after) cursor_error; ok false
check_cursor (some c) after = do
  raise_if (ltb c.last_sequence after) cursor_error
  raise_if (ltb after (c.oldest_sequence - 1)) (cursor_expired c.last_sequence c.oldest_sequence)
  ok true

-- The `access_predicate` of the query.
unfoldable pub access_predicate : Scope → Call → Bool
access_predicate scope c =
    if scope.role =? "AGENT"
    then c.agent_id =? scope.user_id
    else if scope.role =? "TEAM_LEADER"
    then one_of c.team_id scope.team_ids
    else true

-- The row joins a call that is not tombstoned and passes `p`.
unfoldable pub joins : (Call → Bool) → List Call → Event → Bool
joins p calls e = elim (find_call e.organisation_id e.call_id calls) [
  | none ↦ false
  | some c ↦ not (is_some c.tombstoned_at) && p c
]

abbrev pub oldest_first : Event → Event → Bool
oldest_first a b = leb a.sequence b.sequence

unfoldable pub event_rows : List Call → Scope → ℕ → ℕ → List Event → List Event
event_rows calls scope after limit events = take limit (
    sort_by oldest_first (
      select
        (λ e.
          e.organisation_id == scope.organisation_id
          && ltb after e.sequence
          && joins (access_predicate scope) calls e)
        events))

abbrev pub no_teams : Scope → Bool
no_teams scope = scope.role =? "TEAM_LEADER" && elim scope.team_ids [ [] ↦ true | _ ↦ false ]

unfoldable pub read_events : List Call → Outbox → Scope → ℕ → ℕ → Outcome EventError (List Event)
read_events calls o scope after limit = do
  raise_if (ltb max_event_sequence after) cursor_error
  raise_if (limit == 0 || ltb max_event_batch limit) bad_batch_limit
  raise_if (not (one_of scope.role read_roles)) event_forbidden
  exists ← check_cursor (find_counter scope.organisation_id o.counters) after
  ok (
      if not exists || no_teams scope
      then []
      else select (joins (λ c. can_access scope c.organisation_id c.agent_id c.team_id) calls)
          (event_rows calls scope after limit o.events))
