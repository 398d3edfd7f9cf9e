-- ===== src/Retention.antt =====
-- app/retention.py: tombstones of calls, and the purge of what a tombstoned call holds. A timestamp is a
-- number of seconds; an event's fresh id and its details are left out. `storage.delete` is a parameter:
-- whether it returns for a key; if it raises, the transaction is rolled back.
pub mod Purged
pub mod Batch
mod Examples
use real_time_ai_call_audit.Store.{
  Outcome, ok, raise, ◌>>=◌, ◌>>◌, raise_if, Call, Job, JobState, queued, waiting_handler,
  retry_wait, failed, Outbox,
}
use real_time_ai_call_audit.Events.{purge_call_events}
use real_time_ai_call_audit.Prelude.{
  ℕ, suc, ◌+◌, String, Bool, true, false, not, ◌&&◌, ◌||◌, Option, none, some, List, [], ◌∷◌, map,
  if◌then◌else◌, ltb, leb, ◌==◌, length, any, all, is_some, ◌=?◌, text_len, is_blank, join_text,
  delete_if, select, take, sort_by,
}

pub data RetentionError : Type 0 where
  invalid_actor batch_limit too_many_objects storage_failed : RetentionError

-- calls, with the columns of the retention.
pub record RetainedCall : Type 0 where
  pub row : Call
  pub legal_hold : Bool
  pub retention_expires_at : Option ℕ
  pub deletion_requested_at : Option ℕ
  pub deletion_requested_by : Option String
  pub content_purged_at : Option ℕ
  pub call_type : String
  pub agent_connected_ms : Option ℕ
  pub tagged_intervals : List (ℕ × ℕ)
  pub call_complete : Bool
  pub timing_reliable : Bool

-- A row of a table that belongs to a call; the key is that of an audio object, and "" elsewhere.
pub record Owned : Type 0 where
  pub organisation_id : ℕ
  pub call_id : ℕ
  pub id : ℕ
  pub private_key : String

-- access_events
pub record AccessEvent : Type 0 where
  pub organisation_id : ℕ
  pub actor_id : String
  pub action : String
  pub resource_type : String
  pub resource_id : ℕ

-- exotel_sessions
pub record StreamSession : Type 0 where
  pub organisation_id : ℕ
  pub call_key : String
  pub call_content_purged_at : Option ℕ

pub record Archive : Type 0 where
  pub calls : List RetainedCall
  pub jobs : List Job
  pub outbox : Outbox
  pub sessions : List StreamSession
  pub audio_objects : List Owned
  pub utterances : List Owned
  pub findings : List Owned
  pub audits : List Owned
  pub reviews : List Owned
  pub dispositions : List Owned
  pub access_events : List AccessEvent

pub data DeletionStatus : Type 0 where
  not_found held already_tombstoned already_purged : DeletionStatus
  tombstoned : ℕ → DeletionStatus

abbrev pub max_retention_batch : ℕ
max_retention_batch = 100

abbrev pub max_audio_objects : ℕ
max_audio_objects = 16

abbrev pub is_call : ℕ → ℕ → RetainedCall → Bool
is_call org call c = c.row.organisation_id == org && c.row.id == call

unfoldable pub find_retained : ℕ → ℕ → List RetainedCall → Option RetainedCall
find_retained org call [] = none
find_retained org call (c ∷ cs) =
    let rest = find_retained org call cs in if is_call org call c then some c else rest

unfoldable pub due_for_deletion : ℕ → ℕ → Bool → Bool
due_for_deletion expires_at now legal_hold = not legal_hold && leb expires_at now

abbrev pub is_unclaimed : JobState → Bool
is_unclaimed queued = true
is_unclaimed waiting_handler = true
is_unclaimed retry_wait = true
is_unclaimed _ = false

abbrev pub job_of : ℕ → ℕ → Job → Bool
job_of org call j = j.organisation_id == org && j.call_id == call

abbrev is_cancelled : ℕ → ℕ → Job → Bool
is_cancelled org call j = job_of org call j && is_unclaimed j.state

unfoldable pub cancel_unclaimed : ℕ → ℕ → List Job → List Job
cancel_unclaimed org call jobs =
    map
      (λ j.
        if is_cancelled org call j
        then record j {
          state = failed;
          lease_token = none;
          lease_until = none;
          last_error_code = some "TOMBSTONED";
        }
        else j)
      jobs

abbrev pub deletion_event : ℕ → String → ℕ → AccessEvent
deletion_event org actor call = record {
  organisation_id = org;
  actor_id = actor;
  action = "CALL_DELETION_REQUESTED";
  resource_type = "CALL";
  resource_id = call;
}

abbrev pub deleting : ℕ → Call → Call
deleting now c = record c { tombstoned_at = some now; processing_state = "DELETING" }

-- UPDATE calls … WHERE … AND tombstoned_at IS NULL
abbrev request_row : ℕ → ℕ → String → ℕ → RetainedCall → RetainedCall
request_row org call actor now c =
    if is_call org call c && not (is_some c.row.tombstoned_at)
    then record c {
      row = deleting now c.row;
      deletion_requested_at = some now;
      deletion_requested_by = some actor;
    }
    else c

unfoldable pub tombstone_call : ℕ → ℕ → String → ℕ → Archive → DeletionStatus × Archive
tombstone_call org call actor now a = (
  tombstoned (length (select (is_cancelled org call) a.jobs)),
  record a {
    calls = map (request_row org call actor now) a.calls;
    jobs = cancel_unclaimed org call a.jobs;
    access_events = deletion_event org actor call ∷ a.access_events;
  },
)

unfoldable pub request_for :
    Option RetainedCall → ℕ → ℕ → String → ℕ → Archive → DeletionStatus × Archive
request_for none org call actor now a = (not_found, a)
request_for (some c) org call actor now a =
    if c.legal_hold
    then (held, a)
    else if is_some c.row.tombstoned_at
    then (if is_some c.content_purged_at then already_purged else already_tombstoned, a)
    else tombstone_call org call actor now a

unfoldable pub request_call_deletion :
    ℕ → ℕ → String → ℕ → Archive → Outcome RetentionError (DeletionStatus × Archive)
request_call_deletion org call actor now a =
    raise_if (is_blank actor || ltb 255 (text_len actor)) invalid_actor
    >> ok (request_for (find_retained org call a.calls) org call actor now a)

pub data PurgeStatus : Type 0 where
  purge_not_found purge_held purge_already not_tombstoned not_due : PurgeStatus
  purged : ℕ → PurgeStatus

abbrev pub owned_by : ℕ → ℕ → Owned → Bool
owned_by org call o = o.organisation_id == org && o.call_id == call

abbrev pub empty_digest : String
empty_digest = "0000000000000000000000000000000000000000000000000000000000000000"

-- What the purge leaves of the call's row; `id_text` is the text of its id.
abbrev pub scrubbed : String → ℕ → RetainedCall → RetainedCall
scrubbed id_text now c = record c {
  row = record c.row {
    external_ref = join_text "deleted:" id_text;
    idempotency_key = join_text "deleted:" id_text;
    payload_sha256 = empty_digest;
    agent_id = "[deleted]";
    team_id = "[deleted]";
    language = "und";
    processing_state = "DELETED";
  };
  call_type = "unknown";
  agent_connected_ms = none;
  tagged_intervals = [];
  call_complete = false;
  timing_reliable = false;
  content_purged_at = some now;
}

abbrev pub scrub_row : ℕ → ℕ → String → ℕ → RetainedCall → RetainedCall
scrub_row org call id_text now c =
    if is_call org call c && is_some c.row.tombstoned_at && not c.legal_hold
    then scrubbed id_text now c
    else c

abbrev is_session_of : RetainedCall → StreamSession → Bool
is_session_of c s =
    s.organisation_id == c.row.organisation_id
    && c.row.external_ref =? join_text "exotel:" s.call_key
    && not (is_some s.call_content_purged_at)

abbrev pub purge_event : ℕ → ℕ → AccessEvent
purge_event org call = record {
  organisation_id = org;
  actor_id = "retention-worker";
  action = "CALL_CONTENT_PURGED";
  resource_type = "CALL";
  resource_id = call;
}

-- The statements from the purge of the events on.
unfoldable pub remove_content : ℕ → ℕ → String → ℕ → RetainedCall → Archive → Archive
remove_content org call id_text now c a = record a {
  outbox = (purge_call_events org call a.outbox).1;
  sessions =
      map (λ s. if is_session_of c s then record s { call_content_purged_at = some now } else s)
        a.sessions;
  audio_objects = delete_if (owned_by org call) a.audio_objects;
  utterances = delete_if (owned_by org call) a.utterances;
  findings = delete_if (owned_by org call) a.findings;
  jobs = delete_if (job_of org call) a.jobs;
  calls = map (scrub_row org call id_text now) a.calls;
  access_events = purge_event org call ∷ a.access_events;
}

abbrev pub is_due : RetainedCall → ℕ → Bool
is_due c now = is_some c.deletion_requested_at || (elim c.retention_expires_at [
  | none ↦ false
  | some expires ↦ due_for_deletion expires now false
])

-- The tests of the call's row.
unfoldable pub purge_refusal : RetainedCall → ℕ → Option PurgeStatus
purge_refusal c now =
    if c.legal_hold
    then some purge_held
    else if is_some c.content_purged_at
    then some purge_already
    else if not (is_some c.row.tombstoned_at)
    then some not_tombstoned
    else if not (is_due c now)
    then some not_due
    else none

module _ (deletes : String → Bool) where
  -- The audio objects of the call, as many as the LIMIT lets show.
  abbrev pub objects_of : ℕ → ℕ → Archive → List Owned
  objects_of org call a = take (suc max_audio_objects) (select (owned_by org call) a.audio_objects)

  unfoldable pub purge_found :
      ℕ → ℕ → String → ℕ → RetainedCall → Archive → Outcome RetentionError (PurgeStatus × Archive)
  purge_found org call id_text now c a =
      let objects = objects_of org call a in
      raise_if (ltb max_audio_objects (length objects)) too_many_objects
      >> raise_if (not (all (λ o. deletes o.private_key) objects)) storage_failed
      >> ok (purged (length objects), remove_content org call id_text now c a)

  unfoldable pub purge_for :
      Option RetainedCall
      → ℕ
      → ℕ
      → String
      → ℕ
      → Archive
      → Outcome RetentionError (PurgeStatus × Archive)
  purge_for none org call id_text now a = ok (purge_not_found, a)
  purge_for (some c) org call id_text now a = elim (purge_refusal c now) [
    | some status ↦ ok (status, a)
    | none ↦ purge_found org call id_text now c a
  ]

  unfoldable pub purge_call :
      ℕ → ℕ → String → ℕ → Archive → Outcome RetentionError (PurgeStatus × Archive)
  purge_call org call id_text now a =
      purge_for (find_retained org call a.calls) org call id_text now a

-- ORDER BY retention_expires_at, organisation_id, id
abbrev expires_of : RetainedCall → ℕ
expires_of c = elim c.retention_expires_at [ none ↦ 0 | some t ↦ t ]

abbrev pub expires_first : RetainedCall → RetainedCall → Bool
expires_first a b =
    ltb (expires_of a) (expires_of b)
    || expires_of a == expires_of b
      && (ltb a.row.organisation_id b.row.organisation_id
          || a.row.organisation_id == b.row.organisation_id && leb a.row.id b.row.id)

abbrev pub is_expired : ℕ → Option ℕ → RetainedCall → Bool
is_expired now organisation c =
    (elim c.retention_expires_at [ none ↦ false | some t ↦ leb t now ])
    && not c.legal_hold
    && not (is_some c.row.tombstoned_at)
    && (elim organisation [ none ↦ true | some org ↦ c.row.organisation_id == org ])

-- The rows that the batch takes; `locked` are those that another transaction holds.
unfoldable pub due_rows :
    (RetainedCall → Bool) → ℕ → ℕ → Option ℕ → List RetainedCall → List RetainedCall
due_rows locked now limit organisation calls =
    take limit
      (sort_by expires_first (select (λ c. is_expired now organisation c && not (locked c)) calls))

abbrev pub tombstone_row : ℕ → List RetainedCall → RetainedCall → RetainedCall
tombstone_row now due c =
    if any (λ e. is_call e.row.organisation_id e.row.id c) due
    then record c { row = deleting now c.row }
    else c

-- The loop over the returned rows.
unfoldable pub note_tombstones : List RetainedCall → Archive → Archive
note_tombstones [] a = a
note_tombstones (c ∷ due) a = note_tombstones due (record a {
  jobs = cancel_unclaimed c.row.organisation_id c.row.id a.jobs;
  access_events =
      deletion_event c.row.organisation_id "retention-worker" c.row.id ∷ a.access_events;
})

unfoldable pub tombstone_expired_calls :
    (RetainedCall → Bool) → ℕ → ℕ → Option ℕ → Archive → Outcome RetentionError (ℕ × Archive)
tombstone_expired_calls locked now limit organisation a =
    let due = due_rows locked now limit organisation a.calls in
    raise_if (not (leb 1 limit && leb limit max_retention_batch)) batch_limit
    >> ok
        (length due, note_tombstones due (record a { calls = map (tombstone_row now due) a.calls }))
