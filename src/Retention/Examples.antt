-- ===== src/Retention/Examples.antt =====
-- Two calls of one organisation: the first was asked to be deleted, the second is on legal hold.
use real_time_ai_call_audit.Store.{ok, Call}
use real_time_ai_call_audit.Prelude.{
  ℕ, ◌≡◌, refl, String, Bool, true, false, Option, none, some, [], ◌∷◌, select, sort_by, insert_by,
}
use real_time_ai_call_audit.Retention.{
  RetainedCall, Archive, purge_event, scrub_row, tombstone_expired_calls, due_rows,
  due_for_deletion, note_tombstones, cancel_unclaimed, deleting, deletion_event,
}
use real_time_ai_call_audit.Retention.Batch.{IsBatch, tombstone_expired_calls-ok}

abbrev row_of : ℕ → Option ℕ → Call
row_of id tombstone = record {
  organisation_id = 1;
  id = id;
  external_ref = "ref";
  idempotency_key = "key";
  payload_sha256 = "sha";
  agent_id = "agent";
  team_id = "team";
  language = "en";
  processing_state = "DELETING";
  transcript_revision = 1;
  tombstoned_at = tombstone;
}

abbrev retained : ℕ → Option ℕ → Bool → RetainedCall
retained id tombstone hold = record {
  row = row_of id tombstone;
  legal_hold = hold;
  retention_expires_at = some 1000;
  deletion_requested_at = tombstone;
  deletion_requested_by = none;
  content_purged_at = none;
  call_type = "sales";
  agent_connected_ms = none;
  tagged_intervals = [];
  call_complete = true;
  timing_reliable = true;
}

abbrev archive : Archive
archive = record {
  calls = retained 7 (some 50) false ∷ retained 8 none true ∷ [];
  jobs = [];
  outbox = record { counters = []; events = [] };
  sessions = [];
  audio_objects = record { organisation_id = 1; call_id = 7; id = 1; private_key = "k" } ∷ [];
  utterances = record { organisation_id = 1; call_id = 8; id = 2; private_key = "" } ∷ [];
  findings = [];
  audits = [];
  reviews = [];
  dispositions = [];
  access_events = [];
}

abbrev emptied : Archive
emptied = record archive {
  calls = scrub_row 1 7 "7" 60 (retained 7 (some 50) false) ∷ retained 8 none true ∷ [];
  audio_objects = [];
  access_events = purge_event 1 7 ∷ [];
}

abbrev always : String → Bool
always key = true

-- The third call's retention ran out.
abbrev expiring : Archive
expiring = record archive { calls = retained 9 none false ∷ archive.calls }

abbrev expired_once : Archive
expired_once = record archive {
  calls = (record (retained 9 none false) { row = deleting 2000 (row_of 9 none) }) ∷ archive.calls;
  access_events = deletion_event 1 "retention-worker" 9 ∷ [];
}

abbrev unlocked : RetainedCall → Bool
unlocked c = false

expires : tombstone_expired_calls unlocked 2000 10 (some 1) expiring ≡ ok (1, expired_once)
unfolding tombstone_expired_calls due_rows select sort_by insert_by due_for_deletion note_tombstones
    cancel_unclaimed
expires = refl

tombstone_expired_calls-ok_example : IsBatch unlocked 2000 10 (some 1) expiring (1, expired_once)
tombstone_expired_calls-ok_example =
    tombstone_expired_calls-ok unlocked 2000 10 (some 1) expiring (1, expired_once) expires
