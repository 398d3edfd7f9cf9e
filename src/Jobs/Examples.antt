-- ===== src/Jobs/Examples.antt =====
-- The queue on one waiting job, claimed and then fenced off from an older token.
use real_time_ai_call_audit.Prelude.{
  ◌+◌, ◌≤◌, ◌≡◌, refl, Bool, false, ◌&&◌, none, some, [], ◌∷◌, arith, ◌=?◌, one_of, select, sort_by,
  insert_by,
}
use real_time_ai_call_audit.Store.{ok, Call, Job, find_call}
use real_time_ai_call_audit.Store.JobState.{queued, running}
use real_time_ai_call_audit.Jobs.{
  Queue, claim_job, is_running, is_future, exhaust, finish_lease, defer_job, renew_job, retry_job,
  max_job_attempts, take_lease, announce, fails_call, fail_calls, call_alive, is_claimable,
  select_job, update_job, claim_row,
}
use real_time_ai_call_audit.Jobs.Leases.{QueueValid}
use real_time_ai_call_audit.Jobs.Claims.{claim_job_exclusive}
use real_time_ai_call_audit.Jobs.Retries.{
  stale_token_fenced, run_operations-Valid, run_operations, claims, defers, retries,
}

abbrev a_call : Call
a_call = record {
  organisation_id = 1;
  id = 10;
  external_ref = "ref";
  idempotency_key = "key";
  payload_sha256 = "sha";
  agent_id = "agent";
  team_id = "team";
  language = "en";
  processing_state = "QUEUED";
  transcript_revision = 0;
  tombstoned_at = none;
}

abbrev a_job : Job
a_job = record {
  organisation_id = 1;
  id = 20;
  call_id = 10;
  stage = "TRANSCRIBE";
  input_revision = 1;
  state = queued;
  attempts = 0;
  available_at = 100;
  lease_token = none;
  lease_until = none;
  last_error_code = none;
}

abbrev waiting : Queue
waiting = record {
  calls = a_call ∷ [];
  jobs = a_job ∷ [];
  outbox = record { counters = []; events = [] };
}

waiting-Valid : QueueValid waiting
waiting-Valid = record {
  valid = (record { tried = omega arith; leased = λ e. cc; released = λ e. cc }, tt);
  unique = ((λ e. refl, tt), tt);
}

abbrev held : Job
held = take_lease 150 7 60 a_job

abbrev claimed : Queue
claimed = record waiting { jobs = held ∷ [] }

abbrev no_locks : Job → Bool
no_locks j = false

claim_runs :
    claim_job no_locks "worker" 60 (some ("TRANSCRIBE" ∷ [])) 150 7 waiting
    ≡ ok (some held, claimed)
unfolding claim_job claim_row exhaust announce fails_call fail_calls select select_job sort_by
    insert_by is_claimable call_alive find_call update_job ◌=?◌ one_of
claim_runs = refl

claim_job_exclusive_example :
    ((is_running queued && is_future none 150) ≡ false)
    × (held.state ≡ running)
    × (held.lease_token ≡ some 7)
    × (held.lease_until ≡ some (150 + 60))
    × (held.attempts ≡ (exhaust 150 a_job).attempts + 1)
    × (held.attempts ≤ max_job_attempts)
claim_job_exclusive_example =
    claim_job_exclusive no_locks "worker" 60 150 7 (some ("TRANSCRIBE" ∷ [])) waiting claimed held
      a_job waiting-Valid claim_runs ([], [], refl) refl

stale_token_fenced_example :
    (finish_lease 20 6 160 claimed ≡ (false, claimed))
    × (defer_job 20 6 160 claimed ≡ (false, claimed))
    × (renew_job 20 6 60 160 claimed ≡ ok (false, claimed))
    × (retry_job 20 6 5 160 claimed ≡ ok (false, claimed))
stale_token_fenced_example =
    stale_token_fenced no_locks "worker" 60 150 7 6 160 (some ("TRANSCRIBE" ∷ [])) waiting claimed
      held 5 waiting-Valid claim_runs (omega arith)

run_operations-Valid_example : QueueValid (
    run_operations waiting
      (claims no_locks "worker" 60 none 150 7 ∷ retries 20 7 5 160 ∷ defers 20 7 170 ∷ []))
run_operations-Valid_example =
    run_operations-Valid waiting
      (claims no_locks "worker" 60 none 150 7 ∷ retries 20 7 5 160 ∷ defers 20 7 170 ∷ [])
      waiting-Valid
