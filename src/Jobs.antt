-- ===== src/Jobs.antt =====
-- app/ingest.py, the job queue: `claim_job`, `defer_job`, `retry_job`, `renew_job`, and the update by
-- which `finish_job` gives up its lease. A transaction is one function on the tables; `now` is the
-- transaction's time, and the fresh lease token of a claim is an argument.
pub mod Leases
pub mod Claims
pub mod Retries
mod Examples
use real_time_ai_call_audit.Prelude.{
  ℕ, zero, suc, ◌+◌, ◌-◌, ◌^◌, min, String, Bool, true, false, not, ◌&&◌, ◌||◌, Option, none, some,
  List, [], ◌∷◌, map, ◌==◌, ltb, leb, if◌then◌else◌, is_some, ◌=?◌, one_of, any, select, sort_by,
}
use real_time_ai_call_audit.Store.{
  Outcome, ok, raise, ◌>>=◌, ◌>>◌, raise_if, Call, Job, JobState, Outbox, find_call,
}
use real_time_ai_call_audit.Store.JobState.{
  queued, running, waiting_handler, done, retry_wait, failed,
}
use real_time_ai_call_audit.Events.{EventError, append_call_updated}

abbrev pub max_job_attempts : ℕ
max_job_attempts = 5

-- The tables that the queue reads and writes.
pub record Queue : Type 0 where
  pub calls : List Call
  pub jobs : List Job
  pub outbox : Outbox

pub data QueueError : Type 0 where
  invalid_lease : QueueError
  event_error : EventError → QueueError

abbrev pub lift_event : {A : Type 0} → Outcome EventError A → Outcome QueueError A
lift_event (ok a) = ok a
lift_event (raise e) = raise (event_error e)

abbrev pub is_running : JobState → Bool
is_running running = true
is_running _ = false

abbrev pub is_failed : JobState → Bool
is_failed failed = true
is_failed _ = false

-- state IN ('QUEUED','WAITING_HANDLER','RETRY_WAIT')
abbrev pub is_waiting : JobState → Bool
is_waiting queued = true
is_waiting waiting_handler = true
is_waiting retry_wait = true
is_waiting _ = false

-- Comparisons with a nullable column: never true of NULL.
abbrev pub is_past : Option ℕ → ℕ → Bool
is_past none now = false
is_past (some t) now = ltb t now

abbrev pub is_future : Option ℕ → ℕ → Bool
is_future none now = false
is_future (some t) now = ltb now t

abbrev pub holds_token : Option ℕ → ℕ → Bool
holds_token none token = false
holds_token (some t) token = t == token

abbrev pub has_error : Option String → String → Bool
has_error none code = false
has_error (some c) code = c =? code

-- The first UPDATE of a claim, on one row.
unfoldable pub exhaust : ℕ → Job → Job
exhaust now j =
    if is_running j.state && leb max_job_attempts j.attempts && is_past j.lease_until now
    then record j {
      state = failed;
      lease_token = none;
      lease_until = none;
      last_error_code = some "RETRIES_EXHAUSTED";
    }
    else j

-- The calls that the second UPDATE fails.
unfoldable pub fails_call : List Job → Call → Bool
fails_call jobs c =
    any
      (λ j.
        j.organisation_id == c.organisation_id
        && j.call_id == c.id
        && is_failed j.state
        && has_error j.last_error_code "RETRIES_EXHAUSTED")
      jobs
    && not (is_some c.tombstoned_at)
    && not (c.processing_state =? "FAILED")

abbrev pub fail_call : Call → Call
fail_call c = record c { processing_state = "FAILED" }

unfoldable pub fail_calls : List Job → List Call → List Call
fail_calls jobs = map (λ c. if fails_call jobs c then fail_call c else c)

-- `append_call_updated` for each row that an UPDATE of the calls returned.
unfoldable pub announce : List Call → Outbox → Outcome QueueError Outbox
announce [] o = ok o
announce (c ∷ cs) o = do
  r ←
      lift_event
        (append_call_updated c.organisation_id c.id c.processing_state c.transcript_revision o)
  announce cs r.1

-- `supported_stages`: `none` is no filter.
abbrev pub supports : Option (List String) → String → Bool
supports none stage = true
supports (some stages) stage = one_of stage stages

unfoldable pub call_alive : List Call → Job → Bool
call_alive calls j = elim (find_call j.organisation_id j.call_id calls) [
  | none ↦ false
  | some c ↦ not (is_some c.tombstoned_at)
]

-- The WHERE of the claim. `locked` are the rows that other transactions hold (SKIP LOCKED).
unfoldable pub is_claimable : (Job → Bool) → List Call → Option (List String) → ℕ → Job → Bool
is_claimable locked calls stages now j =
    call_alive calls j
    && ltb j.attempts max_job_attempts
    && supports stages j.stage
    && (is_waiting j.state && leb j.available_at now
        || is_running j.state && is_past j.lease_until now)
    && not (locked j)

-- ORDER BY available_at, id
unfoldable pub due_first : Job → Job → Bool
due_first a b =
    ltb a.available_at b.available_at || a.available_at == b.available_at && leb a.id b.id

abbrev pub first_row_of : List Job → Option Job
first_row_of [] = none
first_row_of (j ∷ js) = some j

unfoldable pub select_job :
    (Job → Bool) → List Call → Option (List String) → ℕ → List Job → Option Job
select_job locked calls stages now jobs =
    first_row_of (sort_by due_first (select (is_claimable locked calls stages now) jobs))

abbrev pub take_lease : ℕ → ℕ → ℕ → Job → Job
take_lease now token seconds j = record j {
  state = running;
  lease_token = some token;
  lease_until = some (now + seconds);
  attempts = j.attempts + 1;
}

-- UPDATE jobs … WHERE organisation_id=… AND id=…
unfoldable pub update_job : ℕ → ℕ → (Job → Job) → List Job → List Job
update_job org id f = map (λ j. if j.organisation_id == org && j.id == id then f j else j)

abbrev pub bad_lease : ℕ → Bool
bad_lease seconds = seconds == 0 || ltb 3600 seconds

-- The claim behind its guards.
unfoldable pub claim_row :
    (Job → Bool)
    → Option (List String)
    → ℕ
    → ℕ
    → ℕ
    → Queue
    → Outcome QueueError (Option Job × Queue)
claim_row locked stages now token seconds q = do
  let jobs = map (exhaust now) q.jobs
  outbox ← announce (map fail_call (select (fails_call jobs) q.calls)) q.outbox
  let calls = fail_calls jobs q.calls
  elim (select_job locked calls stages now jobs) [
    | none ↦ ok (none, record { calls = calls; jobs = jobs; outbox = outbox })
    | some j ↦ ok (
      some (take_lease now token seconds j),
      record {
        calls = calls;
        jobs = update_job j.organisation_id j.id (take_lease now token seconds) jobs;
        outbox = outbox;
      },
    )
  ]

-- An empty list of stages claims nothing and writes nothing.
unfoldable pub claim_job :
    (Job → Bool)
    → String
    → ℕ
    → Option (List String)
    → ℕ
    → ℕ
    → Queue
    → Outcome QueueError (Option Job × Queue)
claim_job locked worker seconds (some []) now token q = do
  raise_if (worker =? "" || bad_lease seconds) invalid_lease
  ok (none, q)
claim_job locked worker seconds stages now token q = do
  raise_if (worker =? "" || bad_lease seconds) invalid_lease
  claim_row locked stages now token seconds q

-- WHERE id=job AND lease_token=token AND state='RUNNING' AND lease_until>now()
unfoldable pub is_leased : ℕ → ℕ → ℕ → Job → Bool
is_leased job token now j =
    j.id == job
    && holds_token j.lease_token token
    && is_running j.state
    && is_future j.lease_until now

unfoldable pub count_jobs : (Job → Bool) → List Job → ℕ
count_jobs p [] = 0
count_jobs p (j ∷ js) = let rest = count_jobs p js in if p j then suc rest else rest

-- An UPDATE of the rows that pass `p`, and whether it changed one row.
unfoldable pub update_leased : (Job → Bool) → (Job → Job) → Queue → Bool × Queue
update_leased p f q =
    (count_jobs p q.jobs == 1, record q { jobs = map (λ j. if p j then f j else j) q.jobs })

abbrev pub park : Job → Job
park j = record j {
  state = waiting_handler;
  attempts = j.attempts - 1;
  lease_token = none;
  lease_until = none;
}

unfoldable pub defer_job : ℕ → ℕ → ℕ → Queue → Bool × Queue
defer_job job token now q = update_leased (is_leased job token now) park q

unfoldable pub renew_job : ℕ → ℕ → ℕ → ℕ → Queue → Outcome QueueError (Bool × Queue)
renew_job job token seconds now q = do
  raise_if (bad_lease seconds) invalid_lease
  ok (
      update_leased (is_leased job token now) (λ j. record j { lease_until = some (now + seconds) })
        q)

-- `2 ** max(0, attempts - 1)`, at most 300.
unfoldable pub retry_delay : ℕ → ℕ
retry_delay attempts = min 300 (2 ^ (attempts - 1))

abbrev pub give_up : Job → Job
give_up j = record j {
  state = failed;
  lease_token = none;
  lease_until = none;
  last_error_code = some "PROCESSOR_FAILED";
}

abbrev pub wait_again : ℕ → ℕ → Job → Job
wait_again now attempts j = record j {
  state = retry_wait;
  available_at = now + retry_delay attempts;
  lease_token = none;
  lease_until = none;
  last_error_code = some "PROCESSOR_FAILED";
}

unfoldable pub find_job : (Job → Bool) → List Job → Option Job
find_job p [] = none
find_job p (j ∷ js) = let rest = find_job p js in if p j then some j else rest

abbrev pub is_call : ℕ → ℕ → Call → Bool
is_call org call c = c.organisation_id == org && c.id == call && not (is_some c.tombstoned_at)

-- UPDATE calls SET processing_state=… WHERE … AND tombstoned_at IS NULL, and its event.
unfoldable pub move_call : ℕ → ℕ → String → Queue → Outcome QueueError Queue
move_call org call state q = do
  let moved = λ (c : Call). record c { processing_state = state }
  outbox ← announce (map moved (select (is_call org call) q.calls)) q.outbox
  ok (record q {
    calls = map (λ c. if is_call org call c then moved c else c) q.calls;
    outbox = outbox;
  })

unfoldable pub retry_job : ℕ → ℕ → ℕ → ℕ → Queue → Outcome QueueError (Bool × Queue)
retry_job job token max_attempts now q = elim (find_job (is_leased job token now) q.jobs) [
  | none ↦ ok (false, q)
  | some j ↦
      if leb max_attempts j.attempts
      then (do
        r ←
            move_call j.organisation_id j.call_id "FAILED"
              (record q { jobs = update_job j.organisation_id j.id give_up q.jobs })
        ok (true, r))
      else (do
        r ← move_call j.organisation_id j.call_id "RETRY_WAIT" (record q {
          jobs = update_job j.organisation_id j.id (wait_again now j.attempts) q.jobs;
        })
        ok (true, r))
]

-- … FROM calls c JOIN jobs j … WHERE j.id=job: the call of the job.
unfoldable pub call_of_job : List Call → ℕ → List Job → Option Call
call_of_job calls job [] = none
call_of_job calls job (j ∷ js) =
    let rest = call_of_job calls job js in
    if j.id == job
    then elim (find_call j.organisation_id j.call_id calls) [ none ↦ rest | some c ↦ some c ]
    else rest

-- How `finish_job` ends a lease, before it stores the stage's result: not for a tombstoned call.
unfoldable pub finish_lease : ℕ → ℕ → ℕ → Queue → Bool × Queue
finish_lease job token now q = elim (call_of_job q.calls job q.jobs) [
  | none ↦ (false, q)
  | some c ↦
      if is_some c.tombstoned_at
      then (false, q)
      else update_leased (λ j. j.organisation_id == c.organisation_id && is_leased job token now j)
          (λ j. record j { state = done; lease_token = none; lease_until = none }) q
]
