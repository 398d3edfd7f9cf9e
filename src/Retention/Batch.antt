-- ===== src/Retention/Batch.antt =====
-- The batch that tombstones the calls whose retention ran out.
use real_time_ai_call_audit.Store.{
  ok, ok-injective, raise_if-ok, Job, JobState, queued, waiting_handler, retry_wait, failed,
  running, done,
}
use real_time_ai_call_audit.Prelude.{
  ℕ, zero, suc, ◌≤◌, ◌≡◌, refl, ap, ◌==◌, none, some, some_eq, is_some, subst, ◌∙◌, inl, inr, Bool,
  true, false, not, ◌&&◌, Option, if◌then◌else◌, List, [], ◌∷◌, map, leb, length, take, select,
  sort_by, any, min, All, All-take, All-sort_by, length-sort_by, Bool-cases, arith,
}
use real_time_ai_call_audit.Retention.{
  RetainedCall, Archive, AccessEvent, cancel_unclaimed, is_unclaimed, is_call, is_expired, due_rows,
  tombstone_row, note_tombstones, tombstone_expired_calls, batch_limit, expires_first,
  max_retention_batch,
}

length-take : {A : Type 0} (n : ℕ) (xs : List A) → length (take n xs) ≡ min n (length xs)
length-take zero xs = omega arith
length-take (suc n) [] = omega arith
length-take (suc n) (x ∷ xs) = omega (arith, length-take n xs)

selected : {A : Type 0} (p : A → Bool) (xs : List A) → All (λ x. p x ≡ true) (select p xs)
unfolding select
selected p [] = tt
selected p (x ∷ xs) = elim (Bool-cases (p x)) [
  | inl hit ↦ rw hit (hit, selected p xs)
  | inr miss ↦ rw miss (selected p xs)
]

-- A row that the batch may take.
abbrev pub may_take : (RetainedCall → Bool) → ℕ → Option ℕ → RetainedCall → Bool
may_take locked now organisation c = is_expired now organisation c && not (locked c)

-- A call whose retention ran out by `now`, of the asked organisation if one was, that is on no legal
-- hold, not tombstoned, and not locked by another transaction.
abbrev pub IsExpired : (RetainedCall → Bool) → ℕ → Option ℕ → RetainedCall → Type 0
IsExpired locked now organisation c =
    ((t : ℕ) × (c.retention_expires_at ≡ some t) × (t ≤ now))
    × (c.legal_hold ≡ false)
    × (is_some c.row.tombstoned_at ≡ false)
    × ((org : ℕ) → organisation ≡ some org → c.row.organisation_id ≡ org)
    × (locked c ≡ false)

ran_out :
    (expires : Option ℕ) (now : ℕ)
    → (elim expires [ none ↦ false | some t ↦ leb t now ]) ≡ true
    → (t : ℕ) × (expires ≡ some t) × (t ≤ now)
ran_out none now h = cc
ran_out (some t) now h = (t, refl, ground arith)

asked :
    (organisation : Option ℕ) (own : ℕ)
    → (elim organisation [ none ↦ true | some org ↦ own == org ]) ≡ true
    → (org : ℕ) → organisation ≡ some org
    → own ≡ org
asked none own h org e = cc
asked (some org) own h org' e = let same = some_eq e in ground arith

may_take-IsExpired :
    (locked : RetainedCall → Bool) (now : ℕ) (organisation : Option ℕ) (c : RetainedCall)
    → may_take locked now organisation c ≡ true
    → IsExpired locked now organisation c
may_take-IsExpired locked now organisation c h = (
  ran_out c.retention_expires_at now (ground (arith, h)),
  ground (arith, h),
  ground (arith, h),
  asked organisation c.row.organisation_id (ground (arith, h)),
  ground (arith, h),
)

selected_from :
    (p : RetainedCall → Bool) (xs : List RetainedCall)
    → All (λ e. any (is_call e.row.organisation_id e.row.id) xs ≡ true) (select p xs)
unfolding select
selected_from p [] = tt
selected_from p (x ∷ xs) =
    let later = widen x xs (select p xs) (selected_from p xs) in
    elim (Bool-cases (p x)) [ inl hit ↦ rw hit (ground arith, later) | inr miss ↦ rw miss later ]
  where
    widen :
        (x : RetainedCall) (xs ys : List RetainedCall)
        → All (λ e. any (is_call e.row.organisation_id e.row.id) xs ≡ true) ys
        → All (λ e. any (is_call e.row.organisation_id e.row.id) (x ∷ xs) ≡ true) ys
    widen x xs [] h = tt
    widen x xs (y ∷ ys) h = (ground (arith, h.0), widen x xs ys h.1)

All-both :
    {A : Type 0} (P Q R : A → Type 0)
    → ((x : A) → P x → Q x → R x)
    → (xs : List A) → All P xs
    → All Q xs
    → All R xs
All-both P Q R f [] h k = tt
All-both P Q R f (x ∷ xs) h k = (f x h.0 k.0, All-both P Q R f xs h.1 k.1)

-- The call of the row, or of the job, is one of the batch.
abbrev pub is_taken : List RetainedCall → RetainedCall → Bool
is_taken due c =
    any (λ e. c.row.organisation_id == e.row.organisation_id && c.row.id == e.row.id) due

abbrev pub is_taken_job : List RetainedCall → Job → Bool
is_taken_job due j =
    any (λ e. j.organisation_id == e.row.organisation_id && j.call_id == e.row.id) due

-- Each row of the batch is tombstoned at `now`, and no other row changes.
abbrev pub after_batch : ℕ → List RetainedCall → RetainedCall → RetainedCall
after_batch now due c =
    if is_taken due c
    then record c { row = record c.row { tombstoned_at = some now; processing_state = "DELETING" } }
    else c

abbrev pub waits : JobState → Bool
waits state = elim state [ queued ↦ true | waiting_handler ↦ true | retry_wait ↦ true | _ ↦ false ]

-- Each job of the batch's calls that waits has failed, and no other job changes.
abbrev pub job_after_batch : List RetainedCall → Job → Job
job_after_batch due j =
    if is_taken_job due j && waits j.state
    then record j {
      state = failed;
      lease_token = none;
      lease_until = none;
      last_error_code = some "TOMBSTONED";
    }
    else j

abbrev pub notice : RetainedCall → AccessEvent
notice c = record {
  organisation_id = c.row.organisation_id;
  actor_id = "retention-worker";
  action = "CALL_DELETION_REQUESTED";
  resource_type = "CALL";
  resource_id = c.row.id;
}

abbrev pub add_notices : List RetainedCall → List AccessEvent → List AccessEvent
add_notices [] events = events
add_notices (c ∷ due) events = add_notices due (notice c ∷ events)

is_unclaimed-eq-waits : (state : JobState) → is_unclaimed state ≡ waits state
is_unclaimed-eq-waits queued = refl
is_unclaimed-eq-waits running = refl
is_unclaimed-eq-waits waiting_handler = refl
is_unclaimed-eq-waits done = refl
is_unclaimed-eq-waits retry_wait = refl
is_unclaimed-eq-waits failed = refl

-- A job that one row's cancellation failed is not cancelled again by the next rows.
cancels_once :
    (c : RetainedCall) (due : List RetainedCall) (j : Job)
    → job_after_batch due (job_after_batch (c ∷ []) j) ≡ job_after_batch (c ∷ due) j
cancels_once c due j = elim (Bool-cases (is_taken_job (c ∷ []) j)) [
  | inl own ↦ elim (Bool-cases (waits j.state)) [
    | inl waiting ↦ ground (arith, own, waiting)
    | inr over ↦ ground (arith, over)
  ]
  | inr other ↦ ground (arith, other)
]

cancel_unclaimed-eq-job_after_batch :
    (c : RetainedCall) (js : List Job)
    → cancel_unclaimed c.row.organisation_id c.row.id js ≡ map (job_after_batch (c ∷ [])) js
unfolding cancel_unclaimed
cancel_unclaimed-eq-job_after_batch c [] = refl
cancel_unclaimed-eq-job_after_batch c (j ∷ js) =
    let rest = cancel_unclaimed-eq-job_after_batch c js in
    let same = is_unclaimed-eq-waits j.state in rw (rest, same) (ground arith)

-- What the loop over the returned rows does.
IsNoted : List RetainedCall → Archive → Archive → Type 0
IsNoted due a a' =
    (a'.calls ≡ a.calls)
    × (a'.audio_objects ≡ a.audio_objects)
    × (a'.utterances ≡ a.utterances)
    × (a'.findings ≡ a.findings)
    × (a'.jobs ≡ map (job_after_batch due) a.jobs)
    × (a'.access_events ≡ add_notices due a.access_events)

unchanged_jobs : (js : List Job) → js ≡ map (job_after_batch []) js
unchanged_jobs [] = refl
unchanged_jobs (j ∷ js) = ap (λ r. j ∷ r) (unchanged_jobs js)

cancel_all :
    (c : RetainedCall) (due : List RetainedCall) (js : List Job)
    → map (job_after_batch due) (map (job_after_batch (c ∷ [])) js)
      ≡ map (job_after_batch (c ∷ due)) js
cancel_all c due [] = refl
cancel_all c due (j ∷ js) =
    rw (cancels_once c due j) (ap (λ r. job_after_batch (c ∷ due) j ∷ r) (cancel_all c due js))

note_tombstones-IsNoted :
    (due : List RetainedCall) (a : Archive) → IsNoted due a (note_tombstones due a)
unfolding note_tombstones IsNoted
note_tombstones-IsNoted [] a = (refl, refl, refl, refl, unchanged_jobs a.jobs, refl)
note_tombstones-IsNoted (c ∷ due) a =
    let (calls, audio, utterances, findings, jobs, events) = note_tombstones-IsNoted due _ in
    (
      calls,
      audio,
      utterances,
      findings,
      jobs
          ∙ ap (map (job_after_batch due)) (cancel_unclaimed-eq-job_after_batch c a.jobs)
          ∙ cancel_all c due a.jobs,
      events,
    )

tombstone_rows :
    (now : ℕ) (due cs : List RetainedCall)
    → map (tombstone_row now due) cs ≡ map (after_batch now due) cs
tombstone_rows now due [] = refl
tombstone_rows now due (c ∷ cs) = ap (λ r. after_batch now due c ∷ r) (tombstone_rows now due cs)

-- A row that the batch takes: expired, and the row of a call in the archive.
abbrev pub IsTaken :
    (RetainedCall → Bool) → ℕ → Option ℕ → List RetainedCall → RetainedCall → Type 0
IsTaken locked now organisation calls e =
    IsExpired locked now organisation e
    × (any (is_call e.row.organisation_id e.row.id) calls ≡ true)

-- What a batch that returns has done, to the calls of the rows `due`.
pub IsBatch : (RetainedCall → Bool) → ℕ → ℕ → Option ℕ → Archive → ℕ × Archive → Type 0
IsBatch locked now limit organisation a result =
    (due : List RetainedCall) × (1 ≤ limit)
    × (due ≡ take limit (sort_by expires_first (select (may_take locked now organisation) a.calls)))
    × (limit ≤ 100)
    × (length due ≡ result.0)
    × (result.0 ≡ min limit (length (select (may_take locked now organisation) a.calls)))
    × All (IsTaken locked now organisation a.calls) due
    × (result.1.calls ≡ map (after_batch now due) a.calls)
    × (result.1.jobs ≡ map (job_after_batch due) a.jobs)
    × (result.1.access_events ≡ add_notices due a.access_events)
    × (result.1.audio_objects ≡ a.audio_objects)
    × (result.1.utterances ≡ a.utterances)
    × (result.1.findings ≡ a.findings)

-- A batch that returns had a limit from 1 to 100. It takes rows of `calls` whose retention ran out by
-- now, of the asked organisation if one was, that are on no legal hold, not yet tombstoned, and not
-- locked by another transaction: all of these, or the first of them by expiry, organisation and id, as
-- many as the limit, if they are more; it returns their number. Every row of `calls` with the key of a taken one is tombstoned at now and in
-- DELETING, and every other is as it was; the jobs of these calls that are queued, wait for a handler
-- or wait for a retry have failed without a lease, and every other job is as it was; each taken row adds
-- its access event; no audio object, utterance or finding changes.
pub tombstone_expired_calls-ok :
    (locked : RetainedCall → Bool) (now limit : ℕ) (organisation : Option ℕ) (a : Archive)
    (result : ℕ × Archive)
    → tombstone_expired_calls locked now limit organisation a ≡ ok result
    → IsBatch locked now limit organisation a result
unfolding tombstone_expired_calls due_rows IsBatch IsNoted
tombstone_expired_calls-ok locked now limit organisation a result e =
    let p = may_take locked now organisation in
    let found = select p a.calls in
    let due = due_rows locked now limit organisation a.calls in
    let b : Archive = record a { calls = map (tombstone_row now due) a.calls } in
    let (bounded, returned) =
      raise_if-ok (not (leb 1 limit && leb limit max_retention_batch)) batch_limit _ e in
    let P = IsTaken locked now organisation a.calls in
    let known : All P found =
      All-both (λ c. p c ≡ true) (λ c. any (is_call c.row.organisation_id c.row.id) a.calls ≡ true)
        P (λ c taken here. (may_take-IsExpired locked now organisation c taken, here)) found
        (selected p a.calls) (selected_from p a.calls) in
    let taken : All P due =
      All-take expires_first P limit (sort_by expires_first found)
        (All-sort_by expires_first P found known) in
    let (calls, audio, utterances, findings, jobs, events) = note_tombstones-IsNoted due b in
    let count : length due ≡ min limit (length found) =
      length-take limit (sort_by expires_first found)
      ∙ ap (min limit) (length-sort_by expires_first found) in
    subst (IsBatch locked now limit organisation a) (ok-injective returned) (
      due,
      ground (arith, bounded),
      refl,
      ground (arith, bounded),
      refl,
      count,
      taken,
      calls ∙ tombstone_rows now due a.calls,
      jobs,
      events,
      audio,
      utterances,
      findings,
    )
