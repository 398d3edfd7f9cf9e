-- ===== src/Jobs/Retries.antt =====
-- Workers that come late, and the delays of a retry.
use real_time_ai_call_audit.Prelude.{
  ℕ, ◌≡◌, ◌≢◌, refl, ap, ◌⊎◌, inl, inr, String, Bool, false, Option, none, some, List, [], ◌∷◌, map,
  ◌==◌, if◌then◌else◌, is_some, arith, All, Bool-cases, Option-cases,
}
use real_time_ai_call_audit.Store.{Outcome, ok, raise, Job}
use real_time_ai_call_audit.Jobs.{
  Queue, QueueError, claim_job, is_leased, count_jobs, update_leased, defer_job, renew_job,
  find_job, retry_job, finish_lease, call_of_job,
}
use real_time_ai_call_audit.Jobs.Leases.{
  OneRow, All-imp, QueueValid, defer_job-Valid, renew_job-Valid, retry_job-Valid,
  finish_lease-Valid,
}
use real_time_ai_call_audit.Jobs.Claims.{claim_job-Valid, claimed-OneRow, claim_lease_ok}

abbrev NoLease : ℕ → ℕ → ℕ → List Job → Type 0
NoLease job token now = All (λ x. is_leased job token now x ≡ false)

fenced_rows :
    (token other now : ℕ) (j : Job) (jobs : List Job)
    → j.lease_token ≡ some token
    → other ≢ token
    → OneRow jobs j
    → NoLease j.id other now jobs
unfolding is_leased
fenced_rows token other now j [] held ne one = tt
fenced_rows token other now j (x ∷ jobs) held ne one = (
  elim (Bool-cases (x.id == j.id)) [
    | inl hit ↦
        let same : x ≡ j = one.0 hit in
        let t : x.lease_token ≡ some token = rw same held in rw (hit, t) (ground arith)
    | inr miss ↦ rw miss refl
  ],
  fenced_rows token other now j jobs held ne one.1,
)

count-none :
    (p : Job → Bool) (jobs : List Job) → All (λ x. p x ≡ false) jobs → count_jobs p jobs ≡ 0
unfolding count_jobs
count-none p [] h = refl
count-none p (x ∷ js) h = rw h.0 (count-none p js h.1)

map-none :
    (p : Job → Bool) (f : Job → Job) (jobs : List Job)
    → All (λ x. p x ≡ false) jobs
    → map (λ j. if p j then f j else j) jobs ≡ jobs
map-none p f [] h = refl
map-none p f (x ∷ js) h = rw h.0 (ap (λ ys. x ∷ ys) (map-none p f js h.1))

find-none :
    (job token now : ℕ) (jobs : List Job)
    → NoLease job token now jobs
    → find_job (is_leased job token now) jobs ≡ none
unfolding find_job
find-none job token now [] h = refl
find-none job token now (x ∷ js) h = rw h.0 (find-none job token now js h.1)

update-none :
    (p : Job → Bool) (f : Job → Job) (q : Queue)
    → All (λ x. p x ≡ false) q.jobs
    → update_leased p f q ≡ (false, q)
unfolding update_leased
update-none p f q h = rw (count-none p q.jobs h) (rw (map-none p f q.jobs h) refl)

finish-none :
    (job token now : ℕ) (q : Queue)
    → NoLease job token now q.jobs
    → finish_lease job token now q ≡ (false, q)
unfolding finish_lease
finish-none job token now q h = elim (Option-cases (call_of_job q.calls job q.jobs)) [
  | inl e ↦ rw (e, finish_lease) refl
  | inr (c, e) ↦ elim (Bool-cases (is_some c.tombstoned_at)) [
    | inl gone ↦ rw (e, gone, finish_lease) refl
    | inr alive ↦
        rw (e, alive, finish_lease)
          (update-none _ _ q (
            All-imp (λ x. is_leased job token now x ≡ false) _ q.jobs (λ x no. ground (arith, no))
              h))
  ]
]

-- Once a worker has claimed a job of a valid queue under a token, another worker, which holds
-- another token of the job, can neither finish, nor defer, nor renew, nor retry it, at any time:
-- each call reports failure and leaves every table as it was.
pub stale_token_fenced :
    (locked : Job → Bool) (worker : String) (seconds now token other later : ℕ)
    (stages : Option (List String)) (q q' : Queue) (j : Job) (max_attempts : ℕ)
    → QueueValid q
    → claim_job locked worker seconds stages now token q ≡ ok (some j, q')
    → other ≢ token
    → (finish_lease j.id other later q' ≡ (false, q'))
      × (defer_job j.id other later q' ≡ (false, q'))
      × (renew_job j.id other seconds later q' ≡ ok (false, q'))
      × (retry_job j.id other max_attempts later q' ≡ ok (false, q'))
unfolding finish_lease defer_job renew_job retry_job
stale_token_fenced locked worker seconds now token other later stages q q' j max_attempts v e ne =
    let (one, held) = claimed-OneRow locked worker seconds now token stages q q' j v e in
    let no_lease = fenced_rows token other later j q'.jobs held ne one in
    let lease = claim_lease_ok locked worker seconds now token stages q (some j, q') e in
    (
      finish-none j.id other later q' no_lease,
      update-none (is_leased j.id other later) _ q' no_lease,
      rw lease (ap ok (update-none (is_leased j.id other later) _ q' no_lease)),
      rw (find-none j.id other later q'.jobs no_lease, retry_job) refl,
    )

-- The operations of the workers on the queue, each with its time.
pub data Operation : Type 0 where
  claims : (Job → Bool) → String → ℕ → Option (List String) → ℕ → ℕ → Operation
  defers : ℕ → ℕ → ℕ → Operation
  renews : ℕ → ℕ → ℕ → ℕ → Operation
  retries : ℕ → ℕ → ℕ → ℕ → Operation
  finishes : ℕ → ℕ → ℕ → Operation

abbrev kept_on_error : {A : Type 0} → Queue → Outcome QueueError (A × Queue) → Queue
kept_on_error q (ok r) = r.1
kept_on_error q (raise e) = q

unfoldable pub perform : Queue → Operation → Queue
perform q (claims locked worker seconds stages now token) =
    kept_on_error q (claim_job locked worker seconds stages now token q)
perform q (defers job token now) = (defer_job job token now q).1
perform q (renews job token seconds now) = kept_on_error q (renew_job job token seconds now q)
perform q (retries job token max_attempts now) =
    kept_on_error q (retry_job job token max_attempts now q)
perform q (finishes job token now) = (finish_lease job token now q).1

unfoldable pub run_operations : Queue → List Operation → Queue
run_operations q [] = q
run_operations q (op ∷ ops) = run_operations (perform q op) ops

Outcome-cases :
    {A : Type 0} (r : Outcome QueueError A)
    → ((a : A) × (r ≡ ok a)) ⊎ ((e : QueueError) × (r ≡ raise e))
Outcome-cases (ok a) = inl (a, refl)
Outcome-cases (raise e) = inr (e, refl)

perform-Valid : (q : Queue) (op : Operation) → QueueValid q → QueueValid (perform q op)
unfolding perform
perform-Valid q (claims locked worker seconds stages now token) v =
    elim (Outcome-cases (claim_job locked worker seconds stages now token q)) [
      | inl (r, e) ↦ rw e (claim_job-Valid locked worker seconds now token stages q r e v)
      | inr (x, e) ↦ rw e v
    ]
perform-Valid q (defers job token now) v = defer_job-Valid job token now q v
perform-Valid q (renews job token seconds now) v =
    elim (Outcome-cases (renew_job job token seconds now q)) [
      | inl (r, e) ↦ rw e (renew_job-Valid job token seconds now q e v)
      | inr (x, e) ↦ rw e v
    ]
perform-Valid q (retries job token max_attempts now) v =
    elim (Outcome-cases (retry_job job token max_attempts now q)) [
      | inl (r, e) ↦ rw e (retry_job-Valid job token max_attempts now q e v)
      | inr (x, e) ↦ rw e v
    ]
perform-Valid q (finishes job token now) v = finish_lease-Valid job token now q v

-- If it is so before, then however the operations of any number of workers follow one another: no
-- job is tried more than five times, a job that runs holds a token and an end of its lease, one
-- that does not run holds no token, and the ids stay unique.
pub run_operations-Valid :
    (q : Queue) (ops : List Operation) → QueueValid q → QueueValid (run_operations q ops)
unfolding run_operations
run_operations-Valid q [] v = v
run_operations-Valid q (op ∷ ops) v = run_operations-Valid (perform q op) ops (perform-Valid q op v)
