-- ===== src/Jobs/Leases.antt =====
-- What holds of every row of the queue, and that each operation of each worker keeps it.
use real_time_ai_call_audit.Prelude.{
  ℕ, ◌+◌, ◌≤◌, ◌≡◌, refl, ap, sym, inl, inr, subst, String, Bool, true, ◌&&◌, none, some, List, [],
  ◌∷◌, map, ◌==◌, leb, if◌then◌else◌, is_some, arith, All, select, sort_by, All-select, All-sort_by,
  Bool-cases, Option-cases,
}
use real_time_ai_call_audit.Store.{ok, ◌>>=◌, Call, Job, raise_if-ok, >>=-ok, ok-injective}
use real_time_ai_call_audit.Store.JobState.{running, done}
use real_time_ai_call_audit.Jobs.{
  Queue, max_job_attempts, exhaust, announce, due_first, first_row_of, update_job, is_leased,
  update_leased, park, defer_job, renew_job, give_up, wait_again, find_job, move_call, retry_job,
  finish_lease, call_of_job, is_call, bad_lease, invalid_lease,
}

-- A running job holds a lease; any other holds none. No job is tried more than five times.
pub record JobValid (j : Job) : Type 0 where
  pub tried : j.attempts ≤ max_job_attempts
  pub leased : j.state ≡ running → (is_some j.lease_token ≡ true) × (is_some j.lease_until ≡ true)
  pub released : is_some j.lease_token ≡ true → j.state ≡ running

-- Rows with one id are one row.
abbrev pub OneRow : List Job → Job → Type 0
OneRow jobs j = All (λ x. (x.id == j.id) ≡ true → x ≡ j) jobs

abbrev pub UniqueIds : List Job → Type 0
UniqueIds jobs = All (OneRow jobs) jobs

pub record QueueValid (q : Queue) : Type 0 where
  pub valid : All JobValid q.jobs
  pub unique : UniqueIds q.jobs

pub All-map {ℓ κ λ'} :
    {A : Type ℓ} (P : A → Type κ) (Q : A → Type λ') (f : A → A) (xs : List A)
    → ((x : A) → P x → Q (f x))
    → All P xs
    → All Q (map f xs)
All-map P Q f [] h all = tt
All-map P Q f (x ∷ xs) h all = (h x all.0, All-map P Q f xs h all.1)

pub All-imp {ℓ κ λ'} :
    {A : Type ℓ} (P : A → Type κ) (Q : A → Type λ') (xs : List A)
    → ((x : A) → P x → Q x)
    → All P xs
    → All Q xs
All-imp P Q [] h all = tt
All-imp P Q (x ∷ xs) h all = (h x all.0, All-imp P Q xs h all.1)

-- A change of the rows that keeps their ids.
pub UniqueIds-map :
    (f : Job → Job)
    → ((j : Job) → (f j).id ≡ j.id)
    → (jobs : List Job) → UniqueIds jobs
    → UniqueIds (map f jobs)
UniqueIds-map f keeps jobs u =
    All-map (OneRow jobs) (OneRow (map f jobs)) f jobs
      (λ j one.
        All-map (λ x. (x.id == j.id) ≡ true → x ≡ j) (λ x. (x.id == (f j).id) ≡ true → x ≡ f j) f
          jobs (λ x h e. ap f (h (rw (keeps x, keeps j) at e))) one)
      u

-- The row that a query picks has what all rows have.
of_first {κ} :
    (P : Job → Type κ) (xs : List Job) (j : Job) → first_row_of xs ≡ some j → All P xs → P j
of_first P [] j e all = cc
of_first P (x ∷ xs) j e all = subst P (ground arith) all.0

pub of_selected {κ} :
    (P : Job → Type κ) (p : Job → Bool) (jobs : List Job) (j : Job)
    → first_row_of (sort_by due_first (select p jobs)) ≡ some j
    → All P jobs
    → P j
of_selected P p jobs j e all =
    of_first P (sort_by due_first (select p jobs)) j e
      (All-sort_by due_first P (select p jobs) (All-select due_first P p jobs all))

selects : (p : Job → Bool) (jobs : List Job) → All (λ j. p j ≡ true) (select p jobs)
unfolding select
selects p [] = tt
selects p (j ∷ js) = ground (arith, selects p js)

pub selected_passes :
    (p : Job → Bool) (jobs : List Job) (j : Job)
    → first_row_of (sort_by due_first (select p jobs)) ≡ some j
    → p j ≡ true
selected_passes p jobs j e =
    of_first (λ x. p x ≡ true) (sort_by due_first (select p jobs)) j e
      (All-sort_by due_first (λ x. p x ≡ true) (select p jobs) (selects p jobs))

pub exhaust-JobValid : (now : ℕ) (j : Job) → JobValid j → JobValid (exhaust now j)
unfolding exhaust
exhaust-JobValid now j v = ground arith

pub exhaust_id : (now : ℕ) (j : Job) → (exhaust now j).id ≡ j.id
unfolding exhaust
exhaust_id now j = ground arith

-- A change of one row, in a queue whose ids are unique.
pub update_job-Valid :
    (f : Job → Job) (j : Job) (jobs : List Job)
    → ((x : Job) → (f x).id ≡ x.id)
    → JobValid (f j)
    → OneRow jobs j
    → All JobValid jobs
    → UniqueIds jobs
    → All JobValid (update_job j.organisation_id j.id f jobs)
      × UniqueIds (update_job j.organisation_id j.id f jobs)
unfolding update_job
update_job-Valid f j jobs keeps vf one v u = (
  changed jobs one v,
  UniqueIds-map (λ x. if x.organisation_id == j.organisation_id && x.id == j.id then f x else x)
      (λ x. ground (arith, keeps x)) jobs u,
)
  where
    changed :
        (js : List Job)
        → OneRow js j
        → All JobValid js
        → All JobValid (
            map (λ x. if x.organisation_id == j.organisation_id && x.id == j.id then f x else x) js)
    changed [] o w = tt
    changed (x ∷ js) o w = (
      elim (Bool-cases (x.organisation_id == j.organisation_id && x.id == j.id)) [
        | inl hit ↦ rw hit (let same : x ≡ j = o.0 (ground arith) in rw same vf)
        | inr miss ↦ rw miss w.0
      ],
      changed js o.1 w.1,
    )

-- A change of the leased row that leaves it valid.
update_leased-Valid :
    (p : Job → Bool) (f : Job → Job) (q : Queue)
    → ((x : Job) → (f x).id ≡ x.id)
    → ((x : Job) → p x ≡ true → JobValid x → JobValid (f x))
    → QueueValid q
    → QueueValid (update_leased p f q).1
unfolding update_leased
update_leased-Valid p f q keeps vf v = record {
  valid =
      All-map JobValid JobValid (λ x. if p x then f x else x) q.jobs
        (λ x w. elim (Bool-cases (p x)) [ inl hit ↦ rw hit (vf x hit w) | inr miss ↦ rw miss w ])
        v.valid;
  unique =
      UniqueIds-map (λ x. if p x then f x else x) (λ x. ground (arith, keeps x)) q.jobs v.unique;
}

pub defer_job-Valid :
    (job token now : ℕ) (q : Queue) → QueueValid q → QueueValid (defer_job job token now q).1
unfolding defer_job
defer_job-Valid job token now q v =
    update_leased-Valid (is_leased job token now) park q (λ x. refl) (λ x hit w. ground (arith, w))
      v

pub renew_job-Valid :
    (job token seconds now : ℕ) (q : Queue) {r : Bool × Queue}
    → renew_job job token seconds now q ≡ ok r
    → QueueValid q
    → QueueValid r.1
unfolding renew_job
renew_job-Valid job token seconds now q e v =
    let (_, e1) = raise_if-ok (bad_lease seconds) invalid_lease _ e in
    subst (λ (r : Bool × Queue). QueueValid r.1) (ok-injective e1)
      (update_leased-Valid (is_leased job token now)
        (λ j. record j { lease_until = some (now + seconds) }) q (λ x. refl)
        (λ x hit w. unfold is_leased in ground (arith, w)) v)

pub finish_lease-Valid :
    (job token now : ℕ) (q : Queue) → QueueValid q → QueueValid (finish_lease job token now q).1
unfolding finish_lease
finish_lease-Valid job token now q v = elim (Option-cases (call_of_job q.calls job q.jobs)) [
  | inl e ↦ rw (e, finish_lease) v
  | inr (c, e) ↦ elim (Bool-cases (is_some c.tombstoned_at)) [
    | inl gone ↦ rw (e, gone, finish_lease) v
    | inr alive ↦
        rw (e, alive, finish_lease)
          (update_leased-Valid
            (λ j. j.organisation_id == c.organisation_id && is_leased job token now j)
            (λ j. record j { state = done; lease_token = none; lease_until = none }) q (λ x. refl)
            (λ x hit w. ground (arith, w)) v)
  ]
]

pub move_call_jobs :
    (org call : ℕ) (state : String) (q : Queue) {r : Queue}
    → move_call org call state q ≡ ok r
    → r.jobs ≡ q.jobs
unfolding move_call
move_call_jobs org call state q {r} e =
    let (o, _, e1) =
      >>=-ok
        (announce
          (map (λ (c : Call). record c { processing_state = state })
            (select (is_call org call) q.calls))
          q.outbox)
        _ e in
    ap (λ (x : Queue). x.jobs) (sym (ok-injective e1))

of_found {κ} :
    (P : Job → Type κ) (p : Job → Bool) (jobs : List Job) (j : Job)
    → find_job p jobs ≡ some j
    → All P jobs
    → P j × (p j ≡ true)
unfolding find_job
of_found P p [] j e all = cc
of_found P p (x ∷ xs) j e all = elim (Bool-cases (p x)) [
  | inl hit ↦ let same : x ≡ j = ground arith in subst (λ y. P y × (p y ≡ true)) same (all.0, hit)
  | inr miss ↦ of_found P p xs j (rw (miss, find_job) at e) all.1
]

-- One row changed, and its call.
moved_Valid :
    (r : Bool × Queue) (state : String) (f : Job → Job) (j : Job) (q : Queue)
    → ((x : Job) → (f x).id ≡ x.id)
    → JobValid (f j)
    → OneRow q.jobs j
    → (move_call j.organisation_id j.call_id state
          (record q { jobs = update_job j.organisation_id j.id f q.jobs })
        >>= λ s. ok (true, s))
      ≡ ok r
    → QueueValid q
    → QueueValid r.1
moved_Valid r state f j q keeps vf one e v =
    let changed = record q { jobs = update_job j.organisation_id j.id f q.jobs } in
    let (s, moved, same) =
      >>=-ok (move_call j.organisation_id j.call_id state changed) (λ s. ok (true, s)) e in
    let (valid, unique) = update_job-Valid f j q.jobs keeps vf one v.valid v.unique in
    let kept = move_call_jobs j.organisation_id j.call_id state changed moved in
    subst (λ (x : Bool × Queue). QueueValid x.1) (ok-injective same)
      (record { valid = rw kept valid; unique = rw kept unique })

pub retry_job-Valid :
    (job token max_attempts now : ℕ) (q : Queue) {r : Bool × Queue}
    → retry_job job token max_attempts now q ≡ ok r
    → QueueValid q
    → QueueValid r.1
unfolding retry_job
retry_job-Valid job token max_attempts now q {r} e v =
    elim (Option-cases (find_job (is_leased job token now) q.jobs)) [
      | inl none_found ↦
          subst (λ (x : Bool × Queue). QueueValid x.1)
            (ok-injective (rw (none_found, retry_job) at e)) v
      | inr (j, found) ↦
          let (w, hit) = of_found JobValid (is_leased job token now) q.jobs j found v.valid in
          let (one, _) =
            of_found (OneRow q.jobs) (is_leased job token now) q.jobs j found v.unique in
          elim (Bool-cases (leb max_attempts j.attempts)) [
            | inl spent ↦
                let moved : (move_call j.organisation_id j.call_id "FAILED"
                        (record q { jobs = update_job j.organisation_id j.id give_up q.jobs })
                      >>= λ s. ok (true, s))
                    ≡ ok r =
                  rw (found, spent, retry_job) at e in
                moved_Valid r "FAILED" give_up j q (λ x. refl) (ground (arith, w)) one moved v
            | inr again ↦
                let moved : (move_call j.organisation_id j.call_id "RETRY_WAIT" (record q {
                  jobs = update_job j.organisation_id j.id (wait_again now j.attempts) q.jobs;
                })
                      >>= λ s. ok (true, s))
                    ≡ ok r =
                  rw (found, again, retry_job) at e in
                moved_Valid r "RETRY_WAIT" (wait_again now j.attempts) j q (λ x. refl)
                  (ground (arith, w)) one moved v
          ]
    ]
