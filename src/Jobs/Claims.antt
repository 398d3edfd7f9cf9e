-- ===== src/Jobs/Claims.antt =====
-- What a claim gives a worker, and that every operation keeps the queue valid.
use real_time_ai_call_audit.Prelude.{
  ℕ, ◌+◌, ◌≤◌, ◌≡◌, refl, ap, inl, inr, subst, String, Bool, true, false, ◌&&◌, ◌||◌, Option, none,
  some, List, [], ◌∷◌, ◌++◌, map, ◌==◌, if◌then◌else◌, ◌=?◌, arith, All, select, Option-cases,
}
use real_time_ai_call_audit.Store.{ok, Call, Job, raise_if-ok, >>=-ok, ok-injective}
use real_time_ai_call_audit.Store.JobState.{running}
use real_time_ai_call_audit.Jobs.{
  Queue, max_job_attempts, exhaust, announce, fails_call, fail_call, fail_calls, is_claimable,
  select_job, take_lease, update_job, claim_row, claim_job, is_future, is_running, bad_lease,
  invalid_lease,
}
use real_time_ai_call_audit.Jobs.Leases.{
  JobValid, OneRow, UniqueIds, QueueValid, exhaust-JobValid, exhaust_id, All-map, UniqueIds-map,
  of_selected, selected_passes, update_job-Valid,
}

module _ (locked : Job → Bool) (stages : Option (List String)) (now token seconds : ℕ)
    (q : Queue) where
  -- The rows after the first UPDATE.
  abbrev swept : List Job
  swept = map (exhaust now) q.jobs

  -- How the claim ends, by the row that it selects.
  abbrev Claims : Option Job × Queue → Type 0
  Claims (none, q') = q'.jobs ≡ swept
  Claims (some j', q') =
      (j : Job) × (select_job locked (fail_calls swept q.calls) stages now swept ≡ some j)
      × (j' ≡ take_lease now token seconds j)
      × (q'.jobs ≡ update_job j.organisation_id j.id (take_lease now token seconds) swept)

  claim_row-Claims :
      (r : Option Job × Queue) → claim_row locked stages now token seconds q ≡ ok r → Claims r
  unfolding claim_row
  claim_row-Claims r e =
      let (o, _, e1) =
        >>=-ok (announce (map fail_call (select (fails_call swept) q.calls)) q.outbox) _ e in
      elim (Option-cases (select_job locked (fail_calls swept q.calls) stages now swept)) [
        | inl nothing ↦ subst Claims (ok-injective (rw nothing at e1)) refl
        | inr (j, found) ↦ subst Claims (ok-injective (rw found at e1)) (j, found, refl, refl)
      ]

  swept-Valid : QueueValid q → All JobValid swept × UniqueIds swept
  swept-Valid v = (
    All-map JobValid JobValid (exhaust now) q.jobs (λ j w. exhaust-JobValid now j w) v.valid,
    UniqueIds-map (exhaust now) (exhaust_id now) q.jobs v.unique,
  )

  Claims-Valid : (r : Option Job × Queue) → Claims r → QueueValid q → QueueValid r.1
  unfolding select_job
  Claims-Valid (none, q') c v =
      let (valid, unique) = swept-Valid v in record { valid = rw c valid; unique = rw c unique }
  Claims-Valid (some j', q') (j, found, same, rows) v =
      let (valid, unique) = swept-Valid v in
      let w : JobValid j =
        of_selected JobValid (is_claimable locked (fail_calls swept q.calls) stages now) swept j
          found valid in
      let one : OneRow swept j =
        of_selected (OneRow swept) (is_claimable locked (fail_calls swept q.calls) stages now) swept
          j found unique in
      let passes =
        selected_passes (is_claimable locked (fail_calls swept q.calls) stages now) swept j found in
      let (valid', unique') =
        update_job-Valid (take_lease now token seconds) j swept (λ x. refl)
          (claimed-JobValid j w passes) one valid unique in
      record { valid = rw rows valid'; unique = rw rows unique' }
    where
      claimed-JobValid :
          (j : Job)
          → JobValid j
          → is_claimable locked (fail_calls swept q.calls) stages now j ≡ true
          → JobValid (take_lease now token seconds j)
      claimed-JobValid j w p = unfold is_claimable in ground (arith, w)

-- The row `x` of a table.
abbrev pub IsRow : Job → List Job → Type 0
IsRow x jobs = (before : List Job) × (after : List Job) × (jobs ≡ before ++ x ∷ after)

All-at {κ} :
    (P : Job → Type κ) (f : Job → Job) (before after : List Job) (x : Job)
    → All P (map f (before ++ x ∷ after))
    → P (f x)
All-at P f [] after x all = all.0
All-at P f (y ∷ before) after x all = All-at P f before after x all.1

row_exclusive :
    (locked : Job → Bool) (calls : List Call) (stages : Option (List String)) (now : ℕ) (x : Job)
    → is_claimable locked calls stages now (exhaust now x) ≡ true
    → (is_running x.state && is_future x.lease_until now) ≡ false
unfolding is_claimable exhaust
row_exclusive locked calls stages now x h = ground arith

guarded :
    (locked : Job → Bool) (worker : String) (seconds now token : ℕ) (stages : Option (List String))
    (q : Queue) (j : Job) (q' : Queue)
    → claim_job locked worker seconds stages now token q ≡ ok (some j, q')
    → claim_row locked stages now token seconds q ≡ ok (some j, q')
unfolding claim_job
guarded locked worker seconds now token none q j q' e =
    (raise_if-ok (worker =? "" || bad_lease seconds) invalid_lease _ e).1
guarded locked worker seconds now token (some []) q j q' e =
    let (_, e1) = raise_if-ok (worker =? "" || bad_lease seconds) invalid_lease _ e in cc e1
guarded locked worker seconds now token (some (s ∷ ss)) q j q' e =
    (raise_if-ok (worker =? "" || bad_lease seconds) invalid_lease _ e).1

-- In a valid queue a claimed job was not held by anybody: no row with its id is running on a
-- lease that has not run out. The worker gets the row with its own token, a lease of the given
-- seconds, and one more attempt, five at most.
pub claim_job_exclusive :
    (locked : Job → Bool) (worker : String) (seconds now token : ℕ) (stages : Option (List String))
    (q q' : Queue) (j x : Job)
    → QueueValid q
    → claim_job locked worker seconds stages now token q ≡ ok (some j, q')
    → IsRow x q.jobs
    → x.id ≡ j.id
    → ((is_running x.state && is_future x.lease_until now) ≡ false)
      × (j.state ≡ running)
      × (j.lease_token ≡ some token)
      × (j.lease_until ≡ some (now + seconds))
      × (j.attempts ≡ (exhaust now x).attempts + 1)
      × (j.attempts ≤ max_job_attempts)
unfolding select_job
claim_job_exclusive locked worker seconds now token stages q q' j x v e (before, after, at) same =
    let (k, found, taken, rows) =
      claim_row-Claims locked stages now token seconds q (some j, q')
        (guarded locked worker seconds now token stages q j q' e) in
    let calls = fail_calls (swept locked stages now token seconds q) q.calls in
    let (valid, unique) = swept-Valid locked stages now token seconds q v in
    let one =
      of_selected (OneRow (map (exhaust now) q.jobs)) (is_claimable locked calls stages now)
        (map (exhaust now) q.jobs) k found unique in
    let passes =
      selected_passes (is_claimable locked calls stages now) (map (exhaust now) q.jobs) k found in
    let key : ((exhaust now x).id == k.id) ≡ true =
      ground (arith, exhaust_id now x, ap (λ (y : Job). y.id) taken) in
    let is_row : exhaust now x ≡ k =
      All-at (λ y. (y.id == k.id) ≡ true → y ≡ k) (exhaust now) before after x
        (subst (λ js. OneRow (map (exhaust now) js) k) at one) key in
    let passed : is_claimable locked calls stages now (exhaust now x) ≡ true = rw is_row passes in
    (
      row_exclusive locked calls stages now x passed,
      rw taken refl,
      rw taken refl,
      rw taken refl,
      rw (taken, is_row) refl,
      rw taken (unfold is_claimable in ground (arith, passes)),
    )

pub claim_job-Valid :
    (locked : Job → Bool) (worker : String) (seconds now token : ℕ) (stages : Option (List String))
    (q : Queue) (r : Option Job × Queue)
    → claim_job locked worker seconds stages now token q ≡ ok r
    → QueueValid q
    → QueueValid r.1
unfolding claim_job
claim_job-Valid locked worker seconds now token none q r e v =
    let (_, e1) = raise_if-ok (worker =? "" || bad_lease seconds) invalid_lease _ e in
    Claims-Valid locked none now token seconds q r
      (claim_row-Claims locked none now token seconds q r e1) v
claim_job-Valid locked worker seconds now token (some []) q r e v =
    let (_, e1) = raise_if-ok (worker =? "" || bad_lease seconds) invalid_lease _ e in
    subst (λ (x : Option Job × Queue). QueueValid x.1) (ok-injective e1) v
claim_job-Valid locked worker seconds now token (some (s ∷ ss)) q r e v =
    let (_, e1) = raise_if-ok (worker =? "" || bad_lease seconds) invalid_lease _ e in
    Claims-Valid locked (some (s ∷ ss)) now token seconds q r
      (claim_row-Claims locked (some (s ∷ ss)) now token seconds q r e1) v

-- After a claim, the claimed row is the only one with its id.
pub claimed-OneRow :
    (locked : Job → Bool) (worker : String) (seconds now token : ℕ) (stages : Option (List String))
    (q q' : Queue) (j : Job)
    → QueueValid q
    → claim_job locked worker seconds stages now token q ≡ ok (some j, q')
    → OneRow q'.jobs j × (j.lease_token ≡ some token)
unfolding select_job update_job
claimed-OneRow locked worker seconds now token stages q q' j v e =
    let (k, found, taken, rows) =
      claim_row-Claims locked stages now token seconds q (some j, q')
        (guarded locked worker seconds now token stages q j q' e) in
    let calls = fail_calls (map (exhaust now) q.jobs) q.calls in
    let (_, unique) = swept-Valid locked stages now token seconds q v in
    let one =
      of_selected (OneRow (map (exhaust now) q.jobs)) (is_claimable locked calls stages now)
        (map (exhaust now) q.jobs) k found unique in
    (
      rw (rows, taken)
          (All-map (λ x. (x.id == k.id) ≡ true → x ≡ k)
            (λ y. (y.id == k.id) ≡ true → y ≡ take_lease now token seconds k)
            (λ x.
              if x.organisation_id == k.organisation_id && x.id == k.id
              then take_lease now token seconds x
              else x)
            (map (exhaust now) q.jobs) (λ x h key. changed k x h key) one),
      rw taken refl,
    )
  where
    changed :
        (k x : Job)
        → ((x.id == k.id) ≡ true → x ≡ k)
        → ((if x.organisation_id == k.organisation_id && x.id == k.id
              then take_lease now token seconds x
              else x).id
            == k.id)
          ≡ true
        → (if x.organisation_id == k.organisation_id && x.id == k.id
            then take_lease now token seconds x
            else x)
          ≡ take_lease now token seconds k
    changed k x h key =
        let own : (x.id == k.id) ≡ true = ground (arith, key) in
        let same : x ≡ k = h own in ground (arith, same)

pub claim_lease_ok :
    (locked : Job → Bool) (worker : String) (seconds now token : ℕ) (stages : Option (List String))
    (q : Queue) (r : Option Job × Queue)
    → claim_job locked worker seconds stages now token q ≡ ok r
    → bad_lease seconds ≡ false
unfolding claim_job
claim_lease_ok locked worker seconds now token none q r e =
    let (g, _) = raise_if-ok (worker =? "" || bad_lease seconds) invalid_lease _ e in
    ground (arith, g)
claim_lease_ok locked worker seconds now token (some []) q r e =
    let (g, _) = raise_if-ok (worker =? "" || bad_lease seconds) invalid_lease _ e in
    ground (arith, g)
claim_lease_ok locked worker seconds now token (some (s ∷ ss)) q r e =
    let (g, _) = raise_if-ok (worker =? "" || bad_lease seconds) invalid_lease _ e in
    ground (arith, g)
