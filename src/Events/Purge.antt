-- ===== src/Events/Purge.antt =====
-- Purging a call: the window of every tenant stays valid, and nothing of the call is left.
use native.Mathlib.Decide.{ℕ_discrete}
use real_time_ai_call_audit.Prelude.{
  ℕ, ◌+◌, ◌≤◌, max, ◌≡◌, inl, inr, some, leb, arith, subst, delete_if, Option-cases,
}
use real_time_ai_call_audit.Store.{Counter, Outbox}
use real_time_ai_call_audit.Events.{
  find_counter, stream, latest_of_call, of_call, drop_before, purge_call_events,
}
use real_time_ai_call_audit.Events.Stream.{
  length-select_le, All-stream-delete_if, Rises-stream-delete_if, length-stream-delete_if,
  stream-delete_if_other, latest_of_call_le,
}
use real_time_ai_call_audit.Events.Retained.{
  InWindow, StreamValid, IsValid, drop_before_own, drop_before_other,
}

module _ (h org call : ℕ) (o : Outbox) (v : IsValid h o) where
  purged :
      (c : Counter) (latest : ℕ)
      → find_counter org o.counters ≡ some c
      → latest_of_call org call o.events ≡ some latest
      → IsValid h (
          drop_before org
            (max c.oldest_sequence (latest + 1))
            (record o { events = delete_if (of_call org call) o.events }))
  purged c latest found newest k =
      let w : InWindow h c (stream org o.events) =
        subst (λ d. StreamValid h d (stream org o.events)) found (v org) in
      elim (ℕ_discrete k org) [
        | yes e ↦ rw e (
            drop_before_own h org (max c.oldest_sequence (latest + 1))
              (record o { events = delete_if (of_call org call) o.events }) c found w.started
              (omega arith)
              (omega (
                arith,
                w.bounded,
                latest_of_call_le c.last_sequence org call o.events w.numbered newest,
              ))
              (Rises-stream-delete_if (of_call org call) org o.events w.rises)
              (All-stream-delete_if (of_call org call) (λ x. x ≤ c.last_sequence) org o.events
                w.numbered)
              (omega (
                arith,
                w.short,
                length-stream-delete_if (of_call org call) org o.events,
                length-select_le (leb (max c.oldest_sequence (latest + 1)))
                    (stream org (delete_if (of_call org call) o.events)),
              )))
        | no ne ↦
            drop_before_other h org k (max c.oldest_sequence (latest + 1))
              (record o { events = delete_if (of_call org call) o.events }) ne
              (rw (stream-delete_if_other org call k o.events ne) (v k))
      ]

  pub purge_call_events-IsValid : IsValid h (purge_call_events org call o).1
  unfolding purge_call_events
  purge_call_events-IsValid = elim (Option-cases (find_counter org o.counters)) [
    | inl e ↦ rw (e, purge_call_events) v
    | inr (c, e) ↦ elim (Option-cases (latest_of_call org call o.events)) [
      | inl l ↦ rw (e, l, purge_call_events) v
      | inr (latest, l) ↦ rw (e, l, purge_call_events) (purged c latest e l)
    ]
  ]
