-- ===== src/Retention/Purged.antt =====
-- A purge: what it needs, what it removes, and what it leaves.
use real_time_ai_call_audit.Prelude.{
  ℕ, ◌≤◌, select, All, ◌≡◌, ◌⊎◌, String, Bool, true, false, none, some, List, [], ◌∷◌, map,
  if◌then◌else◌, length, any, is_some, join_text, if◌then◌else◌,
}
use real_time_ai_call_audit.Events.{purge_call_events}
use real_time_ai_call_audit.Retention.{
  RetainedCall, Owned, Archive, find_retained, PurgeStatus, purged, purge_event, empty_digest,
  owned_by, job_of, is_due, scrub_row,
}

-- Why the row may be purged.
abbrev pub IsPurgeable : RetainedCall → ℕ → Type 0
IsPurgeable c now =
    (c.legal_hold ≡ false)
    × (is_some c.content_purged_at ≡ false)
    × (is_some c.row.tombstoned_at ≡ true)
    × (is_due c now ≡ true)

-- Nothing mutable of the call is left, and the immutable records are as they were.
abbrev pub IsRemoved : ℕ → ℕ → String → ℕ → Archive → Archive → Type 0
IsRemoved org call id_text now before after =
    (any (owned_by org call) after.audio_objects ≡ false)
    × (any (owned_by org call) after.utterances ≡ false)
    × (any (owned_by org call) after.findings ≡ false)
    × (any (job_of org call) after.jobs ≡ false)
    × (after.calls ≡ map (scrub_row org call id_text now) before.calls)
    × (after.outbox ≡ (purge_call_events org call before.outbox).1)
    × (after.access_events ≡ purge_event org call ∷ before.access_events)
    × (after.audits ≡ before.audits)
    × (after.reviews ≡ before.reviews)
    × (after.dispositions ≡ before.dispositions)

abbrev pub is_purged : PurgeStatus → Bool
is_purged (purged n) = true
is_purged _ = false

-- The call's row holds nothing of its content: texts and digests are placeholders.
abbrev pub IsScrubbed : String → ℕ → RetainedCall → Type 0
IsScrubbed id_text now c =
    (c.content_purged_at ≡ some now)
    × (c.row.external_ref ≡ join_text "deleted:" id_text)
    × (c.row.idempotency_key ≡ join_text "deleted:" id_text)
    × (c.row.payload_sha256 ≡ empty_digest)
    × (c.row.agent_id ≡ "[deleted]")
    × (c.row.team_id ≡ "[deleted]")
    × (c.row.processing_state ≡ "DELETED")
    × (c.agent_connected_ms ≡ none)
    × (c.tagged_intervals ≡ [])
    × (c.call_complete ≡ false)
    × (c.timing_reliable ≡ false)

module _ (deletes : String → Bool) where
  -- The storage deleted the key of each row that passes `p`, and they are at most 16.
  abbrev pub AllDeleted : (Owned → Bool) → List Owned → Type 0
  AllDeleted p os =
      (length (select p os) ≤ 16) × All (λ o. p o ≡ true → deletes o.private_key ≡ true) os

  -- A returned purge: the archive is as it was, or the call was purged.
  abbrev pub PurgesOrKeeps : ℕ → ℕ → String → ℕ → Archive → PurgeStatus × Archive → Type 0
  PurgesOrKeeps org call id_text now a result =
      ((is_purged result.0 ≡ false) × (result.1 ≡ a))
      ⊎ ((is_purged result.0 ≡ true)
          × (c : RetainedCall) × (find_retained org call a.calls ≡ some c)
          × IsPurgeable c now
          × AllDeleted (owned_by org call) a.audio_objects
          × IsRemoved org call id_text now a result.1
          × ((c' : RetainedCall) × (find_retained org call result.1.calls ≡ some c')
              × IsScrubbed id_text now c'))
