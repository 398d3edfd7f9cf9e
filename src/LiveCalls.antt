-- ===== src/LiveCalls.antt =====
-- app/live_calls.py: the records of live telephony sessions, each bound to a generation of its call.
-- The view of the rows (`read_live_calls`) is left out, except for its recovery of stale rows.
pub mod Keys
pub mod Generations
pub mod Fencing
mod Examples
use real_time_ai_call_audit.Prelude.{
  ℕ, suc, ◌+◌, String, Bool, true, false, not, ◌&&◌, ◌||◌, Option, none, some, List, [], ◌∷◌, ◌++◌,
  map, ◌==◌, ltb, leb, if◌then◌else◌, is_some, any, take, select, sort_by, ◌=?◌, join_text,
}
use real_time_ai_call_audit.Store.{Outcome, ok, raise, ◌>>=◌, ◌>>◌, raise_if, Call}

-- exotel_sessions.state
pub data SessionState : Type 0 where
  unknown live draining ended incomplete : SessionState

-- exotel_sessions, less what concerns transcription and the start.
pub record LiveSession : Type 0 where
  pub organisation_id : ℕ
  pub integration_id : ℕ
  pub call_key : String
  pub generation : ℕ
  pub state : SessionState
  pub agent_id : Option String
  pub team_id : Option String
  pub draining_at : Option ℕ
  pub ended_at : Option ℕ
  pub incomplete_at : Option ℕ
  pub updated_at : ℕ
  pub last_activity_at : ℕ
  pub call_content_purged_at : Option ℕ

-- exotel_integrations JOIN exotel_agent_mappings, one row for each mapping.
pub record AgentMapping : Type 0 where
  pub organisation_id : ℕ
  pub integration_id : ℕ
  pub agent_ref : String
  pub is_active : Bool
  pub agent_id : String
  pub team_id : String

-- identity_memberships
pub record Membership : Type 0 where
  pub organisation_id : ℕ
  pub user_id : String
  pub role : String
  pub team_id : String
  pub is_active : Bool

pub record LiveTables : Type 0 where
  pub mappings : List AgentMapping
  pub memberships : List Membership
  pub calls : List Call
  pub sessions : List LiveSession

pub data LiveError : Type 0 where
  mapping_inactive identity_purged invalid_state reserved_live : LiveError

-- The primary key (organisation_id, integration_id, call_key).
unfoldable pub has_key : ℕ → ℕ → String → LiveSession → Bool
has_key org integration key r =
    r.organisation_id == org && r.integration_id == integration && r.call_key =? key

unfoldable pub find_session : ℕ → ℕ → String → List LiveSession → Option LiveSession
find_session org integration key [] = none
find_session org integration key (r ∷ rs) =
    let rest = find_session org integration key rs in
    if has_key org integration key r then some r else rest

-- The first query and its comparison with (agent_id, team_id).
unfoldable pub is_mapped : ℕ → ℕ → String → String → String → List AgentMapping → Bool
is_mapped org integration ref agent team [] = false
is_mapped org integration ref agent team (m ∷ ms) =
    let rest = is_mapped org integration ref agent team ms in
    if m.organisation_id == org
      && m.integration_id == integration
      && m.is_active
      && m.agent_ref =? ref
    then m.agent_id =? agent && m.team_id =? team
    else rest

-- The second query is exactly [(team_id,)].
unfoldable pub is_sole_member : ℕ → String → String → List Membership → Bool
is_sole_member org user team ms =
    elim (select
      (λ m. m.organisation_id == org && m.user_id =? user && m.role =? "AGENT" && m.is_active) ms) [
        | [] ↦ false
        | m ∷ [] ↦ m.team_id =? team
        | m ∷ n ∷ rest ↦ false
      ]

-- 'exotel:'||call_key
abbrev external_ref_of : String → String
external_ref_of key = join_text "exotel:" key

unfoldable pub is_tombstoned : ℕ → String → List Call → Bool
is_tombstoned org key calls =
    any
      (λ c.
        c.organisation_id == org
        && c.external_ref =? external_ref_of key
        && is_some c.tombstoned_at)
      calls

abbrev pub first_generation : ℕ → ℕ → String → String → String → ℕ → LiveSession
first_generation org integration key agent team now = record {
  organisation_id = org;
  integration_id = integration;
  call_key = key;
  generation = 1;
  state = live;
  agent_id = some agent;
  team_id = some team;
  draining_at = none;
  ended_at = none;
  incomplete_at = none;
  updated_at = now;
  last_activity_at = now;
  call_content_purged_at = none;
}

-- DO UPDATE SET generation=generation+1,state='LIVE',…
abbrev pub next_generation : String → String → ℕ → LiveSession → LiveSession
next_generation agent team now r = record r {
  generation = r.generation + 1;
  state = live;
  agent_id = some agent;
  team_id = some team;
  draining_at = none;
  ended_at = none;
  incomplete_at = none;
  updated_at = now;
  last_activity_at = now;
}

abbrev pub update_where :
    (LiveSession → Bool) → (LiveSession → LiveSession) → LiveTables → LiveTables
update_where p f t = record t { sessions = map (λ r. if p r then f r else r) t.sessions }

-- The INSERT … ON CONFLICT, and the row that it returns.
unfoldable pub upsert_session :
    ℕ → ℕ → String → String → String → ℕ → LiveTables → Outcome LiveError (ℕ × LiveTables)
upsert_session org integration key agent team now t =
    elim (find_session org integration key t.sessions) [
      | none ↦ ok (
        1,
        record t {
          sessions = t.sessions ++ first_generation org integration key agent team now ∷ [];
        },
      )
      | some r ↦
          if is_some r.call_content_purged_at
          then raise identity_purged
          else ok (
            r.generation + 1,
            update_where (has_key org integration key) (next_generation agent team now) t,
          )
    ]

unfoldable pub activate_exotel_session :
    ℕ → ℕ → String → String → String → String → ℕ → LiveTables → Outcome LiveError (ℕ × LiveTables)
activate_exotel_session org integration key ref agent team now t = do
  raise_if
      (not (is_mapped org integration ref agent team t.mappings)
        || not (is_sole_member org agent team t.memberships))
      mapping_inactive
  raise_if (is_tombstoned org key t.calls) identity_purged
  upsert_session org integration key agent team now t

-- allowed_from[to], as a test of the present state.
unfoldable pub allowed_from : SessionState → SessionState → Bool
allowed_from live live = true
allowed_from draining live = true
allowed_from ended draining = true
allowed_from incomplete live = true
allowed_from incomplete draining = true
allowed_from _ _ = false

-- SET state=…,updated_at=now(), with the state's time and the activity's.
unfoldable pub set_state : SessionState → ℕ → LiveSession → LiveSession
set_state live now r = record r { state = live; updated_at = now; last_activity_at = now }
set_state draining now r = record r { state = draining; updated_at = now; draining_at = some now }
set_state ended now r = record r { state = ended; updated_at = now; ended_at = some now }
set_state incomplete now r = record r {
  state = incomplete;
  updated_at = now;
  incomplete_at = some now;
}
set_state unknown now r = r

abbrev pub is_live : SessionState → Bool
is_live live = true
is_live _ = false

abbrev pub is_unknown : SessionState → Bool
is_unknown unknown = true
is_unknown _ = false

abbrev pub updates_row : ℕ → ℕ → String → ℕ → SessionState → LiveSession → Bool
updates_row org integration key generation state r =
    has_key org integration key r && r.generation == generation && allowed_from state r.state

-- `activity` is true exactly for LIVE, or the call raises.
unfoldable pub update_exotel_session :
    ℕ
    → ℕ
    → String
    → ℕ
    → SessionState
    → Bool
    → ℕ
    → LiveTables
    → Outcome LiveError (Bool × LiveTables)
update_exotel_session org integration key generation state activity now t = do
  raise_if (is_unknown state) invalid_state
  raise_if (is_live state && not activity || not (is_live state) && activity) reserved_live
  ok (
    any (updates_row org integration key generation state) t.sessions,
    update_where (updates_row org integration key generation state) (set_state state now) t,
  )

-- 90 seconds without activity, or a drain of 2 hours and 1 minute.
unfoldable pub is_stale : ℕ → ℕ → LiveSession → Bool
is_stale org now r = r.organisation_id == org && elim r.state [
  | live ↦ ltb (r.last_activity_at + 90) now
  | draining ↦ elim r.draining_at [ none ↦ false | some t ↦ ltb (t + 7260) now ]
  | _ ↦ false
]

abbrev pub least_recent : LiveSession → LiveSession → Bool
least_recent a b = leb a.updated_at b.updated_at

-- `locked` are the rows that other transactions hold (SKIP LOCKED); the update joins by the key.
unfoldable pub recover_stale_exotel_sessions :
    (LiveSession → Bool) → ℕ → ℕ → LiveTables → LiveTables
recover_stale_exotel_sessions locked org now t =
    let stale =
      take 200
        (sort_by least_recent (select (λ r. is_stale org now r && not (locked r)) t.sessions)) in
    update_where (λ r. any (λ s. has_key s.organisation_id s.integration_id s.call_key r) stale)
      (set_state incomplete now) t
