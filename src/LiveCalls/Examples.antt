-- ===== src/LiveCalls/Examples.antt =====
-- One agent's call, activated twice; an update for the first generation comes late.
use real_time_ai_call_audit.Prelude.{
  ◌≡◌, refl, Bool, true, false, List, [], ◌∷◌, arith, ◌=?◌, select, sort_by, insert_by,
}
use real_time_ai_call_audit.Store.{ok}
use real_time_ai_call_audit.LiveCalls.{
  draining, LiveSession, LiveTables, activate_exotel_session, update_exotel_session,
  first_generation, next_generation, has_key, find_session, upsert_session, is_mapped,
  is_sole_member, is_tombstoned, allowed_from, set_state, recover_stale_exotel_sessions, is_stale,
}
use real_time_ai_call_audit.LiveCalls.Keys.{Keyed}
use real_time_ai_call_audit.LiveCalls.Generations.{Forward}
use real_time_ai_call_audit.LiveCalls.Fencing.{
  Operation, updates, recovers, run_live, run_live-Forward, old_generation_fenced,
}

abbrev first : LiveSession
first = first_generation 1 2 "k" "agent" "team" 100

abbrev tables : LiveTables
tables = record {
  mappings =
      record {
        organisation_id = 1;
        integration_id = 2;
        agent_ref = "ref";
        is_active = true;
        agent_id = "agent";
        team_id = "team";
      }
      ∷ [];
  memberships =
      record {
        organisation_id = 1;
        user_id = "agent";
        role = "AGENT";
        team_id = "team";
        is_active = true;
      }
      ∷ [];
  calls = [];
  sessions = first ∷ [];
}

abbrev activated_again : LiveTables
activated_again = record tables { sessions = next_generation "agent" "team" 200 first ∷ [] }

tables-Keyed : Keyed tables.sessions
unfolding find_session has_key ◌=?◌
tables-Keyed = (refl, tt)

activated_twice :
    activate_exotel_session 1 2 "k" "ref" "agent" "team" 200 tables ≡ ok (2, activated_again)
unfolding activate_exotel_session upsert_session is_mapped is_sole_member is_tombstoned find_session
    has_key ◌=?◌ select
activated_twice = refl

abbrev operations : List Operation
operations = updates 1 2 "k" 2 draining false 300 ∷ recovers (λ r. false) 1 400 ∷ []

run_live-Forward_example : Forward tables.sessions (run_live tables operations).sessions
run_live-Forward_example = run_live-Forward tables operations tables-Keyed

late_update :
    update_exotel_session 1 2 "k" 1 draining false 500 (run_live activated_again operations)
    ≡ ok (false, run_live activated_again operations)
unfolding update_exotel_session run_live has_key ◌=?◌ allowed_from set_state
    recover_stale_exotel_sessions is_stale select sort_by insert_by
late_update = refl

abbrev unchanged : Bool × LiveTables
unchanged = (false, run_live activated_again operations)

old_generation_fenced_example : unchanged ≡ unchanged
old_generation_fenced_example =
    old_generation_fenced 1 2 "k" "ref" "agent" "team" 200 2 tables activated_again operations 1
      draining false 500 unchanged tables-Keyed activated_twice (omega arith) late_update
