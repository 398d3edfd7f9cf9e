-- ===== src/Auth/Examples.antt =====
-- A team leader of two teams, with a membership that is no longer active.
use real_time_ai_call_audit.Prelude.{
  ◌≡◌, refl, String, true, false, none, some, List, [], ◌∷◌, select, ◌=?◌, one_of,
}
use real_time_ai_call_audit.Auth.{Scope}
use real_time_ai_call_audit.Auth.Identity.{
  IdentityMembership, is_membership, add_team, teams_of, scope_of_rows, resolve_identity_from_db,
  Backs, resolve_identity_from_db-Backs,
}

abbrev row : String → IdentityMembership
row team = record {
  organisation_id = 1;
  subject = "sub";
  user_id = "lead";
  role = "TEAM_LEADER";
  team_id = some team;
  is_active = true;
}

abbrev rows : List IdentityMembership
rows = row "a" ∷ row "b" ∷ record (row "c") { role = "ADMIN"; is_active = false } ∷ []

abbrev scope : Scope
scope = record {
  organisation_id = 1;
  user_id = "lead";
  role = "TEAM_LEADER";
  team_ids = "a" ∷ "b" ∷ [];
}

resolved : resolve_identity_from_db "sub" none rows ≡ some scope
unfolding resolve_identity_from_db scope_of_rows is_membership select teams_of add_team one_of ◌=?◌
resolved = refl

resolve_identity_from_db-Backs_example : Backs scope (select (is_membership "sub" none) rows)
resolve_identity_from_db-Backs_example =
    resolve_identity_from_db-Backs "sub" none rows scope resolved
