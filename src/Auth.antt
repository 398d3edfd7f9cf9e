-- ===== src/Auth.antt =====
-- app/auth.py: the scope of an authenticated user, and what it may see.
pub mod Identity
mod Examples
use real_time_ai_call_audit.Prelude.{
  ℕ, String, Bool, false, List, [], ◌∷◌, ◌==◌, ◌=?◌, one_of, if◌then◌else◌, not,
}

-- `team_ids` is a frozen set, held as a list of its members.
pub record Scope : Type 0 where
  pub organisation_id : ℕ
  pub user_id : String
  pub role : String
  pub team_ids : List String

abbrev pub supervisor_roles : List String
supervisor_roles = "QA_ANALYST" ∷ "COMPLIANCE_OFFICER" ∷ "ADMIN" ∷ []

unfoldable pub can_access : Scope → ℕ → String → String → Bool
can_access scope org agent team =
    if not (scope.organisation_id == org)
    then false
    else if scope.role =? "AGENT"
    then scope.user_id =? agent
    else if scope.role =? "TEAM_LEADER"
    then one_of team scope.team_ids
    else one_of scope.role supervisor_roles
