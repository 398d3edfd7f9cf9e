-- ===== src/Auth/Identity.antt =====
-- resolve_identity_from_db: the scope that the active memberships of a subject give, if they agree.
-- A failure of the store is left out; the order of the rows plays no part.
use real_time_ai_call_audit.Prelude.{
  ℕ, ◌≤◌, ◌≡◌, refl, ap, ◌∙◌, String, Bool, true, false, not, ◌&&◌, ◌||◌, Option, none, some, List,
  [], ◌∷◌, ◌==◌, if◌then◌else◌, arith, length, All, all, any, select, Bool-cases, Option-cases, inl,
  inr, ◌=?◌, one_of, eq_iff, subst,
}
use real_time_ai_call_audit.Auth.{Scope}

-- identity_memberships
pub record IdentityMembership : Type 0 where
  pub organisation_id : ℕ
  pub subject : String
  pub user_id : String
  pub role : String
  pub team_id : Option String
  pub is_active : Bool

abbrev in_organisation : Option ℕ → ℕ → Bool
in_organisation none org = true
in_organisation (some o) org = org == o

-- WHERE subject=… AND organisation_id=… AND is_active; the second only where one is given.
unfoldable pub is_membership : String → Option ℕ → IdentityMembership → Bool
is_membership subject org r =
    r.subject =? subject && in_organisation org r.organisation_id && r.is_active

unfoldable pub add_team : String → List String → List String
add_team t ts = if one_of t ts then ts else t ∷ ts

-- The frozen set of the teams.
unfoldable pub teams_of : List IdentityMembership → List String
teams_of [] = []
teams_of (r ∷ rs) = elim r.team_id [ none ↦ teams_of rs | some t ↦ add_team t (teams_of rs) ]

-- All rows have the first one's organisation, and its user and role.
abbrev agrees : IdentityMembership → IdentityMembership → Bool
agrees m r = r.organisation_id == m.organisation_id && r.user_id =? m.user_id && r.role =? m.role

abbrev scope_of : IdentityMembership → List String → Scope
scope_of m teams = record {
  organisation_id = m.organisation_id;
  user_id = m.user_id;
  role = m.role;
  team_ids = teams;
}

unfoldable pub scope_of_rows : List IdentityMembership → Option Scope
scope_of_rows [] = none
scope_of_rows (m ∷ ms) =
    if not (all (agrees m) ms)
    then none
    else if one_of m.role ("AGENT" ∷ "TEAM_LEADER" ∷ []) && (length (teams_of (m ∷ ms)) == 0)
    then none
    else if m.role =? "AGENT" && not (length (teams_of (m ∷ ms)) == 1)
    then none
    else some (scope_of m (teams_of (m ∷ ms)))

unfoldable pub resolve_identity_from_db : String → Option ℕ → List IdentityMembership → Option Scope
resolve_identity_from_db subject org rows = scope_of_rows (select (is_membership subject org) rows)

abbrev pub has_team : String → IdentityMembership → Bool
has_team t r = elim r.team_id [ none ↦ false | some u ↦ t =? u ]

one_of-add_team :
    (x t : String) (ts : List String) → one_of x (add_team t ts) ≡ (x =? t || one_of x ts)
unfolding add_team one_of
one_of-add_team x t ts = elim (Bool-cases (one_of t ts)) [
  | inl known ↦ elim (Bool-cases (x =? t)) [
    | inl same ↦
        let e : x ≡ t = (eq_iff x t).0 same in rw (known, same) (ap (λ y. one_of y ts) e ∙ known)
    | inr other ↦ rw (known, other) refl
  ]
  | inr new ↦ rw new refl
]

one_of-teams_of :
    (x : String) (rs : List IdentityMembership) → one_of x (teams_of rs) ≡ any (has_team x) rs
unfolding teams_of one_of
one_of-teams_of x [] = refl
one_of-teams_of x (r ∷ rs) =
    let rest = one_of-teams_of x rs in
    elim (Option-cases r.team_id) [
      | inl e ↦ rw e rest
      | inr (u, e) ↦ rw e (one_of-add_team x u (teams_of rs) ∙ ap (λ b. x =? u || b) rest)
    ]

-- A scope is backed by memberships, one at least, and by each of them.
abbrev pub Backs : Scope → List IdentityMembership → Type 0
Backs scope rs =
    (1 ≤ length rs)
    × All
        (λ r.
          (r.organisation_id ≡ scope.organisation_id)
          × (r.user_id ≡ scope.user_id)
          × (r.role ≡ scope.role))
        rs
    × ((t : String) → one_of t scope.team_ids ≡ any (has_team t) rs)
    × (scope.role ≡ "AGENT" → length scope.team_ids ≡ 1)
    × (scope.role ≡ "TEAM_LEADER" → 1 ≤ length scope.team_ids)

agreed :
    (m : IdentityMembership) (rs : List IdentityMembership)
    → all (agrees m) rs ≡ true
    → All
        (λ r. (r.organisation_id ≡ m.organisation_id) × (r.user_id ≡ m.user_id) × (r.role ≡ m.role))
        rs
agreed m [] h = tt
agreed m (r ∷ rs) h = (
  (
    ground arith,
    (eq_iff r.user_id m.user_id).0 (ground arith),
    (eq_iff r.role m.role).0 (ground arith),
  ),
  agreed m rs (ground arith),
)

some_team :
    (role : String) (n : ℕ)
    → role ≡ "TEAM_LEADER"
    → (one_of role ("AGENT" ∷ "TEAM_LEADER" ∷ []) && (n == 0)) ≡ false
    → 1 ≤ n
unfolding one_of
some_team role n e h =
    let is_leader : (role =? "TEAM_LEADER") ≡ true = (eq_iff role "TEAM_LEADER").1 e in ground arith

scope_of_rows-Backs :
    (rs : List IdentityMembership) (scope : Scope) → scope_of_rows rs ≡ some scope → Backs scope rs
unfolding scope_of_rows
scope_of_rows-Backs [] scope e = cc
scope_of_rows-Backs (m ∷ ms) scope e = elim (Bool-cases (all (agrees m) ms)) [
  | inr differ ↦ cc (rw (differ, scope_of_rows) at e)
  | inl same ↦
      elim (Bool-cases
        (one_of m.role ("AGENT" ∷ "TEAM_LEADER" ∷ []) && (length (teams_of (m ∷ ms)) == 0))) [
          | inl teamless ↦ cc (rw (same, teamless, scope_of_rows) at e)
          | inr teamed ↦
              elim (Bool-cases (m.role =? "AGENT" && not (length (teams_of (m ∷ ms)) == 1))) [
                | inl several ↦ cc (rw (same, teamed, several, scope_of_rows) at e)
                | inr fine ↦
                    let found : some (scope_of m (teams_of (m ∷ ms))) ≡ some scope =
                      rw (same, teamed, fine, scope_of_rows) at e in
                    subst (λ (s : Scope). Backs s (m ∷ ms)) (cc found)
                      (
                        omega arith,
                        ((refl, refl, refl), agreed m ms same),
                        λ t. one_of-teams_of t (m ∷ ms),
                        λ agent.
                            (let is_agent : (m.role =? "AGENT") ≡ true =
                                (eq_iff m.role "AGENT").1 agent in
                              ground arith),
                        λ leader. some_team m.role (length (teams_of (m ∷ ms))) leader teamed,
                      )
              ]
        ]
]

-- Where a scope is resolved, the subject has an active membership (in the organisation that is asked
-- for, if one is), all of them name the scope's organisation, user and role, the scope's teams are
-- exactly theirs, an agent has one team and a team leader at least one. So no authority is given that
-- a membership does not name.
pub resolve_identity_from_db-Backs :
    (subject : String) (org : Option ℕ) (rows : List IdentityMembership) (scope : Scope)
    → resolve_identity_from_db subject org rows ≡ some scope
    → Backs scope (select (is_membership subject org) rows)
unfolding resolve_identity_from_db
resolve_identity_from_db-Backs subject org rows scope e =
    scope_of_rows-Backs (select (is_membership subject org) rows) scope e
