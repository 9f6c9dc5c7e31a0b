-- ===== src/Domain/Roles.antt =====
-- src/common/auth/role-groups.ts and src/common/types/auth-user-context.type.ts: the user that a
-- request is authenticated as, and the groups of roles.
use nti_backend.Prelude.{
  ℕ, Bool, false, ◌&&◌, ◌||◌, Option, none, some, List, [], ◌∷◌, ◌++◌, ◌==◌, any, includes,
  option_beq, nat_eq,
}
use nti_backend.Domain.{UserRole, UserStatus, user_role_eq}

pub record AuthenticatedUserContext : Type 0 where
  pub id : ℕ
  pub role : UserRole
  pub status : UserStatus
  pub organization_id : Option ℕ

abbrev pub admin_roles : List UserRole
admin_roles = UserRole.admin ∷ UserRole.super_admin ∷ []

abbrev pub reviewer_roles : List UserRole
reviewer_roles = (UserRole.evaluator ∷ []) ++ admin_roles

abbrev pub company_roles : List UserRole
company_roles = UserRole.company_owner ∷ UserRole.company_employee ∷ []

abbrev pub is_admin_role : UserRole → Bool
is_admin_role role = includes admin_roles role

abbrev pub is_reviewer_role : UserRole → Bool
is_reviewer_role role = includes reviewer_roles role

abbrev pub is_company_role : UserRole → Bool
is_company_role role = includes company_roles role

-- The leader's id and the members' ids of a team, with the user asked about.
abbrev pub is_team_member : ℕ → List ℕ → ℕ → Bool
is_team_member leader_id members user_id = leader_id == user_id || any (λ m. m == user_id) members

abbrev pub is_same_org_company_member : AuthenticatedUserContext → Option ℕ → Bool
is_same_org_company_member user none = false
is_same_org_company_member user (some org) =
    is_company_role user.role && option_beq user.organization_id (some org)
