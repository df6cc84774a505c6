-- ===== src/Members.antt =====
-- app/actions/members.ts: changing the role of a member and removing one, with the guard
-- wouldOrphanOrganization of lib/services/account.service.ts. The texts of the answers are left out,
-- and the session of the caller is an argument.
pub mod Admins
use pagespeed_auditor.Prelude.{
  String, Bool, true, false, not, ◌&&◌, Option, none, some, List, if◌then◌else◌, same, keep, find,
  count_by, ltb, update_where,
}
use pagespeed_auditor.Roles.{Role, members_manage, can, is_role}

-- schema.prisma: Membership
pub record Membership : Type 0 where
  pub user_id : String
  pub organization_id : String
  pub role : String

-- `where: { organizationId, userId }`
abbrev pub is_membership : (user_id organization_id : String) → Membership → Bool
is_membership user_id organization_id m =
    same m.user_id user_id && same m.organization_id organization_id

abbrev pub is_admin_of : (organization_id : String) → Membership → Bool
is_admin_of organization_id m = same m.organization_id organization_id && same m.role "admin"

abbrev pub role_is_admin : Option Membership → Bool
role_is_admin none = false
role_is_admin (some m) = same m.role "admin"

unfoldable pub would_orphan_organization :
    (organization_id user_id : String) → List Membership → Bool
would_orphan_organization organization_id user_id memberships =
    if ltb 1 (count_by (is_admin_of organization_id) memberships)
    then false
    else role_is_admin (find (is_membership user_id organization_id) memberships)

-- The context of the session: who asks, for which organisation.
pub record Caller : Type 0 where
  pub user_id : String
  pub organization_id : String
  pub role : Role

pub record MemberResult : Type 0 where
  pub ok : Bool
  pub memberships : List Membership

abbrev pub denied : List Membership → MemberResult
denied ms = record { ok = false; memberships = ms }

abbrev pub with_role : String → Membership → Membership
with_role role m = record m { role = role }

unfoldable pub change_role : Caller → (user_id role : String) → List Membership → MemberResult
unfolding can is_role would_orphan_organization
change_role ctx user_id role ms =
    if not (can ctx.role members_manage)
    then denied ms
    else if not (is_role role)
    then denied ms
    else if not (same role "admin") && would_orphan_organization ctx.organization_id user_id ms
    then denied ms
    else record {
      ok = true;
      memberships = update_where (is_membership user_id ctx.organization_id) (with_role role) ms;
    }

unfoldable pub remove_member : Caller → (user_id : String) → List Membership → MemberResult
unfolding can would_orphan_organization
remove_member ctx user_id ms =
    if not (can ctx.role members_manage)
    then denied ms
    else if same user_id ctx.user_id
    then denied ms
    else if would_orphan_organization ctx.organization_id user_id ms
    then denied ms
    else record {
      ok = true;
      memberships = keep (λ (m : Membership). not (is_membership user_id ctx.organization_id m)) ms;
    }
