-- ===== src/Members/Admins.antt =====
-- The admins that changeRoleAction and removeMemberAction (app/actions/members.ts) leave.
use pagespeed_auditor.Prelude.{
  ℕ, suc, ◌+◌, ◌≤◌, ◌<◌, String, ◌≡◌, refl, Bool, true, false, not, ◌&&◌, List, [], ◌∷◌, arith, ltb,
  same, find, keep, update_where, count_by, Bool-cases, inl, inr,
}
use pagespeed_auditor.Roles.{members_manage, can, is_role}
use pagespeed_auditor.Members.{
  Membership, is_membership, is_admin_of, role_is_admin, would_orphan_organization, Caller,
  with_role, change_role, remove_member,
}

-- How many admins the organisation has.
abbrev pub admins : (organization_id : String) → List Membership → ℕ
admins organization_id ms =
    count_by (λ (m : Membership). same m.organization_id organization_id && same m.role "admin") ms

module _ (org user_id : String) where
  abbrev is_target : Membership → Bool
  is_target m = is_membership user_id org m

  abbrev is_target_admin : Membership → Bool
  is_target_admin m = is_target m && is_admin_of org m

  abbrev without : List Membership → List Membership
  without ms = keep (λ (m : Membership). not (is_target m)) ms

  admins-without :
      (ms : List Membership) → admins org (without ms) + count_by is_target_admin ms ≡ admins org ms
  admins-without [] = refl
  admins-without (m ∷ ms) = elim (Bool-cases (is_target m)) [
    | inl e ↦ rw e (ground (arith, admins-without ms))
    | inr e ↦ rw e (ground (arith, admins-without ms))
  ]

  count_by-target_admins :
      (ms : List Membership) → count_by is_target_admin ms ≤ count_by is_target ms
  count_by-target_admins [] = omega arith
  count_by-target_admins (m ∷ ms) = elim (Bool-cases (is_target m)) [
    | inl e ↦ rw e (ground (arith, count_by-target_admins ms))
    | inr e ↦ rw e (count_by-target_admins ms)
  ]

  -- The one membership of the user is no admin's.
  count_by-no_target :
      (ms : List Membership)
      → role_is_admin (find is_target ms) ≡ false
      → count_by is_target ms ≤ 1
      → count_by is_target_admin ms ≡ 0
  count_by-no_target [] h k = refl
  count_by-no_target (m ∷ ms) h k = elim (Bool-cases (is_target m)) [
    | inl e ↦
        let low : same m.role "admin" ≡ false = rw e at h in
        let alone : count_by is_target ms ≤ 0 =
          let l : suc (count_by is_target ms) ≤ 1 = rw e at k in omega arith in
        rw (e, low) (ground (arith, count_by-target_admins ms))
    | inr e ↦ rw e (count_by-no_target ms (rw e at h) (rw e at k))
  ]

  admins-update :
      (role : String) (ms : List Membership)
      → admins org (without ms) ≤ admins org (update_where is_target (with_role role) ms)
  admins-update role [] = omega arith
  admins-update role (m ∷ ms) = elim (Bool-cases (is_target m)) [
    | inl e ↦ rw e (ground (arith, admins-update role ms))
    | inr e ↦ rw e (ground (arith, admins-update role ms))
  ]

  -- With the guard, taking the user's membership away leaves an admin.
  one_stays :
      (ms : List Membership)
      → count_by is_target ms ≤ 1
      → 0 < admins org ms
      → would_orphan_organization org user_id ms ≡ false
      → 0 < admins org (without ms)
  unfolding would_orphan_organization
  one_stays ms k h g = elim (Bool-cases (ltb 1 (admins org ms))) [
    | inl e ↦
        let many : 1 < admins org ms = ground arith in
        omega (arith, admins-without ms, count_by-target_admins ms)
    | inr e ↦ omega (arith, admins-without ms, count_by-no_target ms (rw e at g) k)
  ]

  admins-promoted :
      (role : String) (ms : List Membership)
      → same role "admin" ≡ true
      → admins org ms ≤ admins org (update_where is_target (with_role role) ms)
  admins-promoted role [] a = omega arith
  admins-promoted role (m ∷ ms) a = elim (Bool-cases (is_target m)) [
    | inl e ↦
        let own : same m.organization_id org ≡ true = ground arith in
        rw (e, own, a) (ground (arith, admins-promoted role ms a))
    | inr e ↦ rw e (ground (arith, admins-promoted role ms a))
  ]

-- An organisation that has an admin keeps one, whoever changes a role or removes a member and
-- whatever the role is changed to: neither of the two leaves it without. The member has at most one
-- membership in the organisation.
pub admins_stay :
    (ctx : Caller) (user_id role : String) (ms : List Membership)
    → count_by (is_membership user_id ctx.organization_id) ms ≤ 1
    → 0 < admins ctx.organization_id ms
    → (0 < admins ctx.organization_id (change_role ctx user_id role ms).memberships)
      × (0 < admins ctx.organization_id (remove_member ctx user_id ms).memberships)
unfolding change_role remove_member
admins_stay ctx user_id role ms k h = (changed, removed)
  where
    org : String
    org = ctx.organization_id

    changed : 0 < admins org (change_role ctx user_id role ms).memberships
    changed = elim (Bool-cases (can ctx.role members_manage)) [
      | inr e ↦ rw e h
      | inl e ↦ elim (Bool-cases (is_role role)) [
        | inr r ↦ rw (e, r) h
        | inl r ↦ elim (Bool-cases (same role "admin")) [
          | inl a ↦ rw (e, r, a) (omega (arith, h, admins-promoted org user_id role ms a))
          | inr a ↦ elim (Bool-cases (would_orphan_organization org user_id ms)) [
            | inl g ↦ rw (e, r, a, g) h
            | inr g ↦
                rw (e, r, a, g)
                  (omega (arith, one_stays org user_id ms k h g, admins-update org user_id role ms))
          ]
        ]
      ]
    ]

    removed : 0 < admins org (remove_member ctx user_id ms).memberships
    removed = elim (Bool-cases (can ctx.role members_manage)) [
      | inr e ↦ rw e h
      | inl e ↦ elim (Bool-cases (same user_id ctx.user_id)) [
        | inl r ↦ rw (e, r) h
        | inr r ↦ elim (Bool-cases (would_orphan_organization org user_id ms)) [
          | inl g ↦ rw (e, r, g) h
          | inr g ↦ rw (e, r, g) (one_stays org user_id ms k h g)
        ]
      ]
    ]
