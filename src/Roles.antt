-- ===== src/Roles.antt =====
-- lib/auth/roles.ts and lib/onboarding: what a role may do, and which steps of the tour it sees.
pub mod Tour
use pagespeed_auditor.Prelude.{
  ℕ, String, Bool, true, false, not, ◌&&◌, ◌||◌, Option, none, some, List, [], ◌∷◌, any, keep,
  includes, same,
}

pub data Role : Type 0 where
  viewer editor developer admin : Role

pub data Capability : Type 0 where
  reports_read audits_run recommendations_generate groups_manage developer_access site_manage :
      Capability
  members_manage automation_manage org_provision : Capability

abbrev pub roles : List String
roles = "viewer" ∷ "editor" ∷ "developer" ∷ "admin" ∷ []

-- `isRole`, of a value that is a text.
unfoldable pub is_role : String → Bool
is_role v = includes roles v

unfoldable pub capabilities : Role → List Capability
capabilities viewer = reports_read ∷ []
capabilities editor = reports_read ∷ audits_run ∷ recommendations_generate ∷ groups_manage ∷ []
capabilities developer =
    reports_read ∷ audits_run ∷ recommendations_generate ∷ groups_manage ∷ developer_access ∷ []
capabilities admin =
    reports_read ∷ audits_run ∷ recommendations_generate ∷ groups_manage ∷ developer_access
    ∷ site_manage ∷ members_manage ∷ automation_manage ∷ org_provision ∷ []

abbrev pub same_capability : Capability → Capability → Bool
same_capability reports_read reports_read = true
same_capability audits_run audits_run = true
same_capability recommendations_generate recommendations_generate = true
same_capability groups_manage groups_manage = true
same_capability developer_access developer_access = true
same_capability site_manage site_manage = true
same_capability members_manage members_manage = true
same_capability automation_manage automation_manage = true
same_capability org_provision org_provision = true
same_capability _ _ = false

unfoldable pub can : Role → Capability → Bool
unfolding capabilities
can role capability = any (same_capability capability) (capabilities role)

-- `ROLE_ORDER`: the place of a role, least privileged first.
abbrev pub rank : Role → ℕ
rank viewer = 0
rank editor = 1
rank developer = 2
rank admin = 3

-- tourSteps.ts, without the texts that the tour shows
pub record TourStep : Type 0 where
  pub id : String
  pub route : String
  pub target_selector : String
  pub required_capability : Option Capability

abbrev step : String → String → String → Option Capability → TourStep
step id route target required = record {
  id = id;
  route = route;
  target_selector = target;
  required_capability = required;
}

abbrev pub tour_steps : List TourStep
tour_steps =
    step "overview-sections" "/" "section-grid" none
    ∷ step "overview-charts" "/" "overview-charts" none
    ∷ step "group-run-audit" "/g/[slug]" "run-audit-button" (some audits_run)
    ∷ step "report-recommendation" "/p/[pageId]" "recommendation-panel"
        (some recommendations_generate)
    ∷ step "settings-team" "/settings/team" "invite-form" (some members_manage)
    ∷ step "settings-automation" "/settings/automation" "schedule-form" (some automation_manage)
    ∷ step "settings-database" "/settings/database" "neon-connection-form" (some org_provision)
    ∷ []

abbrev pub reaches : Role → Option Capability → Bool
reaches role none = true
reaches role (some c) = can role c

unfoldable pub remaining_tour_steps : Role → (seen : List String) → List TourStep
remaining_tour_steps role seen =
    keep (λ (s : TourStep). reaches role s.required_capability && not (includes seen s.id))
      tour_steps

unfoldable pub applicable_tour_steps : Role → List TourStep
applicable_tour_steps role = keep (λ (s : TourStep). reaches role s.required_capability) tour_steps
