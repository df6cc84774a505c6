-- ===== src/Tests/People.antt =====
-- The theorems on what people do: log in, take the tour, edit the groups and the members, pick a
-- schedule, and list pages.
use Prim.Native.String
use pagespeed_auditor.Prelude.{
  ◌<◌, same_iff, ◌-◌, min, ◌≡◌, refl, true, false, none, some, List, [], ◌∷◌, arith, In, includes,
  inl, count_by,
}
use pagespeed_auditor.Roles.{
  viewer, editor, admin, can, reports_read, TourStep, remaining_tour_steps,
}
use pagespeed_auditor.Roles.Tour.{can_mono, remaining_tour_steps_mono}
use pagespeed_auditor.Members.{Membership, Caller, change_role, remove_member}
use pagespeed_auditor.Members.Admins.{admins, admins_stay}
use pagespeed_auditor.Cron.{ScheduleChoice, weekly, choice_to_cron, cron_to_choice}
use pagespeed_auditor.Cron.Picker.{reopened, cron_to_choice-choice_to_cron}
use pagespeed_auditor.Sitemap.Slug.{Texts}
use pagespeed_auditor.Login.{Window, lookup_window}
use pagespeed_auditor.Login.Windows.{Call, allowed, is_from, allowed-exact}
use pagespeed_auditor.Groups.{rename_group, Merged, merge_groups, merge_sources}
use pagespeed_auditor.Groups.Aliases.{
  RenameOutcome, IsMerged, merge_groups-IsMerged, rename_group-resolves,
}
use pagespeed_auditor.Tests.{fresh_db, group_of}

can_mono_example : can admin reports_read ≡ true
unfolding can
can_mono_example = can_mono viewer admin reports_read (omega arith) refl

abbrev first_step : TourStep
first_step = record {
  id = "overview-sections";
  route = "/";
  target_selector = "section-grid";
  required_capability = none;
}

remaining_tour_steps_mono_example :
    In first_step (remaining_tour_steps editor ("overview-charts" ∷ []))
    × (includes ("overview-charts" ∷ []) "overview-sections" ≡ false)
unfolding remaining_tour_steps
remaining_tour_steps_mono_example =
    remaining_tour_steps_mono viewer editor ("overview-charts" ∷ []) first_step (omega arith)
      (inl refl)

abbrev windows : List Window
windows = record { key = "psa:login-attempts:1.2.3.4"; count = 9; reset_at = 900000 } ∷ []

abbrev attempts : List Call
attempts =
    record { time = 1000; ip = "1.2.3.4" }
    ∷ record { time = 2000; ip = "5.6.7.8" }
    ∷ record { time = 3000; ip = "1.2.3.4" }
    ∷ []

allowed-exact_example :
    allowed "1.2.3.4" attempts windows ≡ min (count_by (is_from "1.2.3.4") attempts) (10 - 9)
unfolding lookup_window
allowed-exact_example =
    allowed-exact "1.2.3.4" attempts windows refl (omega arith, (omega arith, (omega arith, tt)))

merge_groups-IsMerged_example :
    (m : Merged) × (merge_groups ("g1" ∷ "g2" ∷ []) "g2" fresh_db ≡ some m)
    × IsMerged (merge_sources ("g1" ∷ "g2" ∷ []) "g2") "g2" fresh_db m.db
merge_groups-IsMerged_example = merge_groups-IsMerged ("g1" ∷ "g2" ∷ []) "g2" fresh_db refl

rename_group-resolves_example :
    RenameOutcome
      (group_of "g1" "blog")
      "Articles"
      "articles"
      fresh_db
      (rename_group "g1" "Articles" (some "articles") fresh_db)
rename_group-resolves_example =
    rename_group-resolves "g1" "Articles" "articles" fresh_db (group_of "g1" "blog") refl
      (λ e. ground (arith, same_iff "articles" "", e))
      (λ e. ground (arith, same_iff "articles" "blog", e))

-- One admin, who tries to take the role from herself.
abbrev members : List Membership
members =
    record { user_id = "u1"; organization_id = "o1"; role = "admin" }
    ∷ record { user_id = "u2"; organization_id = "o1"; role = "viewer" }
    ∷ []

abbrev caller : Caller
caller = record { user_id = "u1"; organization_id = "o1"; role = admin }

admins_stay_example :
    (0 < admins "o1" (change_role caller "u1" "viewer" members).memberships)
    × (0 < admins "o1" (remove_member caller "u1" members).memberships)
admins_stay_example = admins_stay caller "u1" "viewer" members (omega arith) (omega arith)

abbrev choice : ScheduleChoice
choice = record { frequency = weekly; hour = 1; minute = 25; weekday = 5; monthday = 28 }

cron_to_choice-choice_to_cron_example :
    cron_to_choice (λ s. none) (some (choice_to_cron choice)) ≡ some (reopened choice)
cron_to_choice-choice_to_cron_example =
    cron_to_choice-choice_to_cron (λ s. none) choice (omega arith) (omega arith) (omega arith)
      (omega arith)

-- Texts that are decoded to themselves, and in lower case already.
abbrev plain_texts : Texts
plain_texts = record { lower = λ s. s; upper = λ s. s; decode = λ s. some s }
