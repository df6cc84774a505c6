-- ===== src/Roles/Tour.antt =====
-- The roles are ordered by what they may do (lib/auth/roles.ts), and so is what the tour shows them
-- (lib/onboarding/tourProgress.ts).
use pagespeed_auditor.Prelude.{
  ◌≤◌, String, ◌≡◌, refl, true, false, not, ◌&&◌, Option, none, some, List, arith, In, In-of_keep,
  In-keep, includes,
}
use pagespeed_auditor.Roles.{
  Role, Capability, can, rank, reaches, TourStep, tour_steps, remaining_tour_steps,
}

-- A role may do what every role below it in the order may do.
pub can_mono :
    (lower higher : Role) (c : Capability)
    → rank lower ≤ rank higher
    → can lower c ≡ true
    → can higher c ≡ true
unfolding can
can_mono lower higher c le h = ground arith

reaches_mono :
    (lower higher : Role) (o : Option Capability)
    → rank lower ≤ rank higher
    → reaches lower o ≡ true
    → reaches higher o ≡ true
reaches_mono lower higher none le h = refl
reaches_mono lower higher (some c) le h = can_mono lower higher c le h

-- A promotion takes no step of the tour away: a step that remains for a role, with the same steps
-- seen, remains for every higher role; and no step that was seen is ever shown again.
pub remaining_tour_steps_mono :
    (lower higher : Role) (seen : List String) (s : TourStep)
    → rank lower ≤ rank higher
    → In s (remaining_tour_steps lower seen)
    → In s (remaining_tour_steps higher seen) × (includes seen s.id ≡ false)
unfolding remaining_tour_steps
remaining_tour_steps_mono lower higher seen s le m =
    let shown = λ (role : Role) (t : TourStep).
      reaches role t.required_capability && not (includes seen t.id) in
    let found = In-of_keep (shown lower) s tour_steps m in
    (
      In-keep (shown higher) s tour_steps found.0
          (ground (arith, reaches_mono lower higher s.required_capability le, found.1)),
      ground (arith, found.1),
    )
