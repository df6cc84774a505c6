-- ===== src/Run/Lifecycle/Control.antt =====
-- finalizeRun twice, and what pause, resume and stop do to a run and to the others.
use pagespeed_auditor.Prelude.{
  ℕ, String, ◌≡◌, refl, true, false, Option, none, some, List, [], ◌∷◌, arith, Bool-cases, inl, inr,
  if◌then◌else◌, ◌⊎◌, ◌≢◌, ◌-◌, min, ◌↔◌,
}
use pagespeed_auditor.Domain.{RunStatus, queued, running, paused, completed, failed, RunError, Run}
use pagespeed_auditor.Tables.{find_run, update_run, find-update_self, find-update_other}
use pagespeed_auditor.Run.Lifecycle.{
  ok, Failure, is_terminal, is_open, finalized, finalize_found, finalize_run, fail_run, RunControl,
  RunControlResult, pause, resume, stop, check_control, controlled, control_checked, control_run,
  nothing_succeeded, next_status, is_ok,
}

module _ (now later : ℕ) (id : String) (runs : List Run) where
  finalize_found_twice :
      (o : Option Run) {s : RunStatus} {runs' : List Run}
      → find_run id runs ≡ o
      → finalize_found now id runs o ≡ ok (s, runs')
      → finalize_run later id runs' ≡ ok (s, runs')
  unfolding finalize_run
  finalize_found_twice none e h = cc
  finalize_found_twice (some r) {s} {runs'} e h = elim (Bool-cases (is_terminal r.status)) [
    | inl t ↦
        let status : r.status ≡ s = ground arith in
        let unchanged : runs ≡ runs' = ground arith in rw (← unchanged, e, t, status)
    | inr t ↦
        let status : (if nothing_succeeded r then failed else completed) ≡ s = ground arith in
        let changed : update_run id (finalized now) runs ≡ runs' = ground arith in
        rw (← changed, find-update_self id (finalized now) runs (λ q. refl) e) (ground arith)
  ]

  -- Finalizing is idempotent: when finalizeRun has returned a status, a second call, at any later
  -- time, returns the same status and changes no run.
  pub finalize_run_twice :
      {s : RunStatus} {runs' : List Run}
      → finalize_run now id runs ≡ ok (s, runs')
      → finalize_run later id runs' ≡ ok (s, runs')
  unfolding finalize_run
  finalize_run_twice h = finalize_found_twice (find_run id runs) refl h

-- The statuses from which each action is allowed.
abbrev pub Allows : RunControl → RunStatus → Type 0
Allows pause s = (s ≡ queued) ⊎ (s ≡ running)
Allows resume s = s ≡ paused
Allows stop s = ((s ≡ queued) ⊎ (s ≡ running)) ⊎ (s ≡ paused)

check_control-Allows :
    (action : RunControl) (s : RunStatus) → check_control action s ≡ none → Allows action s
check_control-Allows pause s h = ground arith
check_control-Allows resume s h = ground arith
check_control-Allows stop s h = ground arith

Allows-check_control :
    (action : RunControl) (s : RunStatus) → Allows action s → check_control action s ≡ none
Allows-check_control pause s h = ground arith
Allows-check_control resume s h = ground arith
Allows-check_control stop s h = ground arith

controlled-id : (now : ℕ) (action : RunControl) (r : Run) → (controlled now action r).id ≡ r.id
controlled-id now pause r = refl
controlled-id now resume r = refl
controlled-id now stop r = refl

controlled-status :
    (now : ℕ) (action : RunControl) (r : Run)
    → (controlled now action r).status ≡ next_status action
controlled-status now pause r = refl
controlled-status now resume r = refl
controlled-status now stop r = refl

controlled-counts :
    (now : ℕ) (action : RunControl) (r : Run)
    → ((controlled now action r).completed_jobs ≡ r.completed_jobs)
      × ((controlled now action r).total_jobs ≡ r.total_jobs)
      × ((controlled now action r).failed_jobs ≡ r.failed_jobs)
controlled-counts now pause r = (refl, refl, refl)
controlled-counts now resume r = (refl, refl, refl)
controlled-counts now stop r = (refl, refl, refl)

-- What an accepted action promises: it was allowed, the run then has the action's status and the
-- counts that it had, the answer counts the jobs that remain, and every other run is untouched.
pub record IsControlled (batch_size : ℕ) (id : String) (action : RunControl) (r : Run)
    (runs : List Run) (answer : RunControlResult) (runs' : List Run) : Type 0 where
  pub allowed : Allows action r.status
  pub after : Run
  pub found : find_run id runs' ≡ some after
  pub status : after.status ≡ next_status action
  pub counts :
      (after.completed_jobs ≡ r.completed_jobs)
      × (after.total_jobs ≡ r.total_jobs)
      × (after.failed_jobs ≡ r.failed_jobs)
  pub answered : answer.status ≡ next_status action
  pub jobs :
      (answer.pending ≡ r.total_jobs - r.completed_jobs - batch_size)
      × (answer.in_flight ≡ min batch_size (r.total_jobs - r.completed_jobs))
  pub others : (other : String) → id ≢ other → find_run other runs' ≡ find_run other runs

module _ (now batch_size : ℕ) (id : String) (action : RunControl) (runs : List Run) (r : Run) where
  control_checked-IsControlled :
      (f : Option Failure) {answer : RunControlResult} {runs' : List Run}
      → find_run id runs ≡ some r
      → check_control action r.status ≡ f
      → control_checked now batch_size id action runs r f ≡ ok (answer, runs')
      → IsControlled batch_size id action r runs answer runs'
  control_checked-IsControlled (some refused) e c h = cc
  control_checked-IsControlled none {answer} {runs'} e c h =
      let changed : update_run id (controlled now action) runs ≡ runs' = ground arith in
      record {
        allowed = check_control-Allows action r.status c;
        after = controlled now action r;
        found =
            rw (← changed)
              (find-update_self id (controlled now action) runs (controlled-id now action) e);
        status = controlled-status now action r;
        counts = controlled-counts now action r;
        answered = ground arith;
        jobs = (ground arith, ground arith);
        others = λ other ne.
            rw (← changed) (
              find-update_other id other (controlled now action) runs (controlled-id now action)
                ne);
      }

  -- A pause, resume or stop that succeeds was allowed in the run's status, moves the run to the
  -- status of the action with its total, completed and failed jobs kept, answers with the jobs that remain, and leaves every
  -- other run as it was.
  pub control_run-IsControlled :
      {answer : RunControlResult} {runs' : List Run}
      → find_run id runs ≡ some r
      → control_run now batch_size id action runs ≡ ok (answer, runs')
      → IsControlled batch_size id action r runs answer runs'
  unfolding control_run
  control_run-IsControlled e h =
      control_checked-IsControlled (check_control action r.status) e refl (rw e at h)

  control_checked-accepted :
      (f : Option Failure)
      → check_control action r.status ≡ f
      → (is_ok (control_checked now batch_size id action runs r f) ≡ true) ↔ Allows action r.status
  control_checked-accepted (some refused) e =
      ((λ h. cc), λ a. cc (e, Allows-check_control action r.status a))
  control_checked-accepted none e = ((λ h. check_control-Allows action r.status e), λ a. refl)

  -- An action on a run is accepted exactly when it is allowed in the run's status: a pause of a
  -- queued or running run, a resume of a paused one, a stop of any of the three.
  pub control_run_accepted_iff :
      find_run id runs ≡ some r
      → (is_ok (control_run now batch_size id action runs) ≡ true) ↔ Allows action r.status
  unfolding control_run
  control_run_accepted_iff e = rw e (control_checked-accepted (check_control action r.status) refl)

find-fail_run_terminal :
    (now : ℕ) (id : String) (message : RunError) (runs : List Run) (r : Run)
    → find_run id runs ≡ some r
    → is_open r.status ≡ false
    → find_run id (fail_run now id message runs) ≡ some r
unfolding find_run fail_run
find-fail_run_terminal now id message [] r e t = e
find-fail_run_terminal now id message (q ∷ runs) r e t =
    ground (arith, find-fail_run_terminal now id message runs r)

not-open_of_terminal : (s : RunStatus) → is_terminal s ≡ true → is_open s ≡ false
not-open_of_terminal s h = ground arith

not-Allows_of_terminal :
    (action : RunControl) (s : RunStatus) → is_terminal s ≡ true → ¬ Allows action s
not-Allows_of_terminal pause s h = ground arith
not-Allows_of_terminal resume s h = ground arith
not-Allows_of_terminal stop s h = ground arith

-- A run that has ended stays as it ended: finalizeRun answers its status and changes nothing,
-- failRun leaves it as it is, and no pause, resume or stop is accepted. So the jobs that are still
-- in flight after a stop cannot turn a cancelled run into a completed one.
pub terminal_stays :
    (now batch_size : ℕ) (id : String) (message : RunError) (action : RunControl) (runs : List Run)
    (r : Run)
    → find_run id runs ≡ some r
    → is_terminal r.status ≡ true
    → (finalize_run now id runs ≡ ok (r.status, runs))
      × (find_run id (fail_run now id message runs) ≡ some r)
      × (is_ok (control_run now batch_size id action runs) ≡ false)
unfolding finalize_run
terminal_stays now batch_size id message action runs r e t = (
  rw (e, t),
  find-fail_run_terminal now id message runs r e (not-open_of_terminal r.status t),
  elim (Bool-cases (is_ok (control_run now batch_size id action runs))) [
    | inl accepted ↦ absurd (
        not-Allows_of_terminal action r.status t
          ((control_run_accepted_iff now batch_size id action runs r e).0 accepted))
    | inr refused ↦ refused
  ],
)
