-- ===== src/Tests/Runs.antt =====
-- The theorems on runs and their workflows at concrete runs.
use mathlib.Core.List.Permᴰ
use pagespeed_auditor.Prelude.{
  ◌+◌, ◌≤◌, String, ◌≡◌, ◌≢◌, ◌↔◌, ◌⊎◌, refl, true, false, Option, none, some, List, [], ◌∷◌, map,
  arith, length, All, In, count_by, min, max, same, same_iff,
}
use pagespeed_auditor.Domain.{
  Strategy, mobile, desktop, RunStatus, running, paused, manual, Run, AuditPair, nothing_measured,
  is_error,
}
use pagespeed_auditor.Tables.{AuditResult, Tenant, find_run, update_run}
use pagespeed_auditor.Run.{diff_missing_pairs, should_finalize}
use pagespeed_auditor.Run.Missing.{In-diff_missing_pairs}
use pagespeed_auditor.Run.Lifecycle.{
  ok, is_ok, finalize_run, fail_run, pause, resume, stop, control_run, RunControlResult,
}
use pagespeed_auditor.Run.Lifecycle.Settled.{IsSettled}
use pagespeed_auditor.Run.Lifecycle.Control.{
  finalize_run_twice, Allows, IsControlled, control_run-IsControlled, control_run_accepted_iff,
  terminal_stays,
}
use pagespeed_auditor.Run.Lifecycle.Traces.{
  Entry, create, finalize, control, apply_all, apply_all-IsSettled,
}
use pagespeed_auditor.Run.Resume.{
  pair_of, resume_with, Faults, Reconciled, goes_on, reconcile_stale_runs,
}
use pagespeed_auditor.Run.Resume.Counters.{resume_accepted}
use pagespeed_auditor.Run.Resume.Reconcile.Loop.{
  DistinctIds, IsReconciled, reconcile_stale_runs_complete,
}
use pagespeed_auditor.Workflow.{audit_run_workflow, out_of_fuel, sweep_of}
use pagespeed_auditor.Workflow.Batches.{IsPrefixOf, IsPaced, audit_run_workflow_dispatches}
use pagespeed_auditor.Audit.{result_row}
use pagespeed_auditor.Tests.{
  open_run, stopped_run, two_runs, run_of, fresh_db, pair_at, failed_args, insertion_order,
}

abbrev both : List AuditPair
both = pair_at mobile ∷ pair_at desktop ∷ []

In-diff_missing_pairs_example :
    In (pair_at desktop) (diff_missing_pairs both (("p1", mobile) ∷ [])) ↔ (
      In (pair_at desktop) both
      × (¬ In {A = String × Strategy} ("p1", desktop) (("p1", mobile) ∷ [])))
In-diff_missing_pairs_example = In-diff_missing_pairs (pair_at desktop) both (("p1", mobile) ∷ [])

finalize_run_twice_example : finalize_run 9000 "r2" two_runs ≡ ok (stopped_run.status, two_runs)
unfolding finalize_run find_run
finalize_run_twice_example = finalize_run_twice 8000 9000 "r2" two_runs refl

terminal_stays_example :
    (finalize_run 9000 "r2" two_runs ≡ ok (stopped_run.status, two_runs))
    × (find_run "r2" (fail_run 9000 "r2" nothing_measured two_runs) ≡ some stopped_run)
    × (is_ok (control_run 9000 4 "r2" resume two_runs) ≡ false)
unfolding find_run
terminal_stays_example =
    terminal_stays 9000 4 "r2" nothing_measured resume two_runs stopped_run refl refl

abbrev pausing : RunControlResult
pausing = record { status = paused; pending = 1; in_flight = 1 }

control_run-IsControlled_example :
    IsControlled 1 "r1" pause open_run two_runs pausing
      (record open_run { status = paused } ∷ stopped_run ∷ [])
unfolding find_run control_run update_run
control_run-IsControlled_example =
    control_run-IsControlled 9000 1 "r1" pause two_runs open_run refl refl

control_run_accepted_iff_example :
    (is_ok (control_run 9000 1 "r2" stop two_runs) ≡ true) ↔ Allows stop stopped_run.status
unfolding find_run
control_run_accepted_iff_example =
    control_run_accepted_iff 9000 1 "r2" stop two_runs stopped_run refl

abbrev entries : List Entry
entries =
    record { id = "r3"; now = 3000; op = create (sweep_of "site" manual) none 2 }
    ∷ record { id = ""; now = 4000; op = control "r3" 4 pause }
    ∷ record { id = ""; now = 5000; op = finalize "r3" }
    ∷ []

apply_all-IsSettled_example : All IsSettled (apply_all entries two_runs)
apply_all-IsSettled_example =
    apply_all-IsSettled entries two_runs (refl, (tt, (tt, tt))) (refl, (refl, tt))

abbrev found_rows : List AuditResult
found_rows = result_row "a1" 2000 failed_args none ∷ []

resume_accepted_example :
    (after : Run) × (find_run "r1" (resume_with 9000 open_run both found_rows two_runs).runs
      ≡ some after)
    × ((resume_with 9000 open_run both found_rows two_runs).dispatched
        ≡ ("r1", diff_missing_pairs both (map pair_of found_rows)) ∷ [])
    × (length (diff_missing_pairs both (map pair_of found_rows)) ≤ open_run.total_jobs)
    × ((after.status ≡ running) × (after.finished_at ≡ none) × (after.error ≡ none))
    × (after.total_jobs ≡ min open_run.total_jobs (max (length both) (length found_rows)))
    × (after.completed_jobs ≡ length found_rows)
    × (after.failed_jobs ≡ count_by (λ (e : AuditResult). is_error e.status) found_rows)
    × (after.total_jobs
        ≤ after.completed_jobs + length (diff_missing_pairs both (map pair_of found_rows)))
    × ((after.total_jobs ≡ 0)
        ⊎ (should_finalize
              (after.completed_jobs + length (diff_missing_pairs both (map pair_of found_rows)))
              after.total_jobs
            ≡ true))
unfolding find_run
resume_accepted_example =
    resume_accepted 9000 open_run both found_rows two_runs refl (omega arith)
      (((λ e. ground (arith, e.1)), tt), (tt, tt))

abbrev small_run : Run
small_run = run_of "r1" running none 1 0

-- The dispatcher throws for one run, and nothing else does.
abbrev faults : Faults
faults = record { query = λ id. false; dispatch = λ id pairs. same id "r1"; fail_run = λ id. false }

abbrev boot_db : Tenant
boot_db = record fresh_db { runs = two_runs }

two_runs-DistinctIds : DistinctIds two_runs
two_runs-DistinctIds = (((λ e. ground (arith, same_iff "r1" "r2", e)), tt), (tt, tt))

reconcile_stale_runs_complete_example :
    (c : Reconciled) × (reconcile_stale_runs faults insertion_order (λ rs. rs) 9000 24 boot_db
      ≡ goes_on c)
    × All (IsReconciled faults 9000 24 c) boot_db.runs
reconcile_stale_runs_complete_example =
    reconcile_stale_runs_complete faults insertion_order (λ rs. rs) 9000 24 boot_db (λ id. refl)
      (λ xs. Permᴰ.refl xs) two_runs-DistinctIds

abbrev reads : List (Option RunStatus)
reads = some paused ∷ some running ∷ []

audit_run_workflow_dispatches_example :
    ((audit_run_workflow 1 both reads).ending ≢ out_of_fuel)
    × IsPrefixOf both (audit_run_workflow 1 both reads)
    × IsPaced 1 reads
        (audit_run_workflow 1 both reads).batches
        (audit_run_workflow 1 both reads).ending
audit_run_workflow_dispatches_example = audit_run_workflow_dispatches 1 both reads (omega arith)
