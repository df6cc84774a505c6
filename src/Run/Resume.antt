-- ===== src/Run/Resume.antt =====
-- resumeRun and reconcileStaleRuns of lib/services/run.service.ts. `dispatch` is the list of the
-- calls that are made of it: a run's key, with the pairs that its workflow is started with.
pub mod Counters
pub mod Reconcile
use pagespeed_auditor.Prelude.{
  ℕ, ◌+◌, min, max, String, Bool, true, false, ◌&&◌, Option, none, some, List, [], ◌∷◌, ◌++◌, map,
  ltb, length, keep, same, if◌then◌else◌, count_by,
}
use pagespeed_auditor.Domain.{
  Strategy, running, failed, abandoned, scope_grew, Run, AuditPair, is_error,
}
use pagespeed_auditor.Tables.{AuditResult, Tenant, find_run, update_run}
use pagespeed_auditor.Run.{diff_missing_pairs, is_stale}
use pagespeed_auditor.Run.Scope.{parse_scope_label}
use pagespeed_auditor.Run.Expand.{RowOrder, expand_scope}
use pagespeed_auditor.Run.Lifecycle.{is_open, fail_run}

pub record ResumeSummary : Type 0 where
  pub run_id : String
  pub expected : ℕ
  pub already_done : ℕ
  pub re_enqueued : ℕ
  pub finalized_immediately : Bool

abbrev pub Dispatches : Type 0
Dispatches = List (String × List AuditPair)

pub record Resumed : Type 0 where
  pub summary : ResumeSummary
  pub dispatched : Dispatches
  pub runs : List Run

-- The results that the run has.
abbrev pub results_of : String → List AuditResult → List AuditResult
results_of run_id results = keep (λ (r : AuditResult). same r.run_id run_id) results

abbrev pub pair_of : AuditResult → String × Strategy
pair_of r = (r.page_id, r.strategy)

-- What a refused resume writes: `completedAt` is left alone.
abbrev pub refused : (now expanded : ℕ) → Run → Run
refused now expanded r = record r {
  status = failed;
  error = some (scope_grew expanded r.total_jobs);
  finished_at = some now;
}

-- What an accepted resume writes: counters from the true row count.
abbrev pub reopened : (expected existing errors : ℕ) → Run → Run
reopened expected existing errors r = record r {
  status = running;
  completed_jobs = existing;
  failed_jobs = errors;
  total_jobs = min r.total_jobs (max expected existing);
  finished_at = none;
  completed_at = none;
  error = none;
}

abbrev is_empty : List AuditPair → Bool
is_empty [] = true
is_empty (_ ∷ _) = false

-- The body of resumeRun behind its queries.
unfoldable pub resume_with :
    (now : ℕ)
    → Run
    → (expected : List AuditPair) → (existing : List AuditResult) → List Run
    → Resumed
resume_with now r expected existing runs =
    let missing = diff_missing_pairs expected (map pair_of existing) in
    if ltb r.total_jobs (length expected)
    then record {
      summary = record {
        run_id = r.id;
        expected = r.total_jobs;
        already_done = length existing;
        re_enqueued = 0;
        finalized_immediately = false;
      };
      dispatched = [];
      runs = update_run r.id (refused now (length expected)) runs;
    }
    else record {
      summary = record {
        run_id = r.id;
        expected = length expected;
        already_done = length existing;
        re_enqueued = length missing;
        finalized_immediately = is_empty missing;
      };
      dispatched = (r.id, missing) ∷ [];
      runs =
          update_run r.id
            (reopened (length expected) (length existing)
              (count_by (λ (e : AuditResult). is_error e.status) existing))
            runs;
    }

-- What may throw around a run: a query of resumeRun, or its update, which then writes nothing; the
-- dispatcher, after the update; and the update of failRun.
pub record Faults : Type 0 where
  pub query : (run_id : String) → Bool
  pub dispatch : (run_id : String) → List AuditPair → Bool
  pub fail_run : (run_id : String) → Bool

-- resumeRun returns, or throws with the runs as it leaves them.
pub data ResumeOutcome : Type 0 where
  returns : Resumed → ResumeOutcome
  throws : List Run → ResumeOutcome

-- `await dispatch(runId, missing)`, unless the resume was refused before it.
abbrev pub dispatch_all : Faults → Resumed → Dispatches → ResumeOutcome
dispatch_all faults resumed [] = returns resumed
dispatch_all faults resumed (d ∷ _) =
    if faults.dispatch d.0 d.1 then throws resumed.runs else returns resumed

abbrev pub resume_found :
    Faults → RowOrder → (now : ℕ) → Tenant → String → Option Run → ResumeOutcome
resume_found faults order now db run_id none = throws db.runs
resume_found faults order now db run_id (some r) =
    let resumed =
      resume_with now r (expand_scope order db r.site_id (parse_scope_label r.scope_label))
        (results_of run_id db.results) db.runs in
    dispatch_all faults resumed resumed.dispatched

-- A run that is not there is a NotFoundError.
unfoldable pub resume_run : Faults → RowOrder → (now : ℕ) → Tenant → String → ResumeOutcome
unfolding resume_with
resume_run faults order now db run_id =
    if faults.query run_id
    then throws db.runs
    else resume_found faults order now db run_id (find_run run_id db.runs)

pub record ReconcileSummary : Type 0 where
  pub resumed : List String
  pub failed : List String

pub record Reconciled : Type 0 where
  pub summary : ReconcileSummary
  pub dispatched : Dispatches
  pub db : Tenant

abbrev pub add_failed : String → Reconciled → Reconciled
add_failed id c = record c { summary = record (c.summary) { failed = c.summary.failed ++ id ∷ [] } }

abbrev pub add_resumed : String → Resumed → Reconciled → Reconciled
add_resumed id r c = record {
  summary = record (c.summary) { resumed = c.summary.resumed ++ id ∷ [] };
  dispatched = c.dispatched ++ r.dispatched;
  db = record (c.db) { runs = r.runs };
}

-- The `try` around resumeRun, whose `catch` takes any throw.
abbrev pub adopt : Run → ResumeOutcome → Reconciled → Reconciled
adopt r (throws runs) c = add_failed r.id (record c { db = record (c.db) { runs = runs } })
adopt r (returns resumed) c = add_resumed r.id resumed c

-- The loop goes on, or is left by a throw of failRun, which stands outside the `try`.
pub data Reconciling : Type 0 where
  goes_on : Reconciled → Reconciling
  aborted : Reconciled → Reconciling

-- One round of the loop over the open runs.
unfoldable pub reconcile_one :
    Faults → RowOrder → (now stale_hours : ℕ) → Run → Reconciled → Reconciling
reconcile_one faults order now stale_hours r c =
    if is_stale r.started_at now stale_hours
    then (if faults.fail_run r.id
        then aborted c
        else goes_on (
            add_failed r.id (record c {
              db = record (c.db) { runs = fail_run now r.id (abandoned stale_hours) (c.db).runs };
            })))
    else goes_on (adopt r (resume_run faults order now c.db r.id) c)

abbrev pub and_then : (Reconciled → Reconciling) → Reconciling → Reconciling
and_then next (goes_on c) = next c
and_then next (aborted c) = aborted c

unfoldable pub reconcile_all :
    Faults → RowOrder → (now stale_hours : ℕ) → List Run → Reconciled → Reconciling
reconcile_all faults order now stale_hours [] c = goes_on c
reconcile_all faults order now stale_hours (r ∷ rs) c =
    and_then (reconcile_all faults order now stale_hours rs)
      (reconcile_one faults order now stale_hours r c)

-- The open runs, oldest first, by the database's order.
unfoldable pub reconcile_stale_runs :
    Faults
    → RowOrder
    → (oldest_first : List Run → List Run) → (now stale_hours : ℕ) → Tenant
    → Reconciling
unfolding reconcile_all
reconcile_stale_runs faults order oldest_first now stale_hours db =
    reconcile_all faults order now stale_hours
      (oldest_first (keep (λ (r : Run). is_open r.status) db.runs))
      (record { summary = record { resumed = []; failed = [] }; dispatched = []; db = db })
