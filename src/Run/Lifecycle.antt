-- ===== src/Run/Lifecycle.antt =====
-- The writes of lib/services/run.service.ts that move one run through its life: createRun,
-- createSkippedRun, finalizeRun, failRun, controlRun, findActiveRun, and the job counts of
-- lib/workflows/runControl.ts that controlRun reads. A new run's key, and the time that the
-- database or `new Date()` gives, are arguments.

pub mod Settled
pub mod Control
pub mod Traces
use pagespeed_auditor.Prelude.{
  ℕ, ◌+◌, ◌-◌, min, String, Bool, true, false, ◌&&◌, Option, none, some, List, [], ◌∷◌, ◌++◌, ltb,
  leb, if◌then◌else◌, same, keep, update_where, or_else,
}
use pagespeed_auditor.Domain.{
  RunStatus, queued, running, paused, completed, failed, cancelled, skipped, RunType, Trigger,
  RunScope, RunError, nothing_measured, stopped, Run,
}
use pagespeed_auditor.Tables.{find_run, update_run}
use pagespeed_auditor.Run.Scope.{format_scope_label}

pub data Failure : Type 0 where
  not_found : String → Failure
  nothing_to_pause : RunStatus → Failure
  not_paused : RunStatus → Failure
  already_finished : RunStatus → Failure

pub data Outcome (A : Type 0) : Type 0 where
  ok : A → Outcome A
  err : Failure → Outcome A

abbrev pub is_ok : {A : Type 0} → Outcome A → Bool
is_ok (ok a) = true
is_ok (err f) = false

abbrev pub is_terminal : RunStatus → Bool
is_terminal completed = true
is_terminal failed = true
is_terminal skipped = true
is_terminal cancelled = true
is_terminal _ = false

-- `PAUSABLE`, and the runs that failRun and reconcileStaleRuns look for
abbrev pub is_open : RunStatus → Bool
is_open queued = true
is_open running = true
is_open _ = false

abbrev pub is_paused : RunStatus → Bool
is_paused paused = true
is_paused _ = false

-- What findActiveRun counts as active.
abbrev pub is_active : RunStatus → Bool
is_active queued = true
is_active running = true
is_active paused = true
is_active _ = false

-- The first of the runs that started last.
unfoldable pub newest : Option Run → List Run → Option Run
newest best [] = best
newest none (r ∷ rs) = newest (some r) rs
newest (some b) (r ∷ rs) = newest (some (if ltb b.started_at r.started_at then r else b)) rs

unfoldable pub find_active_run : String → List Run → Option Run
unfolding newest
find_active_run site_id runs =
    newest none (keep (λ (r : Run). same r.site_id site_id && is_active r.status) runs)

pub record NewRun : Type 0 where
  pub site_id : String
  pub type : RunType
  pub triggered_by : Trigger
  pub scope : RunScope

-- A run of `createRun`, with no job counted yet; the other columns have the table's defaults.
abbrev fresh : (id : String) (now : ℕ) → NewRun → RunStatus → ℕ → Run
fresh id now input status total_jobs = record {
  id = id;
  site_id = input.site_id;
  type = input.type;
  triggered_by = input.triggered_by;
  status = status;
  scope_label = some (format_scope_label input.scope);
  skip_reason = none;
  started_at = now;
  finished_at = none;
  completed_at = none;
  total_jobs = total_jobs;
  completed_jobs = 0;
  failed_jobs = 0;
  error = none;
}

unfoldable pub create_run :
    (id : String) (now : ℕ) → NewRun → Option RunStatus → (total_jobs : ℕ) → List Run → List Run
create_run id now input status total_jobs runs =
    runs ++ fresh id now input (or_else status running) total_jobs ∷ []

unfoldable pub create_skipped_run :
    (id : String) (now : ℕ) → NewRun → (reason : String) → List Run → List Run
create_skipped_run id now input reason runs =
    runs
    ++ record (fresh id now input skipped 0) {
      skip_reason = some reason;
      finished_at = some now;
      completed_at = some now;
    }
      ∷ []

abbrev pub nothing_succeeded : Run → Bool
nothing_succeeded r = ltb 0 r.total_jobs && leb r.total_jobs r.failed_jobs

-- What finalizeRun writes.
abbrev pub finalized : ℕ → Run → Run
finalized now r = record r {
  status = if nothing_succeeded r then failed else completed;
  finished_at = some now;
  completed_at = some now;
  error = if nothing_succeeded r then some nothing_measured else none;
}

abbrev pub finalize_found :
    (now : ℕ) → String → List Run → Option Run → Outcome (RunStatus × List Run)
finalize_found now id runs none = err (not_found id)
finalize_found now id runs (some r) =
    if is_terminal r.status
    then ok (r.status, runs)
    else ok (if nothing_succeeded r then failed else completed, update_run id (finalized now) runs)

unfoldable pub finalize_run : (now : ℕ) → String → List Run → Outcome (RunStatus × List Run)
finalize_run now id runs = finalize_found now id runs (find_run id runs)

abbrev pub is_open_run : String → Run → Bool
is_open_run id r = same r.id id && is_open r.status

-- What failRun writes.
abbrev pub broken : ℕ → RunError → Run → Run
broken now message r = record r {
  status = failed;
  error = some message;
  finished_at = some now;
  completed_at = some now;
}

unfoldable pub fail_run : (now : ℕ) → String → RunError → List Run → List Run
fail_run now id message runs = update_where (is_open_run id) (broken now message) runs

pub data RunControl : Type 0 where
  pause resume stop : RunControl

pub record RunControlResult : Type 0 where
  pub status : RunStatus
  pub pending : ℕ
  pub in_flight : ℕ

-- `remaining` of runControl.ts; the run is there, as controlRun has found it.
abbrev pub remaining : Run → ℕ
remaining r = r.total_jobs - r.completed_jobs

abbrev pub get_active_count : (batch_size : ℕ) → Run → ℕ
get_active_count batch_size r = min batch_size (remaining r)

abbrev pub get_waiting_count : (batch_size : ℕ) → Run → ℕ
get_waiting_count batch_size r = remaining r - batch_size

abbrev pub get_delayed_count : ℕ
get_delayed_count = 0

-- The three guards of controlRun, in order.
abbrev pub check_control : RunControl → RunStatus → Option Failure
check_control pause s = if is_open s then none else some (nothing_to_pause s)
check_control resume s = if is_paused s then none else some (not_paused s)
check_control stop s = if is_active s then none else some (already_finished s)

-- What controlRun writes for each action.
abbrev pub controlled : (now : ℕ) → RunControl → Run → Run
controlled now pause r = record r { status = paused }
controlled now resume r = record r { status = running }
controlled now stop r = record r {
  status = cancelled;
  finished_at = some now;
  error = some (stopped r.completed_jobs r.total_jobs);
}

abbrev pub next_status : RunControl → RunStatus
next_status pause = paused
next_status resume = running
next_status stop = cancelled

abbrev pub control_checked :
    (now batch_size : ℕ)
    → String
    → RunControl
    → List Run
    → Run
    → Option Failure
    → Outcome (RunControlResult × List Run)
control_checked now batch_size id action runs r (some refused) = err refused
control_checked now batch_size id action runs r none = ok (
  record {
    status = next_status action;
    pending = get_waiting_count batch_size r + get_delayed_count;
    in_flight = get_active_count batch_size r;
  },
  update_run id (controlled now action) runs,
)

abbrev pub control_found :
    (now batch_size : ℕ)
    → String
    → RunControl
    → List Run
    → Option Run
    → Outcome (RunControlResult × List Run)
control_found now batch_size id action runs none = err (not_found id)
control_found now batch_size id action runs (some r) =
    control_checked now batch_size id action runs r (check_control action r.status)

unfoldable pub control_run :
    (now batch_size : ℕ) → String → RunControl → List Run → Outcome (RunControlResult × List Run)
control_run now batch_size id action runs =
    control_found now batch_size id action runs (find_run id runs)
