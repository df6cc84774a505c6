-- ===== src/Workflow.antt =====
-- lib/workflows: auditRunWorkflow and reconcileIfNeededStep of auditRun.ts, planAndStartSweep of
-- planSweep.ts. The statuses that the workflow reads at its boundaries are a list, which other
-- parts of the program, such as a stop in the dashboard, write; where it ends the workflow waits.
pub mod Batches
pub mod Sweep
use pagespeed_auditor.Prelude.{
  ℕ, zero, suc, String, Bool, true, false, Option, none, some, List, [], ◌∷◌, take, drop, length,
  if◌then◌else◌,
}
use pagespeed_auditor.Domain.{
  RunStatus, running, paused, Run, RunType, full_sweep, Trigger, site, RunScope, AuditPair,
}
use pagespeed_auditor.Tables.{Tenant, find_run}
use pagespeed_auditor.Run.Scope.{both_strategies}
use pagespeed_auditor.Run.Expand.{RowOrder, expand_scope}
use pagespeed_auditor.Run.Lifecycle.{
  is_open, find_active_run, NewRun, create_run, create_skipped_run, finalize_run, Outcome, ok, err,
}

-- How the workflow goes on after a read; a run that is not there has no status.
pub data Signal : Type 0 where
  go hold halt : Signal

abbrev pub signal : Option RunStatus → Signal
signal (some running) = go
signal (some paused) = hold
signal _ = halt

-- What comes of a wait at a boundary: the reads that are left, a halt, or more waiting.
pub data Boundary : Type 0 where
  passes : List (Option RunStatus) → Boundary
  halts : Boundary
  waits : Boundary

-- The read at the boundary, and the loop that reads on while the run is paused.
unfoldable pub at_boundary : List (Option RunStatus) → Boundary
at_boundary [] = waits
at_boundary (s ∷ reads) =
    let later = at_boundary reads in
    elim (signal s) [ go ↦ passes reads | hold ↦ later | halt ↦ halts ]

pub data Ending : Type 0 where
  reconciled stopped waiting out_of_fuel : Ending

pub record Trace : Type 0 where
  pub batches : List (List AuditPair)
  pub ending : Ending

abbrev pub only : Ending → Trace
only e = record { batches = []; ending = e }

abbrev pub with_batch : List AuditPair → Trace → Trace
with_batch b t = record { batches = b ∷ t.batches; ending = t.ending }

abbrev pub after_boundary : (List (Option RunStatus) → Trace) → Boundary → Trace
after_boundary next (passes rest) = next rest
after_boundary next halts = only stopped
after_boundary next waits = only waiting

-- The loop of auditRunWorkflow: the batches that it dispatches, and how it ends. The fuel bounds the
-- number of batches.
unfoldable pub run_batches :
    (fuel batch_size : ℕ) → List AuditPair → List (Option RunStatus) → Trace
run_batches zero batch_size pairs reads = only out_of_fuel
run_batches (suc fuel) batch_size [] reads = only reconciled
run_batches (suc fuel) batch_size (p ∷ pairs) reads =
    with_batch (take batch_size (p ∷ pairs)) (
      after_boundary (run_batches fuel batch_size (drop batch_size (p ∷ pairs)))
        (at_boundary reads))

-- One batch at most for each pair, and one round to see that nothing is left.
unfoldable pub audit_run_workflow :
    (batch_size : ℕ) → List AuditPair → List (Option RunStatus) → Trace
unfolding run_batches at_boundary
audit_run_workflow batch_size pairs reads = run_batches (suc (length pairs)) batch_size pairs reads

abbrev after_finalize : List Run → Outcome (RunStatus × List Run) → List Run
after_finalize runs (ok r) = r.1
after_finalize runs (err e) = runs

-- What the backstop does to the runs: an open run that nothing else finalized is finalized.
unfoldable pub reconcile_if_needed : (now : ℕ) → String → List Run → List Run
reconcile_if_needed now id runs = elim (find_run id runs) [
  | none ↦ runs
  | some r ↦ if is_open r.status then after_finalize runs (finalize_run now id runs) else runs
]

-- What the planner does: records that it skipped, finds nothing to do, or starts a run.
pub data Planned : Type 0 where
  skips : List Run → Planned
  nothing_to_do : Planned
  starts : String → List AuditPair → List Run → Planned

abbrev pub site_scope : RunScope
site_scope = record { kind = site; ref = none; strategies = both_strategies }

abbrev pub sweep_of : String → Trigger → NewRun
sweep_of site_id by = record {
  site_id = site_id;
  type = full_sweep;
  triggered_by = by;
  scope = site_scope;
}

abbrev pub start_sweep : (id : String) (now : ℕ) → NewRun → List Run → List AuditPair → Planned
start_sweep id now input runs [] = nothing_to_do
start_sweep id now input runs (p ∷ pairs) =
    starts id (p ∷ pairs) (create_run id now input none (length (p ∷ pairs)) runs)

abbrev pub plan_after :
    RowOrder → (id : String) (now : ℕ) → Tenant → NewRun → (reason : String) → Option Run → Planned
plan_after order id now db input reason (some active) =
    skips (create_skipped_run id now input reason db.runs)
plan_after order id now db input reason none =
    start_sweep id now input db.runs (expand_scope order db input.site_id site_scope)

-- The text of the reason names the run that is in the way, and is an argument.
unfoldable pub plan_and_start_sweep :
    RowOrder
    → (id : String) (now : ℕ) → Tenant
    → (site_id : String) → Trigger
    → (reason : String) → Planned
plan_and_start_sweep order id now db site_id by reason =
    plan_after order id now db (sweep_of site_id by) reason (find_active_run site_id db.runs)
