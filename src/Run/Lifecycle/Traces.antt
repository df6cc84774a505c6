-- ===== src/Run/Lifecycle/Traces.antt =====
-- The writes of lib/services/run.service.ts to the runs, one after another in any order.
use pagespeed_auditor.Prelude.{ℕ, String, ◌≡◌, false, Option, List, [], ◌∷◌, All, or_else}
use pagespeed_auditor.Domain.{RunStatus, running, RunError, Run}
use pagespeed_auditor.Run.Lifecycle.{
  is_terminal, NewRun, create_run, create_skipped_run, finalize_run, fail_run, RunControl,
  control_run,
}
use pagespeed_auditor.Run.Lifecycle.Settled.{
  IsSettled, table, create_run-IsSettled, create_skipped_run-IsSettled, finalize_run-IsSettled,
  fail_run-IsSettled, control_run-IsSettled,
}

-- A call of one of the operations, by a user, a schedule, or a workflow.
pub data Op : Type 0 where
  create : NewRun → Option RunStatus → (total_jobs : ℕ) → Op
  skip : NewRun → (reason : String) → Op
  finalize : (id : String) → Op
  fail : (id : String) → RunError → Op
  control : (id : String) → (batch_size : ℕ) → RunControl → Op

-- The runs after a call, with the key and the time that the database gives it.
unfoldable pub apply : (id : String) (now : ℕ) → Op → List Run → List Run
apply id now (create input status total_jobs) runs = create_run id now input status total_jobs runs
apply id now (skip input reason) runs = create_skipped_run id now input reason runs
apply id now (finalize run_id) runs = table runs (finalize_run now run_id runs)
apply id now (fail run_id message) runs = fail_run now run_id message runs
apply id now (control run_id batch_size action) runs =
    table runs (control_run now batch_size run_id action runs)

pub record Entry : Type 0 where
  pub id : String
  pub now : ℕ
  pub op : Op

unfoldable pub apply_all : List Entry → List Run → List Run
apply_all [] runs = runs
apply_all (e ∷ entries) runs = apply_all entries (apply e.id e.now e.op runs)

-- No run is created in a status that ends it, other than by a skip.
abbrev pub IsLive : Op → Type 0
IsLive (create input status total_jobs) = is_terminal (or_else status running) ≡ false
IsLive (skip input reason) = Unit
IsLive (finalize id) = Unit
IsLive (fail id message) = Unit
IsLive (control id batch_size action) = Unit

apply-IsSettled :
    (id : String) (now : ℕ) (op : Op) (runs : List Run)
    → IsLive op
    → All IsSettled runs
    → All IsSettled (apply id now op runs)
unfolding apply
apply-IsSettled id now (create input status total_jobs) runs live h =
    create_run-IsSettled id now input status total_jobs runs live h
apply-IsSettled id now (skip input reason) runs live h =
    create_skipped_run-IsSettled id now input reason runs h
apply-IsSettled id now (finalize run_id) runs live h = finalize_run-IsSettled now run_id runs h
apply-IsSettled id now (fail run_id message) runs live h =
    fail_run-IsSettled now run_id runs h message
apply-IsSettled id now (control run_id batch_size action) runs live h =
    control_run-IsSettled now batch_size run_id action runs h

-- Whatever runs are created, skipped, finalized, failed, paused, resumed and stopped, in any order:
-- a run has a time at which it finished if and only if its status is one that ends it, provided that
-- this held at first and that no run is created in such a status.
pub apply_all-IsSettled :
    (entries : List Entry) (runs : List Run)
    → All (λ e. IsLive e.op) entries
    → All IsSettled runs
    → All IsSettled (apply_all entries runs)
unfolding apply_all
apply_all-IsSettled [] runs live h = h
apply_all-IsSettled (e ∷ entries) runs live h =
    apply_all-IsSettled entries (apply e.id e.now e.op runs) live.1
      (apply-IsSettled e.id e.now e.op runs live.0 h)
